-- ===== src/Planner/Isolated/Normalize.antt =====
-- `normalizeIsolatedAppOptions` of internal/planner/isolated.go.
pub mod DefaultNames
use big_red_button.Base.{
  ℕ, String, ◌<>◌, starts_with, List, [], ◌∷◌, Result, ok, bind_result, if◌then◌else◌,
}
use big_red_button.Base.Net.{join_host_port}
use big_red_button.Base.Text.{trim_space}
use big_red_button.Profile.{Config}
use big_red_button.Planner.{
  default_wstunnel_binary, default_runtime_root, default_isolated_runtime_subdir,
}
use big_red_button.Planner.Normalize.{or_default}
use big_red_button.Planner.Isolated.{IsolatedAppOptions, NormalizedOptions}
use big_red_button.Planner.Isolated.Identity.{
  normalize_uuid, normalize_app_command, normalize_launch_identity, normalize_launch_env,
  short_session_id,
}
use big_red_button.Planner.Isolated.Network.{
  VethAddresses, first_non_empty, normalize_isolated_dns, normalize_veth_addresses, local_udp_port,
  validate_linux_namespace_name, validate_linux_interface_name,
}

-- What the first part of the function settles.
pub record Subject : Type 0 where
  pub session_id : String
  pub app_id : String
  pub app_command : List String
  pub dns : List String

-- The names of the session's interfaces and its namespace.
pub record Names : Type 0 where
  pub wireguard_interface : String
  pub namespace : String
  pub host_veth : String
  pub namespace_veth : String

-- The names of a session that gives none.
unfoldable pub default_names : String → Names
default_names short_id = record {
  wireguard_interface = "brbwg" <> short_id;
  namespace = "brb-" <> short_id;
  host_veth = "brbh" <> short_id;
  namespace_veth = "brbn" <> short_id;
}

unfoldable pub normalize_subject : Config → IsolatedAppOptions → Result Subject
normalize_subject config options =
    bind_result (normalize_uuid options.session_id "session ID") λ session_id.
      bind_result (normalize_uuid (or_default session_id (trim_space options.app_id)) "app ID")
        λ app_id. bind_result (normalize_app_command options.app_command) λ app_command.
          bind_result (normalize_isolated_dns options.dns config.dns) λ dns. ok (record {
            session_id = session_id;
            app_id = app_id;
            app_command = app_command;
            dns = dns;
          })

abbrev pub relative_warning : String
relative_warning =
    "app executable is not absolute; apply mode will resolve it through the helper environment"

-- `appCommand[0]` of a command, which is never empty.
abbrev pub executable : List String → String
executable [] = ""
executable (name ∷ _) = name

unfoldable pub executable_warnings : List String → List String
executable_warnings app_command =
    if starts_with (executable app_command) "/" then [] else relative_warning ∷ []

-- The given names or the default ones, before they are checked.
unfoldable pub given_names : IsolatedAppOptions → String → Names
given_names options short_id =
    let default = default_names short_id in
    record {
      wireguard_interface =
          or_default default.wireguard_interface (trim_space options.wireguard_interface);
      namespace = first_non_empty (options.namespace ∷ default.namespace ∷ []);
      host_veth = first_non_empty (options.host_veth ∷ default.host_veth ∷ []);
      namespace_veth = first_non_empty (options.namespace_veth ∷ default.namespace_veth ∷ []);
    }

unfoldable pub check_names : Names → Result Names
check_names names =
    bind_result (validate_linux_interface_name names.wireguard_interface "wireguard interface") λ _.
      bind_result (validate_linux_namespace_name names.namespace) λ _.
        bind_result (validate_linux_interface_name names.host_veth "host veth") λ _.
          bind_result (validate_linux_interface_name names.namespace_veth "namespace veth")
            λ _. ok names

-- The options out of their parts.
abbrev pub assemble :
    IsolatedAppOptions
    → Subject
    → VethAddresses
    → Names
    → String
    → String × String
    → List String
    → NormalizedOptions
assemble options subject veth names port (uid, gid) launch_env =
    let runtime_root = or_default default_runtime_root (trim_space options.runtime_root) in
    record {
      session_id = subject.session_id;
      app_id = subject.app_id;
      app_command = subject.app_command;
      dns = subject.dns;
      wstunnel_binary = or_default default_wstunnel_binary (trim_space options.wstunnel_binary);
      wireguard_interface = names.wireguard_interface;
      runtime_root = runtime_root;
      session_runtime_root =
          runtime_root <> ("/" <> (default_isolated_runtime_subdir <> ("/" <> subject.session_id)));
      namespace = names.namespace;
      host_veth = names.host_veth;
      namespace_veth = names.namespace_veth;
      host_address = veth.host_address;
      namespace_address = veth.namespace_address;
      host_gateway = veth.host_gateway;
      wstunnel_listen = join_host_port veth.host_gateway port;
      wireguard_endpoint = join_host_port veth.host_gateway port;
      launch_uid = uid;
      launch_gid = gid;
      launch_env = launch_env;
    }

-- The rest of the function.
unfoldable pub normalize_parts :
    (String → ℕ → ℕ) → Config → IsolatedAppOptions → Subject → Result NormalizedOptions
normalize_parts sha256 config options subject =
    bind_result
      (normalize_veth_addresses sha256
        (record {
          host_address = options.host_address;
          namespace_address = options.namespace_address;
          host_gateway = options.host_gateway;
        })
        subject.session_id)
      λ veth.
        bind_result (check_names (given_names options (short_session_id subject.session_id)))
          λ names. bind_result (local_udp_port config.local_udp_listen) λ port.
            bind_result (normalize_launch_identity options.launch_uid options.launch_gid)
              λ identity.
                bind_result (normalize_launch_env options.launch_env)
                  λ launch_env. ok (assemble options subject veth names port identity launch_env)

unfoldable pub normalize_isolated_app_options :
    (String → ℕ → ℕ) → Config → IsolatedAppOptions → Result (NormalizedOptions × List String)
normalize_isolated_app_options sha256 config options =
    bind_result (normalize_subject config options) λ subject.
      bind_result (normalize_parts sha256 config options subject)
        λ normalized. ok (normalized, executable_warnings subject.app_command)
