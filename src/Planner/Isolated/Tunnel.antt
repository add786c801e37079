-- ===== src/Planner/Isolated/Tunnel.antt =====
-- `IsolatedAppTunnel` of internal/planner/isolated.go.
pub mod Steps
use big_red_button.Base.{
  ℕ, String, ◌<>◌, ◌==◌, true, not, List, [], ◌∷◌, ◌++◌, Result, ok, bind_result, if◌then◌else◌,
  length, show_ℕ, show_ℤ,
}
use big_red_button.Profile.{Config}
use big_red_button.Planner.{Step, Plan, blank_step, blank_plan, isolated_app_tunnel_kind}
use big_red_button.Planner.System.{prefixed, show_bool}
use big_red_button.Planner.Isolated.{IsolatedAppOptions, NormalizedOptions}
use big_red_button.Planner.Isolated.Identity.{
  has_identity, launch_identity_details, setpriv_prerequisite, env_prerequisite,
}
use big_red_button.Planner.Isolated.Network.{first_non_empty}
use big_red_button.Planner.Isolated.Normalize.{normalize_isolated_app_options, executable}

-- `appCommand[1:]`
abbrev pub arguments : List String → List String
arguments [] = []
arguments (_ ∷ args) = args

abbrev pub argument_count : NormalizedOptions → String
argument_count options = "argument_count=" <> show_ℕ (length (arguments options.app_command))

unfoldable pub validation_steps : Config → NormalizedOptions → List Step
validation_steps config options =
    record blank_step {
      id = "validate-profile";
      action = "Validate VPN profile for isolated app tunnel";
      details = "profile validation already completed by parser" ∷ ("profile=" <> config.name) ∷ [];
    }
    ∷ record blank_step {
      id = "validate-app-command";
      action = "Validate isolated app launch command";
      details =
          ("app_id=" <> options.app_id)
          ∷ ("executable=" <> executable options.app_command)
          ∷ argument_count options
          ∷ [];
    }
    ∷ record blank_step {
      id = "validate-linux-prerequisites";
      action = "Validate Linux isolated tunnel prerequisites";
      details =
          ("binary=ip" ∷ "binary=wg" ∷ "binary=nft" ∷ ("binary=" <> options.wstunnel_binary) ∷ [])
          ++ (setpriv_prerequisite options ++ env_prerequisite options);
    }
    ∷ record blank_step {
      id = "create-isolated-runtime-root";
      action = "Create isolated session runtime root";
      details =
          ("runtime_root=" <> options.runtime_root)
          ∷ ("session_runtime_root=" <> options.session_runtime_root)
          ∷ ("session_id=" <> options.session_id)
          ∷ [];
      rollback = "remove isolated session runtime files" ∷ [];
    }
    ∷ []

unfoldable pub host_steps : NormalizedOptions → List Step
host_steps options =
    record blank_step {
      id = "create-netns";
      action = "Create Linux network namespace for isolated app";
      details = ("namespace=" <> options.namespace) ∷ ("session_id=" <> options.session_id) ∷ [];
      requires_privilege = true;
      rollback = ("delete network namespace " <> options.namespace) ∷ [];
    }
    ∷ record blank_step {
      id = "create-veth-pair";
      action = "Create veth pair between host and isolated namespace";
      details =
          ("host_veth=" <> options.host_veth)
          ∷ ("namespace_veth=" <> options.namespace_veth)
          ∷ ("namespace=" <> options.namespace)
          ∷ [];
      requires_privilege = true;
      rollback = ("delete host veth " <> options.host_veth) ∷ [];
    }
    ∷ record blank_step {
      id = "configure-host-veth";
      action = "Configure host-side veth address for WSTunnel control path";
      details =
          ("host_veth=" <> options.host_veth)
          ∷ ("host_address=" <> options.host_address)
          ∷ ("host_gateway=" <> options.host_gateway)
          ∷ [];
      requires_privilege = true;
      rollback = ("bring down host veth " <> options.host_veth) ∷ [];
    }
    ∷ []

unfoldable pub namespace_steps : NormalizedOptions → List Step
namespace_steps options =
    record blank_step {
      id = "configure-namespace-veth";
      action = "Configure namespace-side veth address";
      details =
          ("namespace=" <> options.namespace)
          ∷ ("namespace_veth=" <> options.namespace_veth)
          ∷ ("namespace_address=" <> options.namespace_address)
          ∷ ("host_gateway=" <> options.host_gateway)
          ∷ [];
      requires_privilege = true;
      rollback = "namespace is deleted during rollback" ∷ [];
    }
    ∷ record blank_step {
      id = "configure-namespace-dns";
      action = "Write namespace-scoped DNS configuration";
      details = ("namespace=" <> options.namespace) ∷ prefixed "dns=" options.dns;
      requires_privilege = true;
      rollback = "remove namespace DNS configuration" ∷ [];
    }
    ∷ []

unfoldable pub control_step : Config → NormalizedOptions → Step
control_step config options = record blank_step {
  id = "start-wstunnel-control";
  action = "Start WSTunnel control process in host namespace";
  details =
      ("binary=" <> options.wstunnel_binary)
      ∷ ("target=" <> config.wstunnel_url)
      ∷ ("path_prefix=" <> config.wstunnel_path)
      ∷ ("tls_server_name=" <> first_non_empty (config.wstunnel_tls_name ∷ config.sni ∷ []))
      ∷ ("local_udp=" <> options.wstunnel_listen)
      ∷ ("wireguard_endpoint=" <> options.wireguard_endpoint)
      ∷ [];
  rollback = "stop WSTunnel control process" ∷ [];
}

-- The names of the namespace and of the interface in it.
abbrev pub interface_details : NormalizedOptions → List String → List String
interface_details options rest =
    ("namespace=" <> options.namespace) ∷ ("interface=" <> options.wireguard_interface) ∷ rest

abbrev pub interface_rollback : NormalizedOptions → List String
interface_rollback options =
    ("delete namespace WireGuard interface " <> options.wireguard_interface) ∷ []

unfoldable pub wireguard_steps : Config → NormalizedOptions → List Step
wireguard_steps config options =
    record blank_step {
      id = "create-wireguard-interface-in-netns";
      action = "Create WireGuard interface inside isolated namespace";
      details = interface_details options [];
      requires_privilege = true;
      rollback = interface_rollback options;
    }
    ∷ record blank_step {
      id = "apply-wireguard-addresses-in-netns";
      action = "Apply WireGuard addresses and MTU inside isolated namespace";
      details =
          interface_details options
            (("mtu=" <> show_ℤ config.mtu) ∷ prefixed "address=" config.addresses);
      requires_privilege = true;
      rollback = interface_rollback options;
    }
    ∷ record blank_step {
      id = "apply-wireguard-peer-in-netns";
      action = "Apply WireGuard peer with host-side WSTunnel endpoint";
      details = interface_details options (
          ("endpoint=" <> options.wireguard_endpoint)
          ∷ ("session_runtime_root=" <> options.session_runtime_root)
          ∷ ("persistent_keepalive=" <> show_ℤ config.persistent_keepalive)
          ∷ ("preshared_key=" <> show_bool (not (config.preshared_key == "")))
          ∷ []);
      requires_privilege = true;
      rollback = interface_rollback options;
    }
    ∷ record blank_step {
      id = "apply-namespace-client-routes";
      action = "Apply client routes inside isolated namespace";
      details = interface_details options (prefixed "allowed_ip=" config.allowed_ips);
      requires_privilege = true;
      rollback = "remove namespace client routes" ∷ [];
    }
    ∷ record blank_step {
      id = "apply-namespace-kill-switch";
      action = "Apply namespace-only fail-closed egress policy";
      details = interface_details options (
          ("namespace_veth=" <> options.namespace_veth)
          ∷ ("allowed_control_endpoint=" <> options.wireguard_endpoint)
          ∷ ("session_runtime_root=" <> options.session_runtime_root)
          ∷ []);
      requires_privilege = true;
      rollback = "remove namespace-only egress policy" ∷ [];
    }
    ∷ []

unfoldable pub launch_step : NormalizedOptions → Step
launch_step options = record blank_step {
  id = "launch-app-in-netns";
  action = "Launch selected app inside isolated namespace";
  details =
      (("namespace=" <> options.namespace)
        ∷ ("app_id=" <> options.app_id)
        ∷ ("executable=" <> executable options.app_command)
        ∷ argument_count options
        ∷ launch_identity_details options)
      ++ (prefixed "app_env=" options.launch_env
          ++ prefixed "app_arg=" (arguments options.app_command));
  requires_privilege = true;
  rollback = "stop isolated app process tree" ∷ [];
}

unfoldable pub session_steps : String → NormalizedOptions → List Step
session_steps fingerprint options =
    launch_step options
    ∷ record blank_step {
      id = "monitor-process-tree";
      action = "Track isolated app process tree for session cleanup";
      details =
          ("session_id=" <> options.session_id)
          ∷ ("app_id=" <> options.app_id)
          ∷ ("namespace=" <> options.namespace)
          ∷ [];
    }
    ∷ record blank_step {
      id = "store-isolated-runtime-state";
      action = "Store isolated session runtime state";
      details =
          ("runtime_root=" <> options.runtime_root)
          ∷ ("session_runtime_root=" <> options.session_runtime_root)
          ∷ ("fingerprint=" <> fingerprint)
          ∷ [];
      rollback = "clear isolated session runtime state" ∷ [];
    }
    ∷ []

-- The steps of a tunnel plan, in order.
unfoldable pub tunnel_steps : String → Config → NormalizedOptions → List Step
tunnel_steps fingerprint config options =
    validation_steps config options
    ++ (host_steps options
        ++ (namespace_steps options
            ++ (control_step config options
                ∷ (wireguard_steps config options ++ session_steps fingerprint options))))

unfoldable pub tunnel_warnings : NormalizedOptions → List String → List String
tunnel_warnings options warnings =
    warnings
    ++ ("isolated app tunnel keeps host default routes and host DNS unchanged"
        ∷ "first Linux implementation uses network namespaces and requires a privileged helper for apply mode"
        ∷ (if has_identity options
            then []
            else "app launch UID/GID were not provided; apply mode will run the app as the helper user"
              ∷ []))

-- The plan that `IsolatedAppTunnel` returns, of the fingerprint, the profile, the normalized options
-- and their warnings.
unfoldable pub tunnel_plan : String → Config → NormalizedOptions → List String → Plan
tunnel_plan fingerprint config options warnings = record blank_plan {
  kind = isolated_app_tunnel_kind;
  profile = config.name;
  profile_fingerprint = fingerprint;
  wstunnel_host = config.wstunnel_host;
  wstunnel_url = config.wstunnel_url;
  wireguard_interface = options.wireguard_interface;
  runtime_root = options.runtime_root;
  session_id = options.session_id;
  app_id = options.app_id;
  namespace = options.namespace;
  host_veth = options.host_veth;
  namespace_veth = options.namespace_veth;
  host_address = options.host_address;
  namespace_address = options.namespace_address;
  host_gateway = options.host_gateway;
  warnings = tunnel_warnings options warnings;
  steps = tunnel_steps fingerprint config options;
}

-- The profile's fingerprint and the digest behind the addresses are arguments.
unfoldable pub isolated_app_tunnel :
    (Config → String) → (String → ℕ → ℕ) → Config → IsolatedAppOptions → Result Plan
isolated_app_tunnel fingerprint sha256 config options =
    bind_result (normalize_isolated_app_options sha256 config options)
      λ (normalized, warnings). ok (tunnel_plan (fingerprint config) config normalized warnings)
