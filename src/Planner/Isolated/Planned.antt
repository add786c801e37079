-- ===== src/Planner/Isolated/Planned.antt =====
-- What a plan of `IsolatedAppTunnel` of internal/planner/isolated.go is made of.
use big_red_button.Base.{◌≡◌, ℕ, String, List, ok, bind_result-eq-ok}
use big_red_button.Base.Text.{trim_space}
use big_red_button.Profile.{Config}
use big_red_button.Planner.{Plan}
use big_red_button.Planner.Normalize.{or_default}
use big_red_button.Planner.Isolated.{IsolatedAppOptions, NormalizedOptions}
use big_red_button.Planner.Isolated.Identity.{
  short_session_id, normalize_uuid, normalize_app_command, normalize_launch_identity,
  normalize_launch_env,
}
use big_red_button.Planner.Isolated.Network.{
  VethAddresses, normalize_isolated_dns, normalize_veth_addresses, local_udp_port,
  validate_linux_interface_name, validate_linux_namespace_name,
}
use big_red_button.Planner.Isolated.Normalize.{
  Names, Subject, given_names, check_names, normalize_subject, normalize_parts,
  normalize_isolated_app_options, assemble, executable_warnings,
}
use big_red_button.Planner.Isolated.Tunnel.{isolated_app_tunnel, tunnel_plan}

check_names-eq-ok : (names out : Names) → check_names names ≡ ok out → names ≡ out
unfolding check_names
check_names-eq-ok names out h =
    let (_, _, h₁) =
      bind_result-eq-ok
        (validate_linux_interface_name names.wireguard_interface "wireguard interface") _ h in
    let (_, _, h₂) = bind_result-eq-ok (validate_linux_namespace_name names.namespace) _ h₁ in
    let (_, _, h₃) =
      bind_result-eq-ok (validate_linux_interface_name names.host_veth "host veth") _ h₂ in
    let (_, _, h₄) =
      bind_result-eq-ok (validate_linux_interface_name names.namespace_veth "namespace veth") _
        h₃ in
    cc

module _ (config : Config) (options : IsolatedAppOptions) where
  -- What the first part of the normalization has accepted.
  pub record Settled (subject : Subject) : Type 0 where
    pub session : normalize_uuid options.session_id "session ID" ≡ ok subject.session_id
    pub app :
        normalize_uuid (or_default subject.session_id (trim_space options.app_id)) "app ID"
        ≡ ok subject.app_id
    pub command : normalize_app_command options.app_command ≡ ok subject.app_command
    pub servers : normalize_isolated_dns options.dns config.dns ≡ ok subject.dns

  normalize_subject-Settled :
      (subject : Subject) → normalize_subject config options ≡ ok subject → Settled subject
  unfolding normalize_subject
  normalize_subject-Settled subject h =
      let (id, session, h₁) =
        bind_result-eq-ok (normalize_uuid options.session_id "session ID") _ h in
      let (app_id, app, h₂) =
        bind_result-eq-ok (normalize_uuid (or_default id (trim_space options.app_id)) "app ID") _
          h₁ in
      let (command, commanded, h₃) =
        bind_result-eq-ok (normalize_app_command options.app_command) _ h₂ in
      let (dns, servers, h₄) =
        bind_result-eq-ok (normalize_isolated_dns options.dns config.dns) _ h₃ in
      record { session = cc; app = cc; command = cc; servers = cc }

  -- What the second part has accepted.
  pub record Parted (sha256 : String → ℕ → ℕ) (subject : Subject) (out : NormalizedOptions)
      : Type 0 where
    pub veth : VethAddresses
    pub port : String
    pub identity : String × String
    pub launch_env : List String
    pub addressed :
        normalize_veth_addresses sha256
          (record {
            host_address = options.host_address;
            namespace_address = options.namespace_address;
            host_gateway = options.host_gateway;
          })
          subject.session_id
        ≡ ok veth
    pub ported : local_udp_port config.local_udp_listen ≡ ok port
    pub identified : normalize_launch_identity options.launch_uid options.launch_gid ≡ ok identity
    pub set : normalize_launch_env options.launch_env ≡ ok launch_env
    pub assembled :
        assemble options subject veth
          (given_names options (short_session_id subject.session_id))
          port
          identity
          launch_env
        ≡ out

  normalize_parts-Parted :
      (sha256 : String → ℕ → ℕ) (subject : Subject) (out : NormalizedOptions)
      → normalize_parts sha256 config options subject ≡ ok out
      → Parted sha256 subject out
  unfolding normalize_parts
  normalize_parts-Parted sha256 subject out h =
      let given = given_names options (short_session_id subject.session_id) in
      let (veth, addressed, h₁) =
        bind_result-eq-ok
          (normalize_veth_addresses sha256
            (record {
              host_address = options.host_address;
              namespace_address = options.namespace_address;
              host_gateway = options.host_gateway;
            })
            subject.session_id)
          _ h in
      let (names, named, h₂) = bind_result-eq-ok (check_names given) _ h₁ in
      let (port, ported, h₃) = bind_result-eq-ok (local_udp_port config.local_udp_listen) _ h₂ in
      let (identity, identified, h₄) =
        bind_result-eq-ok (normalize_launch_identity options.launch_uid options.launch_gid) _ h₃ in
      let (launch_env, set, h₅) =
        bind_result-eq-ok (normalize_launch_env options.launch_env) _ h₄ in
      let same : given ≡ names = check_names-eq-ok given names named in
      record {
        veth = veth;
        port = port;
        identity = identity;
        launch_env = launch_env;
        addressed = addressed;
        ported = ported;
        identified = identified;
        set = set;
        assembled = cc;
      }

  -- The parts of a plan.
  pub record Planned (fingerprint : Config → String) (sha256 : String → ℕ → ℕ) (plan : Plan)
      : Type 0 where
    pub subject : Subject
    pub normalized : NormalizedOptions
    pub settled : Settled subject
    pub parted : Parted sha256 subject normalized
    pub made :
        tunnel_plan (fingerprint config) config normalized (executable_warnings subject.app_command)
        ≡ plan

  normalize_isolated_app_options-eq-ok :
      (sha256 : String → ℕ → ℕ) (out : NormalizedOptions × List String)
      → normalize_isolated_app_options sha256 config options ≡ ok out
      → (subject : Subject) × (normalize_subject config options ≡ ok subject)
        × (normalize_parts sha256 config options subject ≡ ok (out.0))
        × (executable_warnings subject.app_command ≡ out.1)
  unfolding normalize_isolated_app_options
  normalize_isolated_app_options-eq-ok sha256 out h =
      let (subject, settled, h₁) = bind_result-eq-ok (normalize_subject config options) _ h in
      let (parts, parted, h₂) =
        bind_result-eq-ok (normalize_parts sha256 config options subject) _ h₁ in
      (subject, settled, cc, cc)

  -- Where a tunnel is planned, its options have passed every check.
  pub isolated_app_tunnel-Planned :
      (fingerprint : Config → String) (sha256 : String → ℕ → ℕ) (plan : Plan)
      → isolated_app_tunnel fingerprint sha256 config options ≡ ok plan
      → Planned fingerprint sha256 plan
  unfolding isolated_app_tunnel
  isolated_app_tunnel-Planned fingerprint sha256 plan h =
      let (out, normalized, made) =
        bind_result-eq-ok (normalize_isolated_app_options sha256 config options) _ h in
      let (subject, settled, parted, warned) =
        normalize_isolated_app_options-eq-ok sha256 out normalized in
      record {
        subject = subject;
        normalized = out.0;
        settled = normalize_subject-Settled subject settled;
        parted = normalize_parts-Parted sha256 subject (out.0) parted;
        made = cc;
      }
