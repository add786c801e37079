-- ===== src/Runtime.antt =====
-- internal/runtime/state.go: the state that a connected session leaves on disk.
pub mod Store
pub mod Sessions
pub mod Laws
use big_red_button.Base.{
  ℕ, zero, suc, ◌+◌, String, ◌<>◌, ◌==◌, Bool, true, false, ◌&&◌, ◌||◌, not, Option, none, some,
  List, [], ◌∷◌, Result, ok, err, Err, failure, bind_result, if◌then◌else◌, is_empty, is_none,
  show_ℕ, show_ℤ,
}
use big_red_button.Base.Int.{ℤ, pos, below, equals}
use big_red_button.Base.Text.{trim_space, is_blank, cut_prefix}
use big_red_button.Netip.Parse.{parse_addr}
use big_red_button.Routes.{EndpointExclusion}
use big_red_button.Planner.{Plan, Step, isolated_app_tunnel_kind}

abbrev pub state_version : ℕ
state_version = 1

pub record ProcessState : Type 0 where
  pub pid : ℤ
  pub argv : List String

pub record State : Type 0 where
  pub version : ℤ
  pub mode : String
  pub profile : String
  pub profile_fingerprint : String
  pub wireguard_interface : String
  pub route_exclusions : List EndpointExclusion
  pub wstunnel_process : Option ProcessState
  pub app_process : Option ProcessState
  pub monitor_process : Option ProcessState
  pub wireguard_allowed_ips : List String
  pub dns_interface : String
  pub dns_servers : List String
  pub dns_applied : Bool
  pub session_id : String
  pub app_id : String
  pub namespace : String
  pub host_veth : String
  pub namespace_veth : String
  pub host_address : String
  pub namespace_address : String
  pub host_gateway : String

-- The zero value `State{}`.
abbrev pub no_state : State
no_state = record {
  version = pos 0;
  mode = "";
  profile = "";
  profile_fingerprint = "";
  wireguard_interface = "";
  route_exclusions = [];
  wstunnel_process = none;
  app_process = none;
  monitor_process = none;
  wireguard_allowed_ips = [];
  dns_interface = "";
  dns_servers = [];
  dns_applied = false;
  session_id = "";
  app_id = "";
  namespace = "";
  host_veth = "";
  namespace_veth = "";
  host_address = "";
  namespace_address = "";
  host_gateway = "";
}

-- A check that fails with a message, and the checks behind it.
abbrev pub unless : Bool → String → Option Err → Option Err
unless true message rest = some (failure message)
unless false message rest = rest

unfoldable pub check_session : State → Option Err → Option Err
check_session s rest =
    if s.mode == isolated_app_tunnel_kind
    then unless (is_blank s.session_id) "isolated runtime state session ID is required" (
        unless (is_blank s.namespace) "isolated runtime state namespace is required" (
          unless (is_blank s.host_veth) "isolated runtime state host veth is required" (
            unless (is_blank s.namespace_veth) "isolated runtime state namespace veth is required"
              rest)))
    else rest

unfoldable pub check_exclusions : ℕ → List EndpointExclusion → Option Err → Option Err
check_exclusions index [] rest = rest
check_exclusions index (exclusion ∷ exclusions) rest =
    unless (is_blank exclusion.endpoint_ip)
      ("runtime state route exclusion " <> (show_ℕ index <> " endpoint IP is required"))
      (unless (is_blank exclusion.destination)
        ("runtime state route exclusion " <> (show_ℕ index <> " destination is required"))
        (check_exclusions (index + 1) exclusions rest))

-- `p != nil && p.PID < 1`
abbrev pub lacks_pid : Option ProcessState → Bool
lacks_pid none = false
lacks_pid (some p) = below p.pid 1

unfoldable pub check_servers : ℕ → List String → Option Err
check_servers index [] = none
check_servers index (server ∷ servers) =
    unless (is_none (parse_addr (trim_space server)))
      ("runtime state DNS server " <> (show_ℕ index <> " is invalid"))
      (check_servers (index + 1) servers)

unfoldable pub check_dns : State → Option Err
check_dns s =
    if s.dns_applied
    then unless (is_blank s.dns_interface) "runtime state DNS interface is required" (
        unless (is_empty s.dns_servers) "runtime state DNS servers are required"
          (check_servers 0 s.dns_servers))
    else check_servers 0 s.dns_servers

unfoldable pub check_processes : State → Option Err → Option Err
check_processes s rest =
    unless (lacks_pid s.wstunnel_process) "runtime state wstunnel process PID is required" (
      unless (lacks_pid s.app_process) "runtime state app process PID is required"
        (unless (lacks_pid s.monitor_process) "runtime state monitor process PID is required" rest))

-- `State.Validate`: nil, or the first problem.
unfoldable pub validate : State → Option Err
validate s =
    unless (not (equals s.version state_version))
      ("unsupported runtime state version: " <> show_ℤ s.version)
      (unless (is_blank s.profile_fingerprint) "runtime state profile fingerprint is required" (
        unless (is_blank s.wireguard_interface) "runtime state WireGuard interface is required" (
          check_session s
            (check_exclusions 0 s.route_exclusions (check_processes s (check_dns s))))))

unfoldable pub with_wstunnel_process : ℤ → List String → State → State
with_wstunnel_process pid argv s = record s {
  wstunnel_process = some (record { pid = pid; argv = argv });
}

unfoldable pub with_app_process : ℤ → List String → State → State
with_app_process pid argv s = record s { app_process = some (record { pid = pid; argv = argv }) }

unfoldable pub with_monitor_process : ℤ → List String → State → State
with_monitor_process pid argv s = record s {
  monitor_process = some (record { pid = pid; argv = argv });
}

-- The values of the details that begin with `allowed_ip=`.
unfoldable pub allowed_ip_details : List String → List String
allowed_ip_details [] = []
allowed_ip_details (detail ∷ details) =
    let rest = allowed_ip_details details in
    elim (cut_prefix detail "allowed_ip=") [ none ↦ rest | some ip ↦ ip ∷ rest ]

-- Those of the first step with the id.
unfoldable pub allowed_ips_from : String → List Step → List String
unfolding allowed_ip_details
allowed_ips_from id [] = []
allowed_ips_from id (step ∷ steps) =
    let rest = allowed_ips_from id steps in
    if step.id == id then allowed_ip_details step.details else rest

unfoldable pub checked : State → Result State
checked s = elim (validate s) [ none ↦ ok s | some e ↦ err e ]

abbrev pub connect_state : Plan → State
connect_state plan =
    let has_dns = not (is_empty plan.dns_servers) in
    record no_state {
      version = pos state_version;
      profile = plan.profile;
      profile_fingerprint = plan.profile_fingerprint;
      wireguard_interface = plan.wireguard_interface;
      route_exclusions = plan.route_exclusions;
      wireguard_allowed_ips = allowed_ips_from "apply-client-routes" plan.steps;
      dns_interface = if has_dns then plan.wireguard_interface else "";
      dns_servers = plan.dns_servers;
      dns_applied = has_dns;
    }

unfoldable pub new_state_from_connect_plan : Plan → Result State
unfolding checked
new_state_from_connect_plan plan =
    if plan.kind == "connect"
    then checked (connect_state plan)
    else err (failure "runtime state can only be built from connect plan")

unfoldable pub new_state_from_isolated_app_plan : Plan → Result State
unfolding checked
new_state_from_isolated_app_plan plan =
    if plan.kind == isolated_app_tunnel_kind
    then checked (record no_state {
      version = pos state_version;
      mode = isolated_app_tunnel_kind;
      profile = plan.profile;
      profile_fingerprint = plan.profile_fingerprint;
      wireguard_interface = plan.wireguard_interface;
      wireguard_allowed_ips = allowed_ips_from "apply-namespace-client-routes" plan.steps;
      session_id = plan.session_id;
      app_id = plan.app_id;
      namespace = plan.namespace;
      host_veth = plan.host_veth;
      namespace_veth = plan.namespace_veth;
      host_address = plan.host_address;
      namespace_address = plan.namespace_address;
      host_gateway = plan.host_gateway;
    })
    else err (failure "runtime state can only be built from isolated app tunnel plan")
