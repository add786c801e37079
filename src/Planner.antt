-- ===== src/Planner.antt =====
-- internal/planner: a plan is data, a list of steps with what to do and how to undo it.
pub mod Normalize
pub mod System
pub mod Isolated
use big_red_button.Base.{String, Bool, List}
use big_red_button.Routes.{EndpointExclusion}

pub record Options : Type 0 where
  pub endpoint_ips : List String
  pub default_gateway : String
  pub default_interface : String
  pub wstunnel_binary : String
  pub wireguard_interface : String
  pub runtime_root : String

pub record Step : Type 0 where
  pub id : String
  pub action : String
  pub details : List String
  pub requires_privilege : Bool
  pub rollback : List String
  pub skipped_until_apply : Bool
  pub depends_on_runtime : Bool
  pub secret_material_free : Bool

pub record Plan : Type 0 where
  pub kind : String
  pub profile : String
  pub profile_fingerprint : String
  pub wstunnel_host : String
  pub wstunnel_url : String
  pub endpoint_ips : List String
  pub wireguard_interface : String
  pub runtime_root : String
  pub session_id : String
  pub app_id : String
  pub namespace : String
  pub host_veth : String
  pub namespace_veth : String
  pub host_address : String
  pub namespace_address : String
  pub host_gateway : String
  pub dns_servers : List String
  pub warnings : List String
  pub steps : List Step
  pub route_exclusions : List EndpointExclusion

-- A step that only names an action, before its fields are given.
abbrev pub blank_step : Step
blank_step = record {
  id = "";
  action = "";
  details = List.[];
  requires_privilege = Bool.false;
  rollback = List.[];
  skipped_until_apply = Bool.false;
  depends_on_runtime = Bool.false;
  secret_material_free = Bool.true;
}

abbrev pub blank_plan : Plan
blank_plan = record {
  kind = "";
  profile = "";
  profile_fingerprint = "";
  wstunnel_host = "";
  wstunnel_url = "";
  endpoint_ips = List.[];
  wireguard_interface = "";
  runtime_root = "";
  session_id = "";
  app_id = "";
  namespace = "";
  host_veth = "";
  namespace_veth = "";
  host_address = "";
  namespace_address = "";
  host_gateway = "";
  dns_servers = List.[];
  warnings = List.[];
  steps = List.[];
  route_exclusions = List.[];
}

abbrev pub default_wstunnel_binary : String
default_wstunnel_binary = "wstunnel"

abbrev pub default_wireguard_interface : String
default_wireguard_interface = "brb0"

abbrev pub default_runtime_root : String
default_runtime_root = "/run/big-red-button"

abbrev pub isolated_app_tunnel_kind : String
isolated_app_tunnel_kind = "isolated-app-tunnel"

abbrev pub isolated_app_stop_kind : String
isolated_app_stop_kind = "isolated-app-stop"

abbrev pub isolated_app_cleanup_kind : String
isolated_app_cleanup_kind = "isolated-app-cleanup"

abbrev pub default_isolated_runtime_subdir : String
default_isolated_runtime_subdir = "isolated"
