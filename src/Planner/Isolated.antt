-- ===== src/Planner/Isolated.antt =====
-- internal/planner/isolated.go: the plans of a tunnel for one application in a network namespace.
pub mod Identity
pub mod Network
pub mod Normalize
pub mod Tunnel
pub mod Stop
pub mod Planned
pub mod Cleanup
use big_red_button.Base.{String, List}

pub record IsolatedAppOptions : Type 0 where
  pub session_id : String
  pub app_id : String
  pub app_command : List String
  pub dns : List String
  pub wstunnel_binary : String
  pub wireguard_interface : String
  pub runtime_root : String
  pub namespace : String
  pub host_veth : String
  pub namespace_veth : String
  pub host_address : String
  pub namespace_address : String
  pub host_gateway : String
  pub launch_uid : String
  pub launch_gid : String
  pub launch_env : List String

pub record IsolatedAppStopOptions : Type 0 where
  pub session_id : String
  pub runtime_root : String

-- `isolatedAppNormalizedOptions`
pub record NormalizedOptions : Type 0 where
  pub session_id : String
  pub app_id : String
  pub app_command : List String
  pub dns : List String
  pub wstunnel_binary : String
  pub wireguard_interface : String
  pub runtime_root : String
  pub session_runtime_root : String
  pub namespace : String
  pub host_veth : String
  pub namespace_veth : String
  pub host_address : String
  pub namespace_address : String
  pub host_gateway : String
  pub wstunnel_listen : String
  pub wireguard_endpoint : String
  pub launch_uid : String
  pub launch_gid : String
  pub launch_env : List String
