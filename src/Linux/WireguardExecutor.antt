-- ===== src/Linux/WireguardExecutor.antt =====
-- internal/platform/linux/wireguard_executor.go, with the writer of configuration files.
use big_red_button.Base.{
  String, ◌<>◌, ◌==◌, List, [], ◌∷◌, ◌++◌, Result, ok, err, failure, if◌then◌else◌, M, ◌>>=◌, ◌>>◌,
  done, fail, lift,
}
use big_red_button.Base.Text.{trim_space, is_blank}
use big_red_button.Base.FilePath.{join_path}
use big_red_button.Planner.{Step}
use big_red_button.Runtime.{State}
use big_red_button.Runtime.Store.{attempt, check_ctx}
use big_red_button.Host.{Host, call}
use big_red_button.Wireguard.{Config, render_set_conf}
use big_red_button.Linux.{
  Command, Operation, OperationPhase, operation_apply, operation_rollback, Action,
}
use big_red_button.Linux.Commands.{
  wireguard_create_interface_command, wireguard_delete_interface_command,
  wireguard_set_config_command, wireguard_add_address_command, wireguard_set_mtu_command,
  wireguard_set_up_command, wireguard_route_replace_command, wireguard_route_delete_command,
}

pub record WireguardExecutor : Type 0 where
  pub config : Config
  pub runtime_root : String
  pub operations : List Operation

unfoldable pub new_wireguard_executor : Config → String → Result WireguardExecutor
new_wireguard_executor config runtime_root =
    if is_blank config.interface_name
    then err (failure "wireguard interface name is required")
    else ok (record { config = config; runtime_root = runtime_root; operations = [] })

unfoldable pub set_runtime_config : String → List String → WireguardExecutor → WireguardExecutor
set_runtime_config interface_name allowed_ips e = record e {
  config = record (e.config) {
    interface_name =
        if is_blank interface_name then e.config.interface_name else trim_space interface_name;
    allowed_ips = allowed_ips;
  };
}

-- The cases of `Apply`.
pub data WireguardStep : Type 0 where
  create_interface apply_addresses apply_peer apply_routes : WireguardStep
  remove_routes remove_interface unsupported : WireguardStep

unfoldable pub wireguard_step : String → WireguardStep
wireguard_step id =
    if id == "create-wireguard-interface"
    then create_interface
    else if id == "apply-wireguard-addresses"
    then apply_addresses
    else if id == "apply-wireguard-peer"
    then apply_peer
    else if id == "apply-client-routes"
    then apply_routes
    else if id == "remove-client-routes"
    then remove_routes
    else if id == "remove-wireguard-interface"
    then remove_interface
    else unsupported

abbrev pub log : OperationPhase → String → Command → WireguardExecutor → WireguardExecutor
log phase step_id command e = record e {
  operations =
      e.operations
      ++ (record { phase = phase; step_id = step_id; action = Action.command command } ∷ []);
}

module _ {W : Type 0} (host : Host W State) where
  unfoldable pub run : OperationPhase → String → Command → M (WireguardExecutor × W) (Unit {0})
  run phase step_id command (e, w) =
      let (r, w') = call host command w in
      let op = log phase step_id command e in
      elim r [ ok _ ↦ (ok tt, (op, w')) | err x ↦ (err x, (op, w')) ]

  -- Build a command and run it.
  unfoldable pub run_built :
      OperationPhase → String → Result Command → M (WireguardExecutor × W) (Unit {0})
  run_built phase step_id built = do command ← lift built; run phase step_id command

  -- A loop that builds a command from each text and runs it, up to the first error.
  unfoldable pub run_each :
      OperationPhase
      → String
      → (String → Result Command)
      → List String
      → M (WireguardExecutor × W) (Unit {0})
  run_each phase step_id build [] = done
  run_each phase step_id build (text ∷ texts) = do
    run_built phase step_id (build text)
    run_each phase step_id build texts

  -- `FileWireGuardConfigWriter.WriteConfig`
  unfoldable pub write_config : String → String → M W String
  write_config runtime_root rendered = do
    check_ctx host
    lift (
        if is_blank runtime_root
        then err (failure "wireguard config runtime root is required")
        else ok tt)
    attempt "create wireguard config directory: " (host.make_dir (trim_space runtime_root))
    let path = join_path (trim_space runtime_root ∷ "wg-setconf.conf" ∷ [])
    attempt "write wireguard config: " (host.write_file path rendered)
    attempt "set wireguard config permissions: " (host.chmod path)
    lift (ok path)

  -- The deferred cleanup, under a context of its own, its error dropped.
  unfoldable pub clean_up : String → W → W
  clean_up path w = (host.remove path w).1

  -- The end of `applyPeer`, once the file is written: run `wg setconf`, then remove the file.
  unfoldable pub set_conf : Step → String → M (WireguardExecutor × W) (Unit {0})
  set_conf step path (e, w) =
      let (r, s) =
        run_built operation_apply step.id
          (wireguard_set_config_command e.config.interface_name path) (e, w) in
      (r, (s.0, clean_up path s.1))

  unfoldable pub apply_wireguard_peer : Step → M (WireguardExecutor × W) (Unit {0})
  apply_wireguard_peer step (e, w) = elim (render_set_conf e.config) [
    | err x ↦ (err x, (e, w))
    | ok rendered ↦
        let (r, w') = write_config e.runtime_root rendered w in
        elim r [ err x ↦ (err x, (e, w')) | ok path ↦ set_conf step path (e, w') ]
  ]

  unfoldable pub apply_wireguard_addresses : Step → Config → M (WireguardExecutor × W) (Unit {0})
  apply_wireguard_addresses step config = do
    run_each operation_apply step.id (wireguard_add_address_command config.interface_name)
        config.addresses
    run_built operation_apply step.id (wireguard_set_mtu_command config.interface_name config.mtu)
    run_built operation_apply step.id (wireguard_set_up_command config.interface_name)

  unfoldable pub apply_case : WireguardStep → Step → Config → M (WireguardExecutor × W) (Unit {0})
  unfolding apply_wireguard_peer apply_wireguard_addresses
  apply_case create_interface step config =
      run_built operation_apply step.id (wireguard_create_interface_command config.interface_name)
  apply_case apply_addresses step config = apply_wireguard_addresses step config
  apply_case apply_peer step config = apply_wireguard_peer step
  apply_case apply_routes step config =
      run_each operation_apply step.id (wireguard_route_replace_command config.interface_name)
        config.allowed_ips
  apply_case remove_routes step config =
      run_each operation_apply step.id (wireguard_route_delete_command config.interface_name)
        config.allowed_ips
  apply_case remove_interface step config =
      run_built operation_apply step.id (wireguard_delete_interface_command config.interface_name)
  apply_case unsupported step config =
      fail (failure ("unsupported linux wireguard executor step: " <> step.id))

  unfoldable pub apply : Step → M (WireguardExecutor × W) (Unit {0})
  unfolding apply_case wireguard_step
  apply step (e, w) = apply_case (wireguard_step step.id) step e.config (e, w)

  unfoldable pub rollback_case :
      WireguardStep → Step → Config → M (WireguardExecutor × W) (Unit {0})
  rollback_case create_interface step config =
      run_built operation_rollback step.id
        (wireguard_delete_interface_command config.interface_name)
  rollback_case apply_addresses step config =
      run_built operation_rollback step.id
        (wireguard_delete_interface_command config.interface_name)
  rollback_case apply_peer step config =
      run_built operation_rollback step.id
        (wireguard_delete_interface_command config.interface_name)
  rollback_case apply_routes step config =
      run_each operation_rollback step.id (wireguard_route_delete_command config.interface_name)
        config.allowed_ips
  rollback_case _ step config =
      fail (failure ("unsupported linux wireguard executor step: " <> step.id))

  unfoldable pub rollback : Step → M (WireguardExecutor × W) (Unit {0})
  unfolding rollback_case wireguard_step
  rollback step (e, w) = rollback_case (wireguard_step step.id) step e.config (e, w)
