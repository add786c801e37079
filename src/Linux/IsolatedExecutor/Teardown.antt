-- ===== src/Linux/IsolatedExecutor/Teardown.antt =====
-- The steps of the stop and cleanup plans in internal/platform/linux/isolated_executor.go.
use big_red_button.Base.{
  String, ◌<>◌, ◌==◌, true, false, Option, none, some, List, [], ◌∷◌, ok, err, Err, failure,
  not_exist, wrap, if◌then◌else◌, M, ◌>>=◌, ◌>>◌, done, lift,
}
use big_red_button.Base.FilePath.{join_path}
use big_red_button.Planner.{Step}
use big_red_button.Runtime.{State}
use big_red_button.Runtime.Store.{attempt, check_ctx, clear, load}
use big_red_button.Host.{Host}
use big_red_button.Linux.{operation_apply, OperationPhase}
use big_red_button.Linux.Details.{detail_value}
use big_red_button.Linux.Commands.{
  wireguard_route_delete_command, wireguard_delete_interface_command,
}
use big_red_button.Linux.IsolatedCommands.{
  net_ns_delete_command, link_delete_command, nft_flush_ruleset_command,
}
use big_red_button.Linux.IsolatedExecutor.{
  IsolatedExecutor, isolated_store_path, record_runtime, on_host, run_built, run_namespaced,
  run_namespaced_built, run_each_namespaced, run_best_effort_built, state_for_stop,
}

-- An error other than a missing file.
abbrev pub unless_missing : {W : Type 0} → String → (W → Option Err × W) → M W (Unit {0})
unless_missing prefix act w =
    let (x, w') = act w in
    elim x [
      | none ↦ (ok tt, w')
      | some (not_exist _) ↦ (ok tt, w')
      | some (failure m) ↦ (err (wrap prefix (failure m)), w')
    ]

-- The directory of the step, or the executor's.
unfoldable pub root_of : Step → IsolatedExecutor → String
root_of step e =
    if detail_value step "session_runtime_root" == ""
    then e.session_runtime_root
    else detail_value step "session_runtime_root"

module _ {W : Type 0} (host : Host W State) where
  unfoldable pub read_runtime_state : Step → M (IsolatedExecutor × W) (Unit {0})
  read_runtime_state step (e, w) = elim (load host e.session_runtime_root w) [
    | ok state ↦
        record_runtime operation_apply step.id ("load " <> isolated_store_path e)
          (record e { runtime_state = state; runtime_state_missing = false }, w)
    | err (not_exist _) ↦
        record_runtime operation_apply step.id ("no runtime state at " <> isolated_store_path e)
          (record e { runtime_state_missing = true }, w)
    | err (failure m) ↦ (err (failure m), (e, w))
  ]

  unfoldable pub delete_namespace_client_routes :
      OperationPhase → String → String → String → List String → M (IsolatedExecutor × W) (Unit {0})
  delete_namespace_client_routes phase step_id namespace iface allowed_ips =
      run_each_namespaced host phase step_id namespace (wireguard_route_delete_command iface)
        allowed_ips

  unfoldable pub remove_namespace_client_routes : Step → M (IsolatedExecutor × W) (Unit {0})
  remove_namespace_client_routes step = do
    state ← state_for_stop host
    delete_namespace_client_routes operation_apply step.id state.namespace state.wireguard_interface
        state.wireguard_allowed_ips

  -- The namespace of the step, or of the runtime state.
  unfoldable pub namespace_for_dns : Step → M (IsolatedExecutor × W) String
  namespace_for_dns step =
      if detail_value step "namespace" == ""
      then (do state ← state_for_stop host; lift (ok state.namespace))
      else lift (ok (detail_value step "namespace"))

  unfoldable pub remove_dns_files : Step → String → M (IsolatedExecutor × W) (Unit {0})
  remove_dns_files step root = do
    let path = join_path (root ∷ "resolv.conf" ∷ [])
    on_host (unless_missing "remove namespace DNS: " (host.remove path))
    on_host (unless_missing "remove namespace DNS directory: " (host.remove root))
    record_runtime operation_apply step.id ("remove " <> path)

  unfoldable pub remove_namespace_dns : Step → M (IsolatedExecutor × W) (Unit {0})
  remove_namespace_dns step (e, w) =
      (do
        on_host (check_ctx host)
        namespace ← namespace_for_dns step
        remove_dns_files step (join_path (e.net_ns_config_root ∷ namespace ∷ [])))
        (e, w)

  unfoldable pub cleanup_namespace_dns : Step → M (IsolatedExecutor × W) (Unit {0})
  cleanup_namespace_dns step (e, w) =
      let root = join_path (e.net_ns_config_root ∷ detail_value step "namespace" ∷ []) in
      (do
        on_host (check_ctx host)
        on_host (attempt "remove namespace DNS directory: " (host.remove_all root))
        record_runtime operation_apply step.id ("remove " <> root))
        (e, w)

  unfoldable pub remove_runtime_root : Step → M (IsolatedExecutor × W) (Unit {0})
  remove_runtime_root step (e, w) =
      (do
        on_host (check_ctx host)
        on_host (attempt "remove isolated runtime root: " (host.remove_all (root_of step e)))
        record_runtime operation_apply step.id ("remove " <> root_of step e))
        (e, w)

  unfoldable pub clear_runtime_state : Step → M (IsolatedExecutor × W) (Unit {0})
  clear_runtime_state step (e, w) =
      (do
        on_host (clear host e.session_runtime_root)
        remove_runtime_root step
        record_runtime operation_apply step.id ("clear " <> isolated_store_path e))
        (e, w)

  unfoldable pub remove_kill_switch : Step → M (IsolatedExecutor × W) (Unit {0})
  remove_kill_switch step = do
    state ← state_for_stop host
    run_namespaced host operation_apply step.id state.namespace nft_flush_ruleset_command

  unfoldable pub remove_wireguard_interface : Step → M (IsolatedExecutor × W) (Unit {0})
  remove_wireguard_interface step = do
    state ← state_for_stop host
    run_namespaced_built host operation_apply step.id state.namespace
        (wireguard_delete_interface_command state.wireguard_interface)

  unfoldable pub delete_net_ns : Step → M (IsolatedExecutor × W) (Unit {0})
  delete_net_ns step = do
    state ← state_for_stop host
    if state.host_veth == ""
        then done
        else run_built host operation_apply step.id (link_delete_command state.host_veth)
    run_built host operation_apply step.id (net_ns_delete_command state.namespace)

  unfoldable pub cleanup_net_ns : Step → M (IsolatedExecutor × W) (Unit {0})
  cleanup_net_ns step = do
    if detail_value step "host_veth" == ""
        then done
        else run_best_effort_built host operation_apply step.id
            (link_delete_command (detail_value step "host_veth"))
    run_best_effort_built host operation_apply step.id
        (net_ns_delete_command (detail_value step "namespace"))
