-- ===== src/Linux/IsolatedExecutor/Dispatch.antt =====
-- `Apply` and `Rollback` of internal/platform/linux/isolated_executor.go.
pub mod Support
pub mod BestEffort
pub mod Cleanup
pub mod Idle
pub mod Dirty
use big_red_button.Base.{
  String, ◌<>◌, ◌&&◌, Option, none, some, [], ◌∷◌, ok, err, failure, if◌then◌else◌, M, ◌>>◌, done,
  fail,
}
use big_red_button.Planner.{Step}
use big_red_button.Engine.{Executor}
use big_red_button.Runtime.{State}
use big_red_button.Host.{Host, ProcessInfo}
use big_red_button.Supervisor.Wstunnel.{Url}
use big_red_button.Linux.{operation_apply, operation_rollback}
use big_red_button.Linux.Details.{detail_value, detail_values, lookup, Dict}
use big_red_button.Linux.Commands.{
  wireguard_create_interface_command, wireguard_delete_interface_command,
}
use big_red_button.Linux.IsolatedCommands.{
  net_ns_add_command, net_ns_delete_command, link_delete_command, nft_flush_ruleset_command,
}
use big_red_button.Linux.IsolatedExecutor.{
  IsolatedExecutor, record_runtime, run_built, run_namespaced, run_namespaced_built,
  run_namespaced_best_effort, run_namespaced_best_effort_built,
}
use big_red_button.Linux.IsolatedExecutor.Setup.{
  create_runtime_root, validate_prerequisites, create_veth_pair, configure_host_veth,
  configure_namespace_veth, configure_namespace_dns, start_wstunnel_control,
  apply_wireguard_addresses, apply_wireguard_peer, apply_namespace_client_routes,
  apply_namespace_kill_switch, launch_app, store_runtime_state,
}
use big_red_button.Linux.IsolatedExecutor.Teardown.{
  read_runtime_state, delete_namespace_client_routes, remove_namespace_client_routes,
  remove_namespace_dns, cleanup_namespace_dns, remove_runtime_root, clear_runtime_state,
  remove_kill_switch, remove_wireguard_interface, delete_net_ns, cleanup_net_ns,
}
use big_red_button.Linux.IsolatedExecutor.Processes.{
  stop_runtime_process, stop_isolated_app, cleanup_isolated_processes, act_on_host,
}

-- The cases of `Apply`.
pub data SetupStep : Type 0 where
  noop prerequisites create_root create_netns create_veth host_veth namespace_veth : SetupStep
  namespace_dns start_control create_wireguard wireguard_addresses wireguard_peer : SetupStep
  client_routes kill_switch launch monitor store_state : SetupStep

pub data TeardownStep : Type 0 where
  read_state stop_app stop_monitor flush_rules remove_routes remove_wireguard : TeardownStep
  stop_control remove_dns delete_netns clear_state : TeardownStep
  cleanup_processes cleanup_rules cleanup_wireguard cleanup_netns : TeardownStep
  cleanup_dns cleanup_root : TeardownStep

pub data Handler : Type 0 where
  setup_case : SetupStep → Handler
  teardown_case : TeardownStep → Handler
  unsupported : Handler

abbrev setup_handlers : Dict SetupStep
setup_handlers =
    ("validate-profile", noop)
    ∷ ("validate-app-command", noop)
    ∷ ("validate-linux-prerequisites", prerequisites)
    ∷ ("create-isolated-runtime-root", create_root)
    ∷ ("create-netns", create_netns)
    ∷ ("create-veth-pair", create_veth)
    ∷ ("configure-host-veth", host_veth)
    ∷ ("configure-namespace-veth", namespace_veth)
    ∷ ("configure-namespace-dns", namespace_dns)
    ∷ ("start-wstunnel-control", start_control)
    ∷ ("create-wireguard-interface-in-netns", create_wireguard)
    ∷ ("apply-wireguard-addresses-in-netns", wireguard_addresses)
    ∷ ("apply-wireguard-peer-in-netns", wireguard_peer)
    ∷ ("apply-namespace-client-routes", client_routes)
    ∷ ("apply-namespace-kill-switch", kill_switch)
    ∷ ("launch-app-in-netns", launch)
    ∷ ("monitor-process-tree", monitor)
    ∷ ("store-isolated-runtime-state", store_state)
    ∷ []

abbrev teardown_handlers : Dict TeardownStep
teardown_handlers =
    ("read-isolated-runtime-state", read_state)
    ∷ ("stop-isolated-app", stop_app)
    ∷ ("stop-isolated-monitor", stop_monitor)
    ∷ ("remove-namespace-kill-switch", flush_rules)
    ∷ ("remove-namespace-client-routes", remove_routes)
    ∷ ("remove-wireguard-interface-in-netns", remove_wireguard)
    ∷ ("stop-wstunnel-control", stop_control)
    ∷ ("remove-namespace-dns", remove_dns)
    ∷ ("delete-netns", delete_netns)
    ∷ ("clear-isolated-runtime-state", clear_state)
    ∷ ("cleanup-isolated-processes", cleanup_processes)
    ∷ ("cleanup-namespace-kill-switch", cleanup_rules)
    ∷ ("cleanup-wireguard-interface-in-netns", cleanup_wireguard)
    ∷ ("cleanup-netns", cleanup_netns)
    ∷ ("cleanup-namespace-dns", cleanup_dns)
    ∷ ("cleanup-isolated-runtime-root", cleanup_root)
    ∷ []

-- The case of a step's id.
unfoldable pub handler : String → Handler
unfolding lookup
handler id = elim (lookup id setup_handlers) [
  | some h ↦ setup_case h
  | none ↦ elim (lookup id teardown_handlers) [ some h ↦ teardown_case h | none ↦ unsupported ]
]

module _ {W : Type 0} (host : Host W State) (parse_url : String → Option Url) where
  unfoldable pub setup : SetupStep → Step → M (IsolatedExecutor × W) (Unit {0})
  setup noop step = done
  setup prerequisites step = validate_prerequisites host step.id (detail_values step "binary")
  setup create_root step = create_runtime_root host step
  setup create_netns step =
      run_built host operation_apply step.id (net_ns_add_command (detail_value step "namespace"))
  setup create_veth step = create_veth_pair host step
  setup host_veth step = configure_host_veth host step
  setup namespace_veth step = configure_namespace_veth host step
  setup namespace_dns step = configure_namespace_dns host step
  setup start_control step = start_wstunnel_control host parse_url step
  setup create_wireguard step =
      run_namespaced_built host operation_apply step.id (detail_value step "namespace")
        (wireguard_create_interface_command (detail_value step "interface"))
  setup wireguard_addresses step = apply_wireguard_addresses host step
  setup wireguard_peer step = apply_wireguard_peer host step
  setup client_routes step = apply_namespace_client_routes host step
  setup kill_switch step = apply_namespace_kill_switch host step
  setup launch step = launch_app host step
  setup monitor step =
      record_runtime operation_apply step.id
        ("monitor process tree for session " <> detail_value step "session_id")
  setup store_state step = store_runtime_state host step

  unfoldable pub teardown : TeardownStep → Step → M (IsolatedExecutor × W) (Unit {0})
  teardown read_state step (e, w) = read_runtime_state host step (e, w)
  teardown stop_app step (e, w) = stop_isolated_app host step (e, w)
  teardown stop_monitor step (e, w) =
      stop_runtime_process host step.id "monitor" e.runtime_state.monitor_process (e, w)
  teardown flush_rules step (e, w) = remove_kill_switch host step (e, w)
  teardown remove_routes step (e, w) = remove_namespace_client_routes host step (e, w)
  teardown remove_wireguard step (e, w) = remove_wireguard_interface host step (e, w)
  teardown stop_control step (e, w) =
      stop_runtime_process host step.id "wstunnel" e.runtime_state.wstunnel_process (e, w)
  teardown remove_dns step (e, w) = remove_namespace_dns host step (e, w)
  teardown delete_netns step (e, w) = delete_net_ns host step (e, w)
  teardown clear_state step (e, w) = clear_runtime_state host step (e, w)
  teardown cleanup_processes step (e, w) = cleanup_isolated_processes host step (e, w)
  teardown cleanup_rules step (e, w) =
      run_namespaced_best_effort host operation_apply step.id (detail_value step "namespace")
        nft_flush_ruleset_command (e, w)
  teardown cleanup_wireguard step (e, w) =
      run_namespaced_best_effort_built host operation_apply step.id (detail_value step "namespace")
        (wireguard_delete_interface_command (detail_value step "interface")) (e, w)
  teardown cleanup_netns step (e, w) = cleanup_net_ns host step (e, w)
  teardown cleanup_dns step (e, w) = cleanup_namespace_dns host step (e, w)
  teardown cleanup_root step (e, w) = remove_runtime_root host step (e, w)

  unfoldable pub handle : Handler → Step → M (IsolatedExecutor × W) (Unit {0})
  unfolding setup teardown
  handle (setup_case c) step = setup c step
  handle (teardown_case c) step = teardown c step
  handle unsupported step = fail (failure ("unsupported linux isolated step: " <> step.id))

  -- `Apply`: a step that needs the runtime state is passed over where there is none.
  unfoldable pub apply : Step → M (IsolatedExecutor × W) (Unit {0})
  unfolding handle handler
  apply step (e, w) =
      if e.runtime_state_missing && step.depends_on_runtime
      then record_runtime operation_apply step.id ("skip " <> (step.id <> ": no runtime state"))
          (e, w)
      else handle (handler step.id) step (e, w)

  -- Stops a process that the executor has started, if any, and notes it.
  unfoldable pub stop_started :
      Step → String → String → Option ProcessInfo → M (IsolatedExecutor × W) (Unit {0})
  stop_started step absent present none = record_runtime operation_rollback step.id absent
  stop_started step absent present (some info) = λ (e, w).
      let (x, w') = host.stop info w in
      let (_, s) = record_runtime operation_rollback step.id present (e, w') in
      elim x [ none ↦ (ok tt, s) | some x ↦ (err x, s) ]

  -- The three steps on the interface are undone by its deletion.
  unfoldable pub rollback_wireguard : Step → M (IsolatedExecutor × W) (Unit {0})
  rollback_wireguard step =
      run_namespaced_built host operation_rollback step.id (detail_value step "namespace")
        (wireguard_delete_interface_command (detail_value step "interface"))

  unfoldable pub rollback_case : SetupStep → Step → M (IsolatedExecutor × W) (Unit {0})
  unfolding stop_started rollback_wireguard
  rollback_case create_root step (e, w) =
      (record_runtime operation_rollback step.id ("remove " <> e.session_runtime_root)
          >> act_on_host (host.remove_all e.session_runtime_root))
        (e, w)
  rollback_case create_netns step s =
      run_built host operation_rollback step.id
        (net_ns_delete_command (detail_value step "namespace")) s
  rollback_case create_veth step s =
      run_built host operation_rollback step.id
        (link_delete_command (detail_value step "host_veth")) s
  rollback_case host_veth step s =
      run_built host operation_rollback step.id
        (link_delete_command (detail_value step "host_veth")) s
  rollback_case namespace_dns step s = remove_namespace_dns host step s
  rollback_case start_control step (e, w) =
      stop_started step "no WSTunnel process started" "stop WSTunnel control process"
        e.wstunnel_process (e, w)
  rollback_case create_wireguard step s = rollback_wireguard step s
  rollback_case wireguard_addresses step s = rollback_wireguard step s
  rollback_case wireguard_peer step s = rollback_wireguard step s
  rollback_case client_routes step s =
      delete_namespace_client_routes host operation_rollback step.id (detail_value step "namespace")
        (detail_value step "interface") (detail_values step "allowed_ip") s
  rollback_case kill_switch step s =
      run_namespaced host operation_rollback step.id (detail_value step "namespace")
        nft_flush_ruleset_command s
  rollback_case launch step (e, w) =
      stop_started step "no isolated app process started" "stop isolated app process" e.app_process
        (e, w)
  rollback_case store_state step s = clear_runtime_state host step s
  rollback_case _ step s = (ok tt, s)

  unfoldable pub rollback : Step → M (IsolatedExecutor × W) (Unit {0})
  unfolding rollback_case handler
  rollback step s = elim (handler step.id) [
    | setup_case c ↦ rollback_case c step s
    | _ ↦ (ok tt, s)
  ]

  abbrev pub isolated_executor : Executor (IsolatedExecutor × W)
  isolated_executor = record { apply = apply; rollback = rollback }
