-- ===== src/Linux/IsolatedExecutor/Setup.antt =====
-- The steps of a tunnel plan in internal/platform/linux/isolated_executor.go.
use big_red_button.Base.{
  String, ◌<>◌, Option, none, some, List, [], ◌∷◌, Result, ok, err, failure, not_exist, wrap,
  show_ℤ, M, ◌>>=◌, ◌>>◌, fail, lift,
}
use big_red_button.Base.Net.{atoi}
use big_red_button.Base.FilePath.{join_path}
use big_red_button.Planner.{Step}
use big_red_button.Runtime.{
  State, new_state_from_isolated_app_plan, with_wstunnel_process, with_app_process,
}
use big_red_button.Runtime.Store.{attempt, check_ctx, save}
use big_red_button.Host.{Host, ProcessInfo}
use big_red_button.Supervisor.Wstunnel.{Url}
use big_red_button.Wireguard.{config_from_profile, render_set_conf}
use big_red_button.Linux.{argv, operation_apply}
use big_red_button.Linux.Details.{detail_value, detail_values}
use big_red_button.Linux.Commands.{
  wireguard_add_address_command, wireguard_set_mtu_command, wireguard_set_up_command,
  wireguard_set_config_command, wireguard_route_replace_command,
}
use big_red_button.Linux.IsolatedCommands.{
  veth_create_command, link_set_net_ns_command, link_set_up_command, address_replace_command,
  net_ns_address_replace_command, net_ns_link_set_up_command, net_ns_loopback_set_up_command,
  nft_apply_ruleset_command,
}
use big_red_button.Linux.IsolatedExecutor.{
  IsolatedExecutor, isolated_store_path, record_command, record_runtime, on_host, run_built,
  run_namespaced_built, run_each_namespaced,
}
use big_red_button.Linux.IsolatedExecutor.Render.{
  render_namespace_kill_switch_rules, isolated_app_launch_command_from_step,
  wstunnel_control_command_from_step, resolv_conf,
}

unfoldable pub add_wstunnel_info : Option ProcessInfo → State → State
add_wstunnel_info none state = state
add_wstunnel_info (some info) state = with_wstunnel_process info.pid (argv info.command) state

unfoldable pub add_app_info : Option ProcessInfo → State → State
add_app_info none state = state
add_app_info (some info) state = with_app_process info.pid (argv info.command) state

module _ {W : Type 0} (host : Host W State) where
  -- `os.Stat` of the state file: it must not be there.
  unfoldable pub check_absent : String → W → Result (Unit {0}) × W
  check_absent path w = elim (host.stat path w) [
    | none ↦ (
      err (
          failure (
            "isolated session runtime state already exists at "
            <> (path <> "; stop or cleanup the session before starting it again"))),
      w,
    )
    | some (not_exist _) ↦ (ok tt, w)
    | some (failure m) ↦ (err (wrap "check isolated runtime state: " (failure m)), w)
  ]

  unfoldable pub create_runtime_root : Step → M (IsolatedExecutor × W) (Unit {0})
  create_runtime_root step (e, w) =
      (do
        on_host (check_ctx host)
        on_host (check_absent (isolated_store_path e))
        on_host (attempt "create isolated runtime root: " (host.make_dir e.session_runtime_root))
        on_host
            (attempt "set isolated runtime root permissions: " (host.chmod e.session_runtime_root))
        record_runtime operation_apply step.id ("create " <> e.session_runtime_root))
        (e, w)

  unfoldable pub validate_prerequisites : String → List String → M (IsolatedExecutor × W) (Unit {0})
  validate_prerequisites step_id [] (e, w) = (ok tt, (e, w))
  validate_prerequisites step_id (binary ∷ binaries) (e, w) =
      elim (host.check_executable binary w) [
        | some x ↦ (err x, (e, w))
        | none ↦
            (record_runtime operation_apply step_id ("found " <> binary)
                >> validate_prerequisites step_id binaries)
              (e, w)
      ]

  unfoldable pub create_veth_pair : Step → M (IsolatedExecutor × W) (Unit {0})
  create_veth_pair step = do
    run_built host operation_apply step.id
        (veth_create_command (detail_value step "host_veth") (detail_value step "namespace_veth"))
    run_built host operation_apply step.id (
        link_set_net_ns_command (detail_value step "namespace_veth")
          (detail_value step "namespace"))

  unfoldable pub configure_host_veth : Step → M (IsolatedExecutor × W) (Unit {0})
  configure_host_veth step = do
    run_built host operation_apply step.id
        (address_replace_command (detail_value step "host_veth") (detail_value step "host_address"))
    run_built host operation_apply step.id (link_set_up_command (detail_value step "host_veth"))

  unfoldable pub configure_namespace_veth : Step → M (IsolatedExecutor × W) (Unit {0})
  configure_namespace_veth step = do
    let namespace = detail_value step "namespace"
    let namespace_veth = detail_value step "namespace_veth"
    run_built host operation_apply step.id (
        net_ns_address_replace_command namespace namespace_veth
          (detail_value step "namespace_address"))
    run_built host operation_apply step.id (net_ns_link_set_up_command namespace namespace_veth)
    run_built host operation_apply step.id (net_ns_loopback_set_up_command namespace)

  unfoldable pub configure_namespace_dns : Step → M (IsolatedExecutor × W) (Unit {0})
  configure_namespace_dns step (e, w) =
      let root = join_path (e.net_ns_config_root ∷ detail_value step "namespace" ∷ []) in
      let path = join_path (root ∷ "resolv.conf" ∷ []) in
      (do
        on_host (check_ctx host)
        on_host (attempt "create namespace DNS directory: " (host.make_dir root))
        on_host (
            attempt "write namespace DNS: "
              (host.write_file path (resolv_conf (detail_values step "dns"))))
        record_runtime operation_apply step.id ("write " <> path))
        (e, w)

  unfoldable pub start_wstunnel_control :
      (String → Option Url) → Step → M (IsolatedExecutor × W) (Unit {0})
  start_wstunnel_control parse_url step = do
    command ← lift (wstunnel_control_command_from_step parse_url step)
    info ← on_host (host.start command)
    (λ (e, w). (ok tt, (record e { wstunnel_process = some info }, w)))
    record_command operation_apply step.id command
    record_runtime operation_apply step.id ("pid " <> show_ℤ info.pid)

  unfoldable pub apply_wireguard_addresses : Step → M (IsolatedExecutor × W) (Unit {0})
  apply_wireguard_addresses step = do
    let namespace = detail_value step "namespace"
    let iface = detail_value step "interface"
    run_each_namespaced host operation_apply step.id namespace (wireguard_add_address_command iface)
        (detail_values step "address")
    elim (atoi (detail_value step "mtu")) [
      | none ↦ fail (failure "wireguard MTU detail is invalid")
      | some mtu ↦
          run_namespaced_built host operation_apply step.id namespace
            (wireguard_set_mtu_command iface mtu)
    ]
    run_namespaced_built host operation_apply step.id namespace (wireguard_set_up_command iface)

  -- The file with the keys gets its mode, or is removed.
  unfoldable pub restrict_config : String → M (IsolatedExecutor × W) (Unit {0})
  restrict_config path (e, w) =
      let (x, w') = host.chmod path w in
      elim x [
        | none ↦ (ok tt, (e, w'))
        | some x ↦ (
          err (wrap "set isolated wireguard config permissions: " x),
          (e, (host.remove path w').1),
        )
      ]

  -- The deferred removal of the file with the keys; its error is dropped.
  unfoldable pub remove_config : String → String → IsolatedExecutor × W → IsolatedExecutor × W
  remove_config step_id path (e, w) =
      let (x, w') = host.remove path w in
      elim x [
        | some _ ↦ (e, w')
        | none ↦
            (record_runtime operation_apply step_id ("remove redacted WireGuard setconf " <> path)
              (e, w')).1
      ]

  -- Runs `wg setconf`, and removes the file whatever comes of it.
  unfoldable pub set_conf_in_namespace : Step → String → M (IsolatedExecutor × W) (Unit {0})
  set_conf_in_namespace step path s =
      let (r, s') =
        run_namespaced_built host operation_apply step.id (detail_value step "namespace")
          (wireguard_set_config_command (detail_value step "interface") path) s in
      (r, remove_config step.id path s')

  unfoldable pub apply_wireguard_peer : Step → M (IsolatedExecutor × W) (Unit {0})
  apply_wireguard_peer step (e, w) =
      let config = config_from_profile e.profile (detail_value step "interface") in
      let path = join_path (e.session_runtime_root ∷ "wg-setconf.conf" ∷ []) in
      (do
        on_host (check_ctx host)
        rendered ←
            lift (render_set_conf (record config { endpoint = detail_value step "endpoint" }))
        on_host (attempt "write isolated wireguard config: " (host.write_file path rendered))
        restrict_config path
        record_runtime operation_apply step.id ("write redacted WireGuard setconf " <> path)
        set_conf_in_namespace step path)
        (e, w)

  unfoldable pub apply_namespace_client_routes : Step → M (IsolatedExecutor × W) (Unit {0})
  apply_namespace_client_routes step =
      run_each_namespaced host operation_apply step.id (detail_value step "namespace")
        (wireguard_route_replace_command (detail_value step "interface"))
        (detail_values step "allowed_ip")

  unfoldable pub apply_namespace_kill_switch : Step → M (IsolatedExecutor × W) (Unit {0})
  apply_namespace_kill_switch step (e, w) =
      let path = join_path (e.session_runtime_root ∷ "namespace-killswitch.nft" ∷ []) in
      (do
        on_host (check_ctx host)
        rules ← lift (render_namespace_kill_switch_rules step)
        on_host (attempt "write namespace kill-switch ruleset: " (host.write_file path rules))
        record_runtime operation_apply step.id ("write namespace fail-closed nft ruleset " <> path)
        run_namespaced_built host operation_apply step.id (detail_value step "namespace")
            (nft_apply_ruleset_command path))
        (e, w)

  unfoldable pub launch_app : Step → M (IsolatedExecutor × W) (Unit {0})
  launch_app step = do
    command ← lift (isolated_app_launch_command_from_step step)
    info ← on_host (host.start command)
    (λ (e, w). (ok tt, (record e { app_process = some info }, w)))
    record_command operation_apply step.id command
    record_runtime operation_apply step.id ("pid " <> show_ℤ info.pid)

  unfoldable pub store_runtime_state : Step → M (IsolatedExecutor × W) (Unit {0})
  store_runtime_state step (e, w) =
      (do
        bare ← lift (new_state_from_isolated_app_plan e.plan)
        let state = add_app_info e.app_process (add_wstunnel_info e.wstunnel_process bare)
        on_host (save host e.session_runtime_root state)
        (λ (e', w'). (ok tt, (record e' { runtime_state = state }, w')))
        record_runtime operation_apply step.id ("save " <> isolated_store_path e))
        (e, w)
