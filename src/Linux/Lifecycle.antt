-- ===== src/Linux/Lifecycle.antt =====
-- internal/platform/linux/lifecycle_executor.go: the executor that the engine drives on Linux. It
-- hands each step to the executor of its part, and threads their states with the machine's.
pub mod Support
pub mod Idle
pub mod Twice
pub mod Dirty
use big_red_button.Base.{
  ℕ, String, ◌<>◌, ◌==◌, starts_with, Bool, true, false, ◌||◌, ◌&&◌, not, Option, none, some, List,
  [], ◌∷◌, ◌++◌, Result, ok, err, Err, failure, bind_result, if◌then◌else◌, M, ◌>>=◌, ◌>>◌, done,
  fail, lift, show_ℤ,
}
use big_red_button.Planner.{Step, Plan, default_wstunnel_binary}
use big_red_button.Engine.{Executor}
use big_red_button.Runtime.{State, ProcessState, with_wstunnel_process}
use big_red_button.Host.{Host, ProcessInfo}
use big_red_button.Wireguard.{Config, config_from_profile}
use big_red_button.Base.Int.{ℤ, pos}
use big_red_button.Profile
use big_red_button.Supervisor.Wstunnel.{Url, wstunnel_client_command}
use big_red_button.Linux.{OperationPhase, operation_apply, argv}
use big_red_button.Linux.Details.{detail_values}
use big_red_button.Linux.RouteExecutor
use big_red_button.Linux.RouteExecutor.{
  RouteExecutor, state_for_disconnect, state_from_plan, save_state, is_route_executor_step,
}
use big_red_button.Linux.DnsExecutor
use big_red_button.Linux.DnsExecutor.{DnsExecutor}
use big_red_button.Linux.WireguardExecutor
use big_red_button.Linux.WireguardExecutor.{WireguardExecutor, set_runtime_config}
use big_red_button.Supervisor
use big_red_button.Supervisor.{WstunnelExecutor, new_wstunnel_executor}

-- `LifecycleExecutor`; the helper process is absent in a disconnect.
pub record Lifecycle : Type 0 where
  pub plan : Plan
  pub route : RouteExecutor
  pub dns : DnsExecutor
  pub wstunnel : Option WstunnelExecutor
  pub wireguard : WireguardExecutor

unfoldable pub is_noop_step : String → Bool
is_noop_step id =
    id == "validate-profile"
    || id == "resolve-wstunnel-host"
    || id == "skip-dns"
    || id == "verify-connected"

unfoldable pub is_wireguard_step : String → Bool
is_wireguard_step id =
    id == "create-wireguard-interface"
    || id == "apply-wireguard-addresses"
    || id == "apply-wireguard-peer"
    || id == "apply-client-routes"
    || id == "remove-client-routes"
    || id == "remove-wireguard-interface"

-- The cases of `Apply`, in the order of its tests.
pub data Handler : Type 0 where
  noop prerequisites missing store_state apply_dns restore_dns route : Handler
  start_wstunnel stop_wstunnel wireguard unsupported : Handler

unfoldable pub handler : Bool → Step → Handler
unfolding is_noop_step is_wireguard_step is_route_executor_step
handler state_missing step =
    if is_noop_step step.id
    then noop
    else if step.id == "validate-linux-prerequisites"
    then prerequisites
    else if step.depends_on_runtime && not (step.id == "clear-runtime-state") && state_missing
    then missing
    else if step.id == "store-runtime-state"
    then store_state
    else if step.id == "apply-dns"
    then apply_dns
    else if step.id == "restore-dns"
    then restore_dns
    else if is_route_executor_step "connect" step.id || is_route_executor_step "disconnect" step.id
    then route
    else if step.id == "start-wstunnel"
    then start_wstunnel
    else if step.id == "stop-wstunnel"
    then stop_wstunnel
    else if is_wireguard_step step.id
    then wireguard
    else unsupported

-- `recordRuntime` of the route executor, from here.
abbrev pub note : String → String → Lifecycle → Lifecycle
note step_id text l = record l { route = RouteExecutor.note operation_apply step_id text (l.route) }

module _ {W : Type 0} where
  abbrev pub in_route : {A : Type 0} → M (RouteExecutor × W) A → M (Lifecycle × W) A
  in_route m (l, w) = let (r, s) = m (l.route, w) in (r, (record l { route = s.0 }, s.1))

  abbrev pub in_dns : {A : Type 0} → M (DnsExecutor × W) A → M (Lifecycle × W) A
  in_dns m (l, w) = let (r, s) = m (l.dns, w) in (r, (record l { dns = s.0 }, s.1))

  abbrev pub in_wireguard : {A : Type 0} → M (WireguardExecutor × W) A → M (Lifecycle × W) A
  in_wireguard m (l, w) =
      let (r, s) = m (l.wireguard, w) in (r, (record l { wireguard = s.0 }, s.1))

  -- A method of a nil WSTunnel executor fails.
  abbrev pub in_wstunnel : M (WstunnelExecutor × W) (Unit {0}) → M (Lifecycle × W) (Unit {0})
  in_wstunnel m (l, w) = elim (l.wstunnel) [
    | none ↦ (err (failure "wstunnel executor is nil"), (l, w))
    | some e ↦ let (r, s) = m (e, w) in (r, (record l { wstunnel = some (s.0) }, s.1))
  ]

-- `ProcessInfo` of the WSTunnel executor.
unfoldable pub process_info : Option WstunnelExecutor → Option ProcessInfo
process_info none = none
process_info (some e) = e.process

unfoldable pub add_process : Option ProcessInfo → State → State
add_process none state = state
add_process (some info) state = with_wstunnel_process info.pid (argv info.command) state

module _ {W : Type 0} (host : Host W State) where
  unfoldable pub validate_prerequisites : String → List String → M (Lifecycle × W) (Unit {0})
  validate_prerequisites step_id [] s = (ok tt, s)
  validate_prerequisites step_id (binary ∷ binaries) (l, w) =
      elim (host.check_executable binary w) [
        | some e ↦ (err e, (l, w))
        | none ↦ validate_prerequisites step_id binaries (note step_id ("found " <> binary) l, w)
      ]

  unfoldable pub store_runtime_state : Step → M (Lifecycle × W) (Unit {0})
  unfolding process_info add_process
  store_runtime_state step (l, w) = elim (state_from_plan (l.route)) [
    | err e ↦ (err e, (l, w))
    | ok state ↦
        in_route (save_state host step (add_process (process_info (l.wstunnel)) state)) (l, w)
  ]

  -- Stops the process that the state names, if its command line is still the same.
  unfoldable pub stop_process : Step → Option ProcessState → M (Lifecycle × W) (Unit {0})
  stop_process step none (l, w) =
      (ok tt, (note step.id "no wstunnel process in runtime state" l, w))
  stop_process step (some p) (l, w) =
      if host.argv_matches p.pid p.argv w
      then (let (e, w') = host.stop_pid p.pid w in
          elim e [
            | some e ↦ (err e, (l, w'))
            | none ↦ (ok tt, (note step.id ("stop pid " <> show_ℤ p.pid) l, w'))
          ])
      else (
        ok tt,
        (
          note step.id ("skip pid " <> (show_ℤ p.pid <> ": argv does not match runtime state")) l,
          w,
        ),
      )

  unfoldable pub stop_wstunnel_process : Step → M (Lifecycle × W) (Unit {0})
  unfolding stop_process
  stop_wstunnel_process step = do
    state ← in_route (state_for_disconnect host)
    stop_process step state.wstunnel_process

  unfoldable pub configure_wireguard_from_runtime : M (Lifecycle × W) (Unit {0})
  configure_wireguard_from_runtime = do
    state ← in_route (state_for_disconnect host)
    in_wireguard (λ (e, w).
        (ok tt, (set_runtime_config state.wireguard_interface state.wireguard_allowed_ips e, w)))

  unfoldable pub restore : Step → M (Lifecycle × W) (Unit {0})
  restore step = do
    state ← in_route (state_for_disconnect host)
    in_dns (DnsExecutor.restore host step state)

  -- A disconnect takes the interface and the routes from the runtime state.
  unfoldable pub prepare_wireguard : M (Lifecycle × W) (Unit {0})
  unfolding configure_wireguard_from_runtime
  prepare_wireguard (l, w) =
      if l.plan.kind == "disconnect"
      then configure_wireguard_from_runtime (l, w)
      else (ok tt, (l, w))

  unfoldable pub apply_wireguard : Step → M (Lifecycle × W) (Unit {0})
  unfolding prepare_wireguard
  apply_wireguard step = do prepare_wireguard; in_wireguard (WireguardExecutor.apply host step)

  unfoldable pub handle : Handler → Step → M (Lifecycle × W) (Unit {0})
  unfolding validate_prerequisites store_runtime_state stop_wstunnel_process restore apply_wireguard
  handle noop step s = (ok tt, s)
  handle prerequisites step s = validate_prerequisites step.id (detail_values step "binary") s
  handle missing step (l, w) =
      (ok tt, (note step.id ("skip " <> (step.id <> ": no runtime state")) l, w))
  handle store_state step s = store_runtime_state step s
  handle apply_dns step s = in_dns (DnsExecutor.apply host step) s
  handle restore_dns step s = restore step s
  handle route step s = in_route (RouteExecutor.apply host step) s
  handle start_wstunnel step s = in_wstunnel (Supervisor.apply host step) s
  handle stop_wstunnel step s = stop_wstunnel_process step s
  handle wireguard step s = apply_wireguard step s
  handle unsupported step s = (err (failure ("unsupported linux lifecycle step: " <> step.id)), s)

  unfoldable pub apply : Step → M (Lifecycle × W) (Unit {0})
  unfolding handle handler
  apply step (l, w) = handle (handler (l.route.runtime_state_missing) step) step (l, w)

  unfoldable pub rollback : Step → M (Lifecycle × W) (Unit {0})
  rollback step s =
      if is_noop_step step.id
      then (ok tt, s)
      else if starts_with step.id "add-route-exclusion-"
      then in_route (RouteExecutor.rollback host step) s
      else if step.id == "apply-dns"
      then in_dns (DnsExecutor.rollback host step) s
      else if step.id == "start-wstunnel"
      then in_wstunnel (Supervisor.rollback host step) s
      else if is_wireguard_step step.id
      then in_wireguard (WireguardExecutor.rollback host step) s
      else (ok tt, s)

  abbrev pub lifecycle_executor : Executor (Lifecycle × W)
  lifecycle_executor = record { apply = apply; rollback = rollback }

-- `LifecycleExecutorOptions` but for the runners, the stopper, the writer and the look-up of paths,
-- which are the host's.
pub record LifecycleExecutorOptions : Type 0 where
  pub plan : Plan
  pub profile : Profile.Config
  pub wstunnel_binary : String
  pub runtime_root : String
  pub wireguard_iface : String
  pub wstunnel_log_level : String
  pub wstunnel_remote_host : String
  pub wstunnel_remote_port : ℤ

-- `firstNonEmpty`, of two texts.
abbrev pub first_non_empty : String → String → String
first_non_empty first second = if first == "" then second else first

-- The executor of the helper process, which a disconnect does not have.
unfoldable pub new_wstunnel :
    (String → Option Url) → LifecycleExecutorOptions → Result (Option WstunnelExecutor)
new_wstunnel parse_url options =
    if options.plan.kind == "disconnect"
    then ok none
    else bind_result
        (wstunnel_client_command parse_url (record {
          binary = first_non_empty options.wstunnel_binary default_wstunnel_binary;
          server_url = options.profile.wstunnel_url;
          path_prefix = options.profile.wstunnel_path;
          tls_server_name = first_non_empty options.profile.wstunnel_tls_name options.profile.sni;
          local_udp_listen = options.profile.local_udp_listen;
          remote_udp_host = options.wstunnel_remote_host;
          remote_udp_port = options.wstunnel_remote_port;
          log_level = options.wstunnel_log_level;
        }))
        λ command. bind_result (new_wstunnel_executor command) λ executor. ok (some executor)

-- A disconnect starts from the interface's name alone.
unfoldable pub wireguard_config : LifecycleExecutorOptions → Config
wireguard_config options =
    let iface = first_non_empty options.wireguard_iface options.plan.wireguard_interface in
    if options.plan.kind == "disconnect"
    then record {
      interface_name = iface;
      private_key = "";
      peer_public_key = "";
      preshared_key = "";
      endpoint = "";
      addresses = [];
      allowed_ips = [];
      mtu = pos 0;
      persistent_keepalive = pos 0;
    }
    else config_from_profile options.profile iface

-- `NewLifecycleExecutor`
unfoldable pub new_lifecycle : (String → Option Url) → LifecycleExecutorOptions → Result Lifecycle
new_lifecycle parse_url options =
    let root = first_non_empty options.runtime_root options.plan.runtime_root in
    bind_result (RouteExecutor.new_route_executor options.plan root) λ route.
      bind_result (new_wstunnel parse_url options) λ wstunnel.
        bind_result (WireguardExecutor.new_wireguard_executor (wireguard_config options) root)
          λ wireguard. ok (record {
            plan = options.plan;
            route = route;
            dns = DnsExecutor.new_dns_executor options.plan;
            wstunnel = wstunnel;
            wireguard = wireguard;
          })
