-- ===== src/Linux/RouteExecutor.antt =====
-- internal/platform/linux/route_executor.go. The executor's fields that change are threaded with the
-- machine's state; Go's order over the map of discovered routes is that of insertion here.
use big_red_button.Base.{
  String, ◌<>◌, ◌==◌, starts_with, Bool, true, false, ◌||◌, none, some, List, [], ◌∷◌, ◌++◌, Result,
  ok, err, failure, not_exist, bind_result, if◌then◌else◌, M, ◌>>=◌, ◌>>◌, done, fail, lift,
  contains,
}
use big_red_button.Base.Int.{equals}
use big_red_button.Base.Text.{trim_space}
use big_red_button.Planner.{Step, Plan}
use big_red_button.Routes.{EndpointExclusion}
use big_red_button.Runtime.{State, no_state, new_state_from_connect_plan, checked}
use big_red_button.Runtime.Store.{save, load, clear, store_path}
use big_red_button.Host.{Host, call}
use big_red_button.Linux.{
  Command, Operation, OperationPhase, operation_apply, operation_rollback, Action,
}
use big_red_button.Linux.Commands.{
  route_get_command, add_endpoint_exclusion_command, delete_endpoint_exclusion_command,
}
use big_red_button.Linux.RouteGet.{endpoint_exclusion_from_route_get}
use big_red_button.Linux.Details.{Dict, lookup, insert, route_exclusion_map, endpoint_ip_from_step}

pub record RouteExecutor : Type 0 where
  pub plan : Plan
  pub route_exclusions_by_endpoint : Dict EndpointExclusion
  pub discovered_by_endpoint : Dict EndpointExclusion
  pub runtime_state : State
  pub store_root : String
  pub runtime_state_missing : Bool
  pub operations : List Operation

check_all : List EndpointExclusion → Result (Unit {0})
check_all [] = ok tt
check_all (exclusion ∷ exclusions) =
    bind_result (add_endpoint_exclusion_command exclusion) λ _. check_all exclusions

values : Dict EndpointExclusion → List EndpointExclusion
values [] = []
values ((_, exclusion) ∷ d) = exclusion ∷ values d

unfoldable pub new_route_executor : Plan → String → Result RouteExecutor
unfolding check_all values
new_route_executor plan runtime_root =
    bind_result (check_all (values (route_exclusion_map plan.route_exclusions))) λ _. ok (record {
      plan = plan;
      route_exclusions_by_endpoint = route_exclusion_map plan.route_exclusions;
      discovered_by_endpoint = [];
      runtime_state = no_state;
      store_root =
          if trim_space runtime_root == "" then plan.runtime_root else trim_space runtime_root;
      runtime_state_missing = false;
      operations = [];
    })

-- The cases of `Apply`.
pub data RouteStep : Type 0 where
  snapshot exclude store_state read_state remove_exclusions clear_state unsupported : RouteStep

unfoldable pub route_step : String → RouteStep
route_step id =
    if starts_with id "snapshot-route-"
    then snapshot
    else if starts_with id "add-route-exclusion-"
    then exclude
    else if id == "store-runtime-state"
    then store_state
    else if id == "read-runtime-state"
    then read_state
    else if id == "remove-endpoint-route-exclusions"
    then remove_exclusions
    else if id == "clear-runtime-state"
    then clear_state
    else unsupported

unfoldable pub is_route_executor_step : String → String → Bool
is_route_executor_step plan_kind id =
    if plan_kind == "connect"
    then starts_with id "snapshot-route-"
      || starts_with id "add-route-exclusion-"
      || id == "store-runtime-state"
    else if plan_kind == "disconnect"
    then id == "read-runtime-state"
      || id == "remove-endpoint-route-exclusions"
      || id == "clear-runtime-state"
    else false

endpoint_ips : List EndpointExclusion → List String
endpoint_ips [] = []
endpoint_ips (exclusion ∷ exclusions) = exclusion.endpoint_ip ∷ endpoint_ips exclusions

-- The discovered exclusions whose endpoint is not one of the given ones. The map's keys are the
-- endpoints of its exclusions, so no two of them have one endpoint.
new_exclusions : List String → Dict EndpointExclusion → List EndpointExclusion
unfolding contains
new_exclusions seen [] = []
new_exclusions seen ((_, exclusion) ∷ discovered) =
    let rest = new_exclusions seen discovered in
    if contains seen exclusion.endpoint_ip then rest else exclusion ∷ rest

unfoldable pub merge_route_exclusions :
    List EndpointExclusion → Dict EndpointExclusion → List EndpointExclusion
unfolding new_exclusions endpoint_ips
merge_route_exclusions base discovered = base ++ new_exclusions (endpoint_ips base) discovered

abbrev log : Action → OperationPhase → String → RouteExecutor → RouteExecutor
log action phase step_id e = record e {
  operations = e.operations ++ (record { phase = phase; step_id = step_id; action = action } ∷ []);
}

unfoldable pub state_from_plan : RouteExecutor → Result State
unfolding checked
state_from_plan e = bind_result (new_state_from_connect_plan e.plan) λ state.
    checked (record state {
      route_exclusions = merge_route_exclusions state.route_exclusions e.discovered_by_endpoint;
    })

find_exclusion : RouteExecutor → String → Result EndpointExclusion
find_exclusion e ip = elim (lookup ip e.route_exclusions_by_endpoint) [
  | some exclusion ↦ ok exclusion
  | none ↦ elim (lookup ip e.discovered_by_endpoint) [
    | some exclusion ↦ ok exclusion
    | none ↦ err (failure ("route exclusion for endpoint " <> (ip <> " is not resolved")))
  ]
]

unfoldable pub route_exclusion_for_step : RouteExecutor → Step → Result EndpointExclusion
unfolding find_exclusion
route_exclusion_for_step e step = bind_result (endpoint_ip_from_step step) (find_exclusion e)

-- `storePath`, for the notes.
unfoldable pub path_note : RouteExecutor → String
path_note e = elim (store_path e.store_root) [ ok path ↦ path | err _ ↦ e.store_root ]

abbrev pub set_loaded : State → RouteExecutor → RouteExecutor
set_loaded state e = record e {
  runtime_state = state;
  runtime_state_missing = false;
  route_exclusions_by_endpoint = route_exclusion_map state.route_exclusions;
}

abbrev pub set_missing : RouteExecutor → RouteExecutor
set_missing e = record e { runtime_state_missing = true }

-- `recordRuntime`
abbrev pub note : OperationPhase → String → String → RouteExecutor → RouteExecutor
note phase step_id text = log (Action.runtime text) phase step_id

abbrev pub update :
    {W : Type 0} → (RouteExecutor → RouteExecutor) → M (RouteExecutor × W) (Unit {0})
update f (e, w) = (ok tt, (f e, w))

-- A result that is computed from the executor.
abbrev pub asks : {A W : Type 0} → (RouteExecutor → Result A) → M (RouteExecutor × W) A
asks f (e, w) = (f e, (e, w))

module _ {W : Type 0} (host : Host W State) where
  -- The executor's `run`.
  unfoldable pub run : OperationPhase → String → Command → M (RouteExecutor × W) String
  run phase step_id command (e, w) =
      let (r, w') = call host command w in (r, (log (Action.command command) phase step_id e, w'))

  abbrev pub on_host : {A : Type 0} → M W A → M (RouteExecutor × W) A
  on_host m (e, w) = let (r, w') = m w in (r, (e, w'))

  unfoldable pub snapshot_route : Step → M (RouteExecutor × W) (Unit {0})
  snapshot_route step = do
    ip ← lift (endpoint_ip_from_step step)
    command ← lift (route_get_command ip)
    output ← run operation_apply step.id command
    exclusion ← lift (endpoint_exclusion_from_route_get output)
    update (λ e. record e {
      discovered_by_endpoint = insert exclusion.endpoint_ip exclusion e.discovered_by_endpoint;
    })

  unfoldable pub run_only : OperationPhase → String → Command → M (RouteExecutor × W) (Unit {0})
  run_only phase step_id command = do _ ← run phase step_id command; done

  unfoldable pub add_exclusion : Step → M (RouteExecutor × W) (Unit {0})
  add_exclusion step = do
    exclusion ← asks (λ e. route_exclusion_for_step e step)
    command ← lift (add_endpoint_exclusion_command exclusion)
    run_only operation_apply step.id command

  unfoldable pub save_state : Step → State → M (RouteExecutor × W) (Unit {0})
  save_state step state (e, w) = elim (save host e.store_root state w).0 [
    | err x ↦ (err x, (e, (save host e.store_root state w).1))
    | ok _ ↦ (
      ok tt,
      (
        note operation_apply step.id ("save " <> path_note e) (record e { runtime_state = state }),
        (save host e.store_root state w).1,
      ),
    )
  ]

  -- The case "store-runtime-state" of `Apply`.
  unfoldable pub store_runtime_state : Step → M (RouteExecutor × W) (Unit {0})
  store_runtime_state step = do state ← asks state_from_plan; save_state step state

  unfoldable pub read_runtime_state : Step → M (RouteExecutor × W) (Unit {0})
  read_runtime_state step (e, w) = elim (load host e.store_root w) [
    | ok state ↦
        (ok tt, (note operation_apply step.id ("load " <> path_note e) (set_loaded state e), w))
    | err x ↦ elim x [
      | not_exist _ ↦ (
        ok tt,
        (note operation_apply step.id ("no runtime state at " <> path_note e) (set_missing e), w),
      )
      | failure m ↦ (err (failure m), (e, w))
    ]
  ]

  unfoldable pub state_for_disconnect : M (RouteExecutor × W) State
  state_for_disconnect (e, w) =
      if equals e.runtime_state.version 0
      then if e.runtime_state_missing
        then (ok no_state, (e, w))
        else elim (load host e.store_root w) [
          | ok state ↦ (ok state, (set_loaded state e, w))
          | err x ↦ elim x [
            | not_exist _ ↦ (ok no_state, (set_missing e, w))
            | failure m ↦ (err (failure m), (e, w))
          ]
        ]
      else (ok e.runtime_state, (e, w))

  unfoldable pub delete_all : Step → List EndpointExclusion → M (RouteExecutor × W) (Unit {0})
  delete_all step [] = done
  delete_all step (exclusion ∷ exclusions) = do
    command ← lift (delete_endpoint_exclusion_command exclusion)
    run_only operation_apply step.id command
    delete_all step exclusions

  unfoldable pub remove_endpoint_exclusions : Step → M (RouteExecutor × W) (Unit {0})
  remove_endpoint_exclusions step = do
    state ← state_for_disconnect
    delete_all step state.route_exclusions

  unfoldable pub clear_runtime_state : Step → M (RouteExecutor × W) (Unit {0})
  clear_runtime_state step = do
    root ← asks (λ e. ok e.store_root)
    on_host (clear host root)
    update (λ e. note operation_apply step.id ("clear " <> path_note e) e)

  unfoldable pub apply_route_step : RouteStep → Step → M (RouteExecutor × W) (Unit {0})
  unfolding snapshot_route add_exclusion store_runtime_state read_runtime_state
      remove_endpoint_exclusions clear_runtime_state
  apply_route_step snapshot step = snapshot_route step
  apply_route_step exclude step = add_exclusion step
  apply_route_step store_state step = store_runtime_state step
  apply_route_step read_state step = read_runtime_state step
  apply_route_step remove_exclusions step = remove_endpoint_exclusions step
  apply_route_step clear_state step = clear_runtime_state step
  apply_route_step unsupported step =
      fail (failure ("unsupported linux route executor step: " <> step.id))

  unfoldable pub apply : Step → M (RouteExecutor × W) (Unit {0})
  unfolding apply_route_step route_step
  apply step = apply_route_step (route_step step.id) step

  unfoldable pub delete_exclusion : Step → M (RouteExecutor × W) (Unit {0})
  delete_exclusion step = do
    exclusion ← asks (λ e. route_exclusion_for_step e step)
    command ← lift (delete_endpoint_exclusion_command exclusion)
    run_only operation_rollback step.id command

  unfoldable pub rollback : Step → M (RouteExecutor × W) (Unit {0})
  unfolding delete_exclusion
  rollback step =
      if starts_with step.id "add-route-exclusion-"
      then delete_exclusion step
      else fail (failure ("unsupported linux route executor step: " <> step.id))
