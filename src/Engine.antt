-- ===== src/Engine.antt =====
-- internal/engine/engine.go: runs a plan's steps against an executor, and undoes them on failure.
-- The executor is an interface of the source; the context that it passes on is part of the executor.
pub mod Transaction
pub mod Connect
pub mod Disconnect
pub mod Dispatch
pub mod Success
pub mod Split
use big_red_button.Base.{
  String, ◌<>◌, ◌==◌, Bool, true, false, ◌||◌, Option, none, some, List, [], ◌∷◌, ◌++◌, reverse,
  map, if◌then◌else◌, M, Err, Result, err, failure, message, wrap, join, done, is_empty,
}
use big_red_button.Planner.{
  Step, Plan, isolated_app_tunnel_kind, isolated_app_stop_kind, isolated_app_cleanup_kind,
}

pub data State : Type 0 where
  idle connecting connected disconnecting failed_recoverable failed_dirty : State

pub data Phase : Type 0 where
  apply rollback skip : Phase

pub data Status : Type 0 where
  ok failed skipped : Status

pub record Event : Type 0 where
  pub phase : Phase
  pub status : Status
  pub step_id : String
  pub error : String

pub record Executor (S : Type 0) : Type 0 where
  pub apply : Step → M S (Unit {0})
  pub rollback : Step → M S (Unit {0})

-- `engine.Result`
pub record RunResult : Type 0 where
  pub plan_kind : String
  pub state : State
  pub applied_step_ids : List String
  pub rolled_back_ids : List String
  pub skipped_step_ids : List String
  pub failed_step_id : String
  pub error : String
  pub rollback_error : String
  pub events : List Event

abbrev pub started : String → State → RunResult
started kind state = record {
  plan_kind = kind;
  state = state;
  applied_step_ids = [];
  rolled_back_ids = [];
  skipped_step_ids = [];
  failed_step_id = "";
  error = "";
  rollback_error = "";
  events = [];
}

abbrev event : Phase → Status → String → String → Event
event phase status id error = record { phase = phase; status = status; step_id = id; error = error }

unfoldable pub note_skip : Step → RunResult → RunResult
note_skip step r = record r {
  skipped_step_ids = r.skipped_step_ids ++ (step.id ∷ []);
  events = r.events ++ (event skip Status.skipped step.id "" ∷ []);
}

unfoldable pub note_applied : Step → RunResult → RunResult
note_applied step r = record r {
  applied_step_ids = r.applied_step_ids ++ (step.id ∷ []);
  events = r.events ++ (event apply Status.ok step.id "" ∷ []);
}

unfoldable pub note_failed : Step → Err → RunResult → RunResult
note_failed step e r = record r {
  failed_step_id = step.id;
  error = message e;
  events = r.events ++ (event apply failed step.id (message e) ∷ []);
  state = failed_recoverable;
}

unfoldable pub note_rolled_back : Step → RunResult → RunResult
note_rolled_back step r = record r {
  rolled_back_ids = r.rolled_back_ids ++ (step.id ∷ []);
  events = r.events ++ (event rollback Status.ok step.id "" ∷ []);
}

unfoldable pub note_rollback_failed : Step → Err → RunResult → RunResult
note_rollback_failed step e r = record r {
  events = r.events ++ (event rollback failed step.id (message e) ∷ []);
}

-- The branch of `runDisconnect` for a step that failed.
unfoldable pub note_step_error : Step → Err → RunResult → RunResult
note_step_error step e r = record r {
  failed_step_id = if r.failed_step_id == "" then step.id else r.failed_step_id;
  events = r.events ++ (event apply failed step.id (message e) ∷ []);
}

-- `fmt.Errorf("%s: %w", step.ID, err)`
abbrev pub step_error : Step → Err → Err
step_error step e = wrap (step.id <> ": ") e

-- `errors.Join(errs...)`: nil of no errors.
unfoldable pub join_errors : List Err → Option Err
unfolding message
join_errors [] = none
join_errors (e ∷ es) = some (failure (join "\n" (map message (e ∷ es))))

-- The end of `runDisconnect`.
unfoldable pub finish_disconnect : List Err → RunResult → RunResult
finish_disconnect errors r = elim (join_errors errors) [
  | none ↦ record r { state = idle }
  | some e ↦ record r { state = failed_dirty; error = message e }
]

unfoldable pub note_rollback_err : Option Err → RunResult → RunResult
note_rollback_err none r = r
note_rollback_err (some e) r = record r { state = failed_dirty; rollback_error = message e }

module _ {S : Type 0} (ex : Executor S) where
  -- The loop of `rollbackApplied`, over the applied steps from the last to the first.
  unfoldable pub rollback_loop : List Step → List Err → RunResult → S → List Err × RunResult × S
  rollback_loop [] errors r s = (errors, r, s)
  rollback_loop (step ∷ steps) errors r s = elim (is_empty step.rollback) [
    | true ↦ rollback_loop steps errors r s
    | false ↦
        let (res, s') = ex.rollback step s in
        elim res [
          | Result.ok _ ↦ rollback_loop steps errors (note_rolled_back step r) s'
          | err e ↦
              rollback_loop steps (errors ++ (step_error step e ∷ []))
                (note_rollback_failed step e r) s'
        ]
  ]

  unfoldable pub rollback_applied : List Step → RunResult → S → Option Err × RunResult × S
  unfolding rollback_loop
  rollback_applied applied r s =
      let (errors, r', s') = rollback_loop (reverse applied) [] r s in (join_errors errors, r', s')

  -- What a failed step of `runConnect` leads to.
  unfoldable pub abort : List Step → RunResult → S → RunResult × S
  unfolding rollback_applied
  abort applied r s =
      let (rollback_err, r', s') = rollback_applied applied r s in
      (note_rollback_err rollback_err r', s')

  unfoldable pub connect_loop : List Step → List Step → RunResult → S → RunResult × S
  connect_loop [] applied r s = (record r { state = connected }, s)
  connect_loop (step ∷ steps) applied r s = elim step.skipped_until_apply [
    | true ↦ connect_loop steps applied (note_skip step r) s
    | false ↦
        let (res, s') = ex.apply step s in
        elim res [
          | Result.ok _ ↦ connect_loop steps (applied ++ (step ∷ [])) (note_applied step r) s'
          | err e ↦ abort applied (note_failed step e r) s'
        ]
  ]

  unfoldable pub run_connect : Plan → S → RunResult × S
  run_connect plan s = connect_loop plan.steps [] (started plan.kind connecting) s

  unfoldable pub disconnect_loop : List Step → List Err → RunResult → S → List Err × RunResult × S
  disconnect_loop [] errors r s = (errors, r, s)
  disconnect_loop (step ∷ steps) errors r s = elim step.skipped_until_apply [
    | true ↦ disconnect_loop steps errors (note_skip step r) s
    | false ↦
        let (res, s') = ex.apply step s in
        elim res [
          | Result.ok _ ↦ disconnect_loop steps errors (note_applied step r) s'
          | err e ↦
              disconnect_loop steps (errors ++ (step_error step e ∷ [])) (note_step_error step e r)
                s'
        ]
  ]

  unfoldable pub run_disconnect : Plan → S → RunResult × S
  run_disconnect plan s =
      let (errors, r, s') = disconnect_loop plan.steps [] (started plan.kind disconnecting) s in
      (finish_disconnect errors r, s')

-- `Engine.Run`; `none` is a nil engine or executor.
unfoldable pub run : {S : Type 0} → Option (Executor S) → Plan → S → RunResult × S
run none plan s = (record (started plan.kind failed_dirty) { error = "engine executor is nil" }, s)
run (some ex) plan s =
    if plan.kind == "connect" || plan.kind == isolated_app_tunnel_kind
    then run_connect ex plan s
    else if plan.kind == "disconnect"
        || plan.kind == isolated_app_stop_kind
        || plan.kind == isolated_app_cleanup_kind
    then run_disconnect ex plan s
    else (
      record (started plan.kind failed_dirty) { error = "unsupported plan kind: " <> plan.kind },
      s,
    )
