-- ===== src/Engine/Connect.antt =====
-- `runConnect` and `rollbackApplied`: every run is one of the two transactions of
-- Engine/Transaction.antt.
use mathlib.Core.List.{append-nil, append_assoc, map-append}
use big_red_button.Base.{
  ◌≡◌, refl, sym, ap, subst, ◌∙◌, String, true, false, List, [], ◌∷◌, ◌++◌, reverse, Err, Result,
  ok, err, is_empty, if◌then◌else◌, Bool-cases, ◌⊎◌, inl, inr, arith,
}
use big_red_button.Planner.{Step, Plan}
use big_red_button.Engine.{
  Executor, RunResult, failed_dirty, connecting, started, step_error, note_skip, note_applied,
  note_failed, note_rolled_back, note_rollback_failed, rollback_loop, abort, connect_loop,
  run_connect, join_errors, note_rollback_err,
}
use big_red_button.Engine.Transaction.{Forward, Backward, ConnectRun, completed, aborted, ids}

-- The two outcomes of a call that returns only an error.
pub Call-cases :
    {S : Type 0} (p : Result (Unit {0}) × S)
    → ((t : S) × (p ≡ (ok tt, t))) ⊎ ((e : Err) × (t : S) × (p ≡ (err e, t)))
Call-cases (ok _, t) = inl (t, refl)
Call-cases (err e, t) = inr (e, t, refl)

note_rollback_err_lem :
    (errors : List Err) (r : RunResult)
    → let out = note_rollback_err (join_errors errors) r in
      (out.state ≡ (if is_empty errors then r.state else failed_dirty))
      × (out.applied_step_ids ≡ r.applied_step_ids)
      × (out.rolled_back_ids ≡ r.rolled_back_ids)
      × (out.failed_step_id ≡ r.failed_step_id)
unfolding note_rollback_err join_errors
note_rollback_err_lem [] r = (refl, refl, refl, refl)
note_rollback_err_lem (e ∷ errors) r = (refl, refl, refl, refl)

listed_more :
    (earlier : List Step) (step : Step) (listed : List String)
    → listed ≡ ids earlier
    → listed ++ (step.id ∷ []) ≡ ids (earlier ++ (step ∷ []))
listed_more earlier step listed h = rw h (sym (map-append (λ step. step.id) earlier (step ∷ [])))

module _ {S : Type 0} (ex : Executor S) where
  record LoopBack (steps : List Step) (errors : List Err) (r : RunResult) (s : S)
      (out : List Err × RunResult × S) : Type 0 where
    undone : List Step
    met : List Err
    back : Backward ex steps s undone met out.2
    joined : out.0 ≡ errors ++ met
    rolled_back : out.1.rolled_back_ids ≡ r.rolled_back_ids ++ ids undone
    same_state : out.1.state ≡ r.state
    same_applied : out.1.applied_step_ids ≡ r.applied_step_ids
    same_failed : out.1.failed_step_id ≡ r.failed_step_id

  rollback_loop_lem :
      (steps : List Step) (errors : List Err) (r : RunResult) (s : S)
      → LoopBack steps errors r s (rollback_loop ex steps errors r s)
  unfolding rollback_loop note_rolled_back note_rollback_failed
  rollback_loop_lem [] errors r s = record {
    undone = [];
    met = [];
    back = Backward.stop;
    joined = sym (append-nil errors);
    rolled_back = sym (append-nil r.rolled_back_ids);
    same_state = refl;
    same_applied = refl;
    same_failed = refl;
  }
  rollback_loop_lem (step ∷ steps) errors r s = elim (Bool-cases (is_empty step.rollback)) [
    | inl nothing ↦
        rw (nothing, rollback_loop)
          (let later = rollback_loop_lem steps errors r s in
            record {
              undone = later.undone;
              met = later.met;
              back = Backward.pass nothing later.back;
              joined = later.joined;
              rolled_back = later.rolled_back;
              same_state = later.same_state;
              same_applied = later.same_applied;
              same_failed = later.same_failed;
            })
    | inr something ↦ elim (Call-cases (ex.rollback step s)) [
      | inl (t, called) ↦
          rw (something, called, rollback_loop)
            (rw called (
              let later = rollback_loop_lem steps errors (note_rolled_back step r) t in
              record {
                undone = step ∷ later.undone;
                met = later.met;
                back = Backward.undo something called later.back;
                joined = later.joined;
                rolled_back = later.rolled_back ∙ append_assoc r.rolled_back_ids (step.id ∷ []) _;
                same_state = later.same_state;
                same_applied = later.same_applied;
                same_failed = later.same_failed;
              }))
      | inr (e, t, called) ↦
          rw (something, called, rollback_loop)
            (rw called (
              let later =
                rollback_loop_lem steps (errors ++ (step_error step e ∷ []))
                  (note_rollback_failed step e r) t in
              record {
                undone = later.undone;
                met = step_error step e ∷ later.met;
                back = Backward.stuck something called later.back;
                joined = later.joined ∙ append_assoc errors (step_error step e ∷ []) _;
                rolled_back = later.rolled_back;
                same_state = later.same_state;
                same_applied = later.same_applied;
                same_failed = later.same_failed;
              }))
    ]
  ]

  -- A failed step: what was applied is rolled back from the last step to the first.
  abort_lem :
      (earlier before after applied : List Step) (step : Step) (e : Err) (r : RunResult)
      (s s' s'' : S)
      → Forward ex before s applied s'
      → step.skipped_until_apply ≡ false
      → ex.apply step s' ≡ (err e, s'')
      → r.rolled_back_ids ≡ []
      → r.applied_step_ids ≡ ids (earlier ++ applied)
      → let out = abort ex (earlier ++ applied) (note_failed step e r) s'' in
        ConnectRun ex earlier (before ++ (step ∷ after)) s out.0 out.1
  unfolding abort note_failed
  abort_lem earlier before after applied step e r s s' s'' forward called failing clean listed =
      let first = note_failed step e r in
      let back = rollback_loop_lem (reverse (earlier ++ applied)) [] first s'' in
      let (state, app, rolled, failed) =
        note_rollback_err_lem (rollback_loop ex (reverse (earlier ++ applied)) [] first s'').0
          (rollback_loop ex (reverse (earlier ++ applied)) [] first s'').1 in
      aborted before after applied back.undone step e back.met s' s'' refl forward called failing
        back.back (state ∙ (rw (back.joined, back.same_state))) (app ∙ back.same_applied ∙ listed)
        (rolled ∙ back.rolled_back ∙ rw clean) (failed ∙ back.same_failed)

  prepend_pass :
      (earlier : List Step) {step : Step} {steps : List Step} {s t : S} {r : RunResult}
      → step.skipped_until_apply ≡ true
      → ConnectRun ex earlier steps s r t
      → ConnectRun ex earlier (step ∷ steps) s r t
  prepend_pass earlier skipped (completed applied forward a b c d) =
      completed applied (Forward.pass skipped forward) a b c d
  prepend_pass earlier {step} skipped
        (aborted before after applied undone failed e errors s' s'' split forward a b c d f g h) =
      aborted (step ∷ before) after applied undone failed e errors s' s'' (ap (λ l. step ∷ l) split)
        (Forward.pass skipped forward) a b c d f g h

  prepend_call :
      (earlier : List Step) {step : Step} {steps : List Step} {s s' t : S} {r : RunResult}
      → step.skipped_until_apply ≡ false
      → ex.apply step s ≡ (ok tt, s')
      → ConnectRun ex (earlier ++ (step ∷ [])) steps s' r t
      → ConnectRun ex earlier (step ∷ steps) s r t
  prepend_call earlier {step} called applied_ok (completed applied forward a b c d) =
      completed (step ∷ applied) (Forward.call called applied_ok forward) a
        (b ∙ ap ids (append_assoc earlier (step ∷ []) applied)) c d
  prepend_call earlier {step} {t = t} called applied_ok
        (aborted before after applied undone failed e errors s' s'' split forward a b c d f g h) =
      let regroup = append_assoc earlier (step ∷ []) applied in
      aborted (step ∷ before) after (step ∷ applied) undone failed e errors s' s''
        (ap (λ l. step ∷ l) split) (Forward.call called applied_ok forward) a b
        (subst (λ l. Backward ex (reverse l) s'' undone errors t) regroup c) d (f ∙ ap ids regroup)
        g h

  connect_loop_skip :
      (step : Step) (steps applied : List Step) (r : RunResult) (s : S)
      → step.skipped_until_apply ≡ true
      → connect_loop ex (step ∷ steps) applied r s
        ≡ connect_loop ex steps applied (note_skip step r) s
  unfolding connect_loop
  connect_loop_skip step steps applied r s skipped = ground arith

  connect_loop_call :
      (step : Step) (steps applied : List Step) (r : RunResult) (s t : S)
      → step.skipped_until_apply ≡ false
      → ex.apply step s ≡ (ok tt, t)
      → connect_loop ex (step ∷ steps) applied r s
        ≡ connect_loop ex steps (applied ++ (step ∷ [])) (note_applied step r) t
  unfolding connect_loop
  connect_loop_call step steps applied r s t called fine = ground arith

  connect_loop_fail :
      (step : Step) (steps applied : List Step) (r : RunResult) (s t : S) (e : Err)
      → step.skipped_until_apply ≡ false
      → ex.apply step s ≡ (err e, t)
      → connect_loop ex (step ∷ steps) applied r s ≡ abort ex applied (note_failed step e r) t
  unfolding connect_loop
  connect_loop_fail step steps applied r s t e called failing = ground arith

  connect_loop_lem :
      (steps earlier : List Step) (r : RunResult) (s : S)
      → r.rolled_back_ids ≡ []
      → r.failed_step_id ≡ ""
      → r.applied_step_ids ≡ ids earlier
      → let out = connect_loop ex steps earlier r s in ConnectRun ex earlier steps s out.0 out.1
  unfolding note_skip note_applied
  connect_loop_lem [] earlier r s clean unfailed listed =
      unfold connect_loop in
      completed [] Forward.stop refl (listed ∙ ap ids (sym (append-nil earlier))) clean unfailed
  connect_loop_lem (step ∷ steps) earlier r s clean unfailed listed =
      elim (Bool-cases step.skipped_until_apply) [
        | inl skipped ↦ rw (connect_loop_skip step steps earlier r s skipped) (
            prepend_pass earlier skipped
              (connect_loop_lem steps earlier (note_skip step r) s clean unfailed listed))
        | inr called ↦ elim (Call-cases (ex.apply step s)) [
          | inl (t, fine) ↦ rw (connect_loop_call step steps earlier r s t called fine) (
              prepend_call earlier called fine (
                connect_loop_lem steps (earlier ++ (step ∷ [])) (note_applied step r) t clean
                  unfailed (listed_more earlier step r.applied_step_ids listed)))
          | inr (e, t, failing) ↦ rw (connect_loop_fail step steps earlier r s t e called failing) (
              rw (append-nil earlier) at (
                abort_lem earlier [] steps [] step e r s s t Forward.stop called failing clean
                  (listed ∙ ap ids (sym (append-nil earlier)))))
        ]
      ]

-- A connect run either applies every step that it does not skip, in order, and reports
-- Connected; or it stops at the first step whose apply fails, rolls back the applied steps that
-- have something to undo from the last to the first, each of them even if another fails, and
-- reports the failed step and FailedRecoverable if every rollback succeeded, else FailedDirty. The
-- report lists just the applied and the rolled back steps.
pub run_connect_lem :
    {S : Type 0} (ex : Executor S) (plan : Plan) (s : S)
    → ConnectRun ex [] plan.steps s (run_connect ex plan s).0 (run_connect ex plan s).1
unfolding run_connect
run_connect_lem ex plan s =
    connect_loop_lem ex plan.steps [] (started plan.kind connecting) s refl refl refl
