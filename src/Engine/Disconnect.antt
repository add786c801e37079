-- ===== src/Engine/Disconnect.antt =====
-- `runDisconnect`: every step is attempted, whatever fails before it.
use mathlib.Core.List.{append-nil, append_assoc}
use big_red_button.Base.{
  ◌≡◌, refl, sym, ◌∙◌, String, ◌==◌, true, false, List, [], ◌∷◌, ◌++◌, map, Err, ok, err, message,
  is_empty, if◌then◌else◌, Bool-cases, inl, inr, join,
}
use big_red_button.Planner.{Step, Plan}
use big_red_button.Engine.{
  Executor, RunResult, idle, failed_dirty, disconnecting, started, step_error, note_skip,
  note_applied, note_step_error, disconnect_loop, finish_disconnect, run_disconnect, join_errors,
}
use big_red_button.Engine.Transaction.{ids}
use big_red_button.Engine.Connect.{Call-cases}

module _ {S : Type 0} (ex : Executor S) where
  -- Every step that is not skipped is applied once, in order; the lists are the steps whose apply
  -- succeeded, those whose apply failed, and the errors.
  pub data Sweep : List Step → S → List Step → List Step → List Err → S → Type 0 where
    stop : {s : S} → Sweep [] s [] [] [] s
    pass :
        {step : Step} {steps applied failing : List Step} {errors : List Err} {s t : S}
        → step.skipped_until_apply ≡ true
        → Sweep steps s applied failing errors t
        → Sweep (step ∷ steps) s applied failing errors t
    call :
        {step : Step} {steps applied failing : List Step} {errors : List Err} {s s' t : S}
        → step.skipped_until_apply ≡ false
        → ex.apply step s ≡ (ok tt, s')
        → Sweep steps s' applied failing errors t
        → Sweep (step ∷ steps) s (step ∷ applied) failing errors t
    miss :
        {step : Step} {steps applied failing : List Step} {errors : List Err} {e : Err} {s s' t : S}
        → step.skipped_until_apply ≡ false
        → ex.apply step s ≡ (err e, s')
        → Sweep steps s' applied failing errors t
        → Sweep (step ∷ steps) s applied (step ∷ failing) (step_error step e ∷ errors) t

  -- The first id that is not empty.
  abbrev first_id : String → List Step → String
  first_id id [] = id
  first_id id (step ∷ steps) = first_id (if id == "" then step.id else id) steps

  record SweepRun (steps : List Step) (errors : List Err) (r : RunResult) (s : S)
      (out : List Err × RunResult × S) : Type 0 where
    applied : List Step
    failing : List Step
    met : List Err
    sweep : Sweep steps s applied failing met out.2
    joined : out.0 ≡ errors ++ met
    listed : out.1.applied_step_ids ≡ r.applied_step_ids ++ ids applied
    failed : out.1.failed_step_id ≡ first_id r.failed_step_id failing
    unspoken : out.1.error ≡ r.error

  disconnect_loop_lem :
      (steps : List Step) (errors : List Err) (r : RunResult) (s : S)
      → SweepRun steps errors r s (disconnect_loop ex steps errors r s)
  unfolding disconnect_loop note_skip note_applied note_step_error
  disconnect_loop_lem [] errors r s = record {
    applied = [];
    failing = [];
    met = [];
    sweep = Sweep.stop;
    joined = sym (append-nil errors);
    listed = sym (append-nil r.applied_step_ids);
    failed = refl;
    unspoken = refl;
  }
  disconnect_loop_lem (step ∷ steps) errors r s = elim (Bool-cases step.skipped_until_apply) [
    | inl skipped ↦
        simp (skipped, disconnect_loop)
          (let later = disconnect_loop_lem steps errors (note_skip step r) s in
            record {
              applied = later.applied;
              failing = later.failing;
              met = later.met;
              sweep = Sweep.pass skipped later.sweep;
              joined = later.joined;
              listed = later.listed;
              failed = later.failed;
              unspoken = later.unspoken;
            })
    | inr called ↦ elim (Call-cases (ex.apply step s)) [
      | inl (t, fine) ↦
          simp (called, fine, disconnect_loop)
            (let later = disconnect_loop_lem steps errors (note_applied step r) t in
              record {
                applied = step ∷ later.applied;
                failing = later.failing;
                met = later.met;
                sweep = Sweep.call called fine later.sweep;
                joined = later.joined;
                listed = later.listed ∙ append_assoc r.applied_step_ids (step.id ∷ []) _;
                failed = later.failed;
                unspoken = later.unspoken;
              })
      | inr (e, t, failing) ↦
          simp (called, failing, disconnect_loop)
            (let later =
                disconnect_loop_lem steps (errors ++ (step_error step e ∷ []))
                  (note_step_error step e r) t in
              record {
                applied = later.applied;
                failing = step ∷ later.failing;
                met = step_error step e ∷ later.met;
                sweep = Sweep.miss called failing later.sweep;
                joined = later.joined ∙ append_assoc errors (step_error step e ∷ []) _;
                listed = later.listed;
                failed = later.failed;
                unspoken = later.unspoken;
              })
    ]
  ]

  -- What a disconnect run may have done, and what it reports.
  pub record DisconnectRun (plan : Plan) (s : S) (r : RunResult) (t : S) : Type 0 where
    pub applied : List Step
    pub failing : List Step
    pub errors : List Err
    pub sweep : Sweep plan.steps s applied failing errors t
    pub state : r.state ≡ (if is_empty errors then idle else failed_dirty)
    pub listed : r.applied_step_ids ≡ ids applied
    pub failed : r.failed_step_id ≡ first_id "" failing
    pub error : r.error ≡ join "\n" (map message errors)

  finish_disconnect_lem :
      (errors : List Err) (r : RunResult)
      → r.error ≡ ""
      → let out = finish_disconnect errors r in
        (out.state ≡ (if is_empty errors then idle else failed_dirty))
        × (out.applied_step_ids ≡ r.applied_step_ids)
        × (out.failed_step_id ≡ r.failed_step_id)
        × (out.error ≡ join "\n" (map message errors))
  unfolding finish_disconnect join_errors message join
  finish_disconnect_lem [] r h = (refl, refl, refl, h)
  finish_disconnect_lem (e ∷ errors) r h = (refl, refl, refl, refl)

  -- A disconnect run applies every step that it does not skip, once and in order, even where an
  -- earlier one failed. It reports the applied steps, the first failed step, and the joined errors;
  -- its state is Idle if there were none, else FailedDirty.
  pub run_disconnect_lem :
      (plan : Plan) (s : S)
      → DisconnectRun plan s (run_disconnect ex plan s).0 (run_disconnect ex plan s).1
  unfolding run_disconnect
  run_disconnect_lem plan s =
      let start = started plan.kind disconnecting in
      let run = disconnect_loop_lem plan.steps [] start s in
      let out = disconnect_loop ex plan.steps [] start s in
      let (state, listed, failed, error) = finish_disconnect_lem out.0 out.1 run.unspoken in
      record {
        applied = run.applied;
        failing = run.failing;
        errors = run.met;
        sweep = run.sweep;
        state = state ∙ rw run.joined;
        listed = listed ∙ run.listed;
        failed = failed ∙ run.failed;
        error = error ∙ rw run.joined;
      }
