-- ===== src/Engine/Transaction.antt =====
-- What a run of a plan is, said without the engine's loops: a pass forward over the steps, and a
-- pass backward over the steps that were applied.
use big_red_button.Base.{
  ◌≡◌, String, true, false, List, [], ◌∷◌, ◌++◌, reverse, map, Err, ok, err, is_empty,
  if◌then◌else◌,
}
use big_red_button.Planner.{Step}
use big_red_button.Engine.{
  Executor, RunResult, connected, failed_recoverable, failed_dirty, step_error,
}

abbrev pub ids : List Step → List String
ids = map (λ step. step.id)

module _ {S : Type 0} (ex : Executor S) where
  -- All steps pass in order: a skipped one is not called, any other is applied with no error.
  pub data Forward : List Step → S → List Step → S → Type 0 where
    stop : {s : S} → Forward [] s [] s
    pass :
        {step : Step} {steps applied : List Step} {s t : S}
        → step.skipped_until_apply ≡ true
        → Forward steps s applied t
        → Forward (step ∷ steps) s applied t
    call :
        {step : Step} {steps applied : List Step} {s s' t : S}
        → step.skipped_until_apply ≡ false
        → ex.apply step s ≡ (ok tt, s')
        → Forward steps s' applied t
        → Forward (step ∷ steps) s (step ∷ applied) t

  -- Every step with something to undo is rolled back in order, whether or not an earlier one
  -- failed; the lists are the steps undone and the errors met.
  pub data Backward : List Step → S → List Step → List Err → S → Type 0 where
    stop : {s : S} → Backward [] s [] [] s
    pass :
        {step : Step} {steps undone : List Step} {errors : List Err} {s t : S}
        → is_empty step.rollback ≡ true
        → Backward steps s undone errors t
        → Backward (step ∷ steps) s undone errors t
    undo :
        {step : Step} {steps undone : List Step} {errors : List Err} {s s' t : S}
        → is_empty step.rollback ≡ false
        → ex.rollback step s ≡ (ok tt, s')
        → Backward steps s' undone errors t
        → Backward (step ∷ steps) s (step ∷ undone) errors t
    stuck :
        {step : Step} {steps undone : List Step} {errors : List Err} {e : Err} {s s' t : S}
        → is_empty step.rollback ≡ false
        → ex.rollback step s ≡ (err e, s')
        → Backward steps s' undone errors t
        → Backward (step ∷ steps) s undone (step_error step e ∷ errors) t

  -- What a connect run over `steps` from `s` may have done, and what it reports, where the steps
  -- `earlier` were applied before.
  pub data ConnectRun (earlier steps : List Step) (s : S) (r : RunResult) (t : S) : Type 0 where
    completed :
        (applied : List Step)
        → Forward steps s applied t
        → r.state ≡ connected
        → r.applied_step_ids ≡ ids (earlier ++ applied)
        → r.rolled_back_ids ≡ []
        → r.failed_step_id ≡ ""
        → ConnectRun earlier steps s r t
    aborted :
        (before after applied undone : List Step) (step : Step) (e : Err) (errors : List Err)
        (s' s'' : S)
        → steps ≡ before ++ (step ∷ after)
        → Forward before s applied s'
        → step.skipped_until_apply ≡ false
        → ex.apply step s' ≡ (err e, s'')
        → Backward (reverse (earlier ++ applied)) s'' undone errors t
        → r.state ≡ (if is_empty errors then failed_recoverable else failed_dirty)
        → r.applied_step_ids ≡ ids (earlier ++ applied)
        → r.rolled_back_ids ≡ ids undone
        → r.failed_step_id ≡ step.id
        → ConnectRun earlier steps s r t
