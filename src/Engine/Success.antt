-- ===== src/Engine/Success.antt =====
-- Disconnect runs of internal/engine/engine.go in which no step fails.
use mathlib.Core.List.{append-nil, append_assoc}
use big_red_button.Base.{◌≡◌, refl, sym, ◌∙◌, true, false, List, [], ◌∷◌, ◌++◌, Err, ok, arith}
use big_red_button.Planner.{Step, Plan}
use big_red_button.Engine.{
  Executor, RunResult, idle, disconnecting, started, note_skip, note_applied, disconnect_loop,
  run_disconnect, finish_disconnect, join_errors,
}
use big_red_button.Engine.Transaction.{Forward, ids}

module _ {S : Type 0} (ex : Executor S) where
  disconnect_loop_skip :
      (step : Step) (steps : List Step) (errors : List Err) (r : RunResult) (s : S)
      → step.skipped_until_apply ≡ true
      → disconnect_loop ex (step ∷ steps) errors r s
        ≡ disconnect_loop ex steps errors (note_skip step r) s
  unfolding disconnect_loop
  disconnect_loop_skip step steps errors r s skipped = ground arith

  disconnect_loop_call :
      (step : Step) (steps : List Step) (errors : List Err) (r : RunResult) (s t : S)
      → step.skipped_until_apply ≡ false
      → ex.apply step s ≡ (ok tt, t)
      → disconnect_loop ex (step ∷ steps) errors r s
        ≡ disconnect_loop ex steps errors (note_applied step r) t
  unfolding disconnect_loop
  disconnect_loop_call step steps errors r s t called fine = ground arith

  disconnect_loop-Forward :
      {steps applied : List Step} {s t : S}
      → Forward ex steps s applied t
      → (r : RunResult)
      → (r' : RunResult) × (disconnect_loop ex steps [] r s ≡ ([], r', t))
        × (r'.applied_step_ids ≡ r.applied_step_ids ++ ids applied)
  unfolding note_skip note_applied
  disconnect_loop-Forward Forward.stop r =
      (r, (unfold disconnect_loop in refl), sym (append-nil r.applied_step_ids))
  disconnect_loop-Forward (Forward.pass {step} {steps} {s = s} skipped forward) r =
      let (r', looped, listed) = disconnect_loop-Forward forward (note_skip step r) in
      (r', disconnect_loop_skip step steps [] r s skipped ∙ looped, listed)
  disconnect_loop-Forward (Forward.call {step} {steps} {s = s} {s'} called fine forward) r =
      let (r', looped, listed) = disconnect_loop-Forward forward (note_applied step r) in
      (
        r',
        disconnect_loop_call step steps [] r s s' called fine ∙ looped,
        listed ∙ append_assoc r.applied_step_ids (step.id ∷ []) _,
      )

  -- Where every step that is not skipped succeeds in turn, a disconnect run ends Idle in the state
  -- that the steps lead to, and reports exactly those steps as applied.
  pub run_disconnect-Forward :
      (plan : Plan) (s t : S) (applied : List Step)
      → Forward ex plan.steps s applied t
      → let out = run_disconnect ex plan s in
        (out.0.state ≡ idle) × (out.0.applied_step_ids ≡ ids applied) × (out.1 ≡ t)
  unfolding run_disconnect finish_disconnect join_errors
  run_disconnect-Forward plan s t applied forward =
      let (r', looped, listed) =
        disconnect_loop-Forward forward (started plan.kind disconnecting) in
      rw looped (refl, listed, refl)
