-- ===== src/Linux/IsolatedExecutor/Dispatch/BestEffort.antt =====
-- The cleanup of internal/platform/linux/isolated_executor.go goes on whatever its commands answer.
use big_red_button.Base.{
  ◌≡◌, refl, ℕ, suc, String, Option, none, some, List, [], ◌∷◌, ok, Err, All, Bool, true, false,
  Result, M, ◌>>◌, done, inl, inr, eqb, if◌then◌else◌, Bool-cases, Option-cases, show_ℤ, ◌<>◌,
  message,
}
use big_red_button.Base.Int.{ℤ}
use big_red_button.Base.Text.{fields}
use big_red_button.Base.FilePath.{join_path}
use big_red_button.Engine.{Executor}
use big_red_button.Engine.Transaction.{Forward}
use big_red_button.Linux.Details.{detail_value}
use big_red_button.Linux.IsolatedCommands.{net_ns_pids_command, net_ns_exec_command}
use big_red_button.Planner.{Step}
use big_red_button.Runtime.{State}
use big_red_button.Host.{Host, Answer-cases}
use big_red_button.Linux.{Command, OperationPhase, operation_apply}
use big_red_button.Linux.IsolatedExecutor.{
  IsolatedExecutor, record_command, record_runtime, run_best_effort, run_best_effort_built,
  run_namespaced_best_effort,
}
use big_red_button.Linux.IsolatedExecutor.Processes.{
  cleanup_pids, cleanup_answer, pids_of, cleanup_isolated_processes,
}
use big_red_button.Linux.IsolatedExecutor.Teardown.{
  cleanup_namespace_dns, remove_runtime_root, root_of,
}

-- A call that returns no error from any state.
abbrev pub Always : {S : Type 0} → M S (Unit {0}) → Type 0
Always {S} m = (s : S) → (m s).0 ≡ ok tt

pub Always-then : {S : Type 0} (m k : M S (Unit {0})) → Always m → Always k → Always (m >> k)
Always-then m k first second s = cc (first s, second (m s).1)

-- All steps of a list pass, where each passes from any state.
pub All-Forward :
    {S : Type 0} (ex : Executor S) (steps : List Step)
    → All (λ step. (step.skipped_until_apply ≡ false) × Always (ex.apply step)) steps
    → (s : S) → (t : S) × Forward ex steps s steps t
All-Forward ex [] h s = (s, Forward.stop)
All-Forward ex (step ∷ steps) (here, rest) s =
    let (t, later) = All-Forward ex steps rest (ex.apply step s).1 in
    (t, Forward.call here.0 (λ i. (here.1 s i, (ex.apply step s).1)) later)

pub Always-if :
    {S : Type 0} (b : Bool) (m : M S (Unit {0})) → Always m → Always (if b then done else m)
Always-if true m always s = refl
Always-if false m always s = always s

module _ {W : Type 0} (host : Host W State) where
  pub run_best_effort-Always :
      (phase : OperationPhase) (step_id : String) (command : Command)
      → Always (run_best_effort host phase step_id command)
  unfolding run_best_effort record_command record_runtime
  run_best_effort-Always phase step_id command (e, w) = elim (Answer-cases (host.run command w)) [
    | inl (out, w', ran) ↦ cc
    | inr (out, x, w', ran) ↦ cc
  ]

  -- The loop over the processes comes to an end with a count.
  cleanup_pids-ok :
      (step_id : String) (pids : List ℤ) (stopped : ℕ) (s : IsolatedExecutor × W)
      → (n : ℕ) × ((cleanup_pids host step_id pids stopped s).0 ≡ ok n)
  unfolding cleanup_pids record_runtime
  cleanup_pids-ok step_id [] stopped (e, w) = (stopped, refl)
  cleanup_pids-ok step_id (pid ∷ pids) stopped (e, w) =
      let w' = (host.stop_pid pid w).1 in
      elim (Option-cases (host.stop_pid pid w).0) [
        | inl fine ↦
            let noted =
              record_runtime operation_apply step_id ("stop namespace pid " <> show_ℤ pid)
                (e, w') in
            let (n, h) = cleanup_pids-ok step_id pids (suc stopped) noted.1 in
            (n, rw (fine, cleanup_pids) h)
        | inr (x, failed) ↦
            let noted =
              record_runtime operation_apply step_id
                ("skip pid " <> (show_ℤ pid <> (": " <> message x))) (e, w') in
            let (n, h) = cleanup_pids-ok step_id pids stopped noted.1 in
            (n, rw (failed, cleanup_pids) h)
      ]

  count_note-Always :
      (step_id : String) (n : ℕ)
      → Always {S = IsolatedExecutor × W} (
          if eqb n 0
          then record_runtime operation_apply step_id "no namespace pids stopped"
          else done)
  unfolding record_runtime
  count_note-Always step_id n (e, w) = elim (Bool-cases (eqb n 0)) [
    | inl zero_stopped ↦ rw zero_stopped refl
    | inr some_stopped ↦ rw some_stopped refl
  ]

  cleanup_answer-Always :
      (step_id output : String) (problem : Option Err)
      → Always (cleanup_answer host step_id output problem)
  unfolding cleanup_answer record_runtime
  cleanup_answer-Always step_id output (some x) (e, w) = refl
  cleanup_answer-Always step_id output none s =
      let (n, h) = cleanup_pids-ok step_id (pids_of (fields output)) 0 s in
      cc
        (h, count_note-Always step_id n (cleanup_pids host step_id (pids_of (fields output)) 0 s).1)

  -- The best-effort end of the processes of a namespace, once the command can be built.
  pub cleanup_isolated_processes-Always :
      (step : Step) (command : Command)
      → net_ns_pids_command (detail_value step "namespace") ≡ ok command
      → Always (cleanup_isolated_processes host step)
  unfolding cleanup_isolated_processes record_command
  cleanup_isolated_processes-Always step command built (e, w) =
      let logged = record_command operation_apply step.id command (e, w) in
      let (answer, w') = host.run command w in
      cc (built, cleanup_answer-Always step.id (answer.0) (answer.1) (logged.1.0, w'))

  -- A machine whose contexts are live and whose files can be removed.
  pub record IsRemovable : Type 0 where
    pub live : (w : W) → host.ctx_err w ≡ none
    pub removes : (path : String) (w : W) → (host.remove_all path w).0 ≡ none

  pub cleanup_namespace_dns-Always :
      IsRemovable → (step : Step) → Always (cleanup_namespace_dns host step)
  unfolding cleanup_namespace_dns record_runtime
  cleanup_namespace_dns-Always fine step (e, w) = cc (
    fine.live w,
    fine.removes (join_path (e.net_ns_config_root ∷ detail_value step "namespace" ∷ [])) w,
  )

  pub remove_runtime_root-Always :
      IsRemovable → (step : Step) → Always (remove_runtime_root host step)
  unfolding remove_runtime_root record_runtime
  remove_runtime_root-Always fine step (e, w) = cc (fine.live w, fine.removes (root_of step e) w)

  pub run_best_effort_built-Always :
      (step_id : String) (built : Result Command) (command : Command)
      → built ≡ ok command
      → Always (run_best_effort_built host operation_apply step_id built)
  unfolding run_best_effort_built
  run_best_effort_built-Always step_id built command same (e, w) =
      rw same (run_best_effort-Always operation_apply step_id command (e, w))

  pub run_namespaced_best_effort-Always :
      (step_id namespace : String) (command inner : Command)
      → net_ns_exec_command namespace command ≡ ok inner
      → Always (run_namespaced_best_effort host operation_apply step_id namespace command)
  unfolding run_namespaced_best_effort run_best_effort_built
  run_namespaced_best_effort-Always step_id namespace command inner built (e, w) =
      rw built (run_best_effort-Always operation_apply step_id inner (e, w))
