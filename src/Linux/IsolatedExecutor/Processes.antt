-- ===== src/Linux/IsolatedExecutor/Processes.antt =====
-- How internal/platform/linux/isolated_executor.go stops the processes of a session.
use big_red_button.Base.{
  ℕ, suc, String, ◌<>◌, ◌==◌, Bool, true, false, ◌&&◌, ◌||◌, not, Option, none, some, List, [], ◌∷◌,
  ok, err, Err, message, if◌then◌else◌, eqb, is_empty, show_ℤ, M, ◌>>=◌, ◌>>◌, done, lift,
}
use big_red_button.Base.Int.{ℤ, pos, negsuc, below}
use big_red_button.Base.Net.{atoi}
use big_red_button.Base.Text.{trim_space, fields}
use big_red_button.Planner.{Step}
use big_red_button.Runtime.{State, ProcessState}
use big_red_button.Host.{Host, call}
use big_red_button.Linux.{operation_apply}
use big_red_button.Linux.Details.{detail_value}
use big_red_button.Linux.IsolatedCommands.{net_ns_pids_command}
use big_red_button.Linux.IsolatedExecutor.{
  IsolatedExecutor, record_command, record_runtime, on_host, state_for_stop,
}

-- `==` on process ids.
unfoldable pub same_pid : ℤ → ℤ → Bool
same_pid (pos a) (pos b) = eqb a b
same_pid (negsuc a) (negsuc b) = eqb a b
same_pid _ _ = false

unfoldable pub has_pid : List ℤ → ℤ → Bool
has_pid [] pid = false
has_pid (p ∷ ps) pid = same_pid p pid || has_pid ps pid

-- The ids among the words of a text, those below 1 left out.
unfoldable pub pids_of : List String → List ℤ
pids_of [] = []
pids_of (token ∷ tokens) =
    let rest = pids_of tokens in
    elim (atoi token) [ none ↦ rest | some pid ↦ if below pid 1 then rest else pid ∷ rest ]

-- The process of a state that a label names.
unfoldable pub labelled : String → State → Option ProcessState
labelled label state =
    if label == "app"
    then state.app_process
    else if label == "monitor"
    then state.monitor_process
    else state.wstunnel_process

-- A call of the machine that returns an error only.
abbrev pub act_on_host : {W : Type 0} → (W → Option Err × W) → M (IsolatedExecutor × W) (Unit {0})
act_on_host act (e, w) =
    let (x, w') = act w in elim x [ none ↦ (ok tt, (e, w')) | some x ↦ (err x, (e, w')) ]

module _ {W : Type 0} (host : Host W State) where
  -- Stops a process that still runs the command line of the state; a monitor does not stop itself.
  unfoldable pub stop_recorded :
      String → String → Option ProcessState → M (IsolatedExecutor × W) (Unit {0})
  stop_recorded step_id label none (e, w) =
      record_runtime operation_apply step_id ("no " <> (label <> " process in runtime state"))
        (e, w)
  stop_recorded step_id label (some p) (e, w) =
      if not (host.argv_matches p.pid p.argv w)
      then record_runtime operation_apply step_id
          ("skip "
            <> (label <> (" pid " <> (show_ℤ p.pid <> ": argv does not match runtime state"))))
          (e, w)
      else if label == "monitor" && same_pid p.pid host.getpid
      then record_runtime operation_apply step_id
          ("skip monitor pid " <> (show_ℤ p.pid <> ": current process owns cleanup")) (e, w)
      else (act_on_host (host.stop_pid p.pid)
            >> record_runtime operation_apply step_id
                ("stop " <> (label <> (" pid " <> show_ℤ p.pid))))
          (e, w)

  -- The process that the caller saw in the executor's state, or else that of the store's state.
  unfoldable pub stop_runtime_process :
      String → String → Option ProcessState → M (IsolatedExecutor × W) (Unit {0})
  stop_runtime_process step_id label (some p) = stop_recorded step_id label (some p)
  stop_runtime_process step_id label none = do
    state ← state_for_stop host
    stop_recorded step_id label (labelled label state)

  -- The first part of `stopIsolatedApp`: the recorded process, and the ids that are stopped.
  unfoldable pub stop_recorded_app :
      String → Option ProcessState → M (IsolatedExecutor × W) (List ℤ)
  stop_recorded_app step_id none (e, w) = (ok [], (e, w))
  stop_recorded_app step_id (some p) (e, w) =
      if host.argv_matches p.pid p.argv w
      then (do
        act_on_host (host.stop_pid p.pid)
        record_runtime operation_apply step_id ("stop app pid " <> show_ℤ p.pid)
        lift (ok (p.pid ∷ [])))
          (e, w)
      else (do
        record_runtime operation_apply step_id
            ("skip app pid " <> (show_ℤ p.pid <> ": argv does not match runtime state"))
        lift (ok []))
          (e, w)

  -- The loop over the namespace's processes, up to an error.
  unfoldable pub stop_namespace_pids : String → List ℤ → List ℤ → M (IsolatedExecutor × W) (List ℤ)
  stop_namespace_pids step_id [] seen = lift (ok seen)
  stop_namespace_pids step_id (pid ∷ pids) seen = elim (has_pid seen pid) [
    | true ↦ stop_namespace_pids step_id pids seen
    | false ↦ (do
      act_on_host (host.stop_pid pid)
      record_runtime operation_apply step_id ("stop namespace pid " <> show_ℤ pid)
      stop_namespace_pids step_id pids (pid ∷ seen))
  ]

  unfoldable pub stop_isolated_app : Step → M (IsolatedExecutor × W) (Unit {0})
  stop_isolated_app step = do
    state ← state_for_stop host
    recorded ← stop_recorded_app step.id state.app_process
    command ← lift (net_ns_pids_command state.namespace)
    record_command operation_apply step.id command
    output ← on_host (call host command)
    seen ← stop_namespace_pids step.id (pids_of (fields output)) recorded
    if is_empty seen
        then record_runtime operation_apply step.id
            "no isolated app process in runtime state or namespace"
        else done

  -- The loop of the cleanup, which goes on after an error; how many processes were stopped.
  unfoldable pub cleanup_pids : String → List ℤ → ℕ → M (IsolatedExecutor × W) ℕ
  cleanup_pids step_id [] stopped (e, w) = (ok stopped, (e, w))
  cleanup_pids step_id (pid ∷ pids) stopped (e, w) =
      let (x, w') = host.stop_pid pid w in
      elim x [
        | some x ↦
            (do
              record_runtime operation_apply step_id
                  ("skip pid " <> (show_ℤ pid <> (": " <> message x)))
              cleanup_pids step_id pids stopped)
              (e, w')
        | none ↦
            (do
              record_runtime operation_apply step_id ("stop namespace pid " <> show_ℤ pid)
              cleanup_pids step_id pids (suc stopped))
              (e, w')
      ]

  -- What the cleanup does with the answer to `ip netns pids`.
  unfoldable pub cleanup_answer : String → String → Option Err → M (IsolatedExecutor × W) (Unit {0})
  cleanup_answer step_id output (some x) =
      record_runtime operation_apply step_id
        ("skip namespace pid cleanup: " <> trim_space (message x))
  cleanup_answer step_id output none = do
    stopped ← cleanup_pids step_id (pids_of (fields output)) 0
    if eqb stopped 0
        then record_runtime operation_apply step_id "no namespace pids stopped"
        else done

  unfoldable pub cleanup_isolated_processes : Step → M (IsolatedExecutor × W) (Unit {0})
  cleanup_isolated_processes step = do
    command ← lift (net_ns_pids_command (detail_value step "namespace"))
    record_command operation_apply step.id command
    (output, problem) ← on_host (λ w. let (answer, w') = host.run command w in (ok answer, w'))
    cleanup_answer step.id output problem
