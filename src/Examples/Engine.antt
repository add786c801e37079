-- ===== src/Examples/Engine.antt =====
-- Runs of the engine with an executor that keeps a stack of the steps it applied.
use big_red_button.Base.{
  ◌≡◌, String, ◌==◌, true, List, [], ◌∷◌, ok, err, failure, is_empty, if◌then◌else◌, M, some,
}
use big_red_button.Planner.{Step, Plan, blank_step, blank_plan}
use big_red_button.Engine.{Executor, run, run_connect, run_disconnect}
use big_red_button.Engine.Transaction.{ConnectRun}
use big_red_button.Engine.Connect.{run_connect_lem}
use big_red_button.Engine.Disconnect.{DisconnectRun, run_disconnect_lem}
use big_red_button.Engine.Dispatch.{is_end_of, run_settles}

abbrev push : Step → M (List String) (Unit {0})
push step s =
    if step.id == "broken"
    then (err (failure "broken"), s)
    else (ok tt, if is_empty step.rollback then s else step.id ∷ s)

abbrev pop : M (List String) (Unit {0})
pop [] = (ok tt, [])
pop (_ ∷ s) = (ok tt, s)

abbrev stack : Executor (List String)
stack = record { apply = push; rollback = λ step. pop }

abbrev first : Step
first = record blank_step { id = "first"; rollback = "undo first" ∷ [] }

abbrev second : Step
second = record blank_step { id = "second"; rollback = "undo second" ∷ [] }

abbrev broken : Step
broken = record blank_step { id = "broken" }

abbrev skipped : Step
skipped = record blank_step { id = "skipped"; skipped_until_apply = true }

abbrev bad_plan : Plan
bad_plan = record blank_plan {
  kind = "connect";
  steps = first ∷ skipped ∷ second ∷ broken ∷ first ∷ [];
}

run_connect_lem_example :
    ConnectRun stack [] bad_plan.steps []
      (run_connect stack bad_plan []).0
      (run_connect stack bad_plan []).1
run_connect_lem_example = run_connect_lem stack bad_plan []

run_disconnect_lem_example :
    DisconnectRun stack bad_plan []
      (run_disconnect stack bad_plan []).0
      (run_disconnect stack bad_plan []).1
run_disconnect_lem_example = run_disconnect_lem stack bad_plan []

run_settles_example : is_end_of "connect" (run (some stack) bad_plan []).0.state ≡ true
run_settles_example = run_settles stack bad_plan []
