-- ===== src/Supervisor.antt =====
-- internal/supervisor/wstunnel_executor.go: the helper process of a tunnel.
pub mod Wstunnel
use big_red_button.Base.{
  String, ◌<>◌, ◌==◌, Option, none, some, List, [], ◌∷◌, ◌++◌, Result, ok, err, failure,
  if◌then◌else◌, M, fail,
}
use big_red_button.Planner.{Step}
use big_red_button.Runtime.{State}
use big_red_button.Host.{Host, ProcessInfo}
use big_red_button.Linux.{Command, OperationPhase, operation_apply, operation_rollback}

pub record WstunnelOperation : Type 0 where
  pub phase : OperationPhase
  pub step_id : String
  pub command : Option Command
  pub process : ProcessInfo

pub record WstunnelExecutor : Type 0 where
  pub command : Command
  pub process : Option ProcessInfo
  pub operations : List WstunnelOperation

unfoldable pub new_wstunnel_executor : Command → Result WstunnelExecutor
new_wstunnel_executor command =
    if command.name == ""
    then err (failure "wstunnel command is required")
    else ok (record { command = command; process = none; operations = [] })

module _ {W : Type 0} (host : Host W State) where
  unfoldable pub start : Step → M (WstunnelExecutor × W) (Unit {0})
  start step (e, w) =
      let (r, w') = host.start e.command w in
      elim r [
        | err x ↦ (err x, (e, w'))
        | ok info ↦ (
          ok tt,
          (
            record e {
              process = some info;
              operations =
                  e.operations
                  ++ (record {
                    phase = operation_apply;
                    step_id = step.id;
                    command = some (e.command);
                    process = info;
                  }
                      ∷ []);
            },
            w',
          ),
        )
      ]

  unfoldable pub apply : Step → M (WstunnelExecutor × W) (Unit {0})
  unfolding start
  apply step =
      if step.id == "start-wstunnel"
      then start step
      else fail (failure ("unsupported wstunnel executor step: " <> step.id))

  unfoldable pub stop_process : Step → ProcessInfo → M (WstunnelExecutor × W) (Unit {0})
  stop_process step info (e, w) =
      let (x, w') = host.stop info w in
      elim x [
        | some x ↦ (err x, (e, w'))
        | none ↦ (
          ok tt,
          (
            record e {
              process = none;
              operations =
                  e.operations
                  ++ (record {
                    phase = operation_rollback;
                    step_id = step.id;
                    command = none;
                    process = info;
                  }
                      ∷ []);
            },
            w',
          ),
        )
      ]

  unfoldable pub stop : Step → M (WstunnelExecutor × W) (Unit {0})
  unfolding stop_process
  stop step (e, w) = elim e.process [
    | none ↦ (ok tt, (e, w))
    | some info ↦ stop_process step info (e, w)
  ]

  unfoldable pub rollback : Step → M (WstunnelExecutor × W) (Unit {0})
  unfolding stop
  rollback step =
      if step.id == "start-wstunnel"
      then stop step
      else fail (failure ("unsupported wstunnel executor step: " <> step.id))
