-- ===== src/Linux/DnsExecutor.antt =====
-- internal/platform/linux/dns_executor.go
pub mod Clean
use big_red_button.Base.{
  ℕ, zero, suc, String, ◌<>◌, ◌==◌, true, List, [], ◌∷◌, ◌++◌, Result, ok, err, Err, failure,
  message, bind_result, if◌then◌else◌, M, ◌>>=◌, done, fail, lift, is_empty,
}
use big_red_button.Base.Text.{trim_space, is_blank}
use big_red_button.Planner.{Step, Plan}
use big_red_button.Runtime.{State}
use big_red_button.Host.{Host, call, append_detail}
use big_red_button.Linux.{
  Command, Operation, OperationPhase, operation_apply, operation_rollback, Action,
}
use big_red_button.Linux.Commands.{
  resolvectl_dns_command, resolvectl_domain_command, resolvectl_default_route_command,
  resolvectl_revert_command,
}

pub record DnsExecutor : Type 0 where
  pub plan : Plan
  pub operations : List Operation

abbrev pub new_dns_executor : Plan → DnsExecutor
new_dns_executor plan = record { plan = plan; operations = [] }

abbrev pub log : Action → OperationPhase → String → DnsExecutor → DnsExecutor
log action phase step_id e = record e {
  operations = e.operations ++ (record { phase = phase; step_id = step_id; action = action } ∷ []);
}

unfoldable pub apply_commands : Plan → Result (List Command)
apply_commands plan =
    if is_empty plan.dns_servers
    then ok []
    else bind_result (resolvectl_dns_command plan.wireguard_interface plan.dns_servers) λ dns.
      bind_result (resolvectl_domain_command plan.wireguard_interface ("~." ∷ [])) λ domain.
        bind_result (resolvectl_default_route_command plan.wireguard_interface true)
          λ default_route. ok (dns ∷ domain ∷ default_route ∷ [])

-- The interface that the state names, or the tunnel's own.
unfoldable pub dns_interface : State → String
dns_interface state =
    if is_blank state.dns_interface
    then state.wireguard_interface
    else trim_space state.dns_interface

module _ {W : Type 0} (host : Host W State) where
  unfoldable pub run : OperationPhase → String → Command → M (DnsExecutor × W) String
  run phase step_id command (e, w) =
      let (r, w') = call host command w in (r, (log (Action.command command) phase step_id e, w'))

  unfoldable pub run_only : OperationPhase → String → Command → M (DnsExecutor × W) (Unit {0})
  run_only phase step_id command = do _ ← run phase step_id command; done

  -- The revert command of a plan, for a step.
  unfoldable pub revert : String → String → M (DnsExecutor × W) (Unit {0})
  revert iface step_id = do
    command ← lift (resolvectl_revert_command iface)
    run_only operation_rollback step_id command

  unfoldable pub rollback_plan : String → M (DnsExecutor × W) (Unit {0})
  unfolding revert
  rollback_plan step_id (e, w) =
      if is_empty e.plan.dns_servers
      then (ok tt, (e, w))
      else revert e.plan.wireguard_interface step_id (e, w)

  -- What a command that failed at an index leads to: nothing to undo at the first.
  unfoldable pub give_up : ℕ → String → Err → M (DnsExecutor × W) (Unit {0})
  unfolding append_detail
  give_up zero step_id x s = (err x, s)
  give_up (suc _) step_id x s =
      let (r, s') = rollback_plan step_id s in
      elim r [
        | ok _ ↦ (err x, s')
        | err y ↦ (err (append_detail x ("; DNS rollback failed: " <> message y)), s')
      ]

  unfoldable pub run_all : ℕ → String → List Command → M (DnsExecutor × W) (Unit {0})
  run_all index step_id [] s = (ok tt, s)
  run_all index step_id (command ∷ commands) s =
      let (r, s') = run operation_apply step_id command s in
      elim r [ ok _ ↦ run_all (suc index) step_id commands s' | err x ↦ give_up index step_id x s' ]

  unfoldable pub apply_dns : Step → M (DnsExecutor × W) (Unit {0})
  apply_dns step (e, w) = elim (apply_commands e.plan) [
    | err x ↦ (err x, (e, w))
    | ok commands ↦ run_all 0 step.id commands (e, w)
  ]

  unfoldable pub apply : Step → M (DnsExecutor × W) (Unit {0})
  unfolding apply_dns
  apply step =
      if step.id == "apply-dns"
      then apply_dns step
      else fail (failure ("unsupported linux DNS executor step: " <> step.id))

  unfoldable pub revert_state : Step → State → M (DnsExecutor × W) (Unit {0})
  unfolding dns_interface
  revert_state step state = do
    command ← lift (resolvectl_revert_command (dns_interface state))
    run_only operation_apply step.id command

  unfoldable pub restore_dns : Step → State → M (DnsExecutor × W) (Unit {0})
  unfolding revert_state
  restore_dns step state (e, w) = if state.dns_applied then revert_state step state (e, w) else (
    ok tt,
    (log (Action.runtime "no launcher-owned DNS state") operation_apply step.id e, w),
  )

  unfoldable pub restore : Step → State → M (DnsExecutor × W) (Unit {0})
  unfolding restore_dns
  restore step state =
      if step.id == "restore-dns"
      then restore_dns step state
      else fail (failure ("unsupported linux DNS executor step: " <> step.id))

  unfoldable pub rollback : Step → M (DnsExecutor × W) (Unit {0})
  unfolding rollback_plan
  rollback step = if step.id == "apply-dns" then rollback_plan step.id else done
