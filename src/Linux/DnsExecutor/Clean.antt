-- ===== src/Linux/DnsExecutor/Clean.antt =====
-- A failed `Apply` of internal/platform/linux/dns_executor.go.
use big_red_button.Base.{
  ◌≡◌, refl, sym, ap, subst, ◌∙◌, ℕ, suc, String, ◌==◌, true, false, none, some, List, [], ◌∷◌, ok,
  err, Err, Result, Bool-cases, ◌⊎◌, inl, inr, is_empty,
}
use big_red_button.Planner.{Step}
use big_red_button.Runtime.{State}
use big_red_button.Host.{Host, call, command_error, Answer-cases}
use big_red_button.Linux.{Command, Action, OperationPhase, operation_apply, operation_rollback}
use big_red_button.Linux.Commands.{resolvectl_revert_command}
use big_red_button.Linux.DnsExecutor.{
  DnsExecutor, log, apply_commands, run, run_only, revert, rollback_plan, give_up, run_all,
  apply_dns, apply,
}

-- What is asked of a machine whose states without settings of the launcher are those that satisfy `P`:
-- a command that fails changes nothing, and the revert command succeeds and removes the settings.
pub record IsResolver {W : Type 0} (host : Host W State) (P : W → Type 0) (undo : Command)
    : Type 0 where
  pub refused :
      (command : Command) (w w' : W) (out : String) (x : Err)
      → host.run command w ≡ ((out, some x), w')
      → P w
      → P w'
  pub reverts : (w : W) → (out : String) × (w' : W) × (host.run undo w ≡ ((out, none), w')) × P w'

Result-cases : {A : Type 0} (r : Result A) → ((a : A) × (r ≡ ok a)) ⊎ ((x : Err) × (r ≡ err x))
Result-cases (ok a) = inl (a, refl)
Result-cases (err x) = inr (x, refl)

module _ {W : Type 0} (host : Host W State) (P : W → Type 0) (undo : Command)
    (resolver : IsResolver host P undo) where
  call_fine :
      (command : Command) (w w' : W) (out : String)
      → host.run command w ≡ ((out, none), w')
      → call host command w ≡ (ok out, w')
  unfolding call
  call_fine command w w' out called = cc

  call_refused :
      (command : Command) (w w' : W) (out : String) (x : Err)
      → host.run command w ≡ ((out, some x), w')
      → call host command w ≡ (err (command_error command out x), w')
  unfolding call
  call_refused command w w' out x called = cc

  run_fine :
      (phase : OperationPhase) (step_id : String) (command : Command) (e : DnsExecutor) (w w' : W)
      (out : String)
      → host.run command w ≡ ((out, none), w')
      → run host phase step_id command (e, w)
        ≡ (ok out, (log (Action.command command) phase step_id e, w'))
  unfolding run
  run_fine phase step_id command e w w' out called =
      let answered = call_fine command w w' out called in cc

  run_refused :
      (phase : OperationPhase) (step_id : String) (command : Command) (e : DnsExecutor) (w w' : W)
      (out : String) (x : Err)
      → host.run command w ≡ ((out, some x), w')
      → run host phase step_id command (e, w)
        ≡ (err (command_error command out x), (log (Action.command command) phase step_id e, w'))
  unfolding run
  run_refused phase step_id command e w w' out x called =
      let answered = call_refused command w w' out x called in cc

  run_only_fine :
      (phase : OperationPhase) (step_id : String) (command : Command) (s t : DnsExecutor × W)
      (out : String)
      → run host phase step_id command s ≡ (ok out, t)
      → run_only host phase step_id command s ≡ (ok tt, t)
  unfolding run_only
  run_only_fine phase step_id command s t out ran = cc

  rollback_plan_lem :
      (step_id : String) (e : DnsExecutor) (w : W)
      → is_empty e.plan.dns_servers ≡ false
      → resolvectl_revert_command e.plan.wireguard_interface ≡ ok undo
      → (e' : DnsExecutor) × (w' : W) × (rollback_plan host step_id (e, w) ≡ (ok tt, (e', w')))
        × P w'
  unfolding rollback_plan revert
  rollback_plan_lem step_id e w servers built =
      let (out, w', called, clean) = resolver.reverts w in
      let ran =
        run_only_fine operation_rollback step_id undo (e, w) _ out
          (run_fine operation_rollback step_id undo e w w' out called) in
      (
        log (Action.command undo) operation_rollback step_id e,
        w',
        rw servers (rw (built, revert) ran),
        clean,
      )

  give_up-zero :
      (step_id : String) (x : Err) (s : DnsExecutor × W) → give_up host 0 step_id x s ≡ (err x, s)
  unfolding give_up
  give_up-zero step_id x s = refl

  give_up-suc :
      (index : ℕ) (step_id : String) (x : Err) (s t : DnsExecutor × W)
      → rollback_plan host step_id s ≡ (ok tt, t)
      → give_up host (suc index) step_id x s ≡ (err x, t)
  unfolding give_up
  give_up-suc index step_id x s t undone = cc

  run_all_fine :
      (index : ℕ) (step_id : String) (command : Command) (commands : List Command)
      (s t : DnsExecutor × W) (out : String)
      → run host operation_apply step_id command s ≡ (ok out, t)
      → run_all host index step_id (command ∷ commands) s
        ≡ run_all host (suc index) step_id commands t
  unfolding run_all
  run_all_fine index step_id command commands s t out ran = cc

  run_all_refused :
      (index : ℕ) (step_id : String) (command : Command) (commands : List Command)
      (s t : DnsExecutor × W) (x : Err)
      → run host operation_apply step_id command s ≡ (err x, t)
      → run_all host index step_id (command ∷ commands) s ≡ give_up host index step_id x t
  unfolding run_all
  run_all_refused index step_id command commands s t x ran = cc

  -- An error behind the first command: the settings are reverted.
  run_all_later :
      (commands : List Command) (index : ℕ) (step_id : String) (e e' : DnsExecutor) (w w' : W)
      (x : Err)
      → is_empty e.plan.dns_servers ≡ false
      → resolvectl_revert_command e.plan.wireguard_interface ≡ ok undo
      → run_all host (suc index) step_id commands (e, w) ≡ (err x, (e', w'))
      → P w'
  run_all_later [] index step_id e e' w w' x servers built failed =
      unfold run_all in absurd (cc (ap (λ p. p.0) failed))
  run_all_later (command ∷ commands) index step_id e e' w w' x servers built failed =
      let e1 = log (Action.command command) operation_apply step_id e in
      elim (Answer-cases (host.run command w)) [
        | inl (out, w1, called) ↦
            let ran = run_fine operation_apply step_id command e w w1 out called in
            run_all_later commands (suc index) step_id e1 e' w1 w' x servers built (
              sym (run_all_fine (suc index) step_id command commands (e, w) (e1, w1) out ran)
              ∙ failed)
        | inr (out, y, w1, called) ↦
            let ran = run_refused operation_apply step_id command e w w1 out y called in
            let (e2, w2, undone, clean) = rollback_plan_lem step_id e1 w1 servers built in
            let gave =
              give_up-suc index step_id (command_error command out y) (e1, w1) (e2, w2) undone in
            let ended =
              sym gave
              ∙ sym (run_all_refused (suc index) step_id command commands (e, w) (e1, w1) _ ran)
              ∙ failed in
            subst P (ap (λ p. p.1.1) ended) clean
      ]

  -- An error at the first command: it changed nothing.
  run_all_first :
      (commands : List Command) (step_id : String) (e e' : DnsExecutor) (w w' : W) (x : Err)
      → is_empty e.plan.dns_servers ≡ false
      → resolvectl_revert_command e.plan.wireguard_interface ≡ ok undo
      → P w
      → run_all host 0 step_id commands (e, w) ≡ (err x, (e', w'))
      → P w'
  run_all_first [] step_id e e' w w' x servers built before failed =
      unfold run_all in absurd (cc (ap (λ p. p.0) failed))
  run_all_first (command ∷ commands) step_id e e' w w' x servers built before failed =
      let e1 = log (Action.command command) operation_apply step_id e in
      elim (Answer-cases (host.run command w)) [
        | inl (out, w1, called) ↦
            let ran = run_fine operation_apply step_id command e w w1 out called in
            run_all_later commands 0 step_id e1 e' w1 w' x servers built
              (sym (run_all_fine 0 step_id command commands (e, w) (e1, w1) out ran) ∙ failed)
        | inr (out, y, w1, called) ↦
            let ran = run_refused operation_apply step_id command e w w1 out y called in
            let ended =
              sym (give_up-zero step_id (command_error command out y) (e1, w1))
              ∙ sym (run_all_refused 0 step_id command commands (e, w) (e1, w1) _ ran)
              ∙ failed in
            subst P (ap (λ p. p.1.1) ended) (resolver.refused command w w1 out y called before)
      ]

  apply_made :
      (step : Step) (e : DnsExecutor) (w : W) (commands : List Command)
      → (step.id == "apply-dns") ≡ true
      → apply_commands e.plan ≡ ok commands
      → apply host step (e, w) ≡ run_all host 0 step.id commands (e, w)
  unfolding apply apply_dns
  apply_made step e w commands named made = rw named (rw (made, apply_dns) refl)

  apply_unmade :
      (step : Step) (e : DnsExecutor) (w : W) (y : Err)
      → (step.id == "apply-dns") ≡ true
      → apply_commands e.plan ≡ err y
      → apply host step (e, w) ≡ (err y, (e, w))
  unfolding apply apply_dns
  apply_unmade step e w y named unmade = rw named (rw (unmade, apply_dns) refl)

  apply_other :
      (step : Step) (e : DnsExecutor) (w : W)
      → (step.id == "apply-dns") ≡ false
      → (apply host step (e, w)).1.1 ≡ w
  unfolding apply
  apply_other step e w other = rw other refl

  -- On a machine where a failing command changes nothing and the revert command succeeds and removes
  -- the settings, an `Apply` that fails, for a plan with DNS servers and an interface that the revert
  -- command can name, leaves no settings behind where there were none before.
  pub apply_clean :
      (step : Step) (e e' : DnsExecutor) (w w' : W) (x : Err)
      → is_empty e.plan.dns_servers ≡ false
      → resolvectl_revert_command e.plan.wireguard_interface ≡ ok undo
      → P w
      → apply host step (e, w) ≡ (err x, (e', w'))
      → P w'
  apply_clean step e e' w w' x servers built before failed =
      elim (Bool-cases (step.id == "apply-dns")) [
        | inl named ↦ elim (Result-cases (apply_commands e.plan)) [
          | inl (commands, made) ↦
              run_all_first commands step.id e e' w w' x servers built before
                (sym (apply_made step e w commands named made) ∙ failed)
          | inr (y, unmade) ↦
              subst P (ap (λ p. p.1.1) (sym (apply_unmade step e w y named unmade) ∙ failed)) before
        ]
        | inr other ↦ subst P (sym (apply_other step e w other) ∙ ap (λ p. p.1.1) failed) before
      ]
