-- ===== src/Linux/Lifecycle/Twice.antt =====
-- The rollbacks of internal/platform/linux/wireguard_executor.go delete the interface once for each
-- step that touched it.
use big_red_button.Base.{
  ◌≡◌, refl, sym, ap, ◌∙◌, ◌≢◌, String, false, none, some, List, ◌∷◌, Result, ok, err, Err, ◌⊎◌,
  inl, inr, is_ok, is_empty,
}
use big_red_button.Planner.{Step}
use big_red_button.Engine.Transaction.{Backward}
use big_red_button.Runtime.{State}
use big_red_button.Host.{Answer-cases, Host, call}
use big_red_button.Linux.{Command, OperationPhase, operation_rollback}
use big_red_button.Linux.Commands.{wireguard_delete_interface_command}
use big_red_button.Linux.WireguardExecutor
use big_red_button.Linux.WireguardExecutor.{
  WireguardExecutor, run, run_built, rollback_case, wireguard_step,
}
use big_red_button.Linux.Lifecycle.{
  Lifecycle, in_wireguard, rollback, lifecycle_executor, is_noop_step, is_wireguard_step,
}

-- `ip link delete` on an interface that it deleted just before fails.
abbrev pub RefusesSecondDelete : {W : Type 0} → Host W State → Type 0
RefusesSecondDelete {W} host =
    (name : String) (command : Command) (w w' : W) (out : String)
    → wireguard_delete_interface_command name ≡ ok command
    → host.run command w ≡ ((out, none), w')
    → (host.run command w').0.1 ≢ none

module _ {W : Type 0} (host : Host W State) where
  call_fine :
      (command : Command) (w w' : W) (out : String)
      → host.run command w ≡ ((out, none), w')
      → call host command w ≡ (ok out, w')
  unfolding call
  call_fine command w w' out called = cc

  run_fine :
      (phase : OperationPhase) (step_id : String) (command : Command) (e : WireguardExecutor)
      (w w' : W) (out : String)
      → host.run command w ≡ ((out, none), w')
      → (op : WireguardExecutor) × (op.config ≡ e.config)
        × (run_built host phase step_id (ok command) (e, w) ≡ (ok tt, (op, w')))
  unfolding run_built run
  run_fine phase step_id command e w w' out called =
      let answered = call_fine command w w' out called in
      (WireguardExecutor.log phase step_id command e, refl, cc)

  run_failing :
      (phase : OperationPhase) (step_id : String) (command : Command) (e : WireguardExecutor)
      (w w' : W) (out : String) (x : Err)
      → host.run command w ≡ ((out, some x), w')
      → is_ok (run_built host phase step_id (ok command) (e, w)).0 ≡ false
  unfolding run_built run call
  run_failing phase step_id command e w w' out x called = cc

  -- A delete that succeeded ran its command, and left the configuration as it was.
  run_built-ok :
      (phase : OperationPhase) (step_id : String) (built : Result Command)
      (e e' : WireguardExecutor) (w w' : W)
      → run_built host phase step_id built (e, w) ≡ (ok tt, (e', w'))
      → (command : Command) × (out : String) × (built ≡ ok command)
        × (host.run command w ≡ ((out, none), w'))
        × (e'.config ≡ e.config)
  run_built-ok phase step_id (err x) e e' w w' h = unfold run_built in absurd (cc (ap (λ x. x.0) h))
  run_built-ok phase step_id (ok command) e e' w w' h = elim (Answer-cases (host.run command w)) [
    | inl (out, w1, called) ↦
        let (op, kept, ran) = run_fine phase step_id command e w w1 out called in
        let same = sym ran ∙ h in
        (
          command,
          out,
          refl,
          called ∙ ap (λ x. ((out, none), x.1.1)) same,
          sym (ap (λ x. x.1.0.config) same) ∙ kept,
        )
    | inr (out, x, w1, called) ↦
        absurd (cc (ap (λ p. is_ok p.0) h, run_failing phase step_id command e w w1 out x called))
  ]

  delete_twice :
      (first second : String) (e e' e'' : WireguardExecutor) (w w' w'' : W)
      → RefusesSecondDelete host
      → run_built host operation_rollback first
          (wireguard_delete_interface_command e.config.interface_name)
          (e, w)
        ≡ (ok tt, (e', w'))
      → run_built host operation_rollback second
          (wireguard_delete_interface_command e'.config.interface_name)
          (e', w')
        ≡ (ok tt, (e'', w''))
      → ⊥
  delete_twice first second e e' e'' w w' w'' refuses one two =
      let (command, out, built, ran, kept) =
        run_built-ok operation_rollback first _ e e' w w' one in
      let (again, more, rebuilt, reran, _) =
        run_built-ok operation_rollback second _ e' e'' w' w'' two in
      let same : ok command ≡ ok again =
        sym built
        ∙ ap (λ c. wireguard_delete_interface_command c.interface_name) (sym kept)
        ∙ rebuilt in
      let ran_again : host.run command w' ≡ ((more, none), w'') = cc in
      refuses e.config.interface_name command w w' out built ran (ap (λ p. p.0.1) ran_again)

  -- The rollback of the steps for the interface and for its addresses.
  rollback_deletes :
      (step : Step) (l : Lifecycle) (w : W)
      → (step.id ≡ "create-wireguard-interface") ⊎ (step.id ≡ "apply-wireguard-addresses")
      → rollback host step (l, w)
        ≡ in_wireguard
            (run_built host operation_rollback step.id
              (wireguard_delete_interface_command l.wireguard.config.interface_name))
            (l, w)
  unfolding rollback is_noop_step is_wireguard_step WireguardExecutor.rollback rollback_case
      wireguard_step
  rollback_deletes step l w (inl create) = rw create refl
  rollback_deletes step l w (inr addresses) = rw addresses refl

  undo_deletes :
      (step : Step) (l l' : Lifecycle) (w w' : W)
      → (step.id ≡ "create-wireguard-interface") ⊎ (step.id ≡ "apply-wireguard-addresses")
      → rollback host step (l, w) ≡ (ok tt, (l', w'))
      → run_built host operation_rollback step.id
          (wireguard_delete_interface_command l.wireguard.config.interface_name)
          (l.wireguard, w)
        ≡ (ok tt, (l'.wireguard, w'))
  undo_deletes step l l' w w' which undone =
      ap (λ x. (x.0, (x.1.0.wireguard, x.1.1))) (sym (rollback_deletes step l w which) ∙ undone)

  module _ (refuses : RefusesSecondDelete host) where
    -- A pass backward over both steps meets an error.
    pub Backward-refused :
        (addresses create : Step) (rest : List Step) (s t : Lifecycle × W) {undone : List Step}
        {errors : List Err}
        → addresses.id ≡ "apply-wireguard-addresses"
        → create.id ≡ "create-wireguard-interface"
        → is_empty addresses.rollback ≡ false
        → is_empty create.rollback ≡ false
        → Backward (lifecycle_executor host) (addresses ∷ create ∷ rest) s undone errors t
        → is_empty errors ≡ false
    Backward-refused addresses create rest s t a c more more' (Backward.pass nothing back) =
        absurd (cc (nothing, more))
    Backward-refused addresses create rest s t a c more more'
          (Backward.stuck something failing back) =
        refl
    Backward-refused addresses create rest s t a c more more'
          (Backward.undo something fine (Backward.pass nothing back)) =
        absurd (cc (nothing, more'))
    Backward-refused addresses create rest s t a c more more'
          (Backward.undo something fine (Backward.stuck more_too failing back)) =
        refl
    Backward-refused addresses create rest (l, w) t a c more more'
          (Backward.undo {s' = (l', w')} something fine
            (Backward.undo {s' = (l'', w'')} more_too fine_too back)) =
        absurd (
          delete_twice addresses.id create.id l.wireguard l'.wireguard l''.wireguard w w' w''
            refuses (undo_deletes addresses l l' w w' (inr a) fine)
            (undo_deletes create l' l'' w' w'' (inl c) fine_too))
