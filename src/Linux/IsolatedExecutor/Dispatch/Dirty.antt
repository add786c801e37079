-- ===== src/Linux/IsolatedExecutor/Dispatch/Dirty.antt =====
-- Where a failed tunnel of internal/platform/linux/isolated_executor.go ends: its rollbacks delete the
-- host veth once for its creation and once for its address.
use mathlib.Core.List.{append_assoc, reverse-append}
use big_red_button.Base.{
  ◌≡◌, refl, sym, ap, ◌∙◌, subst, ◌≢◌, ℕ, String, ◌==◌, true, false, none, Option, List, [], ◌∷◌,
  ◌++◌, reverse, Result, ok, err, Err, All, All-map, inl, inr, ◌⊎◌, is_ok, is_empty, contains,
  Bool-cases, eq_iff,
}
use big_red_button.Base.Text.{trim_space}
use big_red_button.Profile.{Config}
use big_red_button.Planner.{Step, Plan}
use big_red_button.Planner.Isolated.{IsolatedAppOptions, NormalizedOptions}
use big_red_button.Planner.Isolated.Planned.{isolated_app_tunnel-Planned}
use big_red_button.Planner.Isolated.Tunnel.{
  isolated_app_tunnel, tunnel_plan, tunnel_steps, validation_steps, host_steps, namespace_steps,
  control_step, wireguard_steps, session_steps,
}
use big_red_button.Engine.{Executor, RunResult, failed_dirty, run_connect}
use big_red_button.Engine.Transaction.{Forward, Backward, ConnectRun, completed, aborted}
use big_red_button.Engine.Connect.{run_connect_lem}
use big_red_button.Engine.Split.{All-split, Forward-split, Forward-applied, Backward-split}
use big_red_button.Runtime.{State}
use big_red_button.Host.{Host, call, Answer-cases}
use big_red_button.Supervisor.Wstunnel.{Url}
use big_red_button.Linux.{Command, OperationPhase, operation_rollback}
use big_red_button.Linux.Details.{detail_value, lookup}
use big_red_button.Linux.Details.Laws.{detail_value-first}
use big_red_button.Linux.IsolatedCommands.{link_delete_command}
use big_red_button.Linux.IsolatedExecutor.{IsolatedExecutor, run, run_built, record_command}
use big_red_button.Linux.IsolatedExecutor.Dispatch.{
  handler, rollback, rollback_case, isolated_executor, setup_case, create_veth, host_veth,
}

-- `ip link delete` on a link that it deleted just before fails.
abbrev pub RefusesSecondDelete : {W : Type 0} → Host W State → Type 0
RefusesSecondDelete {W} host =
    (name : String) (command : Command) (w w' : W) (out : String)
    → link_delete_command name ≡ ok command
    → host.run command w ≡ ((out, none), w')
    → (host.run command w').0.1 ≢ none

module _ {W : Type 0} (host : Host W State) where
  -- A command that was run without an error is one that was built, and that succeeded.
  run_built-ok :
      (phase : OperationPhase) (step_id : String) (built : Result Command) (e e' : IsolatedExecutor)
      (w w' : W)
      → run_built host phase step_id built (e, w) ≡ (ok tt, (e', w'))
      → (command : Command) × (out : String) × (built ≡ ok command)
        × (host.run command w ≡ ((out, none), w'))
  unfolding run_built run record_command call
  run_built-ok phase step_id (err x) e e' w w' h = absurd (cc (ap (λ x. is_ok x.0) h))
  run_built-ok phase step_id (ok command) e e' w w' h = elim (Answer-cases (host.run command w)) [
    | inl (out, w1, called) ↦
        let left : (run_built host phase step_id (ok command) (e, w)).1.1 ≡ w1 = cc in
        (command, out, refl, called ∙ ap (λ v. ((out, none), v)) (sym left ∙ ap (λ x. x.1.1) h))
    | inr (out, x, w1, called) ↦
        let bad : is_ok (run_built host phase step_id (ok command) (e, w)).0 ≡ false = cc in
        absurd (cc (bad, ap (λ p. is_ok p.0) h))
  ]

  delete_twice :
      (name first second : String) (e e' e'' : IsolatedExecutor) (w w' w'' : W)
      → RefusesSecondDelete host
      → run_built host operation_rollback first (link_delete_command name) (e, w)
        ≡ (ok tt, (e', w'))
      → run_built host operation_rollback second (link_delete_command name) (e', w')
        ≡ (ok tt, (e'', w''))
      → ⊥
  delete_twice name first second e e' e'' w w' w'' refuses one two =
      let (command, out, built, ran) =
        run_built-ok operation_rollback first (link_delete_command name) e e' w w' one in
      let (again, more, rebuilt, reran) =
        run_built-ok operation_rollback second (link_delete_command name) e' e'' w' w'' two in
      let ran_again : host.run command w' ≡ ((more, none), w'') = cc in
      refuses name command w w' out built ran (ap (λ p. p.0.1) ran_again)

module _ {W : Type 0} (host : Host W State) (parse_url : String → Option Url) where
  abbrev ex : Executor (IsolatedExecutor × W)
  ex = isolated_executor host parse_url

  -- The rollbacks of the two steps on the host veth.
  rollback_deletes :
      (step : Step) (s : IsolatedExecutor × W)
      → (handler step.id ≡ setup_case create_veth) ⊎ (handler step.id ≡ setup_case host_veth)
      → rollback host parse_url step s
        ≡ run_built host operation_rollback step.id
            (link_delete_command (detail_value step "host_veth"))
            s
  unfolding rollback rollback_case
  rollback_deletes step s (inl create) = rw (create, rollback) refl
  rollback_deletes step s (inr address) = rw (address, rollback) refl

  module _ (refuses : RefusesSecondDelete host) where
    -- A pass backward over both steps meets an error.
    Backward-refused :
        (address create : Step) (rest : List Step) (s t : IsolatedExecutor × W) {undone : List Step}
        {errors : List Err} (name : String)
        → handler address.id ≡ setup_case host_veth
        → handler create.id ≡ setup_case create_veth
        → detail_value address "host_veth" ≡ name
        → detail_value create "host_veth" ≡ name
        → is_empty address.rollback ≡ false
        → is_empty create.rollback ≡ false
        → Backward ex (address ∷ create ∷ rest) s undone errors t
        → is_empty errors ≡ false
    Backward-refused address create rest s t name a c n m more more' (Backward.pass nothing back) =
        absurd (cc (nothing, more))
    Backward-refused address create rest s t name a c n m more more'
          (Backward.stuck something failing back) =
        refl
    Backward-refused address create rest s t name a c n m more more'
          (Backward.undo something fine (Backward.pass nothing back)) =
        absurd (cc (nothing, more'))
    Backward-refused address create rest s t name a c n m more more'
          (Backward.undo something fine (Backward.stuck more_too failing back)) =
        refl
    Backward-refused address create rest (e, w) t name a c n m more more'
          (Backward.undo {s' = (e', w')} something fine
            (Backward.undo {s' = (e'', w'')} more_too fine_too back)) =
        absurd (
          delete_twice host name address.id create.id e e' e'' w w' w'' refuses
            (ap (λ x. run_built host operation_rollback address.id (link_delete_command x) (e, w))
                (sym n)
              ∙ sym (rollback_deletes address (e, w) (inr a))
              ∙ fine)
            (ap (λ x. run_built host operation_rollback create.id (link_delete_command x) (e', w'))
                (sym m)
              ∙ sym (rollback_deletes create (e', w') (inl c))
              ∙ fine_too))

-- The steps behind the one that gives the host veth its address.
abbrev pub late_ids : List String
late_ids =
    "configure-namespace-veth" ∷ "configure-namespace-dns" ∷ "start-wstunnel-control"
    ∷ "create-wireguard-interface-in-netns" ∷ "apply-wireguard-addresses-in-netns"
    ∷ "apply-wireguard-peer-in-netns" ∷ "apply-namespace-client-routes"
    ∷ "apply-namespace-kill-switch" ∷ "launch-app-in-netns" ∷ "monitor-process-tree"
    ∷ "store-isolated-runtime-state" ∷ []

-- A step with another id than the late ones.
abbrev IsEarly : Step → Type 0
IsEarly step = contains late_ids step.id ≡ false

early_ne_late :
    (early late : String)
    → contains late_ids late ≡ true
    → contains late_ids early ≡ false
    → (early == late) ≡ false
early_ne_late early late h g = elim (Bool-cases (early == late)) [
  | inl same ↦ absurd (cc ((eq_iff early late).0 same, h, g))
  | inr differ ↦ differ
]

front-IsEarly :
    (config : Config) (options : NormalizedOptions)
    → All IsEarly (validation_steps config options ++ host_steps options)
unfolding validation_steps host_steps contains
front-IsEarly config options = (refl, (refl, (refl, (refl, (refl, (refl, (refl, tt)))))))

front-called :
    (config : Config) (options : NormalizedOptions)
    → All
        (λ step. step.skipped_until_apply ≡ false)
        (validation_steps config options ++ host_steps options)
unfolding validation_steps host_steps
front-called config options = (refl, (refl, (refl, (refl, (refl, (refl, (refl, tt)))))))

is_empty-append-false : (xs ys : List Err) → is_empty ys ≡ false → is_empty (xs ++ ys) ≡ false
is_empty-append-false [] ys h = h
is_empty-append-false (x ∷ xs) ys h = refl

module _ {W : Type 0} (host : Host W State) (parse_url : String → Option Url)
    (refuses : RefusesSecondDelete host) where
  -- The steps up to the host veth's address were applied, so their pass backward meets an error.
  front_refused :
      (config : Config) (options : NormalizedOptions) (more : List Step)
      (s s' s'' t : IsolatedExecutor × W) (applied undone : List Step) (errors : List Err)
      → Forward
          (isolated_executor host parse_url)
          ((validation_steps config options ++ host_steps options) ++ more)
          s
          applied
          s'
      → Backward (isolated_executor host parse_url) (reverse applied) s'' undone errors t
      → is_empty errors ≡ false
  unfolding validation_steps host_steps handler lookup
  front_refused config options more s s' s'' t applied undone errors forward back =
      let ex = isolated_executor host parse_url in
      let front = validation_steps config options ++ host_steps options in
      let (a, b, m, first, _, joined) = Forward-split ex front forward in
      let all : a ≡ front = Forward-applied ex front (front-called config options) first in
      let shape : applied ≡ front ++ b = joined ∙ ap (λ l. l ++ b) all in
      let turned = ap reverse shape ∙ reverse-append front b in
      let back' = subst (λ l. Backward ex l s'' undone errors t) turned back in
      let (u, met, later, w, rest_back, errors_joined) = Backward-split ex (reverse b) back' in
      let refused =
        Backward-refused host parse_url refuses _ _ _ w t (trim_space options.host_veth) refl refl
          (detail_value-first _ "host_veth" options.host_veth _ refl)
          (detail_value-first _ "host_veth" options.host_veth _ refl) refl refl rest_back in
      rw errors_joined (is_empty-append-false met later refused)

  steps_dirty :
      (fingerprint : String) (config : Config) (options : NormalizedOptions) (steps : List Step)
      (s t : IsolatedExecutor × W) (r : RunResult)
      → steps ≡ tunnel_steps fingerprint config options
      → contains late_ids r.failed_step_id ≡ true
      → ConnectRun (isolated_executor host parse_url) [] steps s r t
      → r.state ≡ failed_dirty
  unfolding tunnel_steps contains
  steps_dirty fingerprint config options steps s t r same late
        (completed applied forward state _ _ unfailed) =
      absurd (cc (late, ap (contains late_ids) unfailed))
  steps_dirty fingerprint config options steps s t r same late
        (aborted before after applied undone step e errors s' s'' split forward called failing back
          state _ _ failed) =
      let ex = isolated_executor host parse_url in
      let checks = validation_steps config options in
      let front = checks ++ host_steps options in
      let rest =
        namespace_steps options
        ++ (control_step config options
            ∷ (wireguard_steps config options ++ session_steps fingerprint options)) in
      let late_step : contains late_ids step.id ≡ true =
        subst (λ id. contains late_ids id ≡ true) failed late in
      let regroup : front ++ rest ≡ tunnel_steps fingerprint config options =
        append_assoc checks (host_steps options) rest in
      let others =
        All-map (λ x h. early_ne_late x.id step.id late_step h) front
          (front-IsEarly config options) in
      let (more, found) =
        All-split front rest before after step others (regroup ∙ sym same ∙ split) in
      let forward' = subst (λ l. Forward ex l s applied s') found forward in
      state
      ∙ rw (front_refused config options more s s' s'' t applied undone errors forward' back) refl

  -- On a machine that refuses to delete the host veth a second time in a row, a run of a planned
  -- tunnel that fails at a step behind the host veth's address ends FailedDirty.
  pub tunnel_failure_is_dirty :
      (fingerprint : Config → String) (sha256 : String → ℕ → ℕ) (config : Config)
      (options : IsolatedAppOptions) (plan : Plan) (s : IsolatedExecutor × W)
      → isolated_app_tunnel fingerprint sha256 config options ≡ ok plan
      → contains late_ids (run_connect (isolated_executor host parse_url) plan s).0.failed_step_id
        ≡ true
      → (run_connect (isolated_executor host parse_url) plan s).0.state ≡ failed_dirty
  unfolding tunnel_plan
  tunnel_failure_is_dirty fingerprint sha256 config options plan s planned late =
      let parts = isolated_app_tunnel-Planned config options fingerprint sha256 plan planned in
      let same : plan.steps ≡ tunnel_steps (fingerprint config) config parts.normalized =
        ap (λ p. p.steps) (sym parts.made) in
      steps_dirty (fingerprint config) config parts.normalized plan.steps s _ _ same late
        (run_connect_lem (isolated_executor host parse_url) plan s)
