-- ===== src/Linux/IsolatedExecutor/Dispatch/Idle.antt =====
-- A run of a stop plan of internal/planner/isolated.go where the session has no runtime state.
use big_red_button.Base.{
  ◌≡◌, refl, ap, ◌∙◌, subst, String, ◌<>◌, ◌&&◌, true, false, Option, some, List, [], ◌∷◌, ok, err,
  not_exist, All, bind_result-eq-ok, and_false,
}
use big_red_button.Planner.{Step, Plan}
use big_red_button.Planner.Isolated.{IsolatedAppStopOptions}
use big_red_button.Planner.Isolated.Stop.{
  Session, requested_session, stop_steps, stop_plan, isolated_app_stop,
}
use big_red_button.Engine.{run, idle}
use big_red_button.Engine.Transaction.{Forward, ids}
use big_red_button.Engine.Success.{run_disconnect-Forward}
use big_red_button.Runtime.{State}
use big_red_button.Runtime.Store.{load}
use big_red_button.Host.{Host}
use big_red_button.Supervisor.Wstunnel.{Url}
use big_red_button.Linux.{operation_apply}
use big_red_button.Linux.Details.{lookup}
use big_red_button.Linux.IsolatedExecutor.{IsolatedExecutor, record_runtime, isolated_store_path}
use big_red_button.Linux.IsolatedExecutor.Teardown.{read_runtime_state}
use big_red_button.Linux.IsolatedExecutor.Dispatch.{
  apply, handle, handler, teardown, isolated_executor, teardown_case, read_state,
}

module _ {W : Type 0} (host : Host W State) (parse_url : String → Option Url) where
  -- Without a runtime state a step that needs one is only noted.
  skipped :
      (step : Step) (e : IsolatedExecutor) (w : W)
      → step.depends_on_runtime ≡ true
      → e.runtime_state_missing ≡ true
      → apply host parse_url step (e, w)
        ≡ record_runtime operation_apply step.id
            ("skip " <> (step.id <> ": no runtime state"))
            (e, w)
  unfolding apply
  skipped step e w needs missing =
      let guard : (e.runtime_state_missing && step.depends_on_runtime) ≡ true =
        ap (λ b. b && step.depends_on_runtime) missing ∙ needs in
      rw guard refl

  -- All of them pass, and the machine stays as it is.
  skipped-Forward :
      (steps : List Step) (e : IsolatedExecutor) (w : W)
      → All (λ step. (step.skipped_until_apply ≡ false) × (step.depends_on_runtime ≡ true)) steps
      → e.runtime_state_missing ≡ true
      → (e' : IsolatedExecutor) × Forward
          (isolated_executor host parse_url)
          steps
          (e, w)
          steps
          (e', w)
  unfolding record_runtime
  skipped-Forward [] e w h missing = (e, Forward.stop)
  skipped-Forward (step ∷ steps) e w (here, rest) missing =
      let noted =
        (record_runtime operation_apply step.id ("skip " <> (step.id <> ": no runtime state"))
          (e, w)).1.0 in
      let (e', later) = skipped-Forward steps noted w rest missing in
      (e', Forward.call here.0 (skipped step e w here.1 missing) later)

  -- The first step finds that there is no runtime state, and notes it.
  read_missing :
      (step : Step) (e : IsolatedExecutor) (w : W) (m : String)
      → load host e.session_runtime_root w ≡ err (not_exist m)
      → handler step.id ≡ teardown_case read_state
      → step.depends_on_runtime ≡ false
      → apply host parse_url step (e, w)
        ≡ record_runtime operation_apply step.id
            ("no runtime state at " <> isolated_store_path e)
            (record e { runtime_state_missing = true }, w)
  unfolding apply handle teardown read_runtime_state
  read_missing step e w m absent known free =
      let guard : (e.runtime_state_missing && step.depends_on_runtime) ≡ false =
        ap (λ b. e.runtime_state_missing && b) free ∙ and_false e.runtime_state_missing in
      cc (guard, known, absent)

  stop_steps-Forward :
      (session : Session) (e : IsolatedExecutor) (w : W) (m : String)
      → load host e.session_runtime_root w ≡ err (not_exist m)
      → (e' : IsolatedExecutor) × Forward
          (isolated_executor host parse_url)
          (stop_steps session)
          (e, w)
          (stop_steps session)
          (e', w)
  unfolding stop_steps handler lookup record_runtime
  stop_steps-Forward session e w m absent =
      let noted =
        (record_runtime operation_apply "read-isolated-runtime-state"
          ("no runtime state at " <> isolated_store_path e)
          (record e { runtime_state_missing = true }, w)).1.0 in
      let (e', later) =
        skipped-Forward _ noted w
          (
            (refl, refl),
            (
              (refl, refl),
              (
                (refl, refl),
                (
                  (refl, refl),
                  (
                    (refl, refl),
                    ((refl, refl), ((refl, refl), ((refl, refl), ((refl, refl), tt)))),
                  ),
                ),
              ),
            ),
          )
          refl in
      (e', Forward.call refl (read_missing _ e w m absent refl refl) later)

  -- Where a session has no runtime state, a run of a planned stop ends Idle with every step applied,
  -- and leaves the machine as it is.
  pub stop_without_state :
      (options : IsolatedAppStopOptions) (plan : Plan) (e : IsolatedExecutor) (w : W) (m : String)
      → isolated_app_stop options ≡ ok plan
      → load host e.session_runtime_root w ≡ err (not_exist m)
      → let out = run (some (isolated_executor host parse_url)) plan (e, w) in
        (out.0.state ≡ idle) × (out.0.applied_step_ids ≡ ids plan.steps) × (out.1.1 ≡ w)
  unfolding isolated_app_stop stop_plan run
  stop_without_state options plan e w m h absent =
      let (session, _, made) = bind_result-eq-ok (requested_session options) _ h in
      let same : stop_plan session ≡ plan = cc in
      let ex = isolated_executor host parse_url in
      let (e', forward) = stop_steps-Forward session e w m absent in
      let (state, applied, ended) =
        run_disconnect-Forward ex (stop_plan session) (e, w) (e', w) _ forward in
      subst
        (λ p.
          let out = run (some ex) p (e, w) in
          (out.0.state ≡ idle) × (out.0.applied_step_ids ≡ ids p.steps) × (out.1.1 ≡ w))
        same (state, applied, ap (λ s. s.1) ended)
