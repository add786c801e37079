-- ===== src/Linux/Lifecycle/Idle.antt =====
-- A disconnect where no runtime state is on disk: internal/platform/linux/lifecycle_executor.go over
-- the route executor.
use big_red_button.Base.{
  ◌≡◌, refl, ap, subst, String, ◌<>◌, true, ok, err, not_exist, bind_result-eq-ok,
}
use big_red_button.Planner.{Options, Step, Plan}
use big_red_button.Planner.Normalize.{normalize_options}
use big_red_button.Planner.System.{disconnect, disconnect_steps}
use big_red_button.Engine.{idle, run_disconnect}
use big_red_button.Engine.Transaction.{Forward, ids}
use big_red_button.Engine.Success.{run_disconnect-Forward}
use big_red_button.Runtime.{State}
use big_red_button.Runtime.Store.{load, clear}
use big_red_button.Host.{Host}
use big_red_button.Linux.{operation_apply}
use big_red_button.Linux.RouteExecutor
use big_red_button.Linux.RouteExecutor.{
  RouteExecutor, path_note, read_state, clear_state, route_step, is_route_executor_step,
  read_runtime_state, clear_runtime_state, set_missing,
}
use big_red_button.Linux.Lifecycle.{
  Lifecycle, missing, route, handler, handle, note, apply, lifecycle_executor, is_noop_step,
  is_wireguard_step,
}

-- What a step that depends on the state leaves of the executor.
abbrev skipped_note : Step → Lifecycle → Lifecycle
skipped_note step l = note step.id ("skip " <> (step.id <> ": no runtime state")) l

module _ {W : Type 0} (host : Host W State) where
  -- Such a step is only noted.
  apply_missing :
      (step : Step) (l : Lifecycle) (w : W)
      → handler true step ≡ missing
      → l.route.runtime_state_missing ≡ true
      → apply host step (l, w) ≡ (ok tt, (skipped_note step l, w))
  unfolding apply handle
  apply_missing step l w handled absent = rw (absent, handled) refl

  abbrev read_note : Step → Lifecycle → Lifecycle
  read_note step l = record l {
    route =
        RouteExecutor.note operation_apply step.id ("no runtime state at " <> path_note l.route)
          (set_missing l.route);
  }

  read_absent :
      (step : Step) (e : RouteExecutor) (w : W) (m : String)
      → load host e.store_root w ≡ err (not_exist m)
      → read_runtime_state host step (e, w) ≡ (
        ok tt,
        (
          RouteExecutor.note operation_apply step.id
              ("no runtime state at " <> path_note e)
              (set_missing e),
          w,
        ),
      )
  unfolding read_runtime_state
  read_absent step e w m absent = cc

  clear_done :
      (step : Step) (e : RouteExecutor) (w w' : W)
      → clear host e.store_root w ≡ (ok tt, w')
      → clear_runtime_state host step (e, w)
        ≡ (ok tt, (RouteExecutor.note operation_apply step.id ("clear " <> path_note e) e, w'))
  unfolding clear_runtime_state
  clear_done step e w w' cleared = cc

  apply_read :
      (step : Step) (l : Lifecycle) (w : W) (m : String)
      → handler l.route.runtime_state_missing step ≡ route
      → route_step step.id ≡ read_state
      → load host l.route.store_root w ≡ err (not_exist m)
      → apply host step (l, w) ≡ (ok tt, (read_note step l, w))
  unfolding apply handle RouteExecutor.apply RouteExecutor.apply_route_step read_runtime_state
  apply_read step l w m handled named absent =
      rw (handled, named)
        (rw (read_absent step l.route w m absent, RouteExecutor.apply_route_step) refl)

  abbrev clear_note : Step → Lifecycle → Lifecycle
  clear_note step l = record l {
    route = RouteExecutor.note operation_apply step.id ("clear " <> path_note l.route) l.route;
  }

  apply_clear :
      (step : Step) (l : Lifecycle) (w w' : W)
      → handler l.route.runtime_state_missing step ≡ route
      → route_step step.id ≡ clear_state
      → clear host l.route.store_root w ≡ (ok tt, w')
      → apply host step (l, w) ≡ (ok tt, (clear_note step l, w'))
  unfolding apply handle RouteExecutor.apply RouteExecutor.apply_route_step clear_runtime_state
  apply_clear step l w w' handled named cleared =
      rw (handled, named)
        (rw (clear_done step l.route w w' cleared, RouteExecutor.apply_route_step) refl)

  -- All the steps of a disconnect, with the notes that they leave.
  steps-Forward :
      (options : Options) (l : Lifecycle) (w w' : W) (m : String)
      → load host l.route.store_root w ≡ err (not_exist m)
      → clear host l.route.store_root w ≡ (ok tt, w')
      → (l' : Lifecycle) × Forward
          (lifecycle_executor host)
          (disconnect_steps options)
          (l, w)
          (disconnect_steps options)
          (l', w')
  unfolding disconnect_steps handler is_noop_step is_wireguard_step is_route_executor_step
      route_step
  steps-Forward options l w w' m absent cleared = (
    _,
    Forward.call refl (apply_read _ l w m refl refl absent) (
        Forward.call refl (apply_missing _ _ w refl refl) (
          Forward.call refl (apply_missing _ _ w refl refl) (
            Forward.call refl (apply_missing _ _ w refl refl) (
              Forward.call refl (apply_missing _ _ w refl refl) (
                Forward.call refl (apply_missing _ _ w refl refl)
                  (Forward.call refl (apply_clear _ _ w w' refl refl cleared) Forward.stop)))))),
  )

  -- Where no runtime state is on disk, a disconnect ends Idle with all seven steps applied, and all
  -- that it does to the machine is to clear the state file: no command is run, no process stopped.
  pub disconnect_without_state :
      (options : Options) (plan : Plan) (l : Lifecycle) (w w' : W) (m : String)
      → disconnect options ≡ ok plan
      → load host l.route.store_root w ≡ err (not_exist m)
      → clear host l.route.store_root w ≡ (ok tt, w')
      → let out = run_disconnect (lifecycle_executor host) plan (l, w) in
        (out.0.state ≡ idle) × (out.0.applied_step_ids ≡ ids plan.steps) × (out.1.1 ≡ w')
  unfolding disconnect
  disconnect_without_state options plan l w w' m planned absent cleared =
      let (normalized, _, finished) = bind_result-eq-ok (normalize_options options) _ planned in
      let same : disconnect_steps (normalized.0) ≡ plan.steps = cc in
      let (l', forward) = steps-Forward (normalized.0) l w w' m absent cleared in
      let (state, listed, ended) =
        run_disconnect-Forward (lifecycle_executor host) plan (l, w) (l', w') plan.steps
          (subst (λ steps. Forward (lifecycle_executor host) steps (l, w) steps (l', w')) same
            forward) in
      (state, listed, ap (λ s. s.1) ended)
