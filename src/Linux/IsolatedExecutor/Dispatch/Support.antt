-- ===== src/Linux/IsolatedExecutor/Dispatch/Support.antt =====
-- Which steps internal/platform/linux/isolated_executor.go knows.
use big_red_button.Base.{
  ◌≡◌, refl, subst, String, Bool, true, false, ok, ℕ, All, ◌⊎◌, inl, inr, bind_result-eq-ok,
}
use big_red_button.Profile.{Config}
use big_red_button.Planner.{Step, Plan}
use big_red_button.Planner.Isolated.{IsolatedAppOptions, IsolatedAppStopOptions}
use big_red_button.Planner.Isolated.Tunnel.{
  isolated_app_tunnel, validation_steps, host_steps, namespace_steps, control_step, wireguard_steps,
  session_steps, launch_step,
}
use big_red_button.Planner.Isolated.Tunnel.Steps.{tunnel_steps-All, isolated_app_tunnel-All}
use big_red_button.Planner.Isolated.Stop.{
  Session, requested_session, stop_steps, cleanup_steps, cleanup_plan, stop_plan, isolated_app_stop,
  isolated_app_cleanup,
}
use big_red_button.Planner.Isolated.Normalize.{Names}
use big_red_button.Linux.Details.{lookup}
use big_red_button.Linux.IsolatedExecutor.Dispatch.{Handler, handler, unsupported}

abbrev pub is_known : Handler → Bool
is_known unsupported = false
is_known _ = true

-- The executor has a case for the step.
abbrev pub HasCase : Step → Type 0
HasCase step = is_known (handler step.id) ≡ true

-- Every step of a tunnel plan has a case in the executor.
pub isolated_app_tunnel-AllHaveCases :
    (fingerprint : Config → String) (sha256 : String → ℕ → ℕ) (config : Config)
    (options : IsolatedAppOptions) (plan : Plan)
    → isolated_app_tunnel fingerprint sha256 config options ≡ ok plan
    → All HasCase plan.steps
unfolding validation_steps host_steps namespace_steps control_step wireguard_steps session_steps
    launch_step handler lookup
isolated_app_tunnel-AllHaveCases fingerprint sha256 config options plan h =
    isolated_app_tunnel-All HasCase fingerprint sha256 config options plan
      (λ normalized.
        tunnel_steps-All HasCase (fingerprint config) config normalized
          (refl, (refl, (refl, (refl, tt)))) (refl, (refl, (refl, tt))) (refl, (refl, tt)) refl
          (refl, (refl, (refl, (refl, (refl, tt))))) (refl, (refl, (refl, tt))))
      h

stop_steps-AllHaveCases : (session : Session) → All HasCase (stop_steps session)
unfolding stop_steps handler lookup
stop_steps-AllHaveCases session =
    (refl, (refl, (refl, (refl, (refl, (refl, (refl, (refl, (refl, (refl, tt))))))))))

cleanup_steps-AllHaveCases :
    (session : Session) (names : Names) → All HasCase (cleanup_steps session names)
unfolding cleanup_steps handler lookup
cleanup_steps-AllHaveCases session names = (refl, (refl, (refl, (refl, (refl, (refl, tt))))))

-- Every step of a stop plan or of a cleanup plan has a case in the executor.
pub isolated_app_stop-AllHaveCases :
    (options : IsolatedAppStopOptions) (plan : Plan)
    → (isolated_app_stop options ≡ ok plan) ⊎ (isolated_app_cleanup options ≡ ok plan)
    → All HasCase plan.steps
unfolding isolated_app_stop isolated_app_cleanup cleanup_plan stop_plan
isolated_app_stop-AllHaveCases options plan (inl h) =
    let (session, _, made) = bind_result-eq-ok (requested_session options) _ h in
    let same : stop_steps session ≡ plan.steps = cc in
    subst (All HasCase) same (stop_steps-AllHaveCases session)
isolated_app_stop-AllHaveCases options plan (inr h) =
    let (session, _, made) = bind_result-eq-ok (requested_session options) _ h in
    let same : (cleanup_plan session).steps ≡ plan.steps = cc in
    subst (All HasCase) same (cleanup_steps-AllHaveCases session _)
