-- ===== src/Planner/Isolated/Tunnel/Steps.antt =====
-- Properties of all steps of a plan of `IsolatedAppTunnel` of internal/planner/isolated.go.
use big_red_button.Base.{
  ◌≡◌, refl, subst, String, true, ok, ℕ, ◌∷◌, ◌++◌, All, All-append, Bool, not, is_empty, ◌||◌,
}
use big_red_button.Profile.{Config}
use big_red_button.Planner.{Step, Plan}
use big_red_button.Planner.Isolated.{IsolatedAppOptions, NormalizedOptions}
use big_red_button.Planner.Isolated.Planned.{isolated_app_tunnel-Planned}
use big_red_button.Planner.Isolated.Tunnel.{
  isolated_app_tunnel, tunnel_plan, tunnel_steps, validation_steps, host_steps, namespace_steps,
  control_step, wireguard_steps, session_steps, launch_step,
}

-- A property of the steps of every group holds of the whole plan.
pub tunnel_steps-All :
    (P : Step → Type 0) (fingerprint : String) (config : Config) (options : NormalizedOptions)
    → All P (validation_steps config options)
    → All P (host_steps options)
    → All P (namespace_steps options)
    → P (control_step config options)
    → All P (wireguard_steps config options)
    → All P (session_steps fingerprint options)
    → All P (tunnel_steps fingerprint config options)
unfolding tunnel_steps
tunnel_steps-All P fingerprint config options checks hosted named control wireguard session =
    let last = wireguard_steps config options ++ session_steps fingerprint options in
    let tail = control_step config options ∷ last in
    All-append P (validation_steps config options)
      (host_steps options ++ (namespace_steps options ++ tail)) checks
      (All-append P (host_steps options) (namespace_steps options ++ tail) hosted (
        All-append P (namespace_steps options) tail named (
          control,
          All-append P (wireguard_steps config options) (session_steps fingerprint options)
              wireguard session,
        )))

pub isolated_app_tunnel-All :
    (P : Step → Type 0) (fingerprint : Config → String) (sha256 : String → ℕ → ℕ) (config : Config)
    (options : IsolatedAppOptions) (plan : Plan)
    → ((normalized : NormalizedOptions)
        → All P (tunnel_steps (fingerprint config) config normalized))
    → isolated_app_tunnel fingerprint sha256 config options ≡ ok plan
    → All P plan.steps
unfolding tunnel_plan
isolated_app_tunnel-All P fingerprint sha256 config options plan steps h =
    let planned = isolated_app_tunnel-Planned config options fingerprint sha256 plan h in
    subst (λ p. All P p.steps) planned.made (steps planned.normalized)

-- The step needs no privilege, or names a rollback.
abbrev pub names_rollback : Step → Bool
names_rollback step = not step.requires_privilege || not (is_empty step.rollback)

-- Every step of a tunnel plan needs no privilege, or names its rollback.
pub isolated_app_tunnel-AllNameRollbacks :
    (fingerprint : Config → String) (sha256 : String → ℕ → ℕ) (config : Config)
    (options : IsolatedAppOptions) (plan : Plan)
    → isolated_app_tunnel fingerprint sha256 config options ≡ ok plan
    → All (λ step. names_rollback step ≡ true) plan.steps
unfolding validation_steps host_steps namespace_steps control_step wireguard_steps session_steps
    launch_step
isolated_app_tunnel-AllNameRollbacks fingerprint sha256 config options plan h =
    let good : Step → Type 0 = λ step. names_rollback step ≡ true in
    isolated_app_tunnel-All good fingerprint sha256 config options plan
      (λ normalized.
        tunnel_steps-All good (fingerprint config) config normalized
          (refl, (refl, (refl, (refl, tt)))) (refl, (refl, (refl, tt))) (refl, (refl, tt)) refl
          (refl, (refl, (refl, (refl, (refl, tt))))) (refl, (refl, (refl, tt))))
      h
