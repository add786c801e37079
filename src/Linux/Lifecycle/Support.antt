-- ===== src/Linux/Lifecycle/Support.antt =====
-- Which steps the lifecycle executor knows.
use text.Mathlib.TextPositions.{starts_with-append}
use big_red_button.Base.{
  ◌≡◌, refl, sym, ◌⊎◌, ap, subst, String, ◌==◌, starts_with, Bool, true, false, List, [], ◌∷◌, ◌++◌,
  ok, All, All-append, arith, eq_iff, Bool-cases, inl, inr, bind_result-eq-ok,
}
use big_red_button.Profile.{Config}
use big_red_button.Planner.{Options, Step, Plan}
use big_red_button.Planner.Normalize.{normalize_options, normalize_dns_servers}
use big_red_button.Planner.System.{
  EndpointPart, connect, disconnect, connect_steps, disconnect_steps, opening_steps, link_steps,
  peer_steps, dns_steps, closing_steps, all_endpoints, endpoint_steps, pending_endpoint_steps,
  safe_id,
}
use big_red_button.Planner.System.Endpoints.{all_endpoints-All}
use big_red_button.Linux.RouteExecutor.{RouteStep, route_step, is_route_executor_step}
use big_red_button.Linux.RouteExecutor
use big_red_button.Linux.WireguardExecutor
use big_red_button.Linux.WireguardExecutor.{WireguardStep, wireguard_step}
use big_red_button.Linux.Lifecycle.{
  Handler, handler, unsupported, route, wireguard, apply_dns, restore_dns, start_wstunnel,
}
use big_red_button.Linux.DnsExecutor
use big_red_button.Supervisor
use big_red_button.Runtime.{State}
use big_red_button.Host.{Host}

abbrev known_route : RouteStep → Bool
known_route RouteExecutor.unsupported = false
known_route _ = true

abbrev known_wireguard : WireguardStep → Bool
known_wireguard WireguardExecutor.unsupported = false
known_wireguard _ = true

-- A text with a prefix differs from a text without it.
pub ne_of_prefix :
    (a b prefix : String)
    → starts_with a prefix ≡ true
    → starts_with b prefix ≡ false
    → (a == b) ≡ false
ne_of_prefix a b prefix ha hb = elim (Bool-cases (a == b)) [
  | inl same ↦ absurd (cc (ap (λ x. starts_with x prefix) ((eq_iff a b).0 same)))
  | inr differ ↦ differ
]

-- A step of the loop over the endpoints goes to the route executor.
route_handler :
    (prefix : String) (step : Step)
    → starts_with step.id prefix ≡ true
    → starts_with "validate-profile" prefix ≡ false
    → starts_with "resolve-wstunnel-host" prefix ≡ false
    → starts_with "skip-dns" prefix ≡ false
    → starts_with "verify-connected" prefix ≡ false
    → starts_with "validate-linux-prerequisites" prefix ≡ false
    → starts_with "store-runtime-state" prefix ≡ false
    → starts_with "apply-dns" prefix ≡ false
    → starts_with "restore-dns" prefix ≡ false
    → step.depends_on_runtime ≡ false
    → (starts_with step.id "snapshot-route-" ≡ true)
      ⊎ (starts_with step.id "add-route-exclusion-" ≡ true)
    → (state_missing : Bool) → handler state_missing step ≡ route
unfolding handler
route_handler prefix step h a b c d e f g i free endpoint m =
    simp
      (
        ne_of_prefix step.id "validate-profile" prefix h a,
        ne_of_prefix step.id "resolve-wstunnel-host" prefix h b,
        ne_of_prefix step.id "skip-dns" prefix h c,
        ne_of_prefix step.id "verify-connected" prefix h d,
        ne_of_prefix step.id "validate-linux-prerequisites" prefix h e,
        ne_of_prefix step.id "store-runtime-state" prefix h f,
        ne_of_prefix step.id "apply-dns" prefix h g,
        ne_of_prefix step.id "restore-dns" prefix h i,
        free,
      )
      (ground arith)

known_endpoint_step :
    (id : String)
    → (starts_with id "snapshot-route-" ≡ true) ⊎ (starts_with id "add-route-exclusion-" ≡ true)
    → known_route (route_step id) ≡ true
unfolding route_step
known_endpoint_step id (inl snapshot) = rw snapshot refl
known_endpoint_step id (inr exclude) = elim (Bool-cases (starts_with id "snapshot-route-")) [
  | inl snapshot ↦ rw snapshot refl
  | inr other ↦ rw (other, exclude) refl
]

module _ {W : Type 0} (host : Host W State) where
  -- What the executor that a handler hands the step to has for it: a case, or, where its method is
  -- guarded by an id of its own, that the method gets past the guard.
  abbrev pub Supports : Handler → Step → Type 0
  Supports unsupported step = ⊥
  Supports route step = known_route (route_step step.id) ≡ true
  Supports wireguard step = known_wireguard (wireguard_step step.id) ≡ true
  Supports apply_dns step = DnsExecutor.apply host step ≡ DnsExecutor.apply_dns host step
  Supports restore_dns step =
      (state : State)
      → DnsExecutor.restore host step state ≡ DnsExecutor.restore_dns host step state
  Supports start_wstunnel step = Supervisor.apply host step ≡ Supervisor.start host step
  Supports _ step = Unit {0}

  -- The engine skips the step, or the lifecycle executor and the one behind it support it, with and
  -- without a runtime state.
  abbrev pub IsServed : Step → Type 0
  IsServed step =
      (step.skipped_until_apply ≡ true)
      ⊎ (Supports (handler true step) step × Supports (handler false step) step)

  abbrev pub AllServed : List Step → Type 0
  AllServed = All IsServed

  route-IsServed :
      (step : Step)
      → ((state_missing : Bool) → handler state_missing step ≡ route)
      → known_route (route_step step.id) ≡ true
      → IsServed step
  route-IsServed step routed known = inr (
    subst (λ h. Supports h step) (sym (routed true)) known,
    subst (λ h. Supports h step) (sym (routed false)) known,
  )

  -- The steps for one endpoint.
  endpoint_steps-AllServed :
      (ip : String) (details : List String) → AllServed (endpoint_steps ip details)
  unfolding endpoint_steps
  endpoint_steps-AllServed ip details =
      let snapshot = starts_with-append "snapshot-route-" (safe_id ip) in
      let exclude = starts_with-append "add-route-exclusion-" (safe_id ip) in
      (
        route-IsServed _
            (route_handler "snapshot-route-" _ snapshot refl refl refl refl refl refl refl refl refl
              (inl snapshot))
            (known_endpoint_step _ (inl snapshot)),
        (
          route-IsServed _
              (route_handler "add-route-exclusion-" _ exclude refl refl refl refl refl refl refl
                refl refl (inr exclude))
              (known_endpoint_step _ (inr exclude)),
          tt,
        ),
      )

  -- The steps with fixed ids.
  opening_steps-AllServed :
      (config : Config) (options : Options) (servers : List String)
      → AllServed (opening_steps config options servers)
  unfolding opening_steps DnsExecutor.apply DnsExecutor.restore Supervisor.apply handler route_step
      wireguard_step is_route_executor_step
  opening_steps-AllServed config options servers =
      (inr (tt, tt), (inr (tt, tt), (inr (tt, tt), tt)))

  link_steps-AllServed :
      (config : Config) (options : Options) → AllServed (link_steps config options)
  unfolding link_steps DnsExecutor.apply DnsExecutor.restore Supervisor.apply handler route_step
      wireguard_step is_route_executor_step
  link_steps-AllServed config options =
      (inr (refl, refl), (inr (refl, refl), (inr (refl, refl), tt)))

  peer_steps-AllServed : (config : Config) → AllServed (peer_steps config)
  unfolding peer_steps DnsExecutor.apply DnsExecutor.restore Supervisor.apply handler route_step
      wireguard_step is_route_executor_step
  peer_steps-AllServed config = (inr (refl, refl), (inr (refl, refl), tt))

  dns_steps-AllServed :
      (options : Options) (servers : List String) → AllServed (dns_steps options servers)
  unfolding dns_steps DnsExecutor.apply DnsExecutor.restore Supervisor.apply handler route_step
      wireguard_step is_route_executor_step
  dns_steps-AllServed options [] = (inr (tt, tt), tt)
  dns_steps-AllServed options (_ ∷ _) = (inr (refl, refl), tt)

  closing_steps-AllServed :
      (fingerprint : String) (options : Options) → AllServed (closing_steps fingerprint options)
  unfolding closing_steps DnsExecutor.apply DnsExecutor.restore Supervisor.apply handler route_step
      wireguard_step is_route_executor_step
  closing_steps-AllServed fingerprint options = (inr (tt, tt), (inr (tt, tt), tt))

  pending-AllServed : AllServed pending_endpoint_steps
  unfolding DnsExecutor.apply DnsExecutor.restore Supervisor.apply handler
  pending-AllServed = (inl refl, (inl refl, tt))

  connect_steps-AllServed :
      (fingerprint : String) (config : Config) (options : Options) (servers : List String)
      (part : EndpointPart)
      → AllServed part.steps
      → AllServed (connect_steps fingerprint config options servers part)
  unfolding connect_steps
  connect_steps-AllServed fingerprint config options servers part h =
      let append = All-append IsServed in
      let last = closing_steps fingerprint options in
      let names = dns_steps options servers ++ last in
      let peer = peer_steps config ++ names in
      let tunnel = link_steps config options ++ peer in
      append (opening_steps config options servers) (part.steps ++ tunnel)
        (opening_steps-AllServed config options servers)
        (append part.steps tunnel h (
          append (link_steps config options) peer (link_steps-AllServed config options) (
            append (peer_steps config) names (peer_steps-AllServed config) (
              append (dns_steps options servers) last (dns_steps-AllServed options servers)
                (closing_steps-AllServed fingerprint options)))))

  -- Every step of a plan that `Connect` returns is one that the engine skips, or one that the lifecycle
  -- executor handles, with and without a runtime state: a route or WireGuard step has a case in its
  -- executor, and a DNS or WSTunnel step gets past the guard of the method that it is handed to.
  pub connect-AllServed :
      (fingerprint : Config → String) (config : Config) (options : Options) (plan : Plan)
      → connect fingerprint config options ≡ ok plan
      → AllServed plan.steps
  unfolding connect
  connect-AllServed fingerprint config options plan h =
      let (normalized, _, after_options) = bind_result-eq-ok (normalize_options options) _ h in
      let (servers, _, after_dns) =
        bind_result-eq-ok (normalize_dns_servers config.dns) _ after_options in
      let (part, got, finished) = bind_result-eq-ok (all_endpoints (normalized.0)) _ after_dns in
      let same : connect_steps (fingerprint config) config (normalized.0) servers part
          ≡ plan.steps =
        cc in
      subst AllServed same (
        connect_steps-AllServed (fingerprint config) config (normalized.0) servers part (
          all_endpoints-All IsServed endpoint_steps-AllServed pending-AllServed (normalized.0) part
            got))

  -- Every step of a plan that `Disconnect` returns is one that the engine skips, or one that the
  -- lifecycle executor handles, with and without a runtime state: a route or WireGuard step has a case
  -- in its executor, and a DNS step gets past the guard of the method that it is handed to.
  pub disconnect-AllServed :
      (options : Options) (plan : Plan) → disconnect options ≡ ok plan → AllServed plan.steps
  unfolding disconnect disconnect_steps DnsExecutor.apply DnsExecutor.restore Supervisor.apply
      handler route_step wireguard_step is_route_executor_step
  disconnect-AllServed options plan h =
      let (normalized, _, finished) = bind_result-eq-ok (normalize_options options) _ h in
      let same : disconnect_steps (normalized.0) ≡ plan.steps = cc in
      subst AllServed same (
        inr (refl, refl),
        (
          inr (tt, λ state. refl),
          (
            inr (tt, refl),
            (inr (tt, refl), (inr (tt, tt), (inr (tt, refl), (inr (refl, refl), tt)))),
          ),
        ),
      )
