-- ===== src/Planner/System/Endpoints.antt =====
-- The endpoint steps of a connect plan, all together: what holds of the steps for one endpoint, and of
-- the two that stand in for endpoints not resolved yet, holds of every endpoint step of `Connect`.
use big_red_button.Base.{
  ◌≡◌, String, ◌<>◌, ◌==◌, ◌&&◌, List, [], ◌∷◌, ◌++◌, Result, ok, All, All-append, arith,
  Bool-cases, inl, inr, bind_result, bind_result-eq-ok, is_empty, subst,
}
use big_red_button.Routes.{EndpointExclusion, new_endpoint_exclusion}
use big_red_button.Planner.{Options, Step}
use big_red_button.Planner.System.{
  EndpointPart, resolved_part, all_endpoints, endpoint_loop, endpoint_part, endpoint_steps,
  endpoint_details, pending_endpoint_steps, join_parts,
}

module _ (P : Step → Type 0)
    (each : (ip : String) (details : List String) → All P (endpoint_steps ip details))
    (pending : All P pending_endpoint_steps) where
  endpoint_part-All :
      (options : Options) (ip : String) (part : EndpointPart)
      → endpoint_part options ip ≡ ok part
      → All P part.steps
  unfolding endpoint_part
  endpoint_part-All options ip part h =
      let details = endpoint_details options ip in
      elim (Bool-cases (options.default_gateway == "" && options.default_interface == "")) [
        | inl missing ↦
            let same : endpoint_steps ip details ≡ part.steps = ground arith in
            subst (All P) same (each ip details)
        | inr given ↦
            let chosen =
              new_endpoint_exclusion ip options.default_gateway options.default_interface in
            let finish : EndpointExclusion → Result EndpointPart =
              λ exclusion. ok (resolved_part options ip exclusion) in
            let made : bind_result chosen finish ≡ ok part = ground arith in
            let (exclusion, _, done_ok) = bind_result-eq-ok chosen finish made in
            let same : endpoint_steps ip
                  (details ++ (("destination=" <> exclusion.destination) ∷ []))
                ≡ part.steps =
              cc in
            subst (All P) same (each ip _)
      ]

  endpoint_loop-All :
      (options : Options) (ips : List String) (part : EndpointPart)
      → endpoint_loop options ips ≡ ok part
      → All P part.steps
  unfolding endpoint_loop
  endpoint_loop-All options [] part h = let same : [] ≡ part.steps = cc in subst (All P) same tt
  endpoint_loop-All options (ip ∷ ips) part h =
      let (first, got, rest_ok) =
        bind_result-eq-ok (endpoint_part options ip)
          (λ first. bind_result (endpoint_loop options ips) λ rest. ok (join_parts first rest)) h in
      let (rest, got_rest, done_ok) =
        bind_result-eq-ok (endpoint_loop options ips) (λ rest. ok (join_parts first rest))
          rest_ok in
      let same : first.steps ++ rest.steps ≡ part.steps = cc in
      subst (All P) same (
        All-append P first.steps rest.steps (endpoint_part-All options ip first got)
          (endpoint_loop-All options ips rest got_rest))

  pub all_endpoints-All :
      (options : Options) (part : EndpointPart) → all_endpoints options ≡ ok part → All P part.steps
  unfolding all_endpoints
  all_endpoints-All options part h = elim (Bool-cases (is_empty options.endpoint_ips)) [
    | inl none_given ↦
        let same : pending_endpoint_steps ≡ part.steps = ground arith in subst (All P) same pending
    | inr some_given ↦
        let looped : endpoint_loop options options.endpoint_ips ≡ ok part = ground arith in
        endpoint_loop-All options options.endpoint_ips part looped
  ]
