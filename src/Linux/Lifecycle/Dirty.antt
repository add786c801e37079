-- ===== src/Linux/Lifecycle/Dirty.antt =====
-- Where a failed connect of internal/platform/linux/lifecycle_executor.go ends.
use text.Mathlib.TextPositions.{starts_with-append}
use mathlib.Core.List.{append_assoc, reverse-append}
use big_red_button.Base.{
  ◌≡◌, refl, sym, ap, subst, ◌∙◌, ◌==◌, ◌<>◌, String, true, false, List, [], ◌∷◌, ◌++◌, reverse, ok,
  Err, All, All-append, All-map, eq_iff, Bool-cases, inl, inr, starts_with, is_empty, contains,
  bind_result-eq-ok,
}
use big_red_button.Profile.{Config}
use big_red_button.Planner.{Options, Step, Plan}
use big_red_button.Planner.Normalize.{normalize_options, normalize_dns_servers}
use big_red_button.Planner.System.{
  EndpointPart, connect, connect_steps, opening_steps, all_endpoints, endpoint_steps,
  pending_endpoint_steps, link_steps, peer_steps, dns_steps, closing_steps, safe_id,
}
use big_red_button.Planner.System.Endpoints.{all_endpoints-All}
use big_red_button.Engine.{RunResult, failed_dirty, run_connect}
use big_red_button.Engine.Transaction.{Forward, Backward, ConnectRun, completed, aborted}
use big_red_button.Engine.Connect.{run_connect_lem}
use big_red_button.Engine.Split.{All-split, Forward-split, Forward-applied, Backward-split}
use big_red_button.Runtime.{State}
use big_red_button.Host.{Host}
use big_red_button.Linux.Lifecycle.{Lifecycle, lifecycle_executor}
use big_red_button.Linux.Lifecycle.Support.{ne_of_prefix}
use big_red_button.Linux.Lifecycle.Twice.{RefusesSecondDelete, Backward-refused}

-- The steps behind the one that gives the interface its addresses, and that can fail.
abbrev pub late_ids : List String
late_ids = "apply-wireguard-peer" ∷ "apply-client-routes" ∷ "apply-dns" ∷ "store-runtime-state" ∷ []

abbrev IsEarly : Step → Type 0
IsEarly step = contains late_ids step.id ≡ false

early_of_prefix :
    (prefix rest : String)
    → starts_with "apply-wireguard-peer" prefix ≡ false
    → starts_with "apply-client-routes" prefix ≡ false
    → starts_with "apply-dns" prefix ≡ false
    → starts_with "store-runtime-state" prefix ≡ false
    → contains late_ids (prefix <> rest) ≡ false
unfolding contains
early_of_prefix prefix rest a b c d =
    let h = starts_with-append prefix rest in
    let other = ne_of_prefix (prefix <> rest) in
    simp
      (
        other "apply-wireguard-peer" prefix h a,
        other "apply-client-routes" prefix h b,
        other "apply-dns" prefix h c,
        other "store-runtime-state" prefix h d,
      )
      refl

endpoint_steps-IsEarly :
    (ip : String) (details : List String) → All IsEarly (endpoint_steps ip details)
unfolding endpoint_steps
endpoint_steps-IsEarly ip details = (
  early_of_prefix "snapshot-route-" (safe_id ip) refl refl refl refl,
  (early_of_prefix "add-route-exclusion-" (safe_id ip) refl refl refl refl, tt),
)

pending-IsEarly : All IsEarly pending_endpoint_steps
unfolding contains
pending-IsEarly = (refl, (refl, tt))

opening_steps-IsEarly :
    (config : Config) (options : Options) (servers : List String)
    → All IsEarly (opening_steps config options servers)
unfolding opening_steps contains
opening_steps-IsEarly config options servers = (refl, (refl, (refl, tt)))

link_steps-IsEarly : (config : Config) (options : Options) → All IsEarly (link_steps config options)
unfolding link_steps contains
link_steps-IsEarly config options = (refl, (refl, (refl, tt)))

early_ne_late :
    (early late : String)
    → contains late_ids late ≡ true
    → contains late_ids early ≡ false
    → (early == late) ≡ false
early_ne_late early late h g = elim (Bool-cases (early == late)) [
  | inl same ↦ absurd (cc ((eq_iff early late).0 same, h, g))
  | inr differ ↦ differ
]

reverse_nested :
    (p q link b : List Step)
    → reverse ((p ++ (q ++ link)) ++ b) ≡ reverse b ++ (reverse link ++ (reverse q ++ reverse p))
reverse_nested p q link b =
    reverse-append (p ++ (q ++ link)) b
    ∙ ap (λ l. reverse b ++ l)
        (reverse-append p (q ++ link)
          ∙ ap (λ l. l ++ reverse p) (reverse-append q link)
          ∙ append_assoc (reverse link) (reverse q) (reverse p))

is_empty-append-false : (xs ys : List Err) → is_empty ys ≡ false → is_empty (xs ++ ys) ≡ false
is_empty-append-false [] ys h = h
is_empty-append-false (x ∷ xs) ys h = refl

module _ {W : Type 0} (host : Host W State) (refuses : RefusesSecondDelete host) where
  -- The steps up to the addresses were applied, so their pass backward meets an error.
  front_refused :
      (config : Config) (options : Options) (opening endpoints more : List Step)
      (s s' s'' t : Lifecycle × W) (applied undone : List Step) (errors : List Err)
      → Forward
          (lifecycle_executor host)
          ((opening ++ (endpoints ++ link_steps config options)) ++ more)
          s
          applied
          s'
      → Backward (lifecycle_executor host) (reverse applied) s'' undone errors t
      → is_empty errors ≡ false
  unfolding link_steps
  front_refused config options opening endpoints more s s' s'' t applied undone errors forward
        back =
      let ex = lifecycle_executor host in
      let link = link_steps config options in
      let (a, b, m, front, _, joined) = Forward-split ex (opening ++ (endpoints ++ link)) forward in
      let (p, a', m', _, front', joined') = Forward-split ex opening front in
      let (q, c, m'', _, last, joined'') = Forward-split ex endpoints front' in
      let all : c ≡ link = Forward-applied ex link (refl, (refl, (refl, tt))) last in
      let shape : applied ≡ (p ++ (q ++ link)) ++ b = rw (joined, joined', joined'', all) refl in
      let turned = ap reverse shape ∙ reverse_nested p q link b in
      let back' = subst (λ l. Backward ex l s'' undone errors t) turned back in
      let (u, met, later, w, rest_back, errors_joined) = Backward-split ex (reverse b) back' in
      let refused = Backward-refused host refuses _ _ _ w t refl refl refl refl rest_back in
      rw errors_joined (is_empty-append-false met later refused)

  steps_dirty :
      (fingerprint : String) (config : Config) (options : Options) (servers : List String)
      (part : EndpointPart) (steps : List Step) (s t : Lifecycle × W) (r : RunResult)
      → steps ≡ connect_steps fingerprint config options servers part
      → All IsEarly part.steps
      → contains late_ids r.failed_step_id ≡ true
      → ConnectRun (lifecycle_executor host) [] steps s r t
      → r.state ≡ failed_dirty
  unfolding connect_steps contains
  steps_dirty fingerprint config options servers part steps s t r same early late
        (completed applied forward state _ _ unfailed) =
      absurd (cc (late, ap (contains late_ids) unfailed))
  steps_dirty fingerprint config options servers part steps s t r same early late
        (aborted before after applied undone step e errors s' s'' split forward called failing back
          state _ _ failed) =
      let opening = opening_steps config options servers in
      let link = link_steps config options in
      let front = opening ++ (part.steps ++ link) in
      let rest =
        peer_steps config ++ (dns_steps options servers ++ closing_steps fingerprint options) in
      let late_step : contains late_ids step.id ≡ true =
        subst (λ id. contains late_ids id ≡ true) failed late in
      let regroup : front ++ rest ≡ connect_steps fingerprint config options servers part =
        append_assoc opening (part.steps ++ link) rest
        ∙ ap (λ l. opening ++ l) (append_assoc part.steps link rest) in
      let all_early =
        All-append IsEarly opening (part.steps ++ link)
          (opening_steps-IsEarly config options servers)
          (All-append IsEarly part.steps link early (link_steps-IsEarly config options)) in
      let others = All-map (λ x h. early_ne_late x.id step.id late_step h) front all_early in
      let (more, found) =
        All-split front rest before after step others (regroup ∙ sym same ∙ split) in
      let forward' = subst (λ l. Forward (lifecycle_executor host) l s applied s') found forward in
      state
      ∙ rw
          (front_refused config options opening part.steps more s s' s'' t applied undone errors
            forward' back)
          refl

  -- A connect that fails at a step behind the addresses ends FailedDirty, where the second of two
  -- deletes of the interface fails: rolling back the addresses deletes the interface, and rolling
  -- back the interface deletes it again.
  pub connect_failure_is_dirty :
      (fingerprint : Config → String) (config : Config) (options : Options) (plan : Plan)
      (s : Lifecycle × W)
      → connect fingerprint config options ≡ ok plan
      → contains late_ids (run_connect (lifecycle_executor host) plan s).0.failed_step_id ≡ true
      → (run_connect (lifecycle_executor host) plan s).0.state ≡ failed_dirty
  unfolding connect
  connect_failure_is_dirty fingerprint config options plan s planned late =
      let (normalized, _, after_options) =
        bind_result-eq-ok (normalize_options options) _ planned in
      let (servers, _, after_dns) =
        bind_result-eq-ok (normalize_dns_servers config.dns) _ after_options in
      let (part, got, finished) = bind_result-eq-ok (all_endpoints (normalized.0)) _ after_dns in
      let same : plan.steps
          ≡ connect_steps (fingerprint config) config (normalized.0) servers part =
        cc in
      steps_dirty (fingerprint config) config (normalized.0) servers part plan.steps s _ _ same
        (all_endpoints-All IsEarly endpoint_steps-IsEarly pending-IsEarly (normalized.0) part got)
        late (run_connect_lem (lifecycle_executor host) plan s)
