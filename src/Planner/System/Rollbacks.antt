-- ===== src/Planner/System/Rollbacks.antt =====
-- Which steps of `Connect` of internal/planner/planner.go say how they are undone.
use text.Mathlib.TextPositions.{starts_with-append}
use big_red_button.Base.{
  ◌≡◌, refl, String, ◌==◌, starts_with, Bool, true, not, ◌||◌, List, [], ◌∷◌, ◌++◌, ok, All,
  All-append, bind_result-eq-ok, is_empty, subst,
}
use big_red_button.Profile.{Config}
use big_red_button.Planner.{Options, Step, Plan}
use big_red_button.Planner.Normalize.{normalize_options, normalize_dns_servers}
use big_red_button.Planner.System.{
  EndpointPart, connect, connect_steps, opening_steps, all_endpoints, endpoint_steps, link_steps,
  peer_steps, dns_steps, closing_steps, safe_id,
}
use big_red_button.Planner.System.Endpoints.{all_endpoints-All}

-- The step needs no privilege, or names a rollback, or only looks at the routes.
abbrev pub is_undoable : Step → Bool
is_undoable step =
    not step.requires_privilege
    || not (is_empty step.rollback)
    || starts_with step.id "snapshot-route-"
    || step.id == "snapshot-endpoint-routes"

abbrev AllUndoable : List Step → Type 0
AllUndoable = All (λ step. is_undoable step ≡ true)

endpoint_steps-AllUndoable :
    (ip : String) (details : List String) → AllUndoable (endpoint_steps ip details)
unfolding endpoint_steps
endpoint_steps-AllUndoable ip details =
    (rw (starts_with-append "snapshot-route-" (safe_id ip)) refl, (refl, tt))

opening_steps-AllUndoable :
    (config : Config) (options : Options) (servers : List String)
    → AllUndoable (opening_steps config options servers)
unfolding opening_steps
opening_steps-AllUndoable config options servers = (refl, (refl, (refl, tt)))

link_steps-AllUndoable :
    (config : Config) (options : Options) → AllUndoable (link_steps config options)
unfolding link_steps
link_steps-AllUndoable config options = (refl, (refl, (refl, tt)))

peer_steps-AllUndoable : (config : Config) → AllUndoable (peer_steps config)
unfolding peer_steps
peer_steps-AllUndoable config = (refl, (refl, tt))

dns_steps-AllUndoable :
    (options : Options) (servers : List String) → AllUndoable (dns_steps options servers)
unfolding dns_steps
dns_steps-AllUndoable options [] = (refl, tt)
dns_steps-AllUndoable options (_ ∷ _) = (refl, tt)

closing_steps-AllUndoable :
    (fingerprint : String) (options : Options) → AllUndoable (closing_steps fingerprint options)
unfolding closing_steps
closing_steps-AllUndoable fingerprint options = (refl, (refl, tt))

connect_steps-AllUndoable :
    (fingerprint : String) (config : Config) (options : Options) (servers : List String)
    (part : EndpointPart)
    → AllUndoable part.steps
    → AllUndoable (connect_steps fingerprint config options servers part)
unfolding connect_steps
connect_steps-AllUndoable fingerprint config options servers part h =
    let append = All-append (λ step. is_undoable step ≡ true) in
    let last = closing_steps fingerprint options in
    let names = dns_steps options servers ++ last in
    let peer = peer_steps config ++ names in
    let tunnel = link_steps config options ++ peer in
    append (opening_steps config options servers) (part.steps ++ tunnel)
      (opening_steps-AllUndoable config options servers)
      (append part.steps tunnel h (
        append (link_steps config options) peer (link_steps-AllUndoable config options) (
          append (peer_steps config) names (peer_steps-AllUndoable config) (
            append (dns_steps options servers) last (dns_steps-AllUndoable options servers)
              (closing_steps-AllUndoable fingerprint options)))))

-- Every step of a connect plan needs no privilege, or names its rollback, or only takes a snapshot of
-- the routes.
pub connect-AllUndoable :
    (fingerprint : Config → String) (config : Config) (options : Options) (plan : Plan)
    → connect fingerprint config options ≡ ok plan
    → All (λ step. is_undoable step ≡ true) plan.steps
unfolding connect
connect-AllUndoable fingerprint config options plan h =
    let (normalized, _, after_options) = bind_result-eq-ok (normalize_options options) _ h in
    let (servers, _, after_dns) =
      bind_result-eq-ok (normalize_dns_servers config.dns) _ after_options in
    let (part, got, finished) = bind_result-eq-ok (all_endpoints (normalized.0)) _ after_dns in
    let same : connect_steps (fingerprint config) config (normalized.0) servers part ≡ plan.steps =
      cc in
    subst AllUndoable same (
      connect_steps-AllUndoable (fingerprint config) config (normalized.0) servers part (
        all_endpoints-All (λ step. is_undoable step ≡ true) endpoint_steps-AllUndoable
          (refl, (refl, tt)) (normalized.0) part got))
