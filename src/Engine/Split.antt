-- ===== src/Engine/Split.antt =====
-- Transactions of Engine/Transaction.antt over lists that are appended.
use big_red_button.Base.{◌≡◌, refl, ap, ◌==◌, false, List, [], ◌∷◌, ◌++◌, Err, All, eq_iff}
use big_red_button.Planner.{Step}
use big_red_button.Engine.{Executor, step_error}
use big_red_button.Engine.Transaction.{Forward, Backward}

-- Where a step with an id stands behind steps with other ids.
pub All-split :
    (front rest before after : List Step) (step : Step)
    → All (λ s. (s.id == step.id) ≡ false) front
    → front ++ rest ≡ before ++ (step ∷ after)
    → (more : List Step) × (before ≡ front ++ more)
All-split [] rest before after step others split = (before, refl)
All-split (s ∷ front) rest [] after step (other, others) split =
    let same : s ≡ step = cc in
    let equal = (eq_iff s.id step.id).1 (ap (λ x. x.id) same) in absurd (cc (equal, other))
All-split (s ∷ front) rest (b ∷ before) after step (other, others) split =
    let same : b ≡ s = cc in
    let tails : front ++ rest ≡ before ++ (step ∷ after) = cc in
    let (more, found) = All-split front rest before after step others tails in
    (more, rw (same, found) refl)

module _ {S : Type 0} (ex : Executor S) where
  pub Forward-split :
      (front : List Step) {rest applied : List Step} {s t : S}
      → Forward ex (front ++ rest) s applied t
      → (a b : List Step) × (m : S) × Forward ex front s a m
        × Forward ex rest m b t
        × (applied ≡ a ++ b)
  Forward-split [] {rest} {applied} {s} forward = ([], applied, s, Forward.stop, forward, refl)
  Forward-split (step ∷ front) (Forward.pass skipped forward) =
      let (a, b, m, first, second, joined) = Forward-split front forward in
      (a, b, m, Forward.pass skipped first, second, joined)
  Forward-split (step ∷ front) (Forward.call called fine forward) =
      let (a, b, m, first, second, joined) = Forward-split front forward in
      (step ∷ a, b, m, Forward.call called fine first, second, ap (λ l. step ∷ l) joined)

  -- Steps of which none is skipped are all applied.
  pub Forward-applied :
      (steps : List Step) {applied : List Step} {s t : S}
      → All (λ step. step.skipped_until_apply ≡ false) steps
      → Forward ex steps s applied t
      → applied ≡ steps
  Forward-applied [] h Forward.stop = refl
  Forward-applied (step ∷ steps) (called, h) (Forward.pass skipped forward) =
      absurd (cc (called, skipped))
  Forward-applied (step ∷ steps) (called, h) (Forward.call _ fine forward) =
      ap (λ l. step ∷ l) (Forward-applied steps h forward)

  -- The pass backward over the rest, from where the front left the machine.
  pub Backward-split :
      (front : List Step) {rest undone : List Step} {errors : List Err} {s t : S}
      → Backward ex (front ++ rest) s undone errors t
      → (u : List Step) × (met later : List Err) × (m : S) × Backward ex rest m u later t
        × (errors ≡ met ++ later)
  Backward-split [] {undone = undone} {errors} {s} back = (undone, [], errors, s, back, refl)
  Backward-split (step ∷ front) (Backward.pass nothing back) = Backward-split front back
  Backward-split (step ∷ front) (Backward.undo something fine back) = Backward-split front back
  Backward-split (step ∷ front) (Backward.stuck {e = e} something failing back) =
      let (u, met, later, m, rest_back, joined) = Backward-split front back in
      (u, step_error step e ∷ met, later, m, rest_back, ap (λ l. step_error step e ∷ l) joined)
