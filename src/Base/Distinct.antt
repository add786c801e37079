-- ===== src/Base/Distinct.antt =====
-- Lists of texts with no text twice, built at their end.
use mathlib.Core.Bool.{false, ◌||◌}
use mathlib.Core.Path.{◌≡◌, refl}
use mathlib.Core.Logic.{inl, inr}
use mathlib.Core.List.{List, [], ◌∷◌, ◌++◌}
use native.Mathlib.Omega.{arith}
use Prim.Native.String.{String}
use text.Mathlib.TextEquality.{eq_iff}
use big_red_button.Base.Tests.{if◌then◌else◌, Bool-cases}
use big_red_button.Base.Lists.{contains, All, All-append}

abbrev pub Distinct : List String → Type 0
Distinct [] = Unit
Distinct (x ∷ xs) = (contains xs x ≡ false) × Distinct xs

-- `if _, ok := seen[x]; ok { continue }; out = append(out, x)`, where `seen` holds what `out` does.
unfoldable pub append_new : String → List String → List String
append_new x xs = if contains xs x then xs else xs ++ (x ∷ [])

pub contains-append :
    (xs ys : List String) (k : String) → contains (xs ++ ys) k ≡ (contains xs k || contains ys k)
unfolding contains
contains-append [] ys k = refl
contains-append (x ∷ xs) ys k = ground (arith, contains-append xs ys k)

pub Distinct-snoc :
    (xs : List String) (x : String)
    → contains xs x ≡ false
    → Distinct xs
    → Distinct (xs ++ (x ∷ []))
unfolding contains
Distinct-snoc [] x fresh d = (refl, tt)
Distinct-snoc (y ∷ ys) x fresh (new, d) = (
  ground (arith, contains-append ys (x ∷ []) y, eq_iff x y, eq_iff y x),
  Distinct-snoc ys x (ground (arith)) d,
)

pub append_new-Distinct : (x : String) (xs : List String) → Distinct xs → Distinct (append_new x xs)
unfolding append_new
append_new-Distinct x xs d = elim (Bool-cases (contains xs x)) [
  | inl old ↦ rw old d
  | inr new ↦ rw new (Distinct-snoc xs x new d)
]

pub append_new-All {ℓ} :
    (P : String → Type ℓ) (x : String) (xs : List String) → P x → All P xs → All P (append_new x xs)
unfolding append_new
append_new-All P x xs h hs = elim (Bool-cases (contains xs x)) [
  | inl old ↦ rw old hs
  | inr new ↦ rw new (All-append P xs (x ∷ []) hs (h, tt))
]
