-- ===== src/Linux/Details/Laws.antt =====
-- What internal/platform/linux/dryrun.go finds in the details that a plan writes.
use text.Mathlib.TextLemmas.{nil-append, cons-append}
use text.Mathlib.TextPositions.{starts_with-append}
use text.Mathlib.TextEquality.{starts_with_iff}
use big_red_button.Base.{
  ◌≡◌, refl, ap, sym, ◌∙◌, String, ◌<>◌, code, Bool, true, false, none, some, List, [], ◌∷◌, ◌++◌,
  if◌then◌else◌, eqb, starts_with, map, arith, Bool-cases, inl, inr,
}
use big_red_button.Base.Text.{trim_space, cut_prefix, drop_chars}
use big_red_button.Planner.System.{prefixed}
use big_red_button.Planner.{Step}
use big_red_button.Linux.Details.{values_of, detail_value, detail_values, first_or_empty}

-- The texts differ at a character that both have.
abbrev pub mismatch : String → String → Bool
mismatch String.[] q = false
mismatch (String.◌∷◌ c p) String.[] = false
mismatch (String.◌∷◌ c p) (String.◌∷◌ d q) =
    let rest = mismatch p q in if eqb (code c) (code d) then rest else true

mismatch-append : (p q x y : String) → mismatch p q ≡ true → p <> x ≡ q <> y → ⊥
mismatch-append String.[] q x y h same = cc
mismatch-append (String.◌∷◌ c p) String.[] x y h same = cc
mismatch-append (String.◌∷◌ c p) (String.◌∷◌ d q) x y h same =
    let both : String.◌∷◌ c (p <> x) ≡ String.◌∷◌ d (q <> y) =
      sym (cons-append c p x) ∙ same ∙ cons-append d q y in
    let tails : p <> x ≡ q <> y = cc in
    let heads : code c ≡ code d = cc in
    elim (Bool-cases (eqb (code c) (code d))) [
      | inl equal ↦ mismatch-append p q x y (ground arith) tails
      | inr differ ↦ absurd (grind arith)
    ]

drop_chars-append : (p x : String) → drop_chars p (p <> x) ≡ x
unfolding drop_chars
drop_chars-append String.[] x = nil-append x
drop_chars-append (String.◌∷◌ c p) x = rw (cons-append c p x) (drop_chars-append p x)

cut_prefix-append : (p x : String) → cut_prefix (p <> x) p ≡ some x
unfolding cut_prefix
cut_prefix-append p x = rw (starts_with-append p x) (rw (drop_chars-append p x) refl)

cut_prefix-mismatch : (p q x : String) → mismatch q p ≡ true → cut_prefix (q <> x) p ≡ none
unfolding cut_prefix
cut_prefix-mismatch p q x h = elim (Bool-cases (starts_with (q <> x) p)) [
  | inl starts ↦
      let (rest, whole) = (starts_with_iff (q <> x) p).0 starts in
      absurd (mismatch-append q p x rest h (sym whole))
  | inr other ↦ rw other refl
]

-- The value of a detail with the key, in front.
pub values_of-found :
    (p x : String) (details : List String)
    → values_of p ((p <> x) ∷ details) ≡ trim_space x ∷ values_of p details
unfolding values_of
values_of-found p x details = rw (cut_prefix-append p x, values_of) refl

-- A detail with another key is passed over.
pub values_of-other :
    (p q x : String) (details : List String)
    → mismatch q p ≡ true
    → values_of p ((q <> x) ∷ details) ≡ values_of p details
unfolding values_of
values_of-other p q x details h = rw (cut_prefix-mismatch p q x h, values_of) refl

pub values_of-prefixed :
    (p : String) (xs rest : List String)
    → values_of p (prefixed p xs ++ rest) ≡ map trim_space xs ++ values_of p rest
unfolding prefixed values_of
values_of-prefixed p [] rest = refl
values_of-prefixed p (x ∷ xs) rest =
    values_of-found p x (prefixed p xs ++ rest)
    ∙ ap (λ l. trim_space x ∷ l) (values_of-prefixed p xs rest)

pub values_of-prefixed_other :
    (p q : String) (xs rest : List String)
    → mismatch q p ≡ true
    → values_of p (prefixed q xs ++ rest) ≡ values_of p rest
unfolding prefixed values_of
values_of-prefixed_other p q [] rest h = refl
values_of-prefixed_other p q (x ∷ xs) rest h =
    values_of-other p q x (prefixed q xs ++ rest) h ∙ values_of-prefixed_other p q xs rest h

pub values_of-all :
    (p : String) (xs : List String) → values_of p (prefixed p xs) ≡ map trim_space xs
unfolding prefixed values_of
values_of-all p [] = refl
values_of-all p (x ∷ xs) =
    values_of-found p x (prefixed p xs) ∙ ap (λ l. trim_space x ∷ l) (values_of-all p xs)

pub values_of-none :
    (p q : String) (xs : List String) → mismatch q p ≡ true → values_of p (prefixed q xs) ≡ []
unfolding prefixed values_of
values_of-none p q [] h = refl
values_of-none p q (x ∷ xs) h = values_of-other p q x (prefixed q xs) h ∙ values_of-none p q xs h

-- The value of the first detail, of the second, and of the third.
pub detail_value-first :
    (step : Step) (key x : String) (rest : List String)
    → step.details ≡ ((key <> "=") <> x) ∷ rest
    → detail_value step key ≡ trim_space x
unfolding detail_value detail_values first_or_empty
detail_value-first step key x rest same =
    ap (λ l. first_or_empty (values_of (key <> "=") l)) same
    ∙ ap first_or_empty (values_of-found (key <> "=") x rest)

pub detail_value-second :
    (step : Step) (key other x y : String) (rest : List String)
    → mismatch other (key <> "=") ≡ true
    → step.details ≡ (other <> x) ∷ ((key <> "=") <> y) ∷ rest
    → detail_value step key ≡ trim_space y
unfolding detail_value detail_values first_or_empty
detail_value-second step key other x y rest differ same =
    ap (λ l. first_or_empty (values_of (key <> "=") l)) same
    ∙ ap first_or_empty (
        values_of-other (key <> "=") other x (((key <> "=") <> y) ∷ rest) differ
        ∙ values_of-found (key <> "=") y rest)

pub detail_value-third :
    (step : Step) (key first second x y z : String) (rest : List String)
    → mismatch first (key <> "=") ≡ true
    → mismatch second (key <> "=") ≡ true
    → step.details ≡ (first <> x) ∷ (second <> y) ∷ ((key <> "=") <> z) ∷ rest
    → detail_value step key ≡ trim_space z
unfolding detail_value detail_values first_or_empty
detail_value-third step key first second x y z rest differ differ' same =
    let k = key <> "=" in
    ap (λ l. first_or_empty (values_of k l)) same
    ∙ ap first_or_empty (
        values_of-other k first x ((second <> y) ∷ (k <> z) ∷ rest) differ
        ∙ values_of-other k second y ((k <> z) ∷ rest) differ'
        ∙ values_of-found k z rest)
