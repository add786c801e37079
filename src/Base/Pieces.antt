-- ===== src/Base/Pieces.antt =====
-- How the texts of package strings fall apart: pieces, blanks, and characters that all pass a test.
use Prim.Native.Nat.{ℕ}
use Prim.Native.Char.{Char, code}
use Prim.Native.String.{String, ◌++◌ as ◌<>◌}
use mathlib.Core.Path.{◌≡◌, refl, ap, ◌∙◌}
use mathlib.Core.Bool.{Bool, true, false, not, ◌&&◌}
use mathlib.Core.Option.{none, some}
use mathlib.Core.List.{[], ◌∷◌}
use native.Mathlib.Omega.{arith}
use text.Mathlib.TextLemmas.{nil-append, cons-append}
use big_red_button.Base.Tests.{eqb}
use big_red_button.Base.Text.{
  is_space, trim_left, trim_right, cons_trimmed, trim_space, all_chars, split_at, split_step,
  cut_last,
}

pub all_chars-append :
    (p : ℕ → Bool) (a b : String) → all_chars p (a <> b) ≡ (all_chars p a && all_chars p b)
unfolding all_chars
all_chars-append p String.[] b = rw (nil-append b) refl
all_chars-append p (String.◌∷◌ c a) b =
    rw (cons-append c a b) (ground (arith, all_chars-append p a b))

-- A weaker test passes too.
pub all_chars-weaken :
    (p q : ℕ → Bool) (s : String)
    → ((k : ℕ) → p k ≡ true → q k ≡ true)
    → all_chars p s ≡ true
    → all_chars q s ≡ true
unfolding all_chars
all_chars-weaken p q String.[] f h = refl
all_chars-weaken p q (String.◌∷◌ c s) f h =
    rw (f (code c) (ground arith)) (all_chars-weaken p q s f (ground arith))

abbrev pub is_plain : ℕ → Bool
is_plain c = not (is_space c)

trim_right-plain : (s : String) → all_chars is_plain s ≡ true → trim_right s ≡ s
unfolding all_chars trim_right cons_trimmed
trim_right-plain String.[] h = refl
trim_right-plain (String.◌∷◌ c String.[]) h = ground arith
trim_right-plain (String.◌∷◌ c (String.◌∷◌ d s)) h =
    ap (cons_trimmed c) (trim_right-plain (String.◌∷◌ d s) (ground arith))

trim_left-plain : (s : String) → all_chars is_plain s ≡ true → trim_left s ≡ s
unfolding all_chars trim_left
trim_left-plain String.[] h = refl
trim_left-plain (String.◌∷◌ c s) h = ground arith

-- A text without spaces is trimmed already.
pub trim_space-plain : (s : String) → all_chars is_plain s ≡ true → trim_space s ≡ s
unfolding trim_space
trim_space-plain s h = ap trim_left (trim_right-plain s h) ∙ trim_left-plain s h

-- A text of one character in front of another.
pub one-append : (c : Char) (b : String) → String.◌∷◌ c "" <> b ≡ String.◌∷◌ c b
one-append c b = cons-append c "" b ∙ ap (String.◌∷◌ c) (nil-append b)

-- A piece without separators is cut off at the first one.
pub split_at-append :
    (sep : ℕ → Bool) (a : String) (c : Char) (b : String)
    → all_chars (λ k. not (sep k)) a ≡ true
    → sep (code c) ≡ true
    → split_at sep (a <> (String.◌∷◌ c "" <> b)) ≡ a ∷ split_at sep b
unfolding all_chars split_at
split_at-append sep String.[] c b h here =
    rw (nil-append (String.◌∷◌ c "" <> b)) (rw (one-append c b) (rw here refl))
split_at-append sep (String.◌∷◌ d a) c b h here =
    let no : sep (code d) ≡ false = ground arith in
    ap (split_at sep) (cons-append d a (String.◌∷◌ c "" <> b))
    ∙ ap (split_step (sep (code d)) d) (split_at-append sep a c b (ground arith) here)
    ∙ rw no refl

pub split_at-whole :
    (sep : ℕ → Bool) (a : String) → all_chars (λ k. not (sep k)) a ≡ true → split_at sep a ≡ a ∷ []
unfolding all_chars split_at
split_at-whole sep String.[] h = refl
split_at-whole sep (String.◌∷◌ d a) h =
    let no : sep (code d) ≡ false = ground arith in
    ap (split_step (sep (code d)) d) (split_at-whole sep a (ground arith)) ∙ rw no refl

cut_last-none : (k : ℕ) (b : String) → all_chars (λ j. not (eqb j k)) b ≡ true → cut_last k b ≡ none
unfolding all_chars cut_last
cut_last-none k String.[] h = refl
cut_last-none k (String.◌∷◌ d b) h = rw (cut_last-none k b (ground arith)) (ground arith)

-- The last occurrence is the one that none follows.
pub cut_last-append :
    (k : ℕ) (a : String) (c : Char) (b : String)
    → eqb (code c) k ≡ true
    → all_chars (λ j. not (eqb j k)) b ≡ true
    → cut_last k (a <> (String.◌∷◌ c "" <> b)) ≡ some (a, b)
unfolding cut_last
cut_last-append k String.[] c b here h =
    rw (nil-append (String.◌∷◌ c "" <> b))
      (rw (one-append c b) (rw (cut_last-none k b h) (rw here refl)))
cut_last-append k (String.◌∷◌ d a) c b here h =
    rw (cons-append d a (String.◌∷◌ c "" <> b)) (rw (cut_last-append k a c b here h, cut_last) refl)

pub all_chars-both :
    (p : ℕ → Bool) (a b : String)
    → all_chars p a ≡ true
    → all_chars p b ≡ true
    → all_chars p (a <> b) ≡ true
all_chars-both p a b ha hb = rw (all_chars-append p a b) (rw ha (rw hb refl))
