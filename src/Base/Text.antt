-- ===== src/Base/Text.antt =====
-- package strings (and strconv's parsing), over texts as lists of characters.
use Prim.Native.Nat.{ℕ, zero, suc, ◌+◌, ◌-◌, ◌*◌}
use Prim.Native.Char.{Char, code}
use Prim.Native.String.{String}
use mathlib.Core.Bool.{Bool, true, false, ◌&&◌, ◌||◌}
use mathlib.Core.Option.{Option, none, some}
use mathlib.Core.List.{List, [], ◌∷◌}
use text.Mathlib.Text.{◌==◌, starts_with}
use big_red_button.Base.Tests.{leb, eqb, if◌then◌else◌}

-- `unicode.IsSpace`
unfoldable pub is_space : ℕ → Bool
is_space c =
    (leb 9 c && leb c 13)
    || eqb c 32
    || eqb c 0x85
    || eqb c 0xa0
    || eqb c 0x1680
    || (leb 0x2000 c && leb c 0x200a)
    || eqb c 0x2028
    || eqb c 0x2029
    || eqb c 0x202f
    || eqb c 0x205f
    || eqb c 0x3000

pub is_digit : ℕ → Bool
is_digit c = leb b'0' c && leb c b'9'

unfoldable pub trim_left : String → String
trim_left String.[] = String.[]
trim_left (String.◌∷◌ c s) =
    let rest = trim_left s in if is_space (code c) then rest else String.◌∷◌ c s

-- Drops a space that nothing follows.
unfoldable pub cons_trimmed : Char → String → String
cons_trimmed c String.[] = if is_space (code c) then String.[] else String.◌∷◌ c String.[]
cons_trimmed c (String.◌∷◌ d s) = String.◌∷◌ c (String.◌∷◌ d s)

unfoldable pub trim_right : String → String
trim_right String.[] = String.[]
trim_right (String.◌∷◌ c s) = cons_trimmed c (trim_right s)

-- `strings.TrimSpace`
unfoldable pub trim_space : String → String
unfolding trim_left trim_right cons_trimmed is_space
trim_space s = trim_left (trim_right s)

-- `strings.TrimSpace(s) == ""`
unfoldable pub is_blank : String → Bool
unfolding trim_space
is_blank s = trim_space s == ""

-- The first piece of a text up to a character that passes the test, and the pieces after it.
unfoldable pub split_step : Bool → Char → List String → List String
split_step true c pieces = "" ∷ pieces
split_step false c [] = String.◌∷◌ c "" ∷ []
split_step false c (p ∷ pieces) = String.◌∷◌ c p ∷ pieces

-- The pieces between the characters that pass the test, empty pieces included.
unfoldable pub split_at : (ℕ → Bool) → String → List String
unfolding split_step
split_at sep String.[] = "" ∷ []
split_at sep (String.◌∷◌ c s) = split_step (sep (code c)) c (split_at sep s)

unfoldable pub non_empty : List String → List String
non_empty [] = []
non_empty (p ∷ ps) = let rest = non_empty ps in if p == "" then rest else p ∷ rest

-- `strings.Split(s, ",")`
unfoldable pub split_commas : String → List String
unfolding split_at
split_commas = split_at (λ c. eqb c b',')

-- `strings.FieldsFunc`
unfoldable pub fields_func : (ℕ → Bool) → String → List String
unfolding split_at non_empty
fields_func sep s = non_empty (split_at sep s)

-- `strings.Fields`
unfoldable pub fields : String → List String
unfolding fields_func is_space
fields = fields_func is_space

unfoldable pub drop_chars : String → String → String
drop_chars String.[] s = s
drop_chars (String.◌∷◌ _ p) String.[] = String.[]
drop_chars (String.◌∷◌ _ p) (String.◌∷◌ _ s) = drop_chars p s

-- `strings.CutPrefix`
unfoldable pub cut_prefix : String → String → Option String
unfolding drop_chars
cut_prefix s prefix = if starts_with s prefix then some (drop_chars prefix s) else none

-- A slice from the start, at most as long as the text.
unfoldable pub take_chars : ℕ → String → String
take_chars zero s = ""
take_chars (suc n) String.[] = ""
take_chars (suc n) (String.◌∷◌ c s) = String.◌∷◌ c (take_chars n s)

-- Keeps the characters that pass the test.
unfoldable pub keep_chars : (ℕ → Bool) → String → String
keep_chars p String.[] = String.[]
keep_chars p (String.◌∷◌ c s) =
    let rest = keep_chars p s in if p (code c) then String.◌∷◌ c rest else rest

unfoldable pub all_chars : (ℕ → Bool) → String → Bool
all_chars p String.[] = true
all_chars p (String.◌∷◌ c s) = p (code c) && all_chars p s

unfoldable pub any_char : (ℕ → Bool) → String → Bool
any_char p String.[] = false
any_char p (String.◌∷◌ c s) = p (code c) || any_char p s

parse_digits : ℕ → String → Option ℕ
unfolding is_digit
parse_digits acc String.[] = some acc
parse_digits acc (String.◌∷◌ c s) =
    let rest = parse_digits (acc * 10 + (code c - b'0')) s in
    if is_digit (code c) then rest else none

-- The number that a non-empty run of decimal digits writes.
unfoldable pub parse_ℕ : String → Option ℕ
unfolding parse_digits
parse_ℕ String.[] = none
parse_ℕ (String.◌∷◌ c s) = parse_digits 0 (String.◌∷◌ c s)

-- The text behind a character and the text before it, at its first occurrence.
unfoldable pub cut_char : ℕ → String → Option (String × String)
cut_char k String.[] = none
cut_char k (String.◌∷◌ c s) =
    let rest = cut_char k s in
    if eqb (code c) k
    then some ("", s)
    else elim rest [ none ↦ none | some (before, after) ↦ some (String.◌∷◌ c before, after) ]

-- The same at the last occurrence: `strings.LastIndex`.
unfoldable pub cut_last : ℕ → String → Option (String × String)
cut_last k String.[] = none
cut_last k (String.◌∷◌ c s) = elim (cut_last k s) [
  | some (before, after) ↦ some (String.◌∷◌ c before, after)
  | none ↦ if eqb (code c) k then some ("", s) else none
]
