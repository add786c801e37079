-- ===== src/Base/Net.antt =====
-- package net's texts of a host with a port, and `strconv.Atoi`, which reads the port.
use Prim.Native.Nat.{ℕ, suc, zero, ◌^◌, ◌-◌}
use Prim.Native.Char.{code}
use Prim.Native.String.{String, ◌++◌ as ◌<>◌}
use mathlib.Core.Path.{◌≡◌, refl}
use mathlib.Core.Bool.{Bool, true, false, ◌||◌}
use mathlib.Core.Option.{Option, none, some}
use big_red_button.Base.Tests.{leb, eqb, if◌then◌else◌}
use big_red_button.Base.Int.{ℤ, pos, negsuc}
use big_red_button.Base.Text.{cut_char, cut_last, any_char, parse_ℕ}

negative : ℕ → ℤ
negative zero = pos 0
negative (suc n) = negsuc n

-- A number of 63 bits, or none.
in_range : ℕ → Option ℕ → Option ℕ
in_range bound none = none
in_range bound (some n) = if leb n bound then some n else none

-- The number behind a sign.
signed : Bool → String → Option ℤ
unfolding parse_ℕ in_range negative
signed true s = elim (in_range (2 ^ 63) (parse_ℕ s)) [ none ↦ none | some n ↦ some (negative n) ]
signed false s = elim (in_range (2 ^ 63 - 1) (parse_ℕ s)) [ none ↦ none | some n ↦ some (pos n) ]

-- `strconv.Atoi`: an optional sign and decimal digits, of 64 bits.
unfoldable pub atoi : String → Option ℤ
unfolding signed
atoi String.[] = none
atoi (String.◌∷◌ c s) =
    if eqb (code c) b'-'
    then signed true s
    else if eqb (code c) b'+'
    then signed false s
    else signed false (String.◌∷◌ c s)

has_bracket : String → Bool
has_bracket = any_char (λ c. eqb c b'[' || eqb c b']')

-- The port behind a bracketed host.
after_bracket : String → String → Option (String × String)
unfolding has_bracket
after_bracket host String.[] = none
after_bracket host (String.◌∷◌ c port) =
    if eqb (code c) b':'
    then if any_char (λ d. eqb d b':') port || has_bracket port || any_char (λ d. eqb d b'[') host
      then none
      else some (host, port)
    else none

split_bracketed : String → Option (String × String)
unfolding after_bracket cut_char
split_bracketed s = elim (cut_char b']' s) [
  | none ↦ none
  | some (host, rest) ↦ after_bracket host rest
]

split_plain : String → Option (String × String)
unfolding cut_last any_char has_bracket
split_plain s = elim (cut_last b':' s) [
  | none ↦ none
  | some (host, port) ↦
      if any_char (λ d. eqb d b':') host || has_bracket s then none else some (host, port)
]

-- `net.SplitHostPort`
unfoldable pub split_host_port : String → Option (String × String)
unfolding split_bracketed split_plain
split_host_port String.[] = none
split_host_port (String.◌∷◌ c s) =
    if eqb (code c) b'[' then split_bracketed s else split_plain (String.◌∷◌ c s)

-- `net.JoinHostPort`
unfoldable pub join_host_port : String → String → String
unfolding any_char
join_host_port host port =
    if any_char (λ c. eqb c b':') host
    then "[" <> (host <> ("]:" <> port))
    else host <> (":" <> port)

atoi_test : atoi "-42" ≡ some (negsuc 41)
unfolding atoi
atoi_test = refl

atoi_bound : atoi "9223372036854775808" ≡ none
unfolding atoi
atoi_bound = refl

atoi_empty : atoi "+" ≡ none
unfolding atoi
atoi_empty = refl

split_test : split_host_port "127.0.0.1:51820" ≡ some ("127.0.0.1", "51820")
unfolding split_host_port
split_test = refl

split_bracketed_test : split_host_port "[fe80::1]:80" ≡ some ("fe80::1", "80")
unfolding split_host_port
split_bracketed_test = refl

split_colons : split_host_port "::1:80" ≡ none
unfolding split_host_port
split_colons = refl
