-- ===== src/Netip/Parse.antt =====
-- `netip.ParseAddr` and `netip.ParsePrefix`.
use big_red_button.Base.{
  ◌≡◌, refl, ℕ, zero, suc, ◌+◌, ◌-◌, ◌*◌, String, code, ◌==◌, Bool, true, false, ◌&&◌, ◌||◌, not,
  Option, none, some, List, [], ◌∷◌, ◌++◌, if◌then◌else◌, eqb, ltb, leb, length, len,
}
use big_red_button.Base.Text.{cut_char, cut_last, any_char, parse_ℕ, split_at}
use big_red_button.Netip.{Addr, v4, v6, Prefix, bit_len, has_zone}

-- A decimal field: no leading zero, at most three digits.
unfoldable pub decimal_field : String → Option ℕ
unfolding parse_ℕ
decimal_field (String.◌∷◌ c (String.◌∷◌ d s)) =
    if eqb (code c) b'0' || ltb 3 (len (String.◌∷◌ c (String.◌∷◌ d s)))
    then none
    else parse_ℕ (String.◌∷◌ c (String.◌∷◌ d s))
decimal_field s = parse_ℕ s

-- One byte of a dotted address.
unfoldable pub octet : String → Option ℕ
unfolding decimal_field
octet s = elim (decimal_field s) [ none ↦ none | some n ↦ if leb n 255 then some n else none ]

unfoldable pub octets : List String → Option (List ℕ)
unfolding octet
octets [] = some []
octets (p ∷ ps) = elim (octet p) [
  | none ↦ none
  | some n ↦ elim (octets ps) [ none ↦ none | some ns ↦ some (n ∷ ns) ]
]

-- Four decimal bytes between dots.
unfoldable pub dotted : String → Option (List ℕ)
unfolding octets split_at
dotted s = elim (octets (split_at (λ c. eqb c b'.') s)) [
  | none ↦ none
  | some ns ↦ if eqb (length ns) 4 then some ns else none
]

hex_digit : ℕ → Option ℕ
hex_digit c =
    if leb b'0' c && leb c b'9'
    then some (c - b'0')
    else if leb b'a' c && leb c b'f'
    then some (c - b'a' + 10)
    else if leb b'A' c && leb c b'F'
    then some (c - b'A' + 10)
    else none

hex_digits : ℕ → String → Option ℕ
unfolding hex_digit
hex_digits acc String.[] = some acc
hex_digits acc (String.◌∷◌ c s) = elim (hex_digit (code c)) [
  | none ↦ none
  | some d ↦ hex_digits (acc * 16 + d) s
]

-- One to four hexadecimal digits.
hex_group : String → Option ℕ
unfolding hex_digits
hex_group String.[] = none
hex_group (String.◌∷◌ c s) =
    if ltb 4 (len (String.◌∷◌ c s)) then none else hex_digits 0 (String.◌∷◌ c s)

-- Two groups from the four bytes of a dotted tail.
pair_bytes : List ℕ → List ℕ
pair_bytes (a ∷ b ∷ rest) = (a * 256 + b) ∷ pair_bytes rest
pair_bytes _ = []

-- The groups between colons; the last may be a dotted address.
groups : List String → Option (List ℕ)
unfolding hex_group dotted pair_bytes
groups [] = some []
groups (p ∷ []) =
    if any_char (λ c. eqb c b'.') p
    then elim (dotted p) [ none ↦ none | some ns ↦ some (pair_bytes ns) ]
    else elim (hex_group p) [ none ↦ none | some g ↦ some (g ∷ []) ]
groups (p ∷ q ∷ ps) = elim (hex_group p) [
  | none ↦ none
  | some g ↦ elim (groups (q ∷ ps)) [ none ↦ none | some gs ↦ some (g ∷ gs) ]
]

-- The texts before and behind the first `::`.
cut_ellipsis : String → Option (String × String)
cut_ellipsis (String.◌∷◌ c (String.◌∷◌ d s)) =
    let rest = cut_ellipsis (String.◌∷◌ d s) in
    if eqb (code c) b':' && eqb (code d) b':'
    then some ("", s)
    else elim rest [ none ↦ none | some (before, after) ↦ some (String.◌∷◌ c before, after) ]
cut_ellipsis _ = none

zeros : ℕ → List ℕ
zeros zero = []
zeros (suc n) = 0 ∷ zeros n

-- The groups of one side of `::`, which may be empty. Only the right side may end in a dotted address.
side : Bool → String → Option (List ℕ)
unfolding groups split_at any_char
side dots_allowed s =
    if s == ""
    then some []
    else if not dots_allowed && any_char (λ c. eqb c b'.') s
    then none
    else groups (split_at (λ c. eqb c b':') s)

fill : Option (List ℕ) → Option (List ℕ) → Option (List ℕ)
unfolding zeros
fill (some before) (some after) =
    if ltb (length before + length after) 8
    then some (before ++ (zeros (8 - length before - length after) ++ after))
    else none
fill _ _ = none

v6_groups : String → Option (List ℕ)
unfolding cut_ellipsis side fill groups split_at
v6_groups s = elim (cut_ellipsis s) [
  | some (before, after) ↦ fill (side false before) (side true after)
  | none ↦ elim (groups (split_at (λ c. eqb c b':') s)) [
    | none ↦ none
    | some gs ↦ if eqb (length gs) 8 then some gs else none
  ]
]

parse_v6 : String → Option Addr
unfolding v6_groups cut_char
parse_v6 s = elim (cut_char b'%' s) [
  | none ↦ elim (v6_groups s) [ none ↦ none | some gs ↦ some (v6 gs "") ]
  | some (addr, zone) ↦
      if zone == ""
      then none
      else elim (v6_groups addr) [ none ↦ none | some gs ↦ some (v6 gs zone) ]
]

-- The first of `.`, `:` and `%` decides.
pub data Kind : Type 0 where
  dotted_kind colon_kind no_kind : Kind

unfoldable pub kind : String → Kind
kind String.[] = no_kind
kind (String.◌∷◌ c s) =
    let rest = kind s in
    if eqb (code c) b'.'
    then dotted_kind
    else if eqb (code c) b':'
    then colon_kind
    else if eqb (code c) b'%'
    then no_kind
    else rest

-- `netip.ParseAddr`
unfoldable pub parse_addr : String → Option Addr
unfolding kind dotted parse_v6
parse_addr s = elim (kind s) [
  | dotted_kind ↦ elim (dotted s) [ none ↦ none | some ns ↦ some (v4 ns) ]
  | colon_kind ↦ parse_v6 s
  | no_kind ↦ none
]

-- `netip.ParsePrefix`: no zone, and a length without sign or leading zero.
unfoldable pub parse_prefix : String → Option Prefix
unfolding parse_addr decimal_field has_zone cut_last
parse_prefix s = elim (cut_last b'/' s) [
  | none ↦ none
  | some (addr, bits) ↦ elim (parse_addr addr) [
    | none ↦ none
    | some a ↦ elim (decimal_field bits) [
      | none ↦ none
      | some n ↦
          if has_zone a || ltb (bit_len a) n then none else some (record { addr = a; bits = n })
    ]
  ]
]

parse_addr_v4 : parse_addr "10.0.255.7" ≡ some (v4 (10 ∷ 0 ∷ 255 ∷ 7 ∷ []))
unfolding parse_addr
parse_addr_v4 = refl

parse_addr_v6 :
    parse_addr "fe80::1%eth0" ≡ some (v6 (0xfe80 ∷ 0 ∷ 0 ∷ 0 ∷ 0 ∷ 0 ∷ 0 ∷ 1 ∷ []) "eth0")
unfolding parse_addr
parse_addr_v6 = refl

parse_addr_mapped :
    parse_addr "::ffff:1.2.3.4" ≡ some (v6 (0 ∷ 0 ∷ 0 ∷ 0 ∷ 0 ∷ 0xffff ∷ 0x0102 ∷ 0x0304 ∷ []) "")
unfolding parse_addr
parse_addr_mapped = refl

parse_addr_zero_led : parse_addr "10.0.0.01" ≡ none
unfolding parse_addr
parse_addr_zero_led = refl

parse_addr_three_colons : parse_addr "1:::2" ≡ none
unfolding parse_addr
parse_addr_three_colons = refl

parse_prefix_v4 :
    parse_prefix "10.1.2.3/24" ≡ some (record { addr = v4 (10 ∷ 1 ∷ 2 ∷ 3 ∷ []); bits = 24 })
unfolding parse_prefix
parse_prefix_v4 = refl
