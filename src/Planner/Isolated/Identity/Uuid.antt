-- ===== src/Planner/Isolated/Identity/Uuid.antt =====
-- The session ids that `normalizeUUID` of internal/planner/isolated.go lets through.
use Prim.Native.Nat.{compare, Ordering}
use Prim.Native.Char.{width, len_utf8_def}
use Prim.Native.String.len
use big_red_button.Base.{
  ◌≡◌, refl, ◌∙◌, subst, ℕ, zero, suc, ◌≤◌, ◌+◌, String, Char, code, Bool, true, false, not, ◌&&◌,
  ◌||◌, ok, eqb, leb, ltb, len, len_utf8, arith, Bool-cases, inl, inr,
}
use big_red_button.Base.Text.{take_chars, trim_space, is_space, all_chars, keep_chars}
use big_red_button.Base.Pieces.{is_plain, trim_space-plain, all_chars-weaken}
use big_red_button.Planner.Isolated.Identity.{
  lower_char, to_lower, is_hex, check_uuid, is_uuid, normalize_uuid, short_session_id,
}

-- The characters of a UUID.
abbrev pub is_uuid_char : ℕ → Bool
is_uuid_char c = is_hex c || eqb c b'-'

check_uuid-chars : (i : ℕ) (s : String) → check_uuid i s ≡ true → all_chars is_uuid_char s ≡ true
unfolding check_uuid all_chars
check_uuid-chars i String.[] h = refl
check_uuid-chars i (String.◌∷◌ c s) h =
    let later = check_uuid-chars (suc i) s (ground arith) in ground arith

lower_char-id : (c : Char) → is_uuid_char (code c) ≡ true → lower_char c ≡ c
unfolding lower_char is_hex
lower_char-id c h =
    let low : (leb b'A' (code c) && leb (code c) b'Z') ≡ false = ground arith in rw low refl

to_lower-id : (s : String) → all_chars is_uuid_char s ≡ true → to_lower s ≡ s
unfolding to_lower all_chars
to_lower-id String.[] h = refl
to_lower-id (String.◌∷◌ c s) h =
    λ i. String.◌∷◌ (lower_char-id c (ground arith) i) (to_lower-id s (ground arith) i)

is_uuid-chars : (s : String) → is_uuid s ≡ true → all_chars is_uuid_char s ≡ true
unfolding is_uuid
is_uuid-chars s h = check_uuid-chars 0 s (ground arith)

is_uuid-trim_space : (s : String) → is_uuid s ≡ true → trim_space s ≡ s
unfolding is_hex is_space
is_uuid-trim_space s h =
    trim_space-plain s
      (all_chars-weaken is_uuid_char is_plain s (λ k here. ground arith) (is_uuid-chars s h))

-- A UUID normalizes to itself.
is_uuid-normalize_uuid : (s label : String) → is_uuid s ≡ true → normalize_uuid s label ≡ ok s
unfolding normalize_uuid
is_uuid-normalize_uuid s label h =
    rw (is_uuid-trim_space s h) (rw (to_lower-id s (is_uuid-chars s h)) (rw h refl))

pub normalize_uuid-is_uuid :
    (value label id : String) → normalize_uuid value label ≡ ok id → is_uuid id ≡ true
unfolding normalize_uuid
normalize_uuid-is_uuid value label id done =
    elim (Bool-cases (is_uuid (to_lower (trim_space value)))) [
      | inl valid ↦
          let same : to_lower (trim_space value) ≡ id = ground arith in
          subst (λ s. is_uuid s ≡ true) same valid
      | inr other ↦ absurd (ground arith)
    ]

-- What `normalizeUUID` returns is 36 bytes long, of lower-case hexadecimal digits and dashes, and
-- normalizes to itself under any label.
pub normalize_uuid-canonical :
    (value label id other : String)
    → normalize_uuid value label ≡ ok id
    → (len id ≡ 36) × (all_chars is_uuid_char id ≡ true) × (normalize_uuid id other ≡ ok id)
unfolding is_uuid
normalize_uuid-canonical value label id other done =
    let valid = normalize_uuid-is_uuid value label id done in
    (grind arith, is_uuid-chars id valid, is_uuid-normalize_uuid id other valid)

keep_chars-hex :
    (s : String)
    → all_chars is_uuid_char s ≡ true
    → all_chars is_hex (keep_chars (λ c. not (eqb c b'-')) s) ≡ true
unfolding all_chars keep_chars
keep_chars-hex String.[] h = refl
keep_chars-hex (String.◌∷◌ c s) h =
    let later = keep_chars-hex s (ground arith) in
    elim (Bool-cases (eqb (code c) b'-')) [
      | inl dash ↦ rw dash later
      | inr other ↦ rw other (ground arith)
    ]

take_chars-hex :
    (n : ℕ) (s : String) → all_chars is_hex s ≡ true → all_chars is_hex (take_chars n s) ≡ true
unfolding all_chars take_chars
take_chars-hex zero s h = refl
take_chars-hex (suc n) String.[] h = refl
take_chars-hex (suc n) (String.◌∷◌ c s) h =
    let later = take_chars-hex n s (ground arith) in ground arith

-- The short id of a session is of hexadecimal digits.
pub short_session_id-hex :
    (id : String) → is_uuid id ≡ true → all_chars is_hex (short_session_id id) ≡ true
unfolding short_session_id
short_session_id-hex id h =
    take_chars-hex 8 (keep_chars (λ c. not (eqb c b'-')) id)
      (keep_chars-hex id (is_uuid-chars id h))

width_one : (a b c : Ordering) → elim a [ Ordering.lt ↦ true | _ ↦ false ] ≡ true → width a b c ≡ 1
width_one Ordering.lt b c h = refl
width_one Ordering.eq b c h = absurd (cc)
width_one Ordering.gt b c h = absurd (cc)

-- A hexadecimal digit is one byte.
len-hex : (c : Char) → is_hex (code c) ≡ true → len_utf8 c ≡ 1
unfolding is_hex
len-hex c h =
    let low : ltb (code c) 128 ≡ true = ground arith in
    (λ i. len_utf8_def c i)
    ∙ width_one (compare (code c) 128) (compare (code c) 2048) (compare (code c) 65536) low

len-take_chars : (n : ℕ) (s : String) → all_chars is_hex s ≡ true → len (take_chars n s) ≤ n
unfolding all_chars take_chars
len-take_chars zero s h = omega arith
len-take_chars (suc n) String.[] h = omega arith
len-take_chars (suc n) (String.◌∷◌ c s) h =
    let cons : len (String.◌∷◌ c (take_chars n s)) ≡ len_utf8 c + len (take_chars n s) =
      λ i. len.cons c (take_chars n s) i in
    let one = len-hex c (ground arith) in
    let later = len-take_chars n s (ground arith) in omega arith

-- The short id of a session is eight bytes long at most.
pub len-short_session_id : (id : String) → is_uuid id ≡ true → len (short_session_id id) ≤ 8
unfolding short_session_id
len-short_session_id id h =
    len-take_chars 8 (keep_chars (λ c. not (eqb c b'-')) id)
      (keep_chars-hex id (is_uuid-chars id h))
