-- ===== src/Planner/Isolated/Normalize/DefaultNames.antt =====
-- The names that internal/planner/isolated.go derives from a session id pass the checks on names.
use text.Mathlib.TextLemmas.{append-eq-nil_iff}
use text.Mathlib.TextPositions.{len-append}
use big_red_button.Base.{
  ◌≡◌, refl, ◌≢◌, ◌<◌, ◌≤◌, ℕ, String, ◌<>◌, ◌==◌, true, false, not, ◌||◌, ok, all_below,
  all_below-lt, arith, Bool-cases, inl, inr, eq_iff, len, ltb,
}
use big_red_button.Base.Text.{trim_space, all_chars, is_space}
use big_red_button.Base.Unicode.{is_letter, is_digit}
use big_red_button.Base.Pieces.{is_plain, trim_space-plain, all_chars-both, all_chars-weaken}
use big_red_button.Planner.Isolated.Identity.{is_hex, is_uuid, short_session_id}
use big_red_button.Planner.Isolated.Identity.Uuid.{short_session_id-hex, len-short_session_id}
use big_red_button.Planner.Isolated.Network.{is_name_char, validate_name}

hex_checked : all_below 128 (λ k. not (is_hex k) || is_name_char k) ≡ true
unfolding is_hex is_name_char is_letter is_digit
hex_checked = refl

is_hex-is_name_char : (k : ℕ) → is_hex k ≡ true → is_name_char k ≡ true
unfolding is_hex
is_hex-is_name_char k h =
    let small : k < 128 = grind arith in
    let checked = all_below-lt 128 (λ k. not (is_hex k) || is_name_char k) k hex_checked small in
    ground arith

-- A prefix of at most seven bytes that no space and no strange character stands in.
pub record IsPrefix (prefix : String) : Type 0 where
  pub filled : prefix ≢ ""
  pub short : len prefix ≤ 7
  pub plain : all_chars is_plain prefix ≡ true
  pub named : all_chars is_name_char prefix ≡ true

module _ (prefix id : String) (fine : IsPrefix prefix) (valid : is_uuid id ≡ true) where
  abbrev name : String
  name = prefix <> short_session_id id

  pub name-ne-nil : (name == "") ≡ false
  name-ne-nil = elim (Bool-cases (name == "")) [
    | inl empty ↦ absurd (fine.filled (append-eq-nil_iff.0 ((eq_iff name "").0 empty)).0)
    | inr other ↦ other
  ]

  pub name-plain : all_chars is_plain name ≡ true
  unfolding is_hex is_space
  name-plain = all_chars-both is_plain prefix (short_session_id id) fine.plain (
      all_chars-weaken is_hex is_plain (short_session_id id) (λ k h. ground arith)
        (short_session_id-hex id valid))

  pub name-trim_space : trim_space name ≡ name
  name-trim_space = trim_space-plain name name-plain

  pub name-named : all_chars is_name_char name ≡ true
  name-named = all_chars-both is_name_char prefix (short_session_id id) fine.named (
      all_chars-weaken is_hex is_name_char (short_session_id id) is_hex-is_name_char
        (short_session_id-hex id valid))

  pub len-name : (limit : ℕ) → 15 ≤ limit → ltb limit (len name) ≡ false
  len-name limit enough =
      let both = len-append prefix (short_session_id id) in
      let few = len-short_session_id id valid in
      let short = fine.short in let bound : len name ≤ limit = omega arith in ground arith

  pub validate_name-name :
      (limit : ℕ) (label : String)
      → 15 ≤ limit
      → validate_name limit (trim_space name) label ≡ ok tt
  unfolding validate_name
  validate_name-name limit label enough =
      rw name-trim_space (rw name-ne-nil (rw (len-name limit enough) (rw name-named refl)))
