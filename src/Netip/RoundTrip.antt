-- ===== src/Netip/RoundTrip.antt =====
-- Dotted addresses: what `Addr.String` and `Prefix.String` print, the parsers read back.
use text.Mathlib.TextLemmas.{nil-append, cons-append}
use big_red_button.Base.{
  ◌≡◌, refl, ap, ℕ, ◌<◌, ◌≤◌, String, ◌<>◌, Bool, true, false, not, ◌&&◌, Option, none, some, List,
  [], ◌∷◌, eqb, leb, ltb, all_below, all_below-lt, arith, show_ℕ,
}
use big_red_button.Base.Text.{all_chars, split_at, parse_ℕ}
use big_red_button.Base.Pieces.{
  all_chars-weaken, split_at-append, split_at-whole, cut_last-append, one-append,
}
use big_red_button.Netip.{Addr, v4}
use big_red_button.Netip.Parse.{
  parse_addr, parse_prefix, octet, octets, decimal_field, kind, Kind, dotted_kind,
}
use big_red_button.Netip.Parse
use big_red_button.Netip.Print.{show_addr, show_prefix}

abbrev pub is_decimal : ℕ → Bool
is_decimal c = leb b'0' c && leb c b'9'

abbrev is_number : Option ℕ → ℕ → Bool
is_number none n = false
is_number (some m) n = eqb m n

-- The text of a number is its decimal field, of digits only.
abbrev reads_back : (String → Option ℕ) → ℕ → Bool
reads_back read n = is_number (read (show_ℕ n)) n && all_chars is_decimal (show_ℕ n)

octets_checked : all_below 256 (reads_back octet) ≡ true
unfolding octet show_ℕ all_chars
octets_checked = refl

lengths_checked : all_below 129 (reads_back decimal_field) ≡ true
unfolding decimal_field parse_ℕ show_ℕ all_chars
lengths_checked = refl

is_number-eq : (o : Option ℕ) (n : ℕ) → is_number o n ≡ true → o ≡ some n
is_number-eq none n h = absurd (cc)
is_number-eq (some m) n h = let same : m ≡ n = grind arith in ap some same

octet-show : (n : ℕ) → n < 256 → octet (show_ℕ n) ≡ some n
octet-show n small =
    is_number-eq (octet (show_ℕ n)) n
      (let checked = all_below-lt 256 (reads_back octet) n octets_checked small in ground arith)

decimal_field-show : (n : ℕ) → n < 129 → decimal_field (show_ℕ n) ≡ some n
decimal_field-show n small = is_number-eq (decimal_field (show_ℕ n)) n (
    let checked = all_below-lt 129 (reads_back decimal_field) n lengths_checked small in
    ground arith)

pub show_ℕ-decimal : (n : ℕ) → n < 256 → all_chars is_decimal (show_ℕ n) ≡ true
show_ℕ-decimal n small =
    let checked = all_below-lt 256 (reads_back octet) n octets_checked small in ground arith

-- Digits are not a separator.
no_char :
    (k : ℕ) (s : String)
    → is_decimal k ≡ false
    → all_chars is_decimal s ≡ true
    → all_chars (λ j. not (eqb j k)) s ≡ true
no_char k s other digits =
    all_chars-weaken is_decimal (λ j. not (eqb j k)) s (λ j h. ground arith) digits

split_show :
    (n : ℕ) (rest : String)
    → n < 256
    → split_at (λ c. eqb c b'.') (show_ℕ n <> ("." <> rest))
      ≡ show_ℕ n ∷ split_at (λ c. eqb c b'.') rest
split_show n rest small =
    split_at-append (λ c. eqb c b'.') (show_ℕ n) "." rest
      (no_char b'.' (show_ℕ n) refl (show_ℕ-decimal n small)) refl

octets-cons :
    (p : String) (ps : List String) (n : ℕ) (ns : List ℕ)
    → octet p ≡ some n
    → octets ps ≡ some ns
    → octets (p ∷ ps) ≡ some (n ∷ ns)
unfolding octets
octets-cons p ps n ns first rest = cc

kind_dotted :
    (a rest : String) → all_chars is_decimal a ≡ true → kind (a <> ("." <> rest)) ≡ dotted_kind
unfolding all_chars kind
kind_dotted String.[] rest h = rw (nil-append ("." <> rest)) (rw (one-append "." rest) refl)
kind_dotted (String.◌∷◌ c a) rest h =
    rw (cons-append c a ("." <> rest))
      (let later = kind_dotted a rest (ground arith) in ground arith)

-- A dotted address of four bytes.
abbrev pub quad : ℕ → ℕ → ℕ → ℕ → Addr
quad a b c d = v4 (a ∷ b ∷ c ∷ d ∷ [])

abbrev pub AreBytes : ℕ → ℕ → ℕ → ℕ → Type 0
AreBytes a b c d = (a < 256) × (b < 256) × (c < 256) × (d < 256)

pub show_quad :
    (a b c d : ℕ)
    → show_addr (quad a b c d)
      ≡ show_ℕ a <> ("." <> (show_ℕ b <> ("." <> (show_ℕ c <> ("." <> show_ℕ d)))))
unfolding show_addr
show_quad a b c d = refl

pieces_of_quad :
    (a b c d : ℕ)
    → AreBytes a b c d
    → split_at (λ k. eqb k b'.') (show_addr (quad a b c d))
      ≡ show_ℕ a ∷ show_ℕ b ∷ show_ℕ c ∷ show_ℕ d ∷ []
pieces_of_quad a b c d (ha, hb, hc, hd) = rw (show_quad a b c d) (
    rw (split_show a (show_ℕ b <> ("." <> (show_ℕ c <> ("." <> show_ℕ d)))) ha) (
      rw (split_show b (show_ℕ c <> ("." <> show_ℕ d)) hb) (
        rw (split_show c (show_ℕ d) hc) (
          rw
            (split_at-whole (λ k. eqb k b'.') (show_ℕ d)
              (no_char b'.' (show_ℕ d) refl (show_ℕ-decimal d hd)))
            refl))))

octets_of_quad :
    (a b c d : ℕ)
    → AreBytes a b c d
    → octets (show_ℕ a ∷ show_ℕ b ∷ show_ℕ c ∷ show_ℕ d ∷ []) ≡ some (a ∷ b ∷ c ∷ d ∷ [])
unfolding octets
octets_of_quad a b c d (ha, hb, hc, hd) =
    octets-cons (show_ℕ a) (show_ℕ b ∷ show_ℕ c ∷ show_ℕ d ∷ []) a (b ∷ c ∷ d ∷ [])
      (octet-show a ha)
      (octets-cons (show_ℕ b) (show_ℕ c ∷ show_ℕ d ∷ []) b (c ∷ d ∷ []) (octet-show b hb) (
        octets-cons (show_ℕ c) (show_ℕ d ∷ []) c (d ∷ []) (octet-show c hc)
          (octets-cons (show_ℕ d) [] d [] (octet-show d hd) refl)))

-- The text of a dotted address is read as that address.
pub parse_addr-show_addr :
    (a b c d : ℕ) → AreBytes a b c d → parse_addr (show_addr (quad a b c d)) ≡ some (quad a b c d)
unfolding parse_addr Parse.dotted
parse_addr-show_addr a b c d bytes =
    let rest = show_ℕ b <> ("." <> (show_ℕ c <> ("." <> show_ℕ d))) in
    let dots : kind (show_addr (quad a b c d)) ≡ dotted_kind =
      rw (show_quad a b c d) (kind_dotted (show_ℕ a) rest (show_ℕ-decimal a bytes.0)) in
    let read : Parse.dotted (show_addr (quad a b c d)) ≡ some (a ∷ b ∷ c ∷ d ∷ []) =
      cc (pieces_of_quad a b c d bytes, octets_of_quad a b c d bytes) in
    cc

-- The text of a prefix of a dotted address is read as that prefix.
pub parse_prefix-show_prefix :
    (a b c d n : ℕ)
    → AreBytes a b c d
    → n ≤ 32
    → parse_prefix (show_prefix (record { addr = quad a b c d; bits = n }))
      ≡ some (record { addr = quad a b c d; bits = n })
unfolding parse_prefix show_prefix
parse_prefix-show_prefix a b c d n bytes short =
    let cut =
      cut_last-append b'/' (show_addr (quad a b c d)) "/" (show_ℕ n) refl
        (no_char b'/' (show_ℕ n) refl (show_ℕ-decimal n (omega arith))) in
    let long : ltb 32 n ≡ false = ground arith in
    let field = decimal_field-show n (omega arith) in cc (parse_addr-show_addr a b c d bytes)
