-- ===== src/Planner/Isolated/Network/Veth.antt =====
-- The address pair that `defaultVethAddressPair` of internal/planner/isolated.go derives.
use text.Mathlib.TextLemmas.{append_assoc}
use big_red_button.Base.{
  ◌≡◌, refl, sym, ◌∙◌, ap, ℕ, ◌+◌, ◌*◌, ◌/◌, ◌%◌, ◌≤◌, ◌<◌, String, ◌<>◌, ◌==◌, true, [], ◌∷◌, ok,
  arith, show_ℕ, eqb, Bool-cases, inl, inr, eq_iff,
}
use big_red_button.Base.Text.{trim_space, all_chars, is_space}
use big_red_button.Base.Pieces.{is_plain, trim_space-plain, all_chars-both, all_chars-weaken}
use big_red_button.Netip.{
  Prefix, same_addr, same_numbers, same_prefix, masked, mask_addr, mask_groups, prefix_contains,
  has_zone,
}
use big_red_button.Netip.Print.{show_addr, show_prefix}
use big_red_button.Netip.RoundTrip.{
  quad, AreBytes, show_quad, is_decimal, show_ℕ-decimal, parse_addr-show_addr,
  parse_prefix-show_prefix,
}
use big_red_button.Planner.Isolated.Network.{
  VethAddresses, first_non_empty, veth_third, veth_block, link_local, default_veth_address_pair,
  check_veth_addresses, parse_veth_addresses, normalize_veth_addresses,
}

-- An address of a default pair, by its last two bytes.
abbrev pub on_link : ℕ → ℕ → Prefix
on_link third last = record { addr = quad 169 254 third last; bits = 30 }

-- The pair of a block of four addresses.
abbrev pub pair_on : ℕ → ℕ → VethAddresses
pair_on third block = record {
  host_address = show_prefix (on_link third (block + 1));
  namespace_address = show_prefix (on_link third (block + 2));
  host_gateway = show_addr (quad 169 254 third (block + 1));
}

link_local_text : (x : String) → "169.254." <> x ≡ "169" <> ("." <> ("254" <> ("." <> x)))
link_local_text x =
    append_assoc "169" ".254." x
    ∙ ap (λ t. "169" <> t)
        (append_assoc "." "254." x ∙ ap (λ t. "." <> t) (append_assoc "254" "." x))

link_local-show_addr :
    (third last : ℕ) → link_local third last ≡ show_addr (quad 169 254 third last)
unfolding link_local show_ℕ
link_local-show_addr third last =
    link_local_text (show_ℕ third <> ("." <> show_ℕ last)) ∙ sym (show_quad 169 254 third last)

-- The default pair is the first two addresses of a block that the digest chooses.
default_veth_address_pair-pair_on :
    (sha256 : String → ℕ → ℕ) (session : String)
    → default_veth_address_pair sha256 session
      ≡ pair_on (veth_third (sha256 session 0)) (veth_block (sha256 session 1))
unfolding default_veth_address_pair show_prefix show_ℕ
default_veth_address_pair-pair_on sha256 session =
    let third = veth_third (sha256 session 0) in
    let block = veth_block (sha256 session 1) in
    λ i. record {
      host_address = link_local-show_addr third (block + 1) i <> "/30";
      namespace_address = link_local-show_addr third (block + 2) i <> "/30";
      host_gateway = link_local-show_addr third (block + 1) i;
    }

plain_number : (n : ℕ) → n < 256 → all_chars is_plain (show_ℕ n) ≡ true
unfolding is_space
plain_number n small =
    all_chars-weaken is_decimal is_plain (show_ℕ n) (λ k h. ground arith) (show_ℕ-decimal n small)

plain_dot : (x : String) → all_chars is_plain x ≡ true → all_chars is_plain ("." <> x) ≡ true
unfolding all_chars is_space
plain_dot x h = all_chars-both is_plain "." x refl h

-- The texts of a pair are without spaces.
show_addr-plain :
    (a b c d : ℕ) → AreBytes a b c d → all_chars is_plain (show_addr (quad a b c d)) ≡ true
show_addr-plain a b c d (ha, hb, hc, hd) =
    let both = all_chars-both is_plain in
    rw (show_quad a b c d) (
      both (show_ℕ a) ("." <> (show_ℕ b <> ("." <> (show_ℕ c <> ("." <> show_ℕ d)))))
        (plain_number a ha)
        (plain_dot (show_ℕ b <> ("." <> (show_ℕ c <> ("." <> show_ℕ d)))) (
          both (show_ℕ b) ("." <> (show_ℕ c <> ("." <> show_ℕ d))) (plain_number b hb) (
            plain_dot (show_ℕ c <> ("." <> show_ℕ d)) (
              both (show_ℕ c) ("." <> show_ℕ d) (plain_number c hc)
                (plain_dot (show_ℕ d) (plain_number d hd)))))))

show_prefix-plain :
    (third last : ℕ)
    → AreBytes 169 254 third last
    → all_chars is_plain (show_prefix (on_link third last)) ≡ true
unfolding show_prefix show_ℕ all_chars is_space
show_prefix-plain third last bytes =
    all_chars-both is_plain (show_addr (quad 169 254 third last)) "/30"
      (show_addr-plain 169 254 third last bytes) refl

-- A value that is not given is the default one.
pub first_non_empty-default :
    (raw default : String)
    → trim_space raw ≡ ""
    → all_chars is_plain default ≡ true
    → first_non_empty (raw ∷ default ∷ []) ≡ default
unfolding first_non_empty
first_non_empty-default raw default blank plain =
    let trimmed = trim_space-plain default plain in
    elim (Bool-cases (default == "")) [
      | inl empty ↦
          let none_left : default ≡ "" = (eq_iff default "").0 empty in
          rw blank (rw trimmed (rw empty (sym none_left)))
      | inr given ↦ rw blank (rw trimmed (rw given refl))
    ]

eqb_refl : (n : ℕ) → eqb n n ≡ true
eqb_refl n = ground arith

same_block : (k : ℕ) → (k * 4 + 1) / 4 * 4 ≡ (k * 4 + 2) / 4 * 4
same_block k = omega arith

-- The addresses of a block pass the checks.
check_veth_addresses-on_link :
    (third k : ℕ)
    → check_veth_addresses
        (on_link third (k * 4 + 1))
        (on_link third (k * 4 + 2))
        (quad 169 254 third (k * 4 + 1))
      ≡ ok (pair_on third (k * 4))
unfolding check_veth_addresses prefix_contains same_addr same_numbers same_prefix masked mask_addr
    mask_groups has_zone
check_veth_addresses-on_link third k =
    rw (same_block k)
      (rw (eqb_refl third) (rw (eqb_refl ((k * 4 + 2) / 4 * 4)) (rw (eqb_refl (k * 4 + 1)) refl)))

parse_veth_addresses-pair_on :
    (third k : ℕ)
    → third < 256
    → k < 63
    → parse_veth_addresses (pair_on third (k * 4)) ≡ ok (pair_on third (k * 4))
unfolding parse_veth_addresses
parse_veth_addresses-pair_on third k small below =
    let one = k * 4 + 1 in
    let two = k * 4 + 2 in
    let host : AreBytes 169 254 third one = (omega arith, omega arith, small, omega arith) in
    let peer : AreBytes 169 254 third two = (omega arith, omega arith, small, omega arith) in
    cc (
      parse_prefix-show_prefix 169 254 third one 30 host (omega arith),
      parse_prefix-show_prefix 169 254 third two 30 peer (omega arith),
      parse_addr-show_addr 169 254 third one host,
      check_veth_addresses-on_link third k,
    )

-- Where no address is given, normalization accepts the pair that the digest of the session chooses: its
-- first byte modulo 64 the third octet from 64 on, its second byte modulo 63 the aligned block of four
-- in that octet. The pair is the second and third address of the block, and the block lies in
-- 169.254.64.0 to 169.254.127.251.
pub normalize_veth_addresses-pair_on :
    (sha256 : String → ℕ → ℕ) (raw : VethAddresses) (session : String)
    → trim_space raw.host_address ≡ ""
    → trim_space raw.namespace_address ≡ ""
    → trim_space raw.host_gateway ≡ ""
    → let third = 64 + sha256 session 0 % 64 in
      let block = sha256 session 1 % 63 * 4 in
      (64 ≤ third)
      × (third ≤ 127)
      × (block % 4 ≡ 0)
      × (block + 3 ≤ 251)
      × (normalize_veth_addresses sha256 raw session ≡ ok (pair_on third block))
unfolding normalize_veth_addresses veth_third veth_block
normalize_veth_addresses-pair_on sha256 raw session no_host no_peer no_gateway =
    let third = veth_third (sha256 session 0) in
    let k = sha256 session 1 % 63 in
    let low : 64 ≤ third = omega arith in
    let high : third ≤ 127 = omega arith in
    let below : k < 63 = omega arith in
    let host : AreBytes 169 254 third (k * 4 + 1) =
      (omega arith, omega arith, omega arith, omega arith) in
    let peer : AreBytes 169 254 third (k * 4 + 2) =
      (omega arith, omega arith, omega arith, omega arith) in
    let pair = pair_on third (k * 4) in
    let first =
      first_non_empty-default raw.host_address pair.host_address no_host
        (show_prefix-plain third (k * 4 + 1) host) in
    let second =
      first_non_empty-default raw.namespace_address pair.namespace_address no_peer
        (show_prefix-plain third (k * 4 + 2) peer) in
    let gate =
      first_non_empty-default raw.host_gateway pair.host_gateway no_gateway
        (show_addr-plain 169 254 third (k * 4 + 1) host) in
    (
      low,
      high,
      omega arith,
      omega arith,
      cc (
        default_veth_address_pair-pair_on sha256 session,
        first,
        second,
        gate,
        parse_veth_addresses-pair_on third k (omega arith) below,
      ),
    )
