-- ===== src/Netip.antt =====
-- package net/netip as far as the program uses it: addresses, prefixes, their texts.
pub mod Parse
pub mod Print
pub mod RoundTrip
use big_red_button.Base.{
  ℕ, ◌-◌, ◌*◌, ◌/◌, ◌^◌, String, ◌==◌, Bool, true, false, ◌&&◌, List, [], ◌∷◌, if◌then◌else◌, eqb,
  leb, not,
}

-- A `netip.Addr`: four bytes, or eight groups of 16 bits with a zone.
pub data Addr : Type 0 where
  v4 : List ℕ → Addr
  v6 : List ℕ → String → Addr

pub record Prefix : Type 0 where
  pub addr : Addr
  pub bits : ℕ

-- `Addr.Is4`
abbrev pub is4 : Addr → Bool
is4 (v4 _) = true
is4 (v6 _ _) = false

-- `Addr.Is6`
abbrev pub is6 : Addr → Bool
is6 (v4 _) = false
is6 (v6 _ _) = true

-- `Addr.BitLen`
abbrev pub bit_len : Addr → ℕ
bit_len (v4 _) = 32
bit_len (v6 _ _) = 128

unfoldable pub same_numbers : List ℕ → List ℕ → Bool
same_numbers [] [] = true
same_numbers (a ∷ as') (b ∷ bs) = eqb a b && same_numbers as' bs
same_numbers _ _ = false

-- `==` on `netip.Addr`
unfoldable pub same_addr : Addr → Addr → Bool
unfolding same_numbers
same_addr (v4 a) (v4 b) = same_numbers a b
same_addr (v6 a z) (v6 b y) = same_numbers a b && z == y
same_addr _ _ = false

-- `==` on `netip.Prefix`
unfoldable pub same_prefix : Prefix → Prefix → Bool
unfolding same_addr
same_prefix p q = same_addr p.addr q.addr && eqb p.bits q.bits

-- The high `bits` bits of the `width`-bit groups, the others cleared.
unfoldable pub mask_groups : ℕ → ℕ → List ℕ → List ℕ
mask_groups width bits [] = []
mask_groups width bits (g ∷ gs) =
    (if leb width bits then g else g / 2 ^ (width - bits) * 2 ^ (width - bits))
    ∷ mask_groups width (bits - width) gs

unfoldable pub mask_addr : ℕ → Addr → Addr
unfolding mask_groups
mask_addr bits (v4 octets) = v4 (mask_groups 8 bits octets)
mask_addr bits (v6 groups zone) = v6 (mask_groups 16 bits groups) zone

-- `Prefix.Masked`
unfoldable pub masked : Prefix → Prefix
unfolding mask_addr
masked p = record p { addr = mask_addr p.bits p.addr }

unfoldable pub has_zone : Addr → Bool
has_zone (v4 _) = false
has_zone (v6 _ zone) = not (zone == "")

-- `Prefix.Contains`: the address has no zone, and its high bits are the prefix's.
unfoldable pub prefix_contains : Prefix → Addr → Bool
unfolding has_zone same_addr mask_addr
prefix_contains p a = not (has_zone a) && same_addr (mask_addr p.bits a) (mask_addr p.bits p.addr)

-- `Addr.IsLoopback`
unfoldable pub is_loopback : Addr → Bool
unfolding same_numbers
is_loopback (v4 (first ∷ _)) = eqb first 127
is_loopback (v4 []) = false
is_loopback (v6 groups _) = same_numbers groups (0 ∷ 0 ∷ 0 ∷ 0 ∷ 0 ∷ 0 ∷ 0 ∷ 1 ∷ [])
