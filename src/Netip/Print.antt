-- ===== src/Netip/Print.antt =====
-- `Addr.String` and `Prefix.String`.
use big_red_button.Base.{
  ℕ, zero, suc, ◌/◌, ◌%◌, String, ◌<>◌, ◌==◌, true, false, List, [], ◌∷◌, ◌≡◌, refl, if◌then◌else◌,
  eqb, ltb, leb, join, map, show_ℕ,
}
use big_red_button.Netip.{Addr, v4, v6, Prefix, same_numbers}

hex_char : ℕ → String
hex_char n = elim (ltb n 10) [
  | true ↦ show_ℕ n
  | false ↦
      if eqb n 10
      then "a"
      else if eqb n 11
      then "b"
      else if eqb n 12
      then "c"
      else if eqb n 13
      then "d"
      else if eqb n 14
      then "e"
      else "f"
]

-- A group in hexadecimal with no leading zero, on fuel 4.
hex_from : ℕ → ℕ → String → String
unfolding hex_char show_ℕ
hex_from zero g acc = acc
hex_from (suc f) g acc =
    let rest = hex_from f (g / 16) (hex_char (g % 16) <> acc) in
    if ltb g 16 then hex_char g <> acc else rest

hex : ℕ → String
unfolding hex_from
hex g = hex_from 4 g ""

-- The number of leading zero groups.
zero_run : List ℕ → ℕ
zero_run [] = 0
zero_run (g ∷ gs) = let rest = zero_run gs in if eqb g 0 then suc rest else 0

-- The longest run of zero groups.
longest_run : List ℕ → ℕ
unfolding zero_run
longest_run [] = 0
longest_run (g ∷ gs) =
    let here = zero_run (g ∷ gs) in
    let later = longest_run gs in if ltb here later then later else here

drop_groups : ℕ → List ℕ → List ℕ
drop_groups zero gs = gs
drop_groups (suc n) [] = []
drop_groups (suc n) (_ ∷ gs) = drop_groups n gs

-- The groups with the first run of `n` zeros written as `::`.
compress : ℕ → List ℕ → String
unfolding hex zero_run drop_groups
compress n [] = ""
compress n (g ∷ gs) =
    let rest = compress n gs in
    if eqb (zero_run (g ∷ gs)) n
    then "::" <> join ":" (map hex (drop_groups n (g ∷ gs)))
    else hex g <> (if eqb (zero_run gs) n then rest else ":" <> rest)

show_groups : List ℕ → String
unfolding longest_run compress
show_groups gs = let n = longest_run gs in if leb 2 n then compress n gs else join ":" (map hex gs)

bytes_of : List ℕ → List ℕ
bytes_of [] = []
bytes_of (g ∷ gs) = (g / 256) ∷ (g % 256) ∷ bytes_of gs

unfoldable pub dotted : List ℕ → String
dotted ns = join "." (map show_ℕ ns)

zone_suffix : String → String
zone_suffix zone = if zone == "" then "" else "%" <> zone

-- `Addr.String`
unfoldable pub show_addr : Addr → String
unfolding dotted show_groups bytes_of zone_suffix drop_groups same_numbers show_ℕ join
show_addr (v4 ns) = dotted ns
show_addr (v6 gs zone) =
    (if same_numbers (bytes_of gs)
        (0 ∷ 0 ∷ 0 ∷ 0 ∷ 0 ∷ 0 ∷ 0 ∷ 0 ∷ 0 ∷ 0 ∷ 255 ∷ 255 ∷ drop_groups 12 (bytes_of gs))
      then "::ffff:" <> dotted (drop_groups 12 (bytes_of gs))
      else show_groups gs)
    <> zone_suffix zone

-- `Prefix.String`
unfoldable pub show_prefix : Prefix → String
unfolding show_addr
show_prefix p = show_addr p.addr <> ("/" <> show_ℕ p.bits)

show_addr_v4 : show_addr (v4 (10 ∷ 0 ∷ 255 ∷ 7 ∷ [])) ≡ "10.0.255.7"
unfolding show_addr
show_addr_v4 = refl

show_addr_v6 :
    show_addr (v6 (0xfe80 ∷ 0 ∷ 0 ∷ 1 ∷ 0 ∷ 0 ∷ 0 ∷ 1 ∷ []) "eth0") ≡ "fe80:0:0:1::1%eth0"
unfolding show_addr
show_addr_v6 = refl

show_addr_unspecified : show_addr (v6 (0 ∷ 0 ∷ 0 ∷ 0 ∷ 0 ∷ 0 ∷ 0 ∷ 0 ∷ []) "") ≡ "::"
unfolding show_addr
show_addr_unspecified = refl

show_addr_mapped :
    show_addr (v6 (0 ∷ 0 ∷ 0 ∷ 0 ∷ 0 ∷ 0xffff ∷ 0x0102 ∷ 0x0304 ∷ []) "") ≡ "::ffff:1.2.3.4"
unfolding show_addr
show_addr_mapped = refl
