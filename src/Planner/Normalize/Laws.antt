-- ===== src/Planner/Normalize/Laws.antt =====
-- What normalized options and DNS servers hold.
use big_red_button.Base.{
  ◌≡◌, refl, String, ◌==◌, some, List, [], ◌∷◌, ok, All, arith, Bool-cases, Option-cases, inl, inr,
  ◌≢◌, subst, eq_iff, bind_result-eq-ok,
}
use big_red_button.Base.Text.{trim_space, split_commas, fields_func}
use big_red_button.Base.Distinct.{append_new, Distinct, append_new-Distinct, append_new-All}
use big_red_button.Netip.{Addr}
use big_red_button.Netip.Parse.{parse_addr}
use big_red_button.Netip.Print.{show_addr}
use big_red_button.Planner.{
  Options, default_wstunnel_binary, default_wireguard_interface, default_runtime_root,
}
use big_red_button.Planner.Normalize.{
  Endpoints, add_endpoint, add_endpoints, collect_endpoints, normalize_options, fill_defaults,
  add_server, add_servers, normalize_dns_servers, is_dns_separator, or_default,
}

-- The canonical text of an address that some text writes.
abbrev pub IsCanonical : String → Type 0
IsCanonical ip =
    (text : String) × (addr : Addr) × (parse_addr text ≡ some addr) × (ip ≡ show_addr addr)

-- Distinct canonical addresses.
abbrev pub AreAddresses : List String → Type 0
AreAddresses ips = Distinct ips × All IsCanonical ips

append_new-AreAddresses :
    (text : String) (addr : Addr) (ips : List String)
    → parse_addr text ≡ some addr
    → AreAddresses ips
    → AreAddresses (append_new (show_addr addr) ips)
append_new-AreAddresses text addr ips parsed (distinct, canonical) = (
  append_new-Distinct (show_addr addr) ips distinct,
  append_new-All IsCanonical (show_addr addr) ips (text, addr, parsed, refl) canonical,
)

add_server-AreAddresses :
    (part : String) (servers out : List String)
    → AreAddresses servers
    → add_server part servers ≡ ok out
    → AreAddresses out
unfolding add_server
add_server-AreAddresses part servers out good done = elim (Bool-cases (trim_space part == "")) [
  | inl blank ↦ let same : servers ≡ out = ground arith in subst AreAddresses same good
  | inr text ↦ elim (Option-cases (parse_addr (trim_space part))) [
    | inl bad ↦ absurd (ground arith)
    | inr (addr, parsed) ↦
        let same : append_new (show_addr addr) servers ≡ out = ground arith in
        subst AreAddresses same (append_new-AreAddresses (trim_space part) addr servers parsed good)
  ]
]

add_servers-AreAddresses :
    (parts servers out : List String)
    → AreAddresses servers
    → add_servers parts servers ≡ ok out
    → AreAddresses out
unfolding add_servers
add_servers-AreAddresses [] servers out good done =
    let same : servers ≡ out = ground arith in subst AreAddresses same good
add_servers-AreAddresses (part ∷ parts) servers out good done =
    let (next, added, rest) =
      bind_result-eq-ok (add_server part servers) (add_servers parts) done in
    add_servers-AreAddresses parts next out (add_server-AreAddresses part servers next good added)
      rest

-- The DNS servers of a plan are canonical addresses, none of them twice.
pub normalize_dns_servers-AreAddresses :
    (raw : String) (servers : List String)
    → normalize_dns_servers raw ≡ ok servers
    → AreAddresses servers
unfolding normalize_dns_servers
normalize_dns_servers-AreAddresses raw servers done =
    add_servers-AreAddresses (fields_func is_dns_separator raw) [] servers (tt, tt) done

add_endpoint-AreAddresses :
    (token : String) (found out : Endpoints)
    → AreAddresses found.ips
    → add_endpoint token found ≡ ok out
    → AreAddresses out.ips
unfolding add_endpoint
add_endpoint-AreAddresses token found out good done = elim (Bool-cases (trim_space token == "")) [
  | inl blank ↦ let same : found.ips ≡ out.ips = ground arith in subst AreAddresses same good
  | inr text ↦ elim (Option-cases (parse_addr (trim_space token))) [
    | inl bad ↦ absurd (ground arith)
    | inr (addr, parsed) ↦
        let same : append_new (show_addr addr) found.ips ≡ out.ips = ground arith in
        subst AreAddresses same
          (append_new-AreAddresses (trim_space token) addr found.ips parsed good)
  ]
]

add_endpoints-AreAddresses :
    (tokens : List String) (found out : Endpoints)
    → AreAddresses found.ips
    → add_endpoints tokens found ≡ ok out
    → AreAddresses out.ips
unfolding add_endpoints
add_endpoints-AreAddresses [] found out good done =
    let same : found.ips ≡ out.ips = ground arith in subst AreAddresses same good
add_endpoints-AreAddresses (token ∷ tokens) found out good done =
    let (next, added, rest) =
      bind_result-eq-ok (add_endpoint token found) (add_endpoints tokens) done in
    add_endpoints-AreAddresses tokens next out
      (add_endpoint-AreAddresses token found next good added) rest

collect_endpoints-AreAddresses :
    (raws : List String) (found out : Endpoints)
    → AreAddresses found.ips
    → collect_endpoints raws found ≡ ok out
    → AreAddresses out.ips
unfolding collect_endpoints
collect_endpoints-AreAddresses [] found out good done =
    let same : found.ips ≡ out.ips = ground arith in subst AreAddresses same good
collect_endpoints-AreAddresses (raw ∷ raws) found out good done =
    let (next, added, rest) =
      bind_result-eq-ok (add_endpoints (split_commas raw) found) (collect_endpoints raws) done in
    collect_endpoints-AreAddresses raws next out
      (add_endpoints-AreAddresses (split_commas raw) found next good added) rest

or_default-ne-nil : (default value : String) → default ≢ "" → or_default default value ≢ ""
or_default-ne-nil default value h = elim (Bool-cases (value == "")) [
  | inl empty ↦ rw empty h
  | inr given ↦ rw given (ground (arith, eq_iff value ""))
]

-- Normalized options hold canonical endpoint addresses, none of them twice, and a WSTunnel binary,
-- a WireGuard interface and a runtime root that are not empty.
pub normalize_options-AreAddresses :
    (options out : Options) (warnings : List String)
    → normalize_options options ≡ ok (out, warnings)
    → AreAddresses out.endpoint_ips
      × (out.wstunnel_binary ≢ "")
      × (out.wireguard_interface ≢ "")
      × (out.runtime_root ≢ "")
unfolding normalize_options
normalize_options-AreAddresses options out warnings done =
    let start : Endpoints = record { ips = []; warnings = [] } in
    let (found, collected, filled) =
      bind_result-eq-ok (collect_endpoints options.endpoint_ips start)
        (λ found. ok (fill_defaults options found)) done in
    let ips : found.ips ≡ out.endpoint_ips = ground arith in
    let good = collect_endpoints-AreAddresses options.endpoint_ips start found (tt, tt) collected in
    let binary : or_default default_wstunnel_binary options.wstunnel_binary ≡ out.wstunnel_binary =
      cc in
    let iface : or_default default_wireguard_interface options.wireguard_interface
        ≡ out.wireguard_interface =
      cc in
    let root : or_default default_runtime_root options.runtime_root ≡ out.runtime_root = cc in
    (
      subst AreAddresses ips good,
      subst (λ x. x ≢ "") binary
          (or_default-ne-nil default_wstunnel_binary options.wstunnel_binary
            (ground (arith, eq_iff default_wstunnel_binary ""))),
      subst (λ x. x ≢ "") iface
          (or_default-ne-nil default_wireguard_interface options.wireguard_interface
            (ground (arith, eq_iff default_wireguard_interface ""))),
      subst (λ x. x ≢ "") root
          (or_default-ne-nil default_runtime_root options.runtime_root
            (ground (arith, eq_iff default_runtime_root ""))),
    )
