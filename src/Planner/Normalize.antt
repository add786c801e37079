-- ===== src/Planner/Normalize.antt =====
-- `normalizeOptions` and `normalizeDNSServers` of internal/planner/planner.go.
pub mod Laws
use big_red_button.Base.{
  String, ◌<>◌, ◌==◌, Bool, true, false, ◌||◌, Option, none, some, List, [], ◌∷◌, ◌++◌, Result, ok,
  err, failure, bind_result, if◌then◌else◌, eqb, ℕ,
}
use big_red_button.Base.Text.{trim_space, split_commas, fields_func}
use big_red_button.Base.Distinct.{append_new}
use big_red_button.Netip.{Addr, is4}
use big_red_button.Netip.Parse.{parse_addr}
use big_red_button.Netip.Print.{show_addr}
use big_red_button.Planner.{
  Options, default_wstunnel_binary, default_wireguard_interface, default_runtime_root,
}

-- What the loop over the endpoint texts collects.
pub record Endpoints : Type 0 where
  pub ips : List String
  pub warnings : List String

abbrev non_ipv4_warning : String
non_ipv4_warning =
    "non-IPv4 endpoint route exclusion is planned but platform support must be explicit"

unfoldable pub add_endpoint : String → Endpoints → Result Endpoints
add_endpoint token found =
    if trim_space token == "" then ok found else elim (parse_addr (trim_space token)) [
      | none ↦ err (failure ("invalid endpoint IP " <> trim_space token))
      | some addr ↦ ok (record {
        ips = append_new (show_addr addr) found.ips;
        warnings = if is4 addr then found.warnings else found.warnings ++ (non_ipv4_warning ∷ []);
      })
    ]

unfoldable pub add_endpoints : List String → Endpoints → Result Endpoints
add_endpoints [] found = ok found
add_endpoints (token ∷ tokens) found = bind_result (add_endpoint token found) (add_endpoints tokens)

unfoldable pub collect_endpoints : List String → Endpoints → Result Endpoints
collect_endpoints [] found = ok found
collect_endpoints (raw ∷ raws) found =
    bind_result (add_endpoints (split_commas raw) found) (collect_endpoints raws)

abbrev pub or_default : String → String → String
or_default default value = if value == "" then default else value

unfoldable pub fill_defaults : Options → Endpoints → Options × List String
fill_defaults options found = (
  record options {
    endpoint_ips = found.ips;
    wstunnel_binary = or_default default_wstunnel_binary options.wstunnel_binary;
    wireguard_interface = or_default default_wireguard_interface options.wireguard_interface;
    runtime_root = or_default default_runtime_root options.runtime_root;
  },
  found.warnings,
)

unfoldable pub normalize_options : Options → Result (Options × List String)
unfolding fill_defaults
normalize_options options =
    bind_result (collect_endpoints options.endpoint_ips (record { ips = []; warnings = [] }))
      λ found. ok (fill_defaults options found)

-- The separators between DNS servers.
unfoldable pub is_dns_separator : ℕ → Bool
is_dns_separator c = eqb c b',' || eqb c b';' || eqb c b' ' || eqb c 9 || eqb c 10 || eqb c 13

unfoldable pub add_server : String → List String → Result (List String)
add_server part servers =
    if trim_space part == "" then ok servers else elim (parse_addr (trim_space part)) [
      | none ↦ err (failure ("invalid DNS server " <> trim_space part))
      | some addr ↦ ok (append_new (show_addr addr) servers)
    ]

unfoldable pub add_servers : List String → List String → Result (List String)
add_servers [] servers = ok servers
add_servers (part ∷ parts) servers = bind_result (add_server part servers) (add_servers parts)

unfoldable pub normalize_dns_servers : String → Result (List String)
normalize_dns_servers raw = add_servers (fields_func is_dns_separator raw) []
