-- ===== src/Planner/Isolated/Network.antt =====
-- The names, addresses and servers of a session's network, in internal/planner/isolated.go.
pub mod Veth
use big_red_button.Base.{
  ◌≡◌, refl, ℕ, ◌+◌, ◌*◌, ◌%◌, String, ◌<>◌, ◌==◌, Bool, ◌||◌, not, none, some, List, [], ◌∷◌,
  Result, ok, err, failure, bind_result, if◌then◌else◌, eqb, ltb, len, is_empty, show_ℕ,
}
use big_red_button.Base.Int.{below, above}
use big_red_button.Base.Net.{atoi, split_host_port}
use big_red_button.Base.Text.{trim_space, fields_func, is_space, all_chars}
use big_red_button.Base.Unicode.{is_letter, is_digit}
use big_red_button.Base.Distinct.{append_new}
use big_red_button.Netip.{Addr, Prefix, same_addr, same_prefix, masked, prefix_contains}
use big_red_button.Netip.Parse.{parse_addr, parse_prefix}
use big_red_button.Netip.Print.{show_addr, show_prefix}

-- `firstNonEmpty`
unfoldable pub first_non_empty : List String → String
first_non_empty [] = ""
first_non_empty (value ∷ values) =
    let rest = first_non_empty values in if trim_space value == "" then rest else trim_space value

unfoldable pub is_dns_separator : ℕ → Bool
is_dns_separator c = eqb c b',' || is_space c

unfoldable pub add_server : String → List String → Result (List String)
add_server token servers =
    if trim_space token == "" then ok servers else elim (parse_addr (trim_space token)) [
      | none ↦ err (failure ("isolated DNS server " <> (trim_space token <> " is invalid")))
      | some addr ↦ ok (append_new (show_addr addr) servers)
    ]

unfoldable pub add_tokens : List String → List String → Result (List String)
add_tokens [] servers = ok servers
add_tokens (token ∷ tokens) servers = bind_result (add_server token servers) (add_tokens tokens)

unfoldable pub add_values : List String → List String → Result (List String)
add_values [] servers = ok servers
add_values (value ∷ values) servers =
    bind_result (add_tokens (fields_func is_dns_separator value) servers) (add_values values)

unfoldable pub require_servers : List String → Result (List String)
require_servers servers =
    if is_empty servers
    then err (failure "isolated app tunnel requires namespace DNS server")
    else ok servers

unfoldable pub normalize_isolated_dns : List String → String → Result (List String)
normalize_isolated_dns option_dns profile_dns =
    bind_result (add_values (if is_empty option_dns then profile_dns ∷ [] else option_dns) [])
      require_servers

-- The addresses of a veth pair, and the host's as the gateway.
pub record VethAddresses : Type 0 where
  pub host_address : String
  pub namespace_address : String
  pub host_gateway : String

-- The third octet and the first number of the block, from two bytes of a digest.
unfoldable pub veth_third : ℕ → ℕ
veth_third byte = 64 + byte % 64

unfoldable pub veth_block : ℕ → ℕ
veth_block byte = byte % 63 * 4

unfoldable pub link_local : ℕ → ℕ → String
link_local third last = "169.254." <> (show_ℕ third <> ("." <> show_ℕ last))

-- `sha256` gives the byte of a text's digest at an index.
unfoldable pub default_veth_address_pair : (String → ℕ → ℕ) → String → VethAddresses
default_veth_address_pair sha256 session_id =
    let third = veth_third (sha256 session_id 0) in
    let block = veth_block (sha256 session_id 1) in
    record {
      host_address = link_local third (block + 1) <> "/30";
      namespace_address = link_local third (block + 2) <> "/30";
      host_gateway = link_local third (block + 1);
    }

unfoldable pub check_veth_addresses : Prefix → Prefix → Addr → Result VethAddresses
check_veth_addresses host_prefix namespace_prefix gateway =
    if not (prefix_contains host_prefix gateway) || not (same_addr gateway host_prefix.addr)
    then err (failure "host gateway must match host veth address")
    else if not (eqb host_prefix.bits namespace_prefix.bits)
        || not (same_prefix (masked host_prefix) (masked namespace_prefix))
    then err (failure "host and namespace veth addresses must share the same prefix")
    else ok (record {
      host_address = show_prefix host_prefix;
      namespace_address = show_prefix namespace_prefix;
      host_gateway = show_addr gateway;
    })

unfoldable pub parse_veth_addresses : VethAddresses → Result VethAddresses
parse_veth_addresses given = elim (parse_prefix given.host_address) [
  | none ↦ err (failure ("host veth address " <> (given.host_address <> " is invalid")))
  | some host_prefix ↦ elim (parse_prefix given.namespace_address) [
    | none ↦ err (failure ("namespace veth address " <> (given.namespace_address <> " is invalid")))
    | some namespace_prefix ↦ elim (parse_addr given.host_gateway) [
      | none ↦ err (failure ("host gateway " <> (given.host_gateway <> " is invalid")))
      | some gateway ↦ check_veth_addresses host_prefix namespace_prefix gateway
    ]
  ]
]

unfoldable pub normalize_veth_addresses :
    (String → ℕ → ℕ) → VethAddresses → String → Result VethAddresses
normalize_veth_addresses sha256 raw session_id =
    let default = default_veth_address_pair sha256 session_id in
    parse_veth_addresses (record {
      host_address = first_non_empty (raw.host_address ∷ default.host_address ∷ []);
      namespace_address = first_non_empty (raw.namespace_address ∷ default.namespace_address ∷ []);
      host_gateway = first_non_empty (raw.host_gateway ∷ default.host_gateway ∷ []);
    })

unfoldable pub check_port : String → Result String
check_port port = elim (atoi port) [
  | none ↦ err (failure "local UDP listen port is invalid")
  | some value ↦
      if below value 1 || above value 65535
      then err (failure "local UDP listen port must be in 1..65535")
      else ok port
]

unfoldable pub local_udp_port : String → Result String
local_udp_port endpoint = elim (split_host_port (trim_space endpoint)) [
  | none ↦ err (failure "parse local UDP listen endpoint")
  | some (_, port) ↦ check_port port
]

unfoldable pub is_name_char : ℕ → Bool
is_name_char c = is_letter c || is_digit c || eqb c b'-' || eqb c b'_' || eqb c b'.'

-- What both kinds of names are asked, at a bound on their bytes.
unfoldable pub validate_name : ℕ → String → String → Result (Unit {0})
validate_name limit name label =
    if name == ""
    then err (failure (label <> " name is required"))
    else if ltb limit (len name)
    then err (failure (label <> " name is too long"))
    else if all_chars is_name_char name
    then ok tt
    else err (failure (label <> " name contains unsupported character"))

unfoldable pub validate_linux_namespace_name : String → Result (Unit {0})
validate_linux_namespace_name name = validate_name 64 (trim_space name) "namespace"

unfoldable pub validate_linux_interface_name : String → String → Result (Unit {0})
validate_linux_interface_name name label = validate_name 15 (trim_space name) label

local_udp_port_test : local_udp_port " 127.0.0.1:51820" ≡ ok "51820"
unfolding local_udp_port check_port split_host_port trim_space atoi
local_udp_port_test = refl

local_udp_port_zero :
    local_udp_port "127.0.0.1:0" ≡ err (failure "local UDP listen port must be in 1..65535")
unfolding local_udp_port check_port split_host_port trim_space atoi
local_udp_port_zero = refl
