-- ===== src/Linux/Commands.antt =====
-- commands.go, dns_commands.go and wireguard_commands.go of internal/platform/linux.
use big_red_button.Base.{
  ◌≡◌, refl, ℕ, String, ◌<>◌, ◌==◌, Bool, ◌&&◌, ◌||◌, not, none, some, List, [], ◌∷◌, ◌++◌, Result,
  ok, err, failure, bind_result, if◌then◌else◌, eqb, ltb, len, is_empty, show_ℤ,
}
use big_red_button.Base.Int.{ℤ, below, above}
use big_red_button.Base.Unicode.{is_letter, is_digit}
use big_red_button.Base.Text.{trim_space, all_chars, any_char}
use big_red_button.Netip.{Addr, Prefix, is4, same_addr, same_prefix, masked}
use big_red_button.Netip.Parse.{parse_addr, parse_prefix}
use big_red_button.Netip.Print.{show_addr, show_prefix}
use big_red_button.Routes.{EndpointExclusion, host_prefix, family_of}
use big_red_button.Linux.{Command, default_ip_binary, default_resolvectl_binary, default_wg_binary}

abbrev pub ip_command : List String → Command
ip_command args = record { name = default_ip_binary; args = args }

unfoldable pub family_flag : Addr → String
family_flag addr = if is4 addr then "-4" else "-6"

unfoldable pub route_get_command : String → Result Command
unfolding family_flag
route_get_command endpoint_ip = elim (parse_addr (trim_space endpoint_ip)) [
  | none ↦ err (failure ("endpoint IP " <> (endpoint_ip <> " is invalid")))
  | some endpoint ↦
      ok (ip_command (family_flag endpoint ∷ "route" ∷ "get" ∷ show_addr endpoint ∷ []))
]

-- The endpoint, if one is named, is the destination.
unfoldable pub check_endpoint : EndpointExclusion → Addr → Result (Unit {0})
check_endpoint exclusion destination =
    if exclusion.endpoint_ip == ""
    then ok tt
    else elim (parse_addr (trim_space exclusion.endpoint_ip)) [
      | none ↦ err (failure "route exclusion endpoint is invalid")
      | some endpoint ↦
          if same_addr endpoint destination
          then ok tt
          else err (failure "route exclusion endpoint does not match destination")
    ]

unfoldable pub check_family : EndpointExclusion → String → Result (Unit {0})
check_family exclusion family =
    if not (exclusion.family == "") && not (exclusion.family == family)
    then err (failure "route exclusion family does not match destination")
    else ok tt

unfoldable pub canonical_gateway : String → String → Result String
canonical_gateway gateway family = if gateway == "" then ok "" else elim (parse_addr gateway) [
  | none ↦ err (failure "route exclusion gateway is invalid")
  | some gateway_addr ↦
      if family_of gateway_addr == family
      then ok (show_addr gateway_addr)
      else err (failure "route exclusion gateway family does not match destination")
]

unfoldable pub route_args : String → Prefix → String → String → List String
route_args action destination gateway iface =
    (family_flag destination.addr ∷ "route" ∷ action ∷ show_prefix destination ∷ [])
    ++ ((if gateway == "" then [] else "via" ∷ gateway ∷ [])
        ++ (if iface == "" then [] else "dev" ∷ iface ∷ []))

unfoldable pub finish_route : String → EndpointExclusion → Prefix → String → Result Command
unfolding route_args
finish_route action exclusion destination gateway =
    if gateway == "" && trim_space exclusion.interface == ""
    then err (failure "route exclusion requires gateway or interface")
    else ok (ip_command (route_args action destination gateway (trim_space exclusion.interface)))

unfoldable pub check_exclusion : String → EndpointExclusion → Prefix → Result Command
unfolding check_endpoint check_family canonical_gateway finish_route
check_exclusion action exclusion destination =
    if not (same_prefix destination (host_prefix destination.addr))
    then err (failure "route exclusion destination must be a host prefix")
    else bind_result (check_endpoint exclusion destination.addr) λ _.
      bind_result (check_family exclusion (family_of destination.addr)) λ _.
        bind_result (canonical_gateway (trim_space exclusion.gateway) (family_of destination.addr))
          (finish_route action exclusion destination)

unfoldable pub endpoint_exclusion_command : String → EndpointExclusion → Result Command
unfolding check_exclusion
endpoint_exclusion_command action exclusion =
    elim (parse_prefix (trim_space exclusion.destination)) [
      | none ↦ err (failure "route exclusion destination is invalid")
      | some destination ↦ check_exclusion action exclusion (masked destination)
    ]

unfoldable pub add_endpoint_exclusion_command : EndpointExclusion → Result Command
unfolding endpoint_exclusion_command
add_endpoint_exclusion_command = endpoint_exclusion_command "replace"

unfoldable pub delete_endpoint_exclusion_command : EndpointExclusion → Result Command
unfolding endpoint_exclusion_command
delete_endpoint_exclusion_command = endpoint_exclusion_command "delete"

unfoldable pub is_name_char : ℕ → Bool
unfolding is_letter is_digit
is_name_char c = is_letter c || is_digit c || eqb c b'-' || eqb c b'_' || eqb c b'.'

-- What is asked of a trimmed name, at a bound on its bytes.
unfoldable pub check_name : ℕ → String → Result String
unfolding is_name_char
check_name limit name =
    if name == ""
    then err (failure "name is required")
    else if ltb limit (len name)
    then err (failure "name is too long")
    else if all_chars is_name_char name
    then ok name
    else err (failure "name contains unsupported character")

unfoldable pub validate_interface_name : String → Result String
unfolding check_name
validate_interface_name iface = check_name 15 (trim_space iface)

unfoldable pub wireguard_create_interface_command : String → Result Command
wireguard_create_interface_command iface =
    bind_result (validate_interface_name iface)
      λ iface. ok (ip_command ("link" ∷ "add" ∷ "dev" ∷ iface ∷ "type" ∷ "wireguard" ∷ []))

unfoldable pub wireguard_delete_interface_command : String → Result Command
wireguard_delete_interface_command iface =
    bind_result (validate_interface_name iface)
      λ iface. ok (ip_command ("link" ∷ "delete" ∷ "dev" ∷ iface ∷ []))

unfoldable pub wireguard_set_config_command : String → String → Result Command
wireguard_set_config_command iface config_path =
    bind_result (validate_interface_name iface) λ iface.
      if trim_space config_path == ""
      then err (failure "wireguard config path is required")
      else ok (record {
        name = default_wg_binary;
        args = "setconf" ∷ iface ∷ trim_space config_path ∷ [];
      })

unfoldable pub wireguard_add_address_command : String → String → Result Command
wireguard_add_address_command iface address = bind_result (validate_interface_name iface) λ iface.
    elim (parse_prefix (trim_space address)) [
      | none ↦ err (failure ("wireguard address " <> (address <> " is invalid")))
      | some prefix ↦ ok (ip_command ("address" ∷ "add" ∷ show_prefix prefix ∷ "dev" ∷ iface ∷ []))
    ]

unfoldable pub wireguard_set_mtu_command : String → ℤ → Result Command
wireguard_set_mtu_command iface mtu = bind_result (validate_interface_name iface) λ iface.
    if below mtu 1200 || above mtu 1420
    then err (failure "wireguard MTU must be in 1200..1420")
    else ok (ip_command ("link" ∷ "set" ∷ "mtu" ∷ show_ℤ mtu ∷ "dev" ∷ iface ∷ []))

unfoldable pub wireguard_set_up_command : String → Result Command
wireguard_set_up_command iface =
    bind_result (validate_interface_name iface)
      λ iface. ok (ip_command ("link" ∷ "set" ∷ "up" ∷ "dev" ∷ iface ∷ []))

unfoldable pub wireguard_route_command : String → String → String → Result Command
wireguard_route_command action iface raw_prefix =
    bind_result (validate_interface_name iface) λ iface.
      elim (parse_prefix (trim_space raw_prefix)) [
        | none ↦ err (failure ("wireguard route prefix " <> (raw_prefix <> " is invalid")))
        | some prefix ↦ ok (
            ip_command (
              family_flag prefix.addr ∷ "route" ∷ action ∷ show_prefix prefix ∷ "dev" ∷ iface ∷ []))
      ]

unfoldable pub wireguard_route_replace_command : String → String → Result Command
unfolding wireguard_route_command
wireguard_route_replace_command = wireguard_route_command "replace"

unfoldable pub wireguard_route_delete_command : String → String → Result Command
unfolding wireguard_route_command
wireguard_route_delete_command = wireguard_route_command "delete"

abbrev resolvectl : List String → Command
resolvectl args = record { name = default_resolvectl_binary; args = args }

unfoldable pub server_args : List String → Result (List String)
server_args [] = ok []
server_args (server ∷ servers) = elim (parse_addr (trim_space server)) [
  | none ↦ err (failure ("DNS server " <> (server <> " is invalid")))
  | some addr ↦ bind_result (server_args servers) λ rest. ok (show_addr addr ∷ rest)
]

unfoldable pub resolvectl_dns_command : String → List String → Result Command
unfolding server_args
resolvectl_dns_command iface servers = bind_result (validate_interface_name iface) λ iface.
    if is_empty servers
    then err (failure "DNS server list is required")
    else bind_result (server_args servers) λ args. ok (resolvectl ("dns" ∷ iface ∷ args))

unfoldable pub domain_args : List String → Result (List String)
domain_args [] = ok []
domain_args (domain ∷ domains) =
    if trim_space domain == ""
      || any_char (λ c. eqb c b' ' || eqb c 9 || eqb c 13 || eqb c 10) (trim_space domain)
    then err (failure ("DNS routing domain " <> (trim_space domain <> " is invalid")))
    else bind_result (domain_args domains) λ rest. ok (trim_space domain ∷ rest)

unfoldable pub resolvectl_domain_command : String → List String → Result Command
unfolding domain_args
resolvectl_domain_command iface domains = bind_result (validate_interface_name iface) λ iface.
    if is_empty domains
    then err (failure "DNS routing domains are required")
    else bind_result (domain_args domains) λ args. ok (resolvectl ("domain" ∷ iface ∷ args))

unfoldable pub resolvectl_default_route_command : String → Bool → Result Command
resolvectl_default_route_command iface enabled =
    bind_result (validate_interface_name iface)
      λ iface. ok (resolvectl ("default-route" ∷ iface ∷ (if enabled then "yes" else "no") ∷ []))

unfoldable pub resolvectl_revert_command : String → Result Command
resolvectl_revert_command iface =
    bind_result (validate_interface_name iface) λ iface. ok (resolvectl ("revert" ∷ iface ∷ []))

add_exclusion_test :
    add_endpoint_exclusion_command (record {
      endpoint_ip = "203.0.113.10";
      destination = "203.0.113.10/32";
      gateway = "192.168.1.1";
      interface = "eth0";
      family = "ipv4";
    })
    ≡ ok (
        ip_command (
          "-4" ∷ "route" ∷ "replace" ∷ "203.0.113.10/32" ∷ "via" ∷ "192.168.1.1" ∷ "dev" ∷ "eth0"
          ∷ []))
unfolding add_endpoint_exclusion_command parse_prefix parse_addr trim_space masked same_prefix
    same_addr host_prefix family_of family_flag show_addr show_prefix
add_exclusion_test = refl

revert_test : resolvectl_revert_command " brb0 " ≡ ok (resolvectl ("revert" ∷ "brb0" ∷ []))
unfolding resolvectl_revert_command validate_interface_name trim_space all_chars
revert_test = refl
