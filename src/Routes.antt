-- ===== src/Routes.antt =====
-- internal/routes/routes.go: the host route that keeps the tunnel's endpoint outside the tunnel.
use big_red_button.Base.{
  String, ◌<>◌, ◌==◌, true, false, ◌&&◌, none, some, Result, ok, err, failure, bind_result,
  if◌then◌else◌, [], ◌∷◌, ◌++◌, join,
}
use big_red_button.Base.Text.{trim_space}
use big_red_button.Netip.{Addr, Prefix, is4, bit_len}
use big_red_button.Netip.Parse.{parse_addr}
use big_red_button.Netip.Print.{show_addr, show_prefix}

abbrev pub family_ipv4 : String
family_ipv4 = "ipv4"

abbrev pub family_ipv6 : String
family_ipv6 = "ipv6"

pub record EndpointExclusion : Type 0 where
  pub endpoint_ip : String
  pub destination : String
  pub gateway : String
  pub interface : String
  pub family : String

unfoldable pub host_prefix : Addr → Prefix
host_prefix addr = record { addr = addr; bits = bit_len addr }

unfoldable pub family_of : Addr → String
family_of addr = if is4 addr then family_ipv4 else family_ipv6

-- The gateway's canonical text, or none given.
unfoldable pub check_gateway : Addr → String → Result String
check_gateway endpoint gateway = if gateway == "" then ok "" else elim (parse_addr gateway) [
  | none ↦ err (failure ("gateway " <> (gateway <> " is invalid")))
  | some gateway_addr ↦ elim (is4 endpoint) [
    | true ↦
        if is4 gateway_addr
        then ok (show_addr gateway_addr)
        else err (failure "gateway family must match endpoint family")
    | false ↦
        if is4 gateway_addr
        then err (failure "gateway family must match endpoint family")
        else ok (show_addr gateway_addr)
  ]
]

-- An address is IPv4 or IPv6, so the test of the source for neither never fires.
unfoldable pub new_endpoint_exclusion : String → String → String → Result EndpointExclusion
unfolding check_gateway host_prefix family_of
new_endpoint_exclusion endpoint_ip gateway iface = elim (parse_addr (trim_space endpoint_ip)) [
  | none ↦ err (failure ("endpoint IP " <> (endpoint_ip <> " is invalid")))
  | some endpoint ↦
      if trim_space gateway == "" && trim_space iface == ""
      then err (failure "endpoint route exclusion requires gateway or interface")
      else bind_result (check_gateway endpoint (trim_space gateway)) λ gateway'. ok (record {
        endpoint_ip = show_addr endpoint;
        destination = show_prefix (host_prefix endpoint);
        gateway = gateway';
        interface = trim_space iface;
        family = family_of endpoint;
      })
]

unfoldable pub command_key : EndpointExclusion → String
command_key exclusion = join " " (
    (exclusion.family ∷ exclusion.destination ∷ [])
    ++ ((if exclusion.gateway == "" then [] else "via" ∷ exclusion.gateway ∷ [])
        ++ (if exclusion.interface == "" then [] else "dev" ∷ exclusion.interface ∷ [])))
