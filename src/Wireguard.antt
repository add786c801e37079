-- ===== src/Wireguard.antt =====
-- internal/wireguard/config.go: the configuration that `wg setconf` reads.
use big_red_button.Base.{
  String, ◌<>◌, ◌||◌, Option, none, some, List, [], ◌∷◌, Result, ok, err, Err, if◌then◌else◌,
  is_empty, is_none, join, show_ℤ,
}
use big_red_button.Base.Int.{ℤ, below, above}
use big_red_button.Base.Text.{trim_space, is_blank}
use big_red_button.Netip.Parse.{parse_prefix}
use big_red_button.Netip.Print.{show_prefix}
use big_red_button.Profile
use big_red_button.Runtime.{unless}

pub record Config : Type 0 where
  pub interface_name : String
  pub private_key : String
  pub peer_public_key : String
  pub preshared_key : String
  pub endpoint : String
  pub addresses : List String
  pub allowed_ips : List String
  pub mtu : ℤ
  pub persistent_keepalive : ℤ

unfoldable pub config_from_profile : Profile.Config → String → Config
config_from_profile config interface_name = record {
  interface_name = trim_space interface_name;
  private_key = config.wireguard_private_key;
  peer_public_key = config.server_public_key;
  preshared_key = config.preshared_key;
  endpoint = config.local_udp_listen;
  addresses = config.addresses;
  allowed_ips = config.allowed_ips;
  mtu = config.mtu;
  persistent_keepalive = config.persistent_keepalive;
}

-- The first text that is no prefix.
unfoldable pub check_prefixes : String → List String → Option Err → Option Err
check_prefixes label [] rest = rest
check_prefixes label (value ∷ values) rest =
    unless (is_none (parse_prefix (trim_space value))) (label <> (value <> " is invalid"))
      (check_prefixes label values rest)

unfoldable pub check_numbers : Config → Option Err
check_numbers c =
    unless (below c.mtu 1200 || above c.mtu 1420) "wireguard MTU must be in 1200..1420" (
      unless (below c.persistent_keepalive 0 || above c.persistent_keepalive 60)
        "wireguard persistent keepalive must be in 0..60" none)

unfoldable pub validate : Config → Option Err
unfolding check_prefixes check_numbers
validate c = unless (is_blank c.interface_name) "wireguard interface name is required" (
    unless (is_blank c.private_key) "wireguard private key is required" (
      unless (is_blank c.peer_public_key) "wireguard peer public key is required" (
        unless (is_blank c.endpoint) "wireguard endpoint is required" (
          unless (is_empty c.addresses) "wireguard address is required" (
            check_prefixes "wireguard address " c.addresses (
              unless (is_empty c.allowed_ips) "wireguard allowed IPs are required"
                (check_prefixes "wireguard allowed IP " c.allowed_ips (check_numbers c))))))))

unfoldable pub normalized_prefixes : List String → List String
normalized_prefixes [] = []
normalized_prefixes (value ∷ values) = elim (parse_prefix (trim_space value)) [
  | none ↦ trim_space value ∷ normalized_prefixes values
  | some prefix ↦ show_prefix prefix ∷ normalized_prefixes values
]

preshared_line : Config → String
preshared_line c =
    if is_blank c.preshared_key
    then ""
    else "PresharedKey = " <> (trim_space c.preshared_key <> "\n")

-- The text of a valid configuration.
unfoldable pub setconf_text : Config → String
unfolding preshared_line normalized_prefixes
setconf_text c =
    "[Interface]\nPrivateKey = "
    <> (trim_space c.private_key
        <> ("\n\n[Peer]\nPublicKey = "
            <> (trim_space c.peer_public_key
                <> ("\n"
                    <> (preshared_line c
                        <> ("AllowedIPs = "
                            <> (join ", " (normalized_prefixes c.allowed_ips)
                                <> ("\nEndpoint = "
                                    <> (trim_space c.endpoint
                                        <> ("\nPersistentKeepalive = "
                                            <> (show_ℤ c.persistent_keepalive <> "\n")))))))))))

unfoldable pub render_set_conf : Config → Result String
unfolding validate setconf_text
render_set_conf c = elim (validate c) [ some e ↦ err e | none ↦ ok (setconf_text c) ]
