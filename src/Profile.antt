-- ===== src/Profile.antt =====
-- internal/profile/profile.go: the validated profile of a tunnel.
use big_red_button.Base.{String, List}
use big_red_button.Base.Int.{ℤ}
use big_red_button.Base.Text.{take_chars, trim_space}

pub record Config : Type 0 where
  pub protocol : String
  pub transport : String
  pub name : String
  pub server : String
  pub port : ℤ
  pub sni : String
  pub wstunnel_host : String
  pub wstunnel_url : String
  pub wstunnel_path : String
  pub wstunnel_tls_name : String
  pub local_udp_listen : String
  pub wireguard_private_key : String
  pub wireguard_public_key : String
  pub server_public_key : String
  pub preshared_key : String
  pub addresses : List String
  pub allowed_ips : List String
  pub dns : String
  pub mtu : ℤ
  pub persistent_keepalive : ℤ

-- The part of a profile that `Fingerprint` digests.
pub record FingerprintPayload : Type 0 where
  pub name : String
  pub wstunnel_url : String
  pub local_udp_listen : String
  pub wireguard_private_key : String
  pub server_public_key : String
  pub preshared_key : String
  pub addresses : List String
  pub allowed_ips : List String
  pub dns : String
  pub mtu : ℤ
  pub persistent_keepalive : ℤ

-- `Config.Fingerprint`, over the JSON of the payload and the digest of a text in hexadecimal digits.
unfoldable pub fingerprint : (FingerprintPayload → String) → (String → String) → Config → String
unfolding trim_space take_chars
fingerprint encode hex_sha256 config = take_chars 16 (
    hex_sha256 (
      encode (record {
        name = config.name;
        wstunnel_url = config.wstunnel_url;
        local_udp_listen = config.local_udp_listen;
        wireguard_private_key = config.wireguard_private_key;
        server_public_key = config.server_public_key;
        preshared_key = config.preshared_key;
        addresses = config.addresses;
        allowed_ips = config.allowed_ips;
        dns = trim_space config.dns;
        mtu = config.mtu;
        persistent_keepalive = config.persistent_keepalive;
      })))
