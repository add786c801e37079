-- ===== src/Planner/System/Secrets.antt =====
-- What `Connect` of internal/planner/planner.go reads of a profile's secrets.
use big_red_button.Base.{◌≡◌, refl, ap, String, ◌==◌, List, ◌++◌, ok, bind_result}
use big_red_button.Profile.{Config}
use big_red_button.Planner.{Options}
use big_red_button.Planner.Normalize.{normalize_options, normalize_dns_servers}
use big_red_button.Planner.System.{
  EndpointPart, connect, connect_plan, connect_steps, opening_steps, link_steps, peer_steps,
  dns_steps, closing_steps, all_endpoints,
}

-- The profile with other keys.
abbrev pub with_keys : String → String → Config → Config
with_keys private_key preshared_key config = record config {
  wireguard_private_key = private_key;
  preshared_key = preshared_key;
}

peer_steps-with_keys :
    (private_key preshared_key : String) (config : Config)
    → (preshared_key == "") ≡ (config.preshared_key == "")
    → peer_steps (with_keys private_key preshared_key config) ≡ peer_steps config
unfolding peer_steps
peer_steps-with_keys private_key preshared_key config same = rw same refl

connect_steps-with_keys :
    (private_key preshared_key fingerprint : String) (config : Config) (options : Options)
    (servers : List String) (part : EndpointPart)
    → (preshared_key == "") ≡ (config.preshared_key == "")
    → connect_steps fingerprint (with_keys private_key preshared_key config) options servers part
      ≡ connect_steps fingerprint config options servers part
unfolding connect_steps opening_steps link_steps
connect_steps-with_keys private_key preshared_key fingerprint config options servers part same =
    ap
      (λ peer.
        opening_steps config options servers
        ++ (part.steps
            ++ (link_steps config options
                ++ (peer ++ (dns_steps options servers ++ closing_steps fingerprint options)))))
      (peer_steps-with_keys private_key preshared_key config same)

connect_plan-with_keys :
    (private_key preshared_key fingerprint : String) (config : Config) (options : Options)
    (warnings servers : List String) (part : EndpointPart)
    → (preshared_key == "") ≡ (config.preshared_key == "")
    → connect_plan fingerprint
        (with_keys private_key preshared_key config)
        options
        warnings
        servers
        part
      ≡ connect_plan fingerprint config options warnings servers part
unfolding connect_plan
connect_plan-with_keys private_key preshared_key fingerprint config options warnings servers part
      same =
    ap
      (λ steps. record (connect_plan fingerprint config options warnings servers part) {
        steps = steps;
      })
      (connect_steps-with_keys private_key preshared_key fingerprint config options servers part
        same)

-- The plan of a connect depends on the private key only through the fingerprint of the profile, and
-- on the preshared key only through that and through whether there is one: with other keys it is the
-- plan of the old ones under the new fingerprint.
pub connect-with_keys :
    (fingerprint : Config → String) (private_key preshared_key : String) (config : Config)
    (options : Options)
    → (preshared_key == "") ≡ (config.preshared_key == "")
    → let changed = with_keys private_key preshared_key config in
      connect fingerprint changed options ≡ connect (λ _. fingerprint changed) config options
unfolding connect
connect-with_keys fingerprint private_key preshared_key config options same = λ i.
    bind_result (normalize_options options) λ (normalized, warnings).
      bind_result (normalize_dns_servers config.dns) λ servers.
        bind_result (all_endpoints normalized) λ part. ok (
          connect_plan-with_keys private_key preshared_key
            (fingerprint (with_keys private_key preshared_key config)) config normalized warnings
            servers part same i)
