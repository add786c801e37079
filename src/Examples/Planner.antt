-- ===== src/Examples/Planner.antt =====
-- Plans for concrete options.
use big_red_button.Base.{true, All, ◌≡◌, refl, ◌≢◌, String, ◌<>◌, List, [], ◌∷◌, Result, ok, err}
use big_red_button.Base.Int.{pos}
use big_red_button.Profile.{Config}
use big_red_button.Planner.{Options, Plan, blank_plan}
use big_red_button.Base.Text.{split_commas, trim_space, fields_func}
use big_red_button.Base.Distinct.{append_new}
use big_red_button.Netip.Parse.{parse_addr}
use big_red_button.Netip.Print.{show_addr}
use big_red_button.Planner.Normalize.{
  add_endpoint, add_endpoints, collect_endpoints, fill_defaults, normalize_options,
  normalize_dns_servers,
}
use big_red_button.Planner.Normalize.Laws.{
  AreAddresses, normalize_options-AreAddresses, normalize_dns_servers-AreAddresses,
}
use big_red_button.Planner.System.{connect, disconnect}
use big_red_button.Examples.Machine.{machine_host}
use big_red_button.Examples.Runtime.{some_state}
use big_red_button.Planner.System.Secrets.{with_keys, connect-with_keys}
use big_red_button.Planner.System.Rollbacks.{is_undoable, connect-AllUndoable}
use big_red_button.Linux.Lifecycle.Support.{AllServed, connect-AllServed, disconnect-AllServed}

abbrev pub some_options : Options
some_options = record {
  endpoint_ips = [];
  default_gateway = "";
  default_interface = "";
  wstunnel_binary = "";
  wireguard_interface = "";
  runtime_root = "";
}

abbrev endpoint_options : Options
endpoint_options = record some_options { endpoint_ips = " 192.0.2.7,192.0.2.7, 2001:db8::1" ∷ [] }

abbrev normal_options : Options
normal_options = record {
  endpoint_ips = "192.0.2.7" ∷ "2001:db8::1" ∷ [];
  default_gateway = "";
  default_interface = "";
  wstunnel_binary = "wstunnel";
  wireguard_interface = "brb0";
  runtime_root = "/run/big-red-button";
}

abbrev pub some_config : Config
some_config = record {
  protocol = "wireguard";
  transport = "wstunnel";
  name = "home";
  server = "vpn.example.org";
  port = pos 443;
  sni = "";
  wstunnel_host = "vpn.example.org";
  wstunnel_url = "wss://vpn.example.org:443";
  wstunnel_path = "";
  wstunnel_tls_name = "";
  local_udp_listen = "127.0.0.1:51820";
  wireguard_private_key = "private";
  wireguard_public_key = "public";
  server_public_key = "peer";
  preshared_key = "";
  addresses = "10.0.0.2/32" ∷ [];
  allowed_ips = "0.0.0.0/0" ∷ [];
  dns = "";
  mtu = pos 1280;
  persistent_keepalive = pos 25;
}

normalized :
    normalize_options endpoint_options
    ≡ ok (
      normal_options,
      "non-IPv4 endpoint route exclusion is planned but platform support must be explicit" ∷ [],
    )
unfolding normalize_options collect_endpoints add_endpoints add_endpoint fill_defaults split_commas
    trim_space append_new parse_addr show_addr big_red_button.Base.contains
normalized = refl

normalize_options-AreAddresses_example :
    AreAddresses ("192.0.2.7" ∷ "2001:db8::1" ∷ [])
    × (normal_options.wstunnel_binary ≢ "")
    × (normal_options.wireguard_interface ≢ "")
    × (normal_options.runtime_root ≢ "")
normalize_options-AreAddresses_example =
    normalize_options-AreAddresses endpoint_options normal_options
      ("non-IPv4 endpoint route exclusion is planned but platform support must be explicit" ∷ [])
      normalized

two_servers : normalize_dns_servers "1.1.1.1; 9.9.9.9 1.1.1.1" ≡ ok ("1.1.1.1" ∷ "9.9.9.9" ∷ [])
unfolding normalize_dns_servers big_red_button.Planner.Normalize.add_servers fields_func
    big_red_button.Planner.Normalize.is_dns_separator big_red_button.Planner.Normalize.add_server
    trim_space parse_addr append_new big_red_button.Base.contains show_addr
two_servers = refl

normalize_dns_servers-AreAddresses_example : AreAddresses ("1.1.1.1" ∷ "9.9.9.9" ∷ [])
normalize_dns_servers-AreAddresses_example =
    normalize_dns_servers-AreAddresses "1.1.1.1; 9.9.9.9 1.1.1.1" ("1.1.1.1" ∷ "9.9.9.9" ∷ [])
      two_servers

abbrev pub fingerprint : Config → String
fingerprint config = "sha256:00"

abbrev pub or_blank : Result Plan → Plan
or_blank (ok plan) = plan
or_blank (err _) = blank_plan

-- The plans for the options with two endpoints.
abbrev pub connect_plan : Plan
connect_plan = or_blank (connect fingerprint some_config endpoint_options)

pub connect_planned : connect fingerprint some_config endpoint_options ≡ ok connect_plan
unfolding connect normalize_options collect_endpoints add_endpoints split_commas add_endpoint
    trim_space parse_addr normalize_dns_servers big_red_button.Planner.Normalize.add_servers
    fields_func append_new big_red_button.Base.contains show_addr
connect_planned = refl

-- The plan for no endpoint that is resolved.
abbrev pub plain_plan : Plan
plain_plan = or_blank (connect fingerprint some_config some_options)

pub plain_planned : connect fingerprint some_config some_options ≡ ok plain_plan
unfolding connect normalize_options collect_endpoints normalize_dns_servers
    big_red_button.Planner.Normalize.add_servers fields_func
plain_planned = refl

abbrev pub disconnect_plan : Plan
disconnect_plan = or_blank (disconnect some_options)

pub disconnect_planned : disconnect some_options ≡ ok disconnect_plan
unfolding disconnect normalize_options collect_endpoints
disconnect_planned = refl

connect-AllServed_example : AllServed (machine_host some_state) connect_plan.steps
connect-AllServed_example =
    connect-AllServed (machine_host some_state) fingerprint some_config endpoint_options
      connect_plan connect_planned

disconnect-AllServed_example : AllServed (machine_host some_state) disconnect_plan.steps
disconnect-AllServed_example =
    disconnect-AllServed (machine_host some_state) some_options disconnect_plan disconnect_planned

-- The program's fingerprint, over stand-ins for JSON and SHA-256.
abbrev keyed : Config → String
keyed =
    big_red_button.Profile.fingerprint
      (λ payload. payload.wireguard_private_key <> payload.preshared_key) (λ text. text)

connect-with_keys_example :
    connect keyed (with_keys "other" "" some_config) endpoint_options
    ≡ connect (λ _. keyed (with_keys "other" "" some_config)) some_config endpoint_options
connect-with_keys_example = connect-with_keys keyed "other" "" some_config endpoint_options refl

connect-AllUndoable_example : All (λ step. is_undoable step ≡ true) connect_plan.steps
connect-AllUndoable_example =
    connect-AllUndoable fingerprint some_config endpoint_options connect_plan connect_planned
