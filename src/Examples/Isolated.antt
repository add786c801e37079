-- ===== src/Examples/Isolated.antt =====
-- Plans for one application, for concrete options.
use big_red_button.Base.{
  ◌≡◌, refl, true, ℕ, ◌≤◌, ◌+◌, ◌%◌, ◌*◌, String, List, [], ◌∷◌, ok, All, map, len, inl, inr,
}
use big_red_button.Base.Text.{all_chars, trim_space}
use big_red_button.Base.Distinct.{Distinct}
use big_red_button.Planner.{Plan}
use big_red_button.Planner.Isolated.{IsolatedAppOptions, IsolatedAppStopOptions}
use big_red_button.Planner.Isolated.Identity.{normalize_uuid, normalize_launch_env}
use big_red_button.Planner.Isolated.Identity.Uuid.{is_uuid_char, normalize_uuid-canonical}
use big_red_button.Planner.Isolated.Identity.Settings.{
  setting, key_of, IsSetting, normalize_launch_env-Settings,
}
use big_red_button.Planner.Isolated.Network.{VethAddresses, normalize_veth_addresses}
use big_red_button.Planner.Isolated.Network.Veth.{pair_on, normalize_veth_addresses-pair_on}
use big_red_button.Planner.Isolated.Tunnel.{isolated_app_tunnel}
use big_red_button.Planner.Isolated.Tunnel.Steps.{
  names_rollback, isolated_app_tunnel-AllNameRollbacks,
}
use big_red_button.Planner.Isolated.Stop.{isolated_app_stop, isolated_app_cleanup}
use big_red_button.Linux.IsolatedExecutor.Dispatch.Support.{
  HasCase, isolated_app_tunnel-AllHaveCases, isolated_app_stop-AllHaveCases,
}
use big_red_button.Examples.Planner.{some_config, fingerprint, or_blank}

-- A stand-in for the digest.
abbrev pub digest : String → ℕ → ℕ
digest text index = index + 7

abbrev pub session_text : String
session_text = "0A1B2C3D-0000-4000-8000-00000000000F"

abbrev pub session_id : String
session_id = "0a1b2c3d-0000-4000-8000-00000000000f"

abbrev pub browser_options : IsolatedAppOptions
browser_options = record {
  session_id = session_text;
  app_id = "";
  app_command = "/usr/bin/firefox" ∷ "--new-instance" ∷ [];
  dns = "1.1.1.1" ∷ [];
  wstunnel_binary = "";
  wireguard_interface = "";
  runtime_root = "";
  namespace = "";
  host_veth = "";
  namespace_veth = "";
  host_address = "";
  namespace_address = "";
  host_gateway = "";
  launch_uid = "1000";
  launch_gid = "1000";
  launch_env = "DISPLAY=:0" ∷ [];
}

abbrev pub stop_options : IsolatedAppStopOptions
stop_options = record { session_id = session_text; runtime_root = "" }

normalized_id : normalize_uuid session_text "session ID" ≡ ok session_id
unfolding normalize_uuid big_red_button.Planner.Isolated.Identity.is_uuid
    big_red_button.Planner.Isolated.Identity.to_lower trim_space
    big_red_button.Planner.Isolated.Identity.lower_char
    big_red_button.Planner.Isolated.Identity.check_uuid
    big_red_button.Planner.Isolated.Identity.is_dash_index
    big_red_button.Planner.Isolated.Identity.is_hex
normalized_id = refl

normalize_uuid-canonical_example :
    (len session_id ≡ 36)
    × (all_chars is_uuid_char session_id ≡ true)
    × (normalize_uuid session_id "app ID" ≡ ok session_id)
normalize_uuid-canonical_example =
    normalize_uuid-canonical session_text "session ID" session_id "app ID" normalized_id

normalized_env : normalize_launch_env ("DISPLAY=:0" ∷ "DISPLAY=:1" ∷ []) ≡ ok ("DISPLAY=:0" ∷ [])
unfolding normalize_launch_env big_red_button.Planner.Isolated.Identity.add_variables
    big_red_button.Planner.Isolated.Identity.add_variable trim_space
    big_red_button.Base.Text.cut_char big_red_button.Planner.Isolated.Identity.add_setting
    big_red_button.Planner.Isolated.Identity.is_allowed_desktop_env_key big_red_button.Base.contains
    big_red_button.Base.Text.any_char
normalized_env = refl

normalize_launch_env-Settings_example :
    (pairs : List (String × String)) × (map setting pairs ≡ "DISPLAY=:0" ∷ [])
    × Distinct (map key_of pairs)
    × All IsSetting pairs
normalize_launch_env-Settings_example =
    normalize_launch_env-Settings ("DISPLAY=:0" ∷ "DISPLAY=:1" ∷ []) ("DISPLAY=:0" ∷ [])
      normalized_env

abbrev no_addresses : VethAddresses
no_addresses = record { host_address = ""; namespace_address = " "; host_gateway = "" }

normalize_veth_addresses-pair_on_example :
    let third = 64 + digest session_id 0 % 64 in
    let block = digest session_id 1 % 63 * 4 in
    (64 ≤ third)
    × (third ≤ 127)
    × (block % 4 ≡ 0)
    × (block + 3 ≤ 251)
    × (normalize_veth_addresses digest no_addresses session_id ≡ ok (pair_on third block))
unfolding trim_space
normalize_veth_addresses-pair_on_example =
    normalize_veth_addresses-pair_on digest no_addresses session_id refl refl refl

-- The plan of the options' tunnel.
abbrev pub tunnel_plan : Plan
tunnel_plan = or_blank (isolated_app_tunnel fingerprint digest some_config browser_options)

pub tunnel_planned :
    isolated_app_tunnel fingerprint digest some_config browser_options ≡ ok tunnel_plan
unfolding isolated_app_tunnel normalize_uuid trim_space
    big_red_button.Planner.Isolated.Identity.lower_char
    big_red_button.Planner.Isolated.Identity.to_lower
    big_red_button.Planner.Isolated.Identity.is_hex
    big_red_button.Planner.Isolated.Identity.is_dash_index
    big_red_button.Planner.Isolated.Identity.check_uuid
    big_red_button.Planner.Isolated.Identity.is_uuid big_red_button.Base.Text.take_chars
    big_red_button.Planner.Isolated.Identity.short_session_id
    big_red_button.Planner.Isolated.Identity.trimmed_texts
    big_red_button.Planner.Isolated.Identity.normalize_app_command
    big_red_button.Planner.Isolated.Identity.parse_non_negative_id
    big_red_button.Planner.Isolated.Identity.normalize_launch_identity
    big_red_button.Planner.Isolated.Identity.is_allowed_desktop_env_key
    big_red_button.Planner.Isolated.Identity.add_setting
    big_red_button.Planner.Isolated.Identity.add_variable
    big_red_button.Planner.Isolated.Identity.add_variables
    big_red_button.Planner.Isolated.Identity.normalize_launch_env
    big_red_button.Planner.Isolated.Normalize.default_names
    big_red_button.Planner.Isolated.Normalize.normalize_subject
    big_red_button.Planner.Isolated.Normalize.given_names
    big_red_button.Planner.Isolated.Normalize.check_names
    big_red_button.Planner.Isolated.Normalize.normalize_parts
    big_red_button.Planner.Isolated.Normalize.normalize_isolated_app_options
    big_red_button.Planner.Isolated.Network.first_non_empty
    big_red_button.Planner.Isolated.Network.is_dns_separator
    big_red_button.Planner.Isolated.Network.add_server
    big_red_button.Planner.Isolated.Network.add_tokens
    big_red_button.Planner.Isolated.Network.add_values
    big_red_button.Planner.Isolated.Network.require_servers
    big_red_button.Planner.Isolated.Network.normalize_isolated_dns
    big_red_button.Planner.Isolated.Network.veth_third
    big_red_button.Planner.Isolated.Network.veth_block
    big_red_button.Planner.Isolated.Network.link_local
    big_red_button.Planner.Isolated.Network.default_veth_address_pair
    big_red_button.Planner.Isolated.Network.check_veth_addresses
    big_red_button.Planner.Isolated.Network.parse_veth_addresses
    big_red_button.Planner.Isolated.Network.normalize_veth_addresses
    big_red_button.Planner.Isolated.Network.check_port
    big_red_button.Planner.Isolated.Network.local_udp_port
    big_red_button.Planner.Isolated.Network.is_name_char
    big_red_button.Planner.Isolated.Network.validate_name
    big_red_button.Planner.Isolated.Network.validate_linux_namespace_name
    big_red_button.Planner.Isolated.Network.validate_linux_interface_name
    big_red_button.Base.Text.fields_func big_red_button.Base.Text.keep_chars
    big_red_button.Base.Net.atoi big_red_button.Base.Net.split_host_port
    big_red_button.Base.Net.join_host_port big_red_button.Base.contains
    big_red_button.Base.Distinct.append_new big_red_button.Netip.Parse.parse_addr
    big_red_button.Netip.Parse.parse_prefix big_red_button.Netip.Print.show_addr
    big_red_button.Netip.prefix_contains big_red_button.Netip.same_addr
    big_red_button.Netip.same_prefix big_red_button.Netip.masked all_chars
    big_red_button.Base.Unicode.is_letter big_red_button.Base.Unicode.is_digit
tunnel_planned = refl

abbrev pub stop_plan : Plan
stop_plan = or_blank (isolated_app_stop stop_options)

pub stop_planned : isolated_app_stop stop_options ≡ ok stop_plan
unfolding isolated_app_stop big_red_button.Planner.Isolated.Stop.requested_session normalize_uuid
    big_red_button.Planner.Isolated.Identity.is_uuid
    big_red_button.Planner.Isolated.Identity.to_lower trim_space
    big_red_button.Planner.Isolated.Identity.lower_char
    big_red_button.Planner.Isolated.Identity.check_uuid
    big_red_button.Planner.Isolated.Identity.is_dash_index
    big_red_button.Planner.Isolated.Identity.is_hex
stop_planned = refl

abbrev pub cleanup_plan : Plan
cleanup_plan = or_blank (isolated_app_cleanup stop_options)

pub cleanup_planned : isolated_app_cleanup stop_options ≡ ok cleanup_plan
unfolding isolated_app_cleanup big_red_button.Planner.Isolated.Stop.requested_session normalize_uuid
    big_red_button.Planner.Isolated.Identity.is_uuid
    big_red_button.Planner.Isolated.Identity.to_lower trim_space
    big_red_button.Planner.Isolated.Identity.lower_char
    big_red_button.Planner.Isolated.Identity.check_uuid
    big_red_button.Planner.Isolated.Identity.is_dash_index
    big_red_button.Planner.Isolated.Identity.is_hex
cleanup_planned = refl

isolated_app_tunnel-AllNameRollbacks_example :
    All (λ step. names_rollback step ≡ true) tunnel_plan.steps
isolated_app_tunnel-AllNameRollbacks_example =
    isolated_app_tunnel-AllNameRollbacks fingerprint digest some_config browser_options tunnel_plan
      tunnel_planned

isolated_app_tunnel-AllHaveCases_example : All HasCase tunnel_plan.steps
isolated_app_tunnel-AllHaveCases_example =
    isolated_app_tunnel-AllHaveCases fingerprint digest some_config browser_options tunnel_plan
      tunnel_planned

isolated_app_stop-AllHaveCases_example : All HasCase stop_plan.steps
isolated_app_stop-AllHaveCases_example =
    isolated_app_stop-AllHaveCases stop_options stop_plan (inl stop_planned)
