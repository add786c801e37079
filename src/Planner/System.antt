-- ===== src/Planner/System.antt =====
-- `Connect` and `Disconnect` of internal/planner/planner.go.
pub mod Endpoints
pub mod Secrets
pub mod Rollbacks
use big_red_button.Base.{
  ℕ, String, ◌<>◌, ◌==◌, Bool, true, false, ◌&&◌, ◌||◌, not, Option, none, some, List, [], ◌∷◌,
  ◌++◌, Result, ok, err, bind_result, if◌then◌else◌, map, show_ℤ, is_empty, eqb, Char, code,
}
use big_red_button.Base.Text.{keep_chars}
use big_red_button.Profile.{Config}
use big_red_button.Routes.{EndpointExclusion, new_endpoint_exclusion}
use big_red_button.Planner.{Options, Step, Plan, blank_step, blank_plan}
use big_red_button.Planner.Normalize.{normalize_options, normalize_dns_servers}

unfoldable pub prefixed : String → List String → List String
prefixed prefix = map (λ value. prefix <> value)

abbrev pub show_bool : Bool → String
show_bool true = "true"
show_bool false = "false"

unfoldable pub system_prerequisite_details : String → Bool → List String
system_prerequisite_details wstunnel_binary needs_dns =
    "binary=ip"
    ∷ "binary=wg"
    ∷ ("binary=" <> wstunnel_binary)
    ∷ (if needs_dns then "binary=resolvectl" ∷ [] else [])

safe_char : Char → String → String
safe_char c rest =
    if eqb (code c) b'.' || eqb (code c) b':' || eqb (code c) b'/'
    then "-" <> rest
    else if eqb (code c) b'[' || eqb (code c) b']'
    then rest
    else String.◌∷◌ c rest

unfoldable pub safe_id : String → String
unfolding safe_char
safe_id String.[] = ""
safe_id (String.◌∷◌ c s) = safe_char c (safe_id s)

unfoldable pub opening_steps : Config → Options → List String → List Step
unfolding system_prerequisite_details
opening_steps config normalized dns_servers =
    record blank_step {
      id = "validate-profile";
      action = "Validate normalized VPN profile";
      details = "profile validation already completed by parser" ∷ ("profile=" <> config.name) ∷ [];
    }
    ∷ record blank_step {
      id = "resolve-wstunnel-host";
      action = "Resolve WSTunnel host before applying tunnel routes";
      details = ("host=" <> config.wstunnel_host) ∷ [];
    }
    ∷ record blank_step {
      id = "validate-linux-prerequisites";
      action = "Validate Linux system tunnel prerequisites";
      details = system_prerequisite_details normalized.wstunnel_binary (not (is_empty dns_servers));
    }
    ∷ []

-- The steps for endpoints that are not resolved yet.
abbrev pub pending_endpoint_steps : List Step
pending_endpoint_steps =
    record blank_step {
      id = "snapshot-endpoint-routes";
      action = "Snapshot current route to each resolved WSTunnel endpoint";
      details = "pending DNS resolution by platform adapter" ∷ [];
      requires_privilege = true;
      skipped_until_apply = true;
    }
    ∷ record blank_step {
      id = "add-endpoint-route-exclusions";
      action = "Add host routes that keep WSTunnel endpoint traffic outside WireGuard";
      details = "pending DNS resolution by platform adapter" ∷ [];
      requires_privilege = true;
      skipped_until_apply = true;
      rollback = "remove launcher-owned endpoint route exclusions" ∷ [];
    }
    ∷ []

-- What the part of `Connect` about endpoints adds to the plan.
pub record EndpointPart : Type 0 where
  pub steps : List Step
  pub exclusions : List EndpointExclusion
  pub warnings : List String

unfoldable pub endpoint_details : Options → String → List String
endpoint_details normalized endpoint_ip =
    ("endpoint_ip=" <> endpoint_ip)
    ∷ ((if normalized.default_gateway == ""
          then []
          else ("gateway=" <> normalized.default_gateway) ∷ [])
        ++ (if normalized.default_interface == ""
            then []
            else ("interface=" <> normalized.default_interface) ∷ []))

unfoldable pub endpoint_steps : String → List String → List Step
unfolding safe_id
endpoint_steps endpoint_ip details =
    record blank_step {
      id = "snapshot-route-" <> safe_id endpoint_ip;
      action = "Snapshot current route to WSTunnel endpoint";
      details = details;
      requires_privilege = true;
    }
    ∷ record blank_step {
      id = "add-route-exclusion-" <> safe_id endpoint_ip;
      action = "Add launcher-owned host route for WSTunnel endpoint";
      details = details;
      requires_privilege = true;
      rollback = ("remove launcher-owned route for " <> endpoint_ip) ∷ [];
    }
    ∷ []

-- What an endpoint with an exclusion adds.
abbrev pub resolved_part : Options → String → EndpointExclusion → EndpointPart
resolved_part normalized endpoint_ip exclusion = record {
  steps =
      endpoint_steps endpoint_ip (
        endpoint_details normalized endpoint_ip
        ++ (("destination=" <> exclusion.destination) ∷ []));
  exclusions = exclusion ∷ [];
  warnings = [];
}

-- One round of the loop over the endpoint addresses.
unfoldable pub endpoint_part : Options → String → Result EndpointPart
unfolding endpoint_details endpoint_steps
endpoint_part normalized endpoint_ip =
    if normalized.default_gateway == "" && normalized.default_interface == ""
    then ok (record {
      steps = endpoint_steps endpoint_ip (endpoint_details normalized endpoint_ip);
      exclusions = [];
      warnings =
          "default route gateway/interface were not provided; route exclusion remains abstract until apply time"
          ∷ [];
    })
    else bind_result
        (new_endpoint_exclusion endpoint_ip normalized.default_gateway normalized.default_interface)
        λ exclusion. ok (resolved_part normalized endpoint_ip exclusion)

abbrev pub join_parts : EndpointPart → EndpointPart → EndpointPart
join_parts a b = record {
  steps = a.steps ++ b.steps;
  exclusions = a.exclusions ++ b.exclusions;
  warnings = a.warnings ++ b.warnings;
}

unfoldable pub endpoint_loop : Options → List String → Result EndpointPart
unfolding endpoint_part
endpoint_loop normalized [] = ok (record { steps = []; exclusions = []; warnings = [] })
endpoint_loop normalized (ip ∷ ips) =
    bind_result (endpoint_part normalized ip)
      λ part. bind_result (endpoint_loop normalized ips) λ rest. ok (join_parts part rest)

unfoldable pub all_endpoints : Options → Result EndpointPart
unfolding endpoint_loop
all_endpoints normalized =
    if is_empty normalized.endpoint_ips
    then ok (record {
      steps = pending_endpoint_steps;
      exclusions = [];
      warnings =
          "endpoint IPs were not provided; concrete route exclusion will be built at apply time"
          ∷ [];
    })
    else endpoint_loop normalized normalized.endpoint_ips

-- The helper process, and the interface with its addresses.
unfoldable pub link_steps : Config → Options → List Step
unfolding prefixed show_ℤ
link_steps config normalized =
    record blank_step {
      id = "start-wstunnel";
      action = "Start WSTunnel client process";
      details =
          ("binary=" <> normalized.wstunnel_binary)
          ∷ ("target=" <> config.wstunnel_url)
          ∷ ("local_udp=" <> config.local_udp_listen)
          ∷ [];
      rollback = "stop WSTunnel client process" ∷ [];
    }
    ∷ record blank_step {
      id = "create-wireguard-interface";
      action = "Create or claim launcher WireGuard interface";
      details = ("interface=" <> normalized.wireguard_interface) ∷ [];
      requires_privilege = true;
      rollback = ("remove launcher WireGuard interface " <> normalized.wireguard_interface) ∷ [];
    }
    ∷ record blank_step {
      id = "apply-wireguard-addresses";
      action = "Apply WireGuard tunnel addresses and MTU";
      details =
          ("interface=" <> normalized.wireguard_interface)
          ∷ ("mtu=" <> show_ℤ config.mtu)
          ∷ prefixed "address=" config.addresses;
      requires_privilege = true;
      rollback = "remove launcher WireGuard addresses" ∷ [];
    }
    ∷ []

-- The peer and the routes through it.
unfoldable pub peer_steps : Config → List Step
unfolding prefixed show_ℤ
peer_steps config =
    record blank_step {
      id = "apply-wireguard-peer";
      action = "Apply WireGuard peer, endpoint and keepalive";
      details =
          ("endpoint=" <> config.local_udp_listen)
          ∷ ("persistent_keepalive=" <> show_ℤ config.persistent_keepalive)
          ∷ ("preshared_key=" <> show_bool (not (config.preshared_key == "")))
          ∷ [];
      requires_privilege = true;
      rollback = "remove launcher WireGuard peer" ∷ [];
    }
    ∷ record blank_step {
      id = "apply-client-routes";
      action = "Apply launcher-owned routes for client AllowedIPs";
      details = prefixed "allowed_ip=" config.allowed_ips;
      requires_privilege = true;
      rollback = "remove launcher-owned client routes" ∷ [];
    }
    ∷ []

unfoldable pub dns_steps : Options → List String → List Step
unfolding prefixed
dns_steps normalized dns_servers =
    (if is_empty dns_servers
      then record blank_step {
        id = "skip-dns";
        action = "Skip DNS changes";
        details = "profile has no DNS value" ∷ [];
      }
      else record blank_step {
        id = "apply-dns";
        action = "Apply launcher-owned DNS settings on WireGuard interface";
        details =
            ("interface=" <> normalized.wireguard_interface)
            ∷ "routing_domain=~."
            ∷ "default_route=yes"
            ∷ prefixed "dns=" dns_servers;
        requires_privilege = true;
        rollback =
            ("revert launcher-owned DNS settings on " <> normalized.wireguard_interface) ∷ [];
      })
    ∷ []

unfoldable pub closing_steps : String → Options → List Step
closing_steps fingerprint normalized =
    record blank_step {
      id = "verify-connected";
      action = "Verify WSTunnel process and WireGuard interface health";
      details = ("interface=" <> normalized.wireguard_interface) ∷ [];
    }
    ∷ record blank_step {
      id = "store-runtime-state";
      action = "Store sanitized runtime state for rollback and status";
      details = ("runtime_root=" <> normalized.runtime_root) ∷ ("fingerprint=" <> fingerprint) ∷ [];
      rollback = "clear launcher runtime state" ∷ [];
    }
    ∷ []

-- The steps of a connect plan, in order.
unfoldable pub connect_steps : String → Config → Options → List String → EndpointPart → List Step
unfolding opening_steps link_steps peer_steps dns_steps closing_steps
connect_steps fingerprint config normalized dns_servers endpoints =
    opening_steps config normalized dns_servers
    ++ (endpoints.steps
        ++ (link_steps config normalized
            ++ (peer_steps config
                ++ (dns_steps normalized dns_servers ++ closing_steps fingerprint normalized))))

-- The plan that `Connect` returns, of the fingerprint, the profile, the normalized options and their
-- warnings, the DNS servers and the part about endpoints.
unfoldable pub connect_plan :
    String → Config → Options → List String → List String → EndpointPart → Plan
unfolding connect_steps
connect_plan fingerprint config normalized warnings dns_servers endpoints = record blank_plan {
  kind = "connect";
  profile = config.name;
  profile_fingerprint = fingerprint;
  wstunnel_host = config.wstunnel_host;
  wstunnel_url = config.wstunnel_url;
  endpoint_ips = normalized.endpoint_ips;
  wireguard_interface = normalized.wireguard_interface;
  runtime_root = normalized.runtime_root;
  dns_servers = dns_servers;
  warnings = warnings ++ endpoints.warnings;
  steps = connect_steps fingerprint config normalized dns_servers endpoints;
  route_exclusions = endpoints.exclusions;
}

-- The profile's fingerprint is an argument: it is a digest of the JSON text of the profile.
unfoldable pub connect : (Config → String) → Config → Options → Result Plan
unfolding connect_plan all_endpoints
connect fingerprint config options =
    bind_result (normalize_options options) λ (normalized, warnings).
      bind_result (normalize_dns_servers config.dns) λ dns_servers.
        bind_result (all_endpoints normalized) λ endpoints.
          ok (connect_plan (fingerprint config) config normalized warnings dns_servers endpoints)

unfoldable pub disconnect_steps : Options → List Step
disconnect_steps normalized =
    record blank_step {
      id = "read-runtime-state";
      action = "Read launcher runtime state";
      details = ("runtime_root=" <> normalized.runtime_root) ∷ [];
    }
    ∷ record blank_step {
      id = "restore-dns";
      action = "Restore launcher-owned DNS changes if present";
      requires_privilege = true;
      depends_on_runtime = true;
    }
    ∷ record blank_step {
      id = "remove-client-routes";
      action = "Remove launcher-owned WireGuard client routes";
      requires_privilege = true;
      depends_on_runtime = true;
    }
    ∷ record blank_step {
      id = "remove-wireguard-interface";
      action = "Remove or bring down launcher WireGuard interface";
      details = ("interface=" <> normalized.wireguard_interface) ∷ [];
      requires_privilege = true;
      depends_on_runtime = true;
    }
    ∷ record blank_step {
      id = "stop-wstunnel";
      action = "Stop launcher-owned WSTunnel process";
      depends_on_runtime = true;
    }
    ∷ record blank_step {
      id = "remove-endpoint-route-exclusions";
      action = "Remove launcher-owned WSTunnel endpoint route exclusions";
      requires_privilege = true;
      depends_on_runtime = true;
    }
    ∷ record blank_step {
      id = "clear-runtime-state";
      action = "Clear launcher runtime state";
      details = ("runtime_root=" <> normalized.runtime_root) ∷ [];
      depends_on_runtime = true;
    }
    ∷ []

unfoldable pub disconnect : Options → Result Plan
unfolding disconnect_steps
disconnect options = bind_result (normalize_options options) λ (normalized, warnings).
    ok (record blank_plan {
      kind = "disconnect";
      wireguard_interface = normalized.wireguard_interface;
      runtime_root = normalized.runtime_root;
      warnings = warnings;
      steps = disconnect_steps normalized;
    })
