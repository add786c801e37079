-- ===== src/Runtime/Laws.antt =====
-- `State.Validate` of internal/runtime/state.go, said as a property of the state.
use big_red_button.Base.{
  ◌≡◌, refl, ◌∙◌, ◌↔◌, ◌⊎◌, ℕ, ◌+◌, String, Bool, true, false, not, Option, none, some, List, [],
  ◌∷◌, Err, All, arith, Bool-cases, inl, inr, is_empty, is_none, ◌==◌,
}
use big_red_button.Base.Int.{below, equals}
use big_red_button.Base.Text.{trim_space, is_blank}
use big_red_button.Netip.Parse.{parse_addr}
use big_red_button.Routes.{EndpointExclusion}
use big_red_button.Planner.{isolated_app_tunnel_kind}
use big_red_button.Runtime.{
  State, ProcessState, unless, validate, check_session, check_exclusions, check_processes,
  check_dns, check_servers, lacks_pid, state_version,
}

-- An exclusion names its endpoint and its destination.
abbrev pub IsNamed : EndpointExclusion → Type 0
IsNamed exclusion =
    (is_blank exclusion.endpoint_ip ≡ false) × (is_blank exclusion.destination ≡ false)

-- A DNS server is an address.
abbrev pub IsAddress : String → Type 0
IsAddress server = is_none (parse_addr (trim_space server)) ≡ false

-- A process that is there has a positive id.
abbrev pub HasPid : Option ProcessState → Type 0
HasPid none = Unit
HasPid (some p) = below p.pid 1 ≡ false

-- The names that a session of an isolated app needs.
pub record IsSession (s : State) : Type 0 where
  pub session : is_blank s.session_id ≡ false
  pub namespaced : is_blank s.namespace ≡ false
  pub on_host : is_blank s.host_veth ≡ false
  pub in_namespace : is_blank s.namespace_veth ≡ false

-- What `Validate` accepts.
pub record IsValid (s : State) : Type 0 where
  pub current : equals s.version state_version ≡ true
  pub fingerprinted : is_blank s.profile_fingerprint ≡ false
  pub tunnelled : is_blank s.wireguard_interface ≡ false
  pub session : ((s.mode == isolated_app_tunnel_kind) ≡ false) ⊎ IsSession s
  pub exclusions : All IsNamed s.route_exclusions
  pub wstunnel : HasPid s.wstunnel_process
  pub app : HasPid s.app_process
  pub monitor : HasPid s.monitor_process
  pub resolver :
      (s.dns_applied ≡ false)
      ⊎ (is_blank s.dns_interface ≡ false) × (is_empty s.dns_servers ≡ false)
  pub servers : All IsAddress s.dns_servers

unless-none :
    (b : Bool) (message : String) (rest : Option Err)
    → unless b message rest ≡ none
    → (b ≡ false) × (rest ≡ none)
unless-none true message rest h = absurd (ground arith)
unless-none false message rest h = (refl, h)

check_exclusions-none :
    (index : ℕ) (exclusions : List EndpointExclusion) (rest : Option Err)
    → check_exclusions index exclusions rest ≡ none
    → All IsNamed exclusions × (rest ≡ none)
unfolding check_exclusions
check_exclusions-none index [] rest h = (tt, h)
check_exclusions-none index (exclusion ∷ exclusions) rest h =
    let (ip, h') = unless-none (is_blank exclusion.endpoint_ip) _ _ h in
    let (destination, h'') = unless-none (is_blank exclusion.destination) _ _ h' in
    let (later, done) = check_exclusions-none (index + 1) exclusions rest h'' in
    (((ip, destination), later), done)

check_servers-none :
    (index : ℕ) (servers : List String) → check_servers index servers ≡ none → All IsAddress servers
unfolding check_servers
check_servers-none index [] h = tt
check_servers-none index (server ∷ servers) h =
    let (address, later) = unless-none (is_none (parse_addr (trim_space server))) _ _ h in
    (address, check_servers-none (index + 1) servers later)

lacks_pid-HasPid : (p : Option ProcessState) → lacks_pid p ≡ false → HasPid p
lacks_pid-HasPid none h = tt
lacks_pid-HasPid (some p) h = h

check_dns-none :
    (s : State)
    → check_dns s ≡ none
    → ((s.dns_applied ≡ false)
        ⊎ (is_blank s.dns_interface ≡ false) × (is_empty s.dns_servers ≡ false))
      × All IsAddress s.dns_servers
unfolding check_dns
check_dns-none s h = elim (Bool-cases s.dns_applied) [
  | inl applied ↦
      let (interface, h') =
        unless-none (is_blank s.dns_interface) "runtime state DNS interface is required"
          (unless (is_empty s.dns_servers) "runtime state DNS servers are required"
            (check_servers 0 s.dns_servers))
          (ground arith) in
      let (servers, h'') = unless-none (is_empty s.dns_servers) _ _ h' in
      (inr (interface, servers), check_servers-none 0 s.dns_servers h'')
  | inr untouched ↦
      let h' : check_servers 0 s.dns_servers ≡ none = ground arith in
      (inl untouched, check_servers-none 0 s.dns_servers h')
]

check_session-none :
    (s : State) (rest : Option Err)
    → check_session s rest ≡ none
    → (((s.mode == isolated_app_tunnel_kind) ≡ false) ⊎ IsSession s) × (rest ≡ none)
unfolding check_session
check_session-none s rest h = elim (Bool-cases (s.mode == isolated_app_tunnel_kind)) [
  | inl isolated ↦
      let (a, h1) =
        unless-none (is_blank s.session_id) "isolated runtime state session ID is required"
          (unless (is_blank s.namespace) "isolated runtime state namespace is required" (
            unless (is_blank s.host_veth) "isolated runtime state host veth is required" (
              unless (is_blank s.namespace_veth) "isolated runtime state namespace veth is required"
                rest)))
          (ground arith) in
      let (b, h2) = unless-none (is_blank s.namespace) _ _ h1 in
      let (c, h3) = unless-none (is_blank s.host_veth) _ _ h2 in
      let (d, h4) = unless-none (is_blank s.namespace_veth) _ _ h3 in
      (inr (record { session = a; namespaced = b; on_host = c; in_namespace = d }), h4)
  | inr other ↦ (inl other, ground arith)
]

not-false : (b : Bool) → not b ≡ false → b ≡ true
not-false true h = refl
not-false false h = absurd (ground arith)

-- A state that `Validate` accepts is a valid one.
validate-IsValid : (s : State) → validate s ≡ none → IsValid s
unfolding validate check_processes
validate-IsValid s h =
    let (current, h1) = unless-none (not (equals s.version state_version)) _ _ h in
    let (fingerprint, h2) = unless-none (is_blank s.profile_fingerprint) _ _ h1 in
    let (interface, h3) = unless-none (is_blank s.wireguard_interface) _ _ h2 in
    let (session, h4) = check_session-none s _ h3 in
    let (exclusions, h5) = check_exclusions-none 0 s.route_exclusions _ h4 in
    let (wstunnel, h6) = unless-none (lacks_pid s.wstunnel_process) _ _ h5 in
    let (app, h7) = unless-none (lacks_pid s.app_process) _ _ h6 in
    let (monitor, h8) = unless-none (lacks_pid s.monitor_process) _ _ h7 in
    let (resolver, servers) = check_dns-none s h8 in
    record {
      current = not-false (equals s.version state_version) current;
      fingerprinted = fingerprint;
      tunnelled = interface;
      session = session;
      exclusions = exclusions;
      wstunnel = lacks_pid-HasPid s.wstunnel_process wstunnel;
      app = lacks_pid-HasPid s.app_process app;
      monitor = lacks_pid-HasPid s.monitor_process monitor;
      resolver = resolver;
      servers = servers;
    }

check_exclusions-skip :
    (index : ℕ) (exclusions : List EndpointExclusion) (rest : Option Err)
    → All IsNamed exclusions
    → check_exclusions index exclusions rest ≡ rest
unfolding check_exclusions
check_exclusions-skip index [] rest h = refl
check_exclusions-skip index (exclusion ∷ exclusions) rest ((ip, destination), h) =
    rw (ip, destination) (check_exclusions-skip (index + 1) exclusions rest h)

check_servers-skip :
    (index : ℕ) (servers : List String) → All IsAddress servers → check_servers index servers ≡ none
unfolding check_servers
check_servers-skip index [] h = refl
check_servers-skip index (server ∷ servers) (address, h) =
    rw address (check_servers-skip (index + 1) servers h)

HasPid-lacks_pid : (p : Option ProcessState) → HasPid p → lacks_pid p ≡ false
HasPid-lacks_pid none h = refl
HasPid-lacks_pid (some p) h = h

check_dns-skip :
    (s : State)
    → ((s.dns_applied ≡ false)
        ⊎ (is_blank s.dns_interface ≡ false) × (is_empty s.dns_servers ≡ false))
    → All IsAddress s.dns_servers
    → check_dns s ≡ none
unfolding check_dns
check_dns-skip s (inl untouched) servers = rw untouched (check_servers-skip 0 s.dns_servers servers)
check_dns-skip s (inr (interface, given)) servers =
    let listed = check_servers-skip 0 s.dns_servers servers in ground arith

check_session-skip :
    (s : State) (rest : Option Err)
    → ((s.mode == isolated_app_tunnel_kind) ≡ false) ⊎ IsSession s
    → check_session s rest ≡ rest
unfolding check_session
check_session-skip s rest (inl other) = rw other refl
check_session-skip s rest (inr named) =
    let a = named.session in
    let b = named.namespaced in let c = named.on_host in let d = named.in_namespace in ground arith

-- `Validate` accepts every valid state.
IsValid-validate : (s : State) → IsValid s → validate s ≡ none
unfolding validate check_processes
IsValid-validate s h =
    rw (h.current, h.fingerprinted, h.tunnelled)
      (check_session-skip s _ h.session
        ∙ check_exclusions-skip 0 s.route_exclusions _ h.exclusions
        ∙ rw
            (
              HasPid-lacks_pid s.wstunnel_process h.wstunnel,
              HasPid-lacks_pid s.app_process h.app,
              HasPid-lacks_pid s.monitor_process h.monitor,
            )
            (check_dns-skip s h.resolver h.servers))

-- `Validate` returns nil exactly for the valid states.
pub validate_lem : (s : State) → (validate s ≡ none) ↔ IsValid s
validate_lem s = (validate-IsValid s, IsValid-validate s)
