-- ===== src/Examples/Dns.antt =====
-- A resolver that refuses search domains: its state is whether the interface has settings.
use big_red_button.Base.{
  not_exist, ◌≡◌, refl, String, ◌==◌, Bool, true, false, Option, none, some, List, [], ◌∷◌, Result,
  ok, err, Err, failure, if◌then◌else◌, arith, Bool-cases, inl, inr, ap, sym,
}
use big_red_button.Base.Int.{pos}
use big_red_button.Planner.{Step, blank_step, blank_plan}
use big_red_button.Runtime.{State}
use big_red_button.Host.{Host}
use big_red_button.Linux.{Command}
use big_red_button.Linux.Commands.{resolvectl_revert_command}
use big_red_button.Linux.DnsExecutor.{DnsExecutor, new_dns_executor, apply}
use big_red_button.Linux.DnsExecutor.Clean.{IsResolver, apply_clean}
use big_red_button.Examples.Runtime.{some_state}

abbrev answer : String → Bool → (String × Option Err) × Bool
answer verb w =
    if verb == "domain"
    then (("", some (failure "exit status 1")), w)
    else if verb == "revert"
    then (("", none), false)
    else (("", none), true)

abbrev verb_of : List String → String
verb_of [] = ""
verb_of (verb ∷ _) = verb

abbrev resolver_host : Host Bool State
resolver_host = record {
  ctx_err = λ w. none;
  run = λ command w. answer (verb_of command.args) w;
  start = λ command w. (ok (record { pid = pos 7; command = command }), w);
  stop = λ info w. (none, w);
  stop_pid = λ pid w. (none, w);
  pid_exists = λ pid w. false;
  argv_matches = λ pid argv w. false;
  check_executable = λ binary w. none;
  make_dir = λ path w. (none, w);
  read_file = λ path w. err (failure "no file");
  read_dir = λ path w. err (failure "no file");
  write_file = λ path text w. (none, w);
  chmod = λ path w. (none, w);
  remove = λ path w. (none, w);
  stat = λ path w. some (not_exist "no such file");
  remove_all = λ path w. (none, w);
  getpid = pos 1;
  encode = λ s. "state";
  decode = λ text. ok some_state;
}

abbrev revert_brb0 : Command
revert_brb0 = record { name = "resolvectl"; args = "revert" ∷ "brb0" ∷ [] }

answer-refused :
    (verb : String) (w w' : Bool) (out : String) (x : Err)
    → answer verb w ≡ ((out, some x), w')
    → w ≡ false
    → w' ≡ false
answer-refused verb w w' out x called before = elim (Bool-cases (verb == "domain")) [
  | inl domain ↦ ground arith
  | inr other ↦ elim (Bool-cases (verb == "revert")) [
    | inl revert ↦ absurd (ground arith)
    | inr setting ↦ absurd (ground arith)
  ]
]

resolver_host-IsResolver : IsResolver resolver_host (λ w. w ≡ false) revert_brb0
resolver_host-IsResolver = record {
  refused = λ command w w' out x called before.
      answer-refused (verb_of command.args) w w' out x called before;
  reverts = λ w. ("", false, refl, refl);
}

abbrev dns_executor : DnsExecutor
dns_executor = new_dns_executor (record blank_plan {
  kind = "connect";
  wireguard_interface = "brb0";
  dns_servers = "1.1.1.1" ∷ [];
})

abbrev dns_step : Step
dns_step = record blank_step { id = "apply-dns" }

abbrev failed_dns : Result (Unit {0}) × (DnsExecutor × Bool)
failed_dns = apply resolver_host dns_step (dns_executor, false)

abbrev error_of : Result (Unit {0}) → Err
error_of (ok _) = failure ""
error_of (err x) = x

dns_fails :
    apply resolver_host dns_step (dns_executor, false) ≡ (err (error_of failed_dns.0), failed_dns.1)
unfolding apply big_red_button.Linux.DnsExecutor.apply_commands
    big_red_button.Linux.Commands.resolvectl_dns_command
    big_red_button.Linux.Commands.validate_interface_name big_red_button.Base.Text.trim_space
    big_red_button.Base.Text.all_chars big_red_button.Netip.Parse.parse_addr
    big_red_button.Linux.Commands.resolvectl_domain_command
    big_red_button.Linux.Commands.resolvectl_default_route_command
    big_red_button.Linux.DnsExecutor.run_all big_red_button.Linux.DnsExecutor.run
    big_red_button.Host.call big_red_button.Linux.DnsExecutor.give_up
    big_red_button.Linux.DnsExecutor.rollback_plan resolvectl_revert_command
    big_red_button.Linux.DnsExecutor.run_only
dns_fails = refl

brb0_named : resolvectl_revert_command "brb0" ≡ ok revert_brb0
unfolding resolvectl_revert_command big_red_button.Linux.Commands.validate_interface_name
    big_red_button.Base.Text.trim_space big_red_button.Base.Text.all_chars
brb0_named = refl

apply_clean_example : failed_dns.1.1 ≡ false
apply_clean_example =
    apply_clean resolver_host (λ w. w ≡ false) revert_brb0 resolver_host-IsResolver dns_step
      dns_executor failed_dns.1.0 false failed_dns.1.1 (error_of failed_dns.0) refl brb0_named refl
      dns_fails
