-- ===== src/Examples/Runtime.antt =====
-- A runtime state that is saved, loaded and cleared.
use big_red_button.Planner.{isolated_app_tunnel_kind}
use big_red_button.Status.Sessions.{IsolatedSessionSnapshot}
use big_red_button.Base.{
  ◌≡◌, refl, ◌↔◌, String, true, false, none, some, List, [], ◌∷◌, if◌then◌else◌, Result, ok, err,
  not_exist,
}
use big_red_button.Base.Int.{pos}
use big_red_button.Runtime.{State, no_state, validate, with_wstunnel_process}
use big_red_button.Runtime.Laws.{IsValid, validate_lem}
use big_red_button.Runtime.Store.{save, write_state, store_path, store_dir, load, clear}
use big_red_button.Base.Text.{trim_space}
use big_red_button.Base.FilePath.{join_path}
use big_red_button.Runtime.Store.Laws.{save-load, clear-load}
use big_red_button.Status.{from_store, idle, connected, dirty}
use big_red_button.Status.Laws.{is_alive, save-from_store, clear-from_store}
use big_red_button.Examples.Machine.{
  Machine, fresh_machine, machine_host, machine_host-IsFileSystem,
}

abbrev pub some_state : State
some_state = record no_state {
  version = pos 1;
  profile = "home";
  profile_fingerprint = "sha256:00";
  wireguard_interface = "brb0";
  dns_servers = "1.1.1.1" ∷ [];
}

some_state-valid : validate some_state ≡ none
unfolding validate big_red_button.Base.Text.is_blank big_red_button.Runtime.check_session
    big_red_button.Runtime.check_exclusions big_red_button.Runtime.check_processes
    big_red_button.Runtime.check_dns big_red_button.Runtime.check_servers
    big_red_button.Netip.Parse.parse_addr
some_state-valid = refl

validate_lem_example : (validate some_state ≡ none) ↔ IsValid some_state
validate_lem_example = validate_lem some_state

abbrev saved_machine : Machine
saved_machine = record { file = some ("/run/brb/state.json", "state"); link = true }

saved : save (machine_host some_state) "/run/brb" some_state fresh_machine ≡ (ok tt, saved_machine)
unfolding save write_state store_path store_dir trim_space join_path validate machine_host
    big_red_button.Base.Text.is_blank big_red_button.Runtime.check_session
    big_red_button.Runtime.check_exclusions big_red_button.Runtime.check_processes
    big_red_button.Runtime.check_dns big_red_button.Runtime.check_servers
    big_red_button.Netip.Parse.parse_addr
saved = refl

save-load_example : load (machine_host some_state) "/run/brb" saved_machine ≡ ok some_state
unfolding machine_host
save-load_example =
    save-load (machine_host some_state) (machine_host-IsFileSystem some_state) "/run/brb" some_state
      fresh_machine saved_machine refl saved refl

cleared : clear (machine_host some_state) "/run/brb" saved_machine ≡ (ok tt, fresh_machine)
unfolding clear store_path trim_space join_path machine_host
cleared = refl

clear-load_example :
    (m : String) × (load (machine_host some_state) "/run/brb" fresh_machine ≡ err (not_exist m))
unfolding machine_host
clear-load_example =
    clear-load (machine_host some_state) (machine_host-IsFileSystem some_state) "/run/brb"
      saved_machine fresh_machine cleared refl

save-from_store_example :
    ((from_store (machine_host some_state) saved_machine "/run/brb").active ≡ some some_state)
    × ((from_store (machine_host some_state) saved_machine "/run/brb").state ≡ (
        if is_alive (machine_host some_state) saved_machine some_state then connected else dirty))
unfolding machine_host
save-from_store_example =
    save-from_store (machine_host some_state) (machine_host-IsFileSystem some_state) "/run/brb"
      some_state fresh_machine saved_machine refl saved refl

clear-from_store_example :
    from_store (machine_host some_state) fresh_machine "/run/brb"
    ≡ record { state = idle; runtime_root = "/run/brb"; active = none; error = "" }
unfolding machine_host
clear-from_store_example =
    clear-from_store (machine_host some_state) (machine_host-IsFileSystem some_state) "/run/brb"
      saved_machine fresh_machine cleared refl

-- A session whose directory is named "home", with a state of its own.
abbrev session_state : State
session_state = record some_state {
  mode = isolated_app_tunnel_kind;
  session_id = "home";
  app_id = "browser";
  namespace = "brb-home";
  host_veth = "brbhhome";
  namespace_veth = "brbnhome";
  host_address = "169.254.71.1/30";
  namespace_address = "169.254.71.2/30";
  host_gateway = "169.254.71.1";
}

abbrev session_machine : Machine
session_machine = record { file = some ("/run/brb/isolated/home/state.json", "state"); link = true }

abbrev home_report : IsolatedSessionSnapshot
home_report = record {
  session_id = "home";
  snapshot = record {
    state = connected;
    runtime_root = "/run/brb/isolated/home";
    active = some session_state;
    error = "";
  };
}
