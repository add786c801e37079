-- ===== src/Examples/Machine.antt =====
-- A small machine: one file, one network interface, and commands that succeed but for `wg`.
use big_red_button.Base.{
  ◌≡◌, refl, ◌≢◌, String, ◌==◌, Bool, true, false, ◌&&◌, Option, none, some, List, [], ◌∷◌, Result,
  ok, err, Err, failure, not_exist, if◌then◌else◌, arith, eq_iff, bind_result, bind_result-eq-ok,
  ap, sym, ◌∙◌, subst, Bool-cases, inl, inr,
}
use big_red_button.Base.Int.{pos}
use big_red_button.Runtime.{State}
use big_red_button.Host.{Host}
use big_red_button.Linux.{Command}
use big_red_button.Linux.Commands.{
  ip_command, wireguard_delete_interface_command, validate_interface_name,
}
use big_red_button.Linux.Lifecycle.Twice.{RefusesSecondDelete}
use big_red_button.Linux.IsolatedCommands.{link_delete_command}
use big_red_button.Linux.IsolatedExecutor.Dispatch.Dirty
use big_red_button.Runtime.Store.Laws.{IsFileSystem}

pub record Machine : Type 0 where
  pub file : Option (String × String)
  pub link : Bool

abbrev pub fresh_machine : Machine
fresh_machine = record { file = none; link = true }

abbrev is_delete : List String → Bool
is_delete (a ∷ b ∷ _) = a == "link" && b == "delete"
is_delete _ = false

abbrev run_delete : Bool → Machine → (String × Option Err) × Machine
run_delete true w = (("", none), record w { link = false })
run_delete false w = (("", some (failure "Cannot find device")), w)

abbrev run_command : Command → Machine → (String × Option Err) × Machine
run_command c w =
    if is_delete c.args
    then run_delete w.link w
    else if c.name == "wg"
    then (("", some (failure "exit status 1")), w)
    else (("", none), w)

abbrev read : Option (String × String) → String → Result String
read none path = err (not_exist "no such file")
read (some (name, text)) path = if path == name then ok text else err (not_exist "no such file")

abbrev is_there : Option (String × String) → String → Option Err
is_there none path = some (not_exist "no such file")
is_there (some (name, text)) path = if path == name then none else some (not_exist "no such file")

-- The machine, with a text for one state only.
unfoldable pub machine_host : State → Host Machine State
machine_host state = record {
  ctx_err = λ w. none;
  run = run_command;
  start = λ command w. (ok (record { pid = pos 7; command = command }), w);
  stop = λ info w. (none, w);
  stop_pid = λ pid w. (none, w);
  pid_exists = λ pid w. false;
  argv_matches = λ pid argv w. false;
  check_executable = λ binary w. none;
  make_dir = λ path w. (none, w);
  read_file = λ path w. read w.file path;
  write_file = λ path text w. (none, record w { file = some (path, text) });
  chmod = λ path w. (none, w);
  remove = λ path w. (none, record w { file = none });
  read_dir = λ path w. ok (record { name = "home"; is_dir = true } ∷ []);
  stat = λ path w. is_there w.file path;
  remove_all = λ path w. (none, record w { file = none });
  getpid = pos 1;
  encode = λ s. "state";
  decode = λ text. ok state;
}

pub machine_host-IsFileSystem : (state : State) → IsFileSystem (machine_host state)
unfolding machine_host
machine_host-IsFileSystem state = record {
  read_written = λ path text w w' wrote.
      ap (λ x. read (x.1.file) path) (sym wrote) ∙ rw ((eq_iff path path).1 refl) refl;
  read_chmod = λ path other w w' changed. ap (λ x. read (x.1.file) other) (sym changed);
  read_removed = λ path w w' gone. ("no such file", ap (λ x. read (x.1.file) path) (sym gone));
  read_absent = λ path w w' m gone. absurd (ground arith);
}

run_delete-done :
    (c : Command) (w : Machine) → is_delete c.args ≡ true → run_command c w ≡ run_delete w.link w
run_delete-done c w deleting = rw deleting refl

second_refused :
    (c : Command) (w w' : Machine) (out : String)
    → is_delete c.args ≡ true
    → run_command c w ≡ ((out, none), w')
    → (run_command c w').0.1 ≢ none
second_refused c w w' out deleting ran = elim (Bool-cases w.link) [
  | inl up ↦
      let down : w'.link ≡ false = ap (λ x. x.1.link) (sym ran) ∙ rw deleting (rw up refl) in
      λ fine. absurd (cc (fine, run_delete-done c w' deleting, down))
  | inr down ↦ absurd (cc (ran, run_delete-done c w deleting, ap (λ b. run_delete b w) down))
]

-- A built `ip link delete` is refused where it was run before.
built_refused :
    (command : Command) (w w' : Machine) (name out : String)
    → bind_result
        (validate_interface_name name)
        (λ iface. ok (ip_command ("link" ∷ "delete" ∷ "dev" ∷ iface ∷ [])))
      ≡ ok command
    → run_command command w ≡ ((out, none), w')
    → (run_command command w').0.1 ≢ none
built_refused command w w' name out built ran =
    let (iface, _, made) = bind_result-eq-ok (validate_interface_name name) _ built in
    let same : ip_command ("link" ∷ "delete" ∷ "dev" ∷ iface ∷ []) ≡ command = cc in
    second_refused command w w' out (subst (λ c. is_delete c.args ≡ true) same refl) ran

pub machine_host-RefusesSecondDelete : (state : State) → RefusesSecondDelete (machine_host state)
unfolding machine_host wireguard_delete_interface_command
machine_host-RefusesSecondDelete state name command w w' out built ran =
    built_refused command w w' name out built ran

pub machine_host-RefusesSecondLinkDelete :
    (state : State)
    → big_red_button.Linux.IsolatedExecutor.Dispatch.Dirty.RefusesSecondDelete (machine_host state)
unfolding machine_host link_delete_command
machine_host-RefusesSecondLinkDelete state name command w w' out built ran =
    built_refused command w w' name out built ran
