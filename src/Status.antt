-- ===== src/Status.antt =====
-- internal/status/status.go on Linux: what is reported of a runtime state on disk.
pub mod Laws
pub mod Sessions
use big_red_button.Base.{
  String, ◌<>◌, ◌==◌, Bool, true, false, ◌&&◌, Option, none, some, List, [], ◌∷◌, ◌++◌, Result, ok,
  err, Err, failure, not_exist, message, if◌then◌else◌, is_empty, join, show_ℤ,
}
use big_red_button.Planner.{isolated_app_tunnel_kind}
use big_red_button.Runtime.{State, ProcessState}
use big_red_button.Runtime.Store.{load}
use big_red_button.Host.{Host}

-- `status.State`
pub data Report : Type 0 where
  idle connected dirty : Report

pub record Snapshot : Type 0 where
  pub state : Report
  pub runtime_root : String
  pub active : Option State
  pub error : String

module _ {W : Type 0} (host : Host W State) (w : W) where
  unfoldable pub append_process_problem : List String → String → Option ProcessState → List String
  append_process_problem missing label none = missing
  append_process_problem missing label (some p) =
      if host.pid_exists p.pid w
      then if host.argv_matches p.pid p.argv w
        then missing
        else missing ++ ((label <> (" pid " <> (show_ℤ p.pid <> " argv mismatch"))) ∷ [])
      else missing ++ ((label <> (" pid " <> show_ℤ p.pid)) ∷ [])

  -- The list that `markMissingProcesses` gathers.
  unfoldable pub missing_processes : State → List String
  unfolding append_process_problem
  missing_processes s =
      append_process_problem
        (if s.mode == isolated_app_tunnel_kind
          then append_process_problem (append_process_problem [] "app" s.app_process) "monitor"
              s.monitor_process
          else [])
        "wstunnel" s.wstunnel_process

  unfoldable pub problem_text : State → List String → String
  unfolding join
  problem_text s missing =
      (if s.mode == isolated_app_tunnel_kind
        then "isolated session process is not running: "
        else "system tunnel process is not running: ")
      <> join ", " missing

  unfoldable pub snapshot_from_state : String → State → Snapshot
  unfolding missing_processes problem_text
  snapshot_from_state root s =
      let missing = missing_processes s in
      if is_empty missing
      then record { state = connected; runtime_root = root; active = some s; error = "" }
      else record {
        state = dirty;
        runtime_root = root;
        active = some s;
        error = problem_text s missing;
      }

  unfoldable pub from_store : String → Snapshot
  unfolding snapshot_from_state message
  from_store root = elim (load host root w) [
    | ok s ↦ snapshot_from_state root s
    | err e ↦ elim e [
      | not_exist m ↦ record { state = idle; runtime_root = root; active = none; error = "" }
      | failure m ↦ record { state = dirty; runtime_root = root; active = none; error = m }
    ]
  ]
