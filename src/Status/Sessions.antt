-- ===== src/Status/Sessions.antt =====
-- `IsolatedSessions` of internal/status/status.go: a snapshot of every session with a directory.
pub mod Laws
use big_red_button.Base.{
  String, ◌==◌, none, some, List, map, Result, ok, bind_result, not, if◌then◌else◌,
}
use big_red_button.Runtime.{State}
use big_red_button.Runtime.Sessions.{IsolatedSession, list_isolated_sessions}
use big_red_button.Host.{Host}
use big_red_button.Status.{Snapshot, idle, dirty, snapshot_from_state}

pub record IsolatedSessionSnapshot : Type 0 where
  pub session_id : String
  pub snapshot : Snapshot

module _ (quote : String → String) {W : Type 0} (host : Host W State) (w : W) where
  unfoldable pub session_snapshot : IsolatedSession → Snapshot
  session_snapshot session = elim session.state [
    | some s ↦ snapshot_from_state host w session.root s
    | none ↦
        if not (session.error == "")
        then record {
          state = dirty;
          runtime_root = session.root;
          active = none;
          error = session.error;
        }
        else record { state = idle; runtime_root = session.root; active = none; error = "" }
  ]

  unfoldable pub isolated_sessions : String → Result (List IsolatedSessionSnapshot)
  unfolding session_snapshot
  isolated_sessions runtime_root =
      bind_result (list_isolated_sessions quote host runtime_root w) λ sessions. ok (
        map
          (λ session. record {
            session_id = session.session_id;
            snapshot = session_snapshot session;
          })
          sessions)
