-- ===== src/Status/Sessions/Laws.antt =====
-- What `IsolatedSessions` reports.
use big_red_button.Base.{◌≡◌, String, none, ok, ◌⊎◌, ◌≢◌, if◌then◌else◌, some}
use big_red_button.Planner.{isolated_app_tunnel_kind}
use big_red_button.Runtime.{State}
use big_red_button.Runtime.Store.{load}
use big_red_button.Runtime.Sessions.{IsolatedSession}
use big_red_button.Host.{Host}
use big_red_button.Status.{connected, dirty}
use big_red_button.Status.Laws.{is_alive}
use big_red_button.Status.Sessions.{IsolatedSessionSnapshot, session_snapshot}

-- The report shows a state that loads from the session's own directory and is of that session, and
-- says whether its processes are alive.
pub record ShowsState {W : Type 0} (host : Host W State) (w : W) (x : IsolatedSessionSnapshot)
    : Type 0 where
  pub held : State
  pub is_active : x.snapshot.active ≡ some held
  pub loads : load host x.snapshot.runtime_root w ≡ ok held
  pub isolated : held.mode ≡ isolated_app_tunnel_kind
  pub own : held.session_id ≡ x.session_id
  pub judged : x.snapshot.state ≡ (if is_alive host w held then connected else dirty)

-- The report shows such a state, or it shows none and is not Connected.
abbrev pub IsFaithful : {W : Type 0} → Host W State → W → IsolatedSessionSnapshot → Type 0
IsFaithful host w x =
    ((x.snapshot.active ≡ none) × (x.snapshot.state ≢ connected)) ⊎ ShowsState host w x

module _ (quote : String → String) {W : Type 0} (host : Host W State) (w : W) where
  abbrev snapshot_of : IsolatedSession → IsolatedSessionSnapshot
  snapshot_of session = record {
    session_id = session.session_id;
    snapshot = session_snapshot quote host w session;
  }
