-- ===== src/Runtime/Sessions.antt =====
-- `ListIsolatedSessions` of internal/runtime/state.go: the sessions that have a directory under the
-- runtime root. `quote` stands for the verb %q of fmt.
pub mod Laws
use big_red_button.Base.{
  String, ◌<>◌, ◌==◌, Bool, not, Option, none, some, List, [], ◌∷◌, Result, ok, err, failure,
  not_exist, message, wrap, bind_result, if◌then◌else◌,
}
use big_red_button.Base.Text.{trim_space}
use big_red_button.Base.FilePath.{join_path}
use big_red_button.Planner.{
  isolated_app_tunnel_kind, default_runtime_root, default_isolated_runtime_subdir,
}
use big_red_button.Runtime.{State}
use big_red_button.Runtime.Store.{load}
use big_red_button.Host.{Host, DirEntry}

pub record IsolatedSession : Type 0 where
  pub session_id : String
  pub root : String
  pub state : Option State
  pub error : String

-- The directory of all sessions.
unfoldable pub isolated_root : String → String
isolated_root runtime_root = join_path (
    (if trim_space runtime_root == "" then default_runtime_root else trim_space runtime_root)
    ∷ default_isolated_runtime_subdir
    ∷ [])

abbrev pub session_root : String → String → String
session_root root name = join_path (root ∷ name ∷ [])

module _ (quote : String → String) where
  -- What is listed for a directory, by what `Load` finds in it.
  unfoldable pub session_from : String → String → Result State → IsolatedSession
  unfolding message
  session_from root name (err e) = record {
    session_id = name;
    root = session_root root name;
    state = none;
    error = message e;
  }
  session_from root name (ok s) =
      if not (s.mode == isolated_app_tunnel_kind)
      then record {
        session_id = name;
        root = session_root root name;
        state = none;
        error = "runtime state is not an isolated app tunnel session";
      }
      else if not (s.session_id == name)
      then record {
        session_id = name;
        root = session_root root name;
        state = none;
        error =
            "runtime state session ID "
            <> (quote s.session_id <> (" does not match directory " <> quote name));
      }
      else record { session_id = name; root = session_root root name; state = some s; error = "" }

  module _ {W : Type 0} (host : Host W State) where
    unfoldable pub list_entries : String → List DirEntry → W → Result (List IsolatedSession)
    unfolding session_from
    list_entries root [] w = ok []
    list_entries root (entry ∷ entries) w =
        let rest = list_entries root entries w in
        let session = session_from root entry.name (load host (session_root root entry.name) w) in
        elim (host.ctx_err w) [
          | some e ↦ err e
          | none ↦
              if entry.is_dir then bind_result rest (λ sessions. ok (session ∷ sessions)) else rest
        ]

    unfoldable pub list_isolated_sessions : String → W → Result (List IsolatedSession)
    unfolding list_entries wrap
    list_isolated_sessions runtime_root w = elim (host.ctx_err w) [
      | some e ↦ err e
      | none ↦ elim (host.read_dir (isolated_root runtime_root) w) [
        | ok entries ↦ list_entries (isolated_root runtime_root) entries w
        | err e ↦ elim e [
          | not_exist _ ↦ ok []
          | failure m ↦ err (wrap "read isolated runtime sessions: " (failure m))
        ]
      ]
    ]
