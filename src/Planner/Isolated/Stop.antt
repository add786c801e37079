-- ===== src/Planner/Isolated/Stop.antt =====
-- `IsolatedAppStop` and `IsolatedAppCleanup` of internal/planner/isolated.go.
use big_red_button.Base.{String, ◌<>◌, true, List, [], ◌∷◌, Result, ok, bind_result}
use big_red_button.Base.Text.{trim_space}
use big_red_button.Planner.{
  Step, Plan, blank_step, blank_plan, isolated_app_stop_kind, isolated_app_cleanup_kind,
  default_runtime_root, default_isolated_runtime_subdir,
}
use big_red_button.Planner.Normalize.{or_default}
use big_red_button.Planner.Isolated.{IsolatedAppStopOptions}
use big_red_button.Planner.Isolated.Identity.{normalize_uuid, short_session_id}
use big_red_button.Planner.Isolated.Normalize.{Names, default_names}

-- A session, with the directory that all sessions share.
pub record Session : Type 0 where
  pub session_id : String
  pub runtime_root : String

-- The head that both functions have.
unfoldable pub requested_session : IsolatedAppStopOptions → Result Session
requested_session options =
    bind_result (normalize_uuid options.session_id "session ID") λ session_id. ok (record {
      session_id = session_id;
      runtime_root = or_default default_runtime_root (trim_space options.runtime_root);
    })

unfoldable pub session_runtime_root : Session → String
session_runtime_root session =
    session.runtime_root
    <> ("/" <> (default_isolated_runtime_subdir <> ("/" <> session.session_id)))

abbrev pub session_details : Session → List String → List String
session_details session rest = ("session_id=" <> session.session_id) ∷ rest

abbrev pub root_details : Session → List String
root_details session =
    ("runtime_root=" <> session.runtime_root)
    ∷ ("session_runtime_root=" <> session_runtime_root session)
    ∷ ("session_id=" <> session.session_id)
    ∷ []

unfoldable pub stop_steps : Session → List Step
stop_steps session =
    record blank_step {
      id = "read-isolated-runtime-state";
      action = "Read isolated session runtime state";
      details = root_details session;
    }
    ∷ record blank_step {
      id = "stop-isolated-monitor";
      action = "Stop isolated cleanup monitor process";
      details = session_details session [];
      requires_privilege = true;
      depends_on_runtime = true;
    }
    ∷ record blank_step {
      id = "stop-isolated-app";
      action = "Stop isolated app process tree";
      details = session_details session [];
      requires_privilege = true;
      depends_on_runtime = true;
    }
    ∷ record blank_step {
      id = "remove-namespace-kill-switch";
      action = "Remove namespace-only egress policy";
      details = session_details session [];
      requires_privilege = true;
      depends_on_runtime = true;
    }
    ∷ record blank_step {
      id = "remove-namespace-client-routes";
      action = "Remove isolated namespace client routes";
      details = session_details session [];
      requires_privilege = true;
      depends_on_runtime = true;
    }
    ∷ record blank_step {
      id = "remove-wireguard-interface-in-netns";
      action = "Remove WireGuard interface from isolated namespace";
      details = session_details session [];
      requires_privilege = true;
      depends_on_runtime = true;
    }
    ∷ record blank_step {
      id = "stop-wstunnel-control";
      action = "Stop WSTunnel control process";
      details = session_details session [];
      depends_on_runtime = true;
    }
    ∷ record blank_step {
      id = "remove-namespace-dns";
      action = "Remove namespace-scoped DNS configuration";
      details = session_details session [];
      requires_privilege = true;
      depends_on_runtime = true;
    }
    ∷ record blank_step {
      id = "delete-netns";
      action = "Delete isolated network namespace";
      details = session_details session [];
      requires_privilege = true;
      depends_on_runtime = true;
    }
    ∷ record blank_step {
      id = "clear-isolated-runtime-state";
      action = "Clear isolated session runtime state";
      details = root_details session;
      depends_on_runtime = true;
    }
    ∷ []

-- The plan that `IsolatedAppStop` returns for a session.
unfoldable pub stop_plan : Session → Plan
stop_plan session = record blank_plan {
  kind = isolated_app_stop_kind;
  runtime_root = session.runtime_root;
  session_id = session.session_id;
  warnings =
      "isolated app stop only removes launcher-owned session state for the requested UUID" ∷ [];
  steps = stop_steps session;
}

unfoldable pub isolated_app_stop : IsolatedAppStopOptions → Result Plan
isolated_app_stop options =
    bind_result (requested_session options) λ session. ok (stop_plan session)

unfoldable pub cleanup_steps : Session → Names → List Step
cleanup_steps session names =
    record blank_step {
      id = "cleanup-isolated-processes";
      action = "Best-effort stop remaining isolated namespace processes";
      details = session_details session (("namespace=" <> names.namespace) ∷ []);
      requires_privilege = true;
    }
    ∷ record blank_step {
      id = "cleanup-namespace-kill-switch";
      action = "Best-effort flush namespace firewall rules";
      details = session_details session (("namespace=" <> names.namespace) ∷ []);
      requires_privilege = true;
    }
    ∷ record blank_step {
      id = "cleanup-wireguard-interface-in-netns";
      action = "Best-effort remove isolated WireGuard interface";
      details =
          session_details session
            (("namespace=" <> names.namespace) ∷ ("interface=" <> names.wireguard_interface) ∷ []);
      requires_privilege = true;
    }
    ∷ record blank_step {
      id = "cleanup-netns";
      action = "Best-effort delete isolated namespace and host veth";
      details =
          session_details session
            (("namespace=" <> names.namespace) ∷ ("host_veth=" <> names.host_veth) ∷ []);
      requires_privilege = true;
    }
    ∷ record blank_step {
      id = "cleanup-namespace-dns";
      action = "Best-effort remove namespace DNS configuration";
      details = session_details session (("namespace=" <> names.namespace) ∷ []);
      requires_privilege = true;
    }
    ∷ record blank_step {
      id = "cleanup-isolated-runtime-root";
      action = "Best-effort remove isolated runtime root";
      details = root_details session;
    }
    ∷ []

-- The plan that `IsolatedAppCleanup` returns for a session.
unfoldable pub cleanup_plan : Session → Plan
cleanup_plan session =
    let names = default_names (short_session_id session.session_id) in
    record blank_plan {
      kind = isolated_app_cleanup_kind;
      runtime_root = session.runtime_root;
      session_id = session.session_id;
      namespace = names.namespace;
      host_veth = names.host_veth;
      wireguard_interface = names.wireguard_interface;
      warnings =
          "isolated cleanup is best-effort and uses deterministic launcher-owned names for the requested UUID"
          ∷ "use normal isolated stop first when runtime state is available" ∷ [];
      steps = cleanup_steps session names;
    }

unfoldable pub isolated_app_cleanup : IsolatedAppStopOptions → Result Plan
isolated_app_cleanup options =
    bind_result (requested_session options) λ session. ok (cleanup_plan session)
