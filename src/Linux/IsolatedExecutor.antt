-- ===== src/Linux/IsolatedExecutor.antt =====
-- internal/platform/linux/isolated_executor.go: the executor of a tunnel for one application. This
-- file holds its state and how it runs commands.
pub mod Render
pub mod Launch
pub mod Setup
pub mod Processes
pub mod Teardown
pub mod Dispatch
use big_red_button.Base.{
  String, ◌<>◌, ◌==◌, Bool, false, ◌&&◌, not, Option, none, some, List, [], ◌∷◌, ◌++◌, Result, ok,
  err, failure, message, if◌then◌else◌, M, ◌>>=◌, ◌>>◌, lift,
}
use big_red_button.Base.Int.{pos, equals}
use big_red_button.Base.Text.{trim_space}
use big_red_button.Base.FilePath.{join_path}
use big_red_button.Planner.{
  Plan, isolated_app_tunnel_kind, isolated_app_stop_kind, isolated_app_cleanup_kind,
  default_runtime_root, default_isolated_runtime_subdir,
}
use big_red_button.Profile.{Config}
use big_red_button.Runtime.{State, no_state}
use big_red_button.Runtime.Store.{store_path, load}
use big_red_button.Host.{Host, ProcessInfo, call}
use big_red_button.Linux.{Command, Action, Operation, OperationPhase, show_command}
use big_red_button.Linux.IsolatedCommands.{net_ns_exec_command}

abbrev pub default_net_ns_config_root : String
default_net_ns_config_root = "/etc/netns"

-- `IsolatedExecutor`; the runners, the stopper and the look-up of paths are the host's. The store's
-- root is the session's runtime root.
pub record IsolatedExecutor : Type 0 where
  pub plan : Plan
  pub profile : Config
  pub session_runtime_root : String
  pub net_ns_config_root : String
  pub runtime_state : State
  pub runtime_state_missing : Bool
  pub wstunnel_process : Option ProcessInfo
  pub app_process : Option ProcessInfo
  pub operations : List Operation

unfoldable pub first_root : String → Plan → String
first_root runtime_root plan =
    if not (trim_space runtime_root == "")
    then trim_space runtime_root
    else if not (plan.runtime_root == "")
    then plan.runtime_root
    else default_runtime_root

-- `NewIsolatedExecutor`, of the plan, the profile, the runtime root and the root of /etc/netns.
unfoldable pub new_isolated_executor : Plan → Config → String → String → Result IsolatedExecutor
new_isolated_executor plan profile runtime_root net_ns_config_root =
    if not (plan.kind == isolated_app_tunnel_kind)
      && not (plan.kind == isolated_app_stop_kind)
      && not (plan.kind == isolated_app_cleanup_kind)
    then err (failure ("unsupported isolated executor plan kind: " <> plan.kind))
    else if trim_space plan.session_id == ""
    then err (failure "isolated executor session ID is required")
    else ok (record {
      plan = plan;
      profile = profile;
      session_runtime_root = join_path (
          first_root runtime_root plan
          ∷ default_isolated_runtime_subdir
          ∷ trim_space plan.session_id
          ∷ []);
      net_ns_config_root =
          if trim_space net_ns_config_root == ""
          then default_net_ns_config_root
          else trim_space net_ns_config_root;
      runtime_state = no_state;
      runtime_state_missing = false;
      wstunnel_process = none;
      app_process = none;
      operations = [];
    })

abbrev pub add_operation : Operation → IsolatedExecutor → IsolatedExecutor
add_operation op e = record e { operations = e.operations ++ (op ∷ []) }

-- `storePath`
unfoldable pub isolated_store_path : IsolatedExecutor → String
isolated_store_path e = elim (store_path e.session_runtime_root) [
  | ok path ↦ path
  | err _ ↦ e.session_runtime_root
]

module _ {W : Type 0} where
  -- `record`
  unfoldable pub record_command :
      OperationPhase → String → Command → M (IsolatedExecutor × W) (Unit {0})
  record_command phase step_id command (e, w) = (
    ok tt,
    (
      add_operation (record { phase = phase; step_id = step_id; action = Action.command command })
          e,
      w,
    ),
  )

  -- `recordRuntime`
  unfoldable pub record_runtime :
      OperationPhase → String → String → M (IsolatedExecutor × W) (Unit {0})
  record_runtime phase step_id text (e, w) = (
    ok tt,
    (
      add_operation (record { phase = phase; step_id = step_id; action = Action.runtime text }) e,
      w,
    ),
  )

  -- A call of the machine.
  abbrev pub on_host : {A : Type 0} → M W A → M (IsolatedExecutor × W) A
  on_host m (e, w) = let (r, w') = m w in (r, (e, w'))

module _ {W : Type 0} (host : Host W State) where
  unfoldable pub run : OperationPhase → String → Command → M (IsolatedExecutor × W) (Unit {0})
  run phase step_id command = do
    record_command phase step_id command
    output ← on_host (call host command)
    lift (ok tt)

  unfoldable pub run_built :
      OperationPhase → String → Result Command → M (IsolatedExecutor × W) (Unit {0})
  run_built phase step_id built = do command ← lift built; run phase step_id command

  unfoldable pub run_namespaced :
      OperationPhase → String → String → Command → M (IsolatedExecutor × W) (Unit {0})
  run_namespaced phase step_id namespace command =
      run_built phase step_id (net_ns_exec_command namespace command)

  unfoldable pub run_namespaced_built :
      OperationPhase → String → String → Result Command → M (IsolatedExecutor × W) (Unit {0})
  run_namespaced_built phase step_id namespace built = do
    command ← lift built
    run_namespaced phase step_id namespace command

  -- A loop that builds a command from each text and runs it in the namespace, up to an error.
  unfoldable pub run_each_namespaced :
      OperationPhase
      → String
      → String
      → (String → Result Command)
      → List String
      → M (IsolatedExecutor × W) (Unit {0})
  run_each_namespaced phase step_id namespace build [] = lift (ok tt)
  run_each_namespaced phase step_id namespace build (text ∷ texts) = do
    run_namespaced_built phase step_id namespace (build text)
    run_each_namespaced phase step_id namespace build texts

  -- `runBestEffort`: an error of the command is noted and dropped.
  unfoldable pub run_best_effort :
      OperationPhase → String → Command → M (IsolatedExecutor × W) (Unit {0})
  run_best_effort phase step_id command = do
    record_command phase step_id command
    (output, problem) ← on_host (λ w. let (answer, w') = host.run command w in (ok answer, w'))
    elim problem [
      | none ↦ lift (ok tt)
      | some x ↦ record_runtime phase step_id (
          "ignore cleanup error from "
          <> (show_command command
              <> (": "
                  <> (if trim_space output == ""
                      then trim_space (message x)
                      else trim_space output))))
    ]

  unfoldable pub run_best_effort_built :
      OperationPhase → String → Result Command → M (IsolatedExecutor × W) (Unit {0})
  run_best_effort_built phase step_id built = do
    command ← lift built
    run_best_effort phase step_id command

  unfoldable pub run_namespaced_best_effort :
      OperationPhase → String → String → Command → M (IsolatedExecutor × W) (Unit {0})
  run_namespaced_best_effort phase step_id namespace command =
      run_best_effort_built phase step_id (net_ns_exec_command namespace command)

  unfoldable pub run_namespaced_best_effort_built :
      OperationPhase → String → String → Result Command → M (IsolatedExecutor × W) (Unit {0})
  run_namespaced_best_effort_built phase step_id namespace built = do
    command ← lift built
    run_namespaced_best_effort phase step_id namespace command

  -- The state that was read, or the store's; a state that was read has a version.
  unfoldable pub state_for_stop : M (IsolatedExecutor × W) State
  state_for_stop (e, w) =
      if not (equals e.runtime_state.version 0)
      then (ok e.runtime_state, (e, w))
      else elim (load host e.session_runtime_root w) [
        | err x ↦ (err x, (e, w))
        | ok state ↦ (ok state, (record e { runtime_state = state }, w))
      ]
