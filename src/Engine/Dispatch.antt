-- ===== src/Engine/Dispatch.antt =====
-- `Engine.Run`: where a run of each kind of plan can end.
use big_red_button.Base.{
  ◌≡◌, refl, ap, ◌∙◌, inl, inr, String, ◌==◌, Bool, true, false, ◌||◌, some, List, [],
  if◌then◌else◌, is_empty, Bool-cases,
}
use big_red_button.Planner.{
  Plan, Step, isolated_app_tunnel_kind, isolated_app_stop_kind, isolated_app_cleanup_kind,
}
use big_red_button.Engine.{
  Executor, RunResult, State, idle, connected, failed_recoverable, failed_dirty, run,
  run_disconnect,
}
use big_red_button.Engine.Transaction.{ConnectRun, completed, aborted}
use big_red_button.Engine.Connect.{run_connect_lem}
use big_red_button.Engine.Disconnect.{run_disconnect_lem}

abbrev pub is_connect_kind : String → Bool
is_connect_kind kind = kind == "connect" || kind == isolated_app_tunnel_kind

abbrev pub is_disconnect_kind : String → Bool
is_disconnect_kind kind =
    kind == "disconnect" || kind == isolated_app_stop_kind || kind == isolated_app_cleanup_kind

is_end_of_connect : State → Bool
is_end_of_connect connected = true
is_end_of_connect failed_recoverable = true
is_end_of_connect failed_dirty = true
is_end_of_connect _ = false

is_end_of_disconnect : State → Bool
is_end_of_disconnect idle = true
is_end_of_disconnect failed_dirty = true
is_end_of_disconnect _ = false

is_end_of_nothing : State → Bool
is_end_of_nothing failed_dirty = true
is_end_of_nothing _ = false

-- The states in which a run of a plan of a kind may end.
unfoldable pub is_end_of : String → State → Bool
unfolding is_end_of_connect is_end_of_disconnect is_end_of_nothing
is_end_of kind state =
    if is_connect_kind kind
    then is_end_of_connect state
    else if is_disconnect_kind kind
    then is_end_of_disconnect state
    else is_end_of_nothing state

connect_end :
    {S : Type 0} (ex : Executor S) (steps : List Step) (s t : S) (r : RunResult)
    → ConnectRun ex [] steps s r t
    → is_end_of_connect r.state ≡ true
unfolding is_end_of_connect
connect_end ex steps s t r (completed _ _ state _ _ _) = ap is_end_of_connect state
connect_end ex steps s t r (aborted _ _ _ _ _ _ errors _ _ _ _ _ _ _ state _ _ _) =
    ap is_end_of_connect state ∙ (elim (Bool-cases (is_empty errors)) [
      | inl clean ↦ rw clean refl
      | inr dirty ↦ rw dirty refl
    ])

disconnect_end :
    {S : Type 0} (ex : Executor S) (plan : Plan) (s : S)
    → is_end_of_disconnect (run_disconnect ex plan s).0.state ≡ true
unfolding is_end_of_disconnect
disconnect_end ex plan s =
    let out = run_disconnect_lem ex plan s in
    let state : (run_disconnect ex plan s).0.state
        ≡ (if is_empty out.errors then idle else failed_dirty) =
      out.state in
    ap is_end_of_disconnect state ∙ (elim (Bool-cases (is_empty out.errors)) [
      | inl clean ↦ rw clean refl
      | inr failing ↦ rw failing refl
    ])

-- A run ends Connected, FailedRecoverable or FailedDirty for a plan of a connect kind, Idle or
-- FailedDirty for one of a disconnect kind, and FailedDirty for a plan of any other kind.
pub run_settles :
    {S : Type 0} (ex : Executor S) (plan : Plan) (s : S)
    → is_end_of plan.kind (run (some ex) plan s).0.state ≡ true
unfolding run is_end_of is_end_of_nothing
run_settles ex plan s = elim (Bool-cases (is_connect_kind plan.kind)) [
  | inl connecting ↦ rw connecting (connect_end ex plan.steps s _ _ (run_connect_lem ex plan s))
  | inr other ↦ elim (Bool-cases (is_disconnect_kind plan.kind)) [
    | inl disconnecting ↦ rw (other, disconnecting) (disconnect_end ex plan s)
    | inr unknown ↦ rw (other, unknown) refl
  ]
]
