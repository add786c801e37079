-- ===== src/Linux/IsolatedExecutor/Dispatch/Cleanup.antt =====
-- A run of a cleanup plan of internal/planner/isolated.go by the executor of
-- internal/platform/linux/isolated_executor.go.
use big_red_button.Base.{
  and_false, ◌≡◌, refl, ap, sym, ◌∙◌, subst, ℕ, String, ◌<>◌, ◌==◌, true, false, ◌&&◌, Option, some,
  List, [], ◌∷◌, ok, All, done, arith, bind_result-eq-ok, if◌then◌else◌, ◌≤◌,
}
use big_red_button.Base.Text.{trim_space, is_blank}
use big_red_button.Planner.{Step, Plan}
use big_red_button.Planner.Isolated.{IsolatedAppStopOptions}
use big_red_button.Planner.Isolated.Identity.{is_uuid, short_session_id, normalize_uuid}
use big_red_button.Planner.Isolated.Identity.Uuid.{normalize_uuid-is_uuid}
use big_red_button.Planner.Isolated.Network
use big_red_button.Planner.Isolated.Normalize.{default_names}
use big_red_button.Planner.Isolated.Normalize.DefaultNames.{
  IsPrefix, name-trim_space, name-ne-nil, name-named, len-name,
}
use big_red_button.Planner.Isolated.Cleanup.{
  wireguard-IsPrefix, namespace-IsPrefix, host_veth-IsPrefix,
}
use big_red_button.Planner.Isolated.Stop.{
  Session, requested_session, cleanup_steps, cleanup_plan, isolated_app_cleanup,
}
use big_red_button.Engine.{run, idle}
use big_red_button.Engine.Transaction.{ids}
use big_red_button.Engine.Success.{run_disconnect-Forward}
use big_red_button.Runtime.{State}
use big_red_button.Host.{Host}
use big_red_button.Supervisor.Wstunnel.{Url}
use big_red_button.Linux.{Command, operation_apply}
use big_red_button.Linux.Commands
use big_red_button.Linux.Commands.{
  ip_command, check_name, validate_interface_name, wireguard_delete_interface_command,
}
use big_red_button.Linux.Details.{detail_value, lookup}
use big_red_button.Linux.Details.Laws.{detail_value-second, detail_value-third}
use big_red_button.Linux.IsolatedCommands.{
  validate_namespace_name, net_ns_pids_command, net_ns_delete_command, net_ns_exec_command,
  link_delete_command, nft_flush_ruleset_command,
}
use big_red_button.Linux.IsolatedExecutor.{
  IsolatedExecutor, run_best_effort_built, run_namespaced_best_effort,
  run_namespaced_best_effort_built,
}
use big_red_button.Linux.IsolatedExecutor.Teardown.{cleanup_net_ns}
use big_red_button.Linux.IsolatedExecutor.Processes.{cleanup_isolated_processes}
use big_red_button.Linux.IsolatedExecutor.Dispatch.{
  TeardownStep, cleanup_processes, cleanup_rules, cleanup_wireguard, cleanup_netns, cleanup_dns,
  cleanup_root, handler, teardown_case, teardown, handle, apply, isolated_executor,
}
use big_red_button.Linux.IsolatedExecutor.Dispatch.BestEffort.{
  Always, Always-then, Always-if, All-Forward, run_best_effort_built-Always,
  run_namespaced_best_effort-Always, cleanup_isolated_processes-Always, IsRemovable,
  cleanup_namespace_dns-Always, remove_runtime_root-Always,
}

-- A derived name passes the checks of the commands.
pub check_name-name :
    (limit : ℕ) (prefix id : String)
    → IsPrefix prefix
    → is_uuid id ≡ true
    → 15 ≤ limit
    → check_name limit (trim_space (prefix <> short_session_id id))
      ≡ ok (prefix <> short_session_id id)
unfolding check_name Commands.is_name_char Network.is_name_char
check_name-name limit prefix id fine valid enough = rw (name-trim_space prefix id fine valid) (
    rw (name-ne-nil prefix id fine valid)
      (rw (len-name prefix id fine valid limit enough) (rw (name-named prefix id fine valid) refl)))

requested_session-is_uuid :
    (options : IsolatedAppStopOptions) (session : Session)
    → requested_session options ≡ ok session
    → is_uuid session.session_id ≡ true
unfolding requested_session
requested_session-is_uuid options session h =
    let (id, uuid, made) = bind_result-eq-ok (normalize_uuid options.session_id "session ID") _ h in
    let same : id ≡ session.session_id = cc in
    subst (λ x. is_uuid x ≡ true) same
      (normalize_uuid-is_uuid options.session_id "session ID" id uuid)

-- A command in a namespace.
abbrev inside : String → Command → Command
inside namespace command = ip_command ("netns" ∷ "exec" ∷ namespace ∷ command.name ∷ command.args)

module _ {W : Type 0} (host : Host W State) (parse_url : String → Option Url) where
  -- A step without need of the runtime state is handed to its case.
  apply-Always :
      (step : Step) (c : TeardownStep)
      → handler step.id ≡ teardown_case c
      → step.depends_on_runtime ≡ false
      → Always (teardown host parse_url c step)
      → Always (apply host parse_url step)
  unfolding apply handle
  apply-Always step c known free always (e, w) =
      let guard : (e.runtime_state_missing && step.depends_on_runtime) ≡ false =
        ap (λ b. e.runtime_state_missing && b) free ∙ and_false e.runtime_state_missing in
      rw guard
        (subst (λ h. (handle host parse_url h step (e, w)).0 ≡ ok tt) (sym known) (always (e, w)))

  module _ (id : String) (valid : is_uuid id ≡ true) where
    abbrev short : String
    short = short_session_id id

    namespace_command :
        (command : Command)
        → is_blank command.name ≡ false
        → net_ns_exec_command (trim_space ("brb-" <> short)) command
          ≡ ok (inside ("brb-" <> short) command)
    unfolding net_ns_exec_command validate_namespace_name
    namespace_command command named =
        rw (name-trim_space "brb-" id namespace-IsPrefix valid)
          (rw (check_name-name 64 "brb-" id namespace-IsPrefix valid (omega arith)) (rw named refl))

    processes-Always :
        (step : Step)
        → detail_value step "namespace" ≡ trim_space ("brb-" <> short)
        → Always (cleanup_isolated_processes host step)
    unfolding net_ns_pids_command validate_namespace_name
    processes-Always step named =
        cleanup_isolated_processes-Always host step
          (ip_command ("netns" ∷ "pids" ∷ ("brb-" <> short) ∷ []))
          (rw named (
            rw (name-trim_space "brb-" id namespace-IsPrefix valid)
              (rw (check_name-name 64 "brb-" id namespace-IsPrefix valid (omega arith)) refl)))

    rules-Always :
        (step : Step)
        → detail_value step "namespace" ≡ trim_space ("brb-" <> short)
        → Always (
            run_namespaced_best_effort host operation_apply step.id
              (detail_value step "namespace")
              nft_flush_ruleset_command)
    unfolding is_blank
    rules-Always step named =
        run_namespaced_best_effort-Always host step.id (detail_value step "namespace")
          nft_flush_ruleset_command (inside ("brb-" <> short) nft_flush_ruleset_command)
          (rw named (namespace_command nft_flush_ruleset_command refl))

    abbrev deleted : String → Command
    deleted name = ip_command ("link" ∷ "delete" ∷ "dev" ∷ name ∷ [])

    wireguard-Always :
        (step : Step)
        → detail_value step "namespace" ≡ trim_space ("brb-" <> short)
        → detail_value step "interface" ≡ trim_space ("brbwg" <> short)
        → Always (
            run_namespaced_best_effort_built host operation_apply step.id
              (detail_value step "namespace")
              (wireguard_delete_interface_command (detail_value step "interface")))
    unfolding is_blank run_namespaced_best_effort_built wireguard_delete_interface_command
        validate_interface_name
    wireguard-Always step named on (e, w) =
        let built : wireguard_delete_interface_command (detail_value step "interface")
            ≡ ok (deleted ("brbwg" <> short)) =
          rw on (
            rw (name-trim_space "brbwg" id wireguard-IsPrefix valid)
              (rw (check_name-name 15 "brbwg" id wireguard-IsPrefix valid (omega arith)) refl)) in
        rw built (
          run_namespaced_best_effort-Always host step.id (detail_value step "namespace")
            (deleted ("brbwg" <> short)) (inside ("brb-" <> short) (deleted ("brbwg" <> short)))
            (rw named (namespace_command (deleted ("brbwg" <> short)) refl)) (e, w))

    netns-Always :
        (step : Step)
        → detail_value step "namespace" ≡ trim_space ("brb-" <> short)
        → detail_value step "host_veth" ≡ trim_space ("brbh" <> short)
        → Always (cleanup_net_ns host step)
    unfolding cleanup_net_ns link_delete_command net_ns_delete_command validate_interface_name
        validate_namespace_name
    netns-Always step named on =
        let first = link_delete_command (detail_value step "host_veth") in
        let second = net_ns_delete_command (detail_value step "namespace") in
        let veth = run_best_effort_built-Always host step.id first (deleted ("brbh" <> short)) (
          rw on (
            rw (name-trim_space "brbh" id host_veth-IsPrefix valid)
              (rw (check_name-name 15 "brbh" id host_veth-IsPrefix valid (omega arith)) refl))) in
        let gone =
          run_best_effort_built-Always host step.id second
            (ip_command ("netns" ∷ "delete" ∷ ("brb-" <> short) ∷ []))
            (rw named (
              rw (name-trim_space "brb-" id namespace-IsPrefix valid)
                (rw (check_name-name 64 "brb-" id namespace-IsPrefix valid (omega arith)) refl))) in
        Always-then
          (if detail_value step "host_veth" == ""
            then done
            else run_best_effort_built host operation_apply step.id first)
          (run_best_effort_built host operation_apply step.id second)
          (Always-if (detail_value step "host_veth" == "")
            (run_best_effort_built host operation_apply step.id first) veth)
          gone

  -- Every step of a cleanup plan passes.
  cleanup_steps-Always :
      IsRemovable host
      → (session : Session) → is_uuid session.session_id ≡ true
      → All
          (λ step. (step.skipped_until_apply ≡ false) × Always (apply host parse_url step))
          (cleanup_steps session (default_names (short_session_id session.session_id)))
  unfolding cleanup_steps default_names handler lookup teardown
  cleanup_steps-Always fine session valid =
      let id = session.session_id in
      let short = short_session_id id in
      let case = apply-Always in
      let namespace : (step : Step) (rest : List String)
          → step.details ≡ ("session_id=" <> id) ∷ ("namespace=" <> ("brb-" <> short)) ∷ rest
          → detail_value step "namespace" ≡ trim_space ("brb-" <> short) =
        λ step rest same.
          detail_value-second step "namespace" "session_id=" id ("brb-" <> short) rest refl same in
      (
        (
          refl,
          apply-Always _ cleanup_processes refl refl
              (processes-Always id valid _ (namespace _ [] refl)),
        ),
        (
          (
            refl,
            apply-Always _ cleanup_rules refl refl (rules-Always id valid _ (namespace _ [] refl)),
          ),
          (
            (
              refl,
              apply-Always _ cleanup_wireguard refl refl (
                  wireguard-Always id valid _ (namespace _ _ refl) (
                    detail_value-third _ "interface" "session_id=" "namespace=" id ("brb-" <> short)
                      ("brbwg" <> short) [] refl refl refl)),
            ),
            (
              (
                refl,
                apply-Always _ cleanup_netns refl refl (
                    netns-Always id valid _ (namespace _ _ refl) (
                      detail_value-third _ "host_veth" "session_id=" "namespace=" id
                        ("brb-" <> short) ("brbh" <> short) [] refl refl refl)),
              ),
              (
                (
                  refl,
                  apply-Always _ cleanup_dns refl refl (cleanup_namespace_dns-Always host fine _),
                ),
                (
                  (
                    refl,
                    apply-Always _ cleanup_root refl refl (remove_runtime_root-Always host fine _),
                  ),
                  tt,
                ),
              ),
            ),
          ),
        ),
      )

  -- Where contexts are live and files can be removed, a run of a planned cleanup ends Idle with every
  -- step applied, whatever state the executor is in, whatever its commands answer, and whether or
  -- not the processes can be stopped.
  pub cleanup_settles :
      IsRemovable host
      → (options : IsolatedAppStopOptions) (plan : Plan) (s : IsolatedExecutor × W)
      → isolated_app_cleanup options ≡ ok plan
      → let out = run (some (isolated_executor host parse_url)) plan s in
        (out.0.state ≡ idle) × (out.0.applied_step_ids ≡ ids plan.steps)
  unfolding isolated_app_cleanup requested_session cleanup_plan run
  cleanup_settles fine options plan s h =
      let (session, asked, made) = bind_result-eq-ok (requested_session options) _ h in
      let same : cleanup_plan session ≡ plan = cc in
      let ex = isolated_executor host parse_url in
      let steps =
        cleanup_steps-Always fine session (requested_session-is_uuid options session asked) in
      let (t, forward) = All-Forward ex (cleanup_plan session).steps steps s in
      let (state, applied, _) = run_disconnect-Forward ex (cleanup_plan session) s t _ forward in
      subst
        (λ p.
          let out = run (some ex) p s in
          (out.0.state ≡ idle) × (out.0.applied_step_ids ≡ ids p.steps))
        same (state, applied)
