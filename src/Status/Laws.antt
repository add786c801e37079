-- ===== src/Status/Laws.antt =====
-- What `FromStore` of internal/status/status.go reports, and what it reports after `Save` and `Clear`.
use big_red_button.Base.{
  ◌≡◌, refl, sym, ap, ◌∙◌, inl, inr, String, ◌==◌, Bool, true, ◌&&◌, Option, none, some, List, [],
  ◌∷◌, ok, err, not_exist, if◌then◌else◌, is_empty, arith, Bool-cases,
}
use big_red_button.Planner.{isolated_app_tunnel_kind}
use big_red_button.Runtime.{State, ProcessState}
use big_red_button.Runtime.Store.{load, save, clear}
use big_red_button.Runtime.Store.Laws.{IsFileSystem, save-load, clear-load}
use big_red_button.Host.{Host}
use big_red_button.Status.{
  idle, connected, dirty, append_process_problem, missing_processes, snapshot_from_state,
  from_store,
}

module _ {W : Type 0} (host : Host W State) (w : W) where
  -- The process is there, with the command line that the state holds; or the state names none.
  unfoldable pub is_running : Option ProcessState → Bool
  is_running none = true
  is_running (some p) = host.pid_exists p.pid w && host.argv_matches p.pid p.argv w

  -- Every process that the state's mode counts is running.
  unfoldable pub is_alive : State → Bool
  unfolding is_running
  is_alive s =
      (if s.mode == isolated_app_tunnel_kind
        then is_running s.app_process && is_running s.monitor_process
        else true)
      && is_running s.wstunnel_process

  append_process_problem-is_empty :
      (missing : List String) (label : String) (p : Option ProcessState)
      → is_empty (append_process_problem host w missing label p)
        ≡ (is_empty missing && is_running p)
  unfolding append_process_problem is_running
  append_process_problem-is_empty [] label none = refl
  append_process_problem-is_empty (x ∷ missing) label none = refl
  append_process_problem-is_empty [] label (some p) = ground arith
  append_process_problem-is_empty (x ∷ missing) label (some p) = ground arith

  missing_processes-is_empty : (s : State) → is_empty (missing_processes host w s) ≡ is_alive s
  unfolding missing_processes is_alive
  missing_processes-is_empty s = elim (Bool-cases (s.mode == isolated_app_tunnel_kind)) [
    | inl isolated ↦
        let app = append_process_problem-is_empty [] "app" s.app_process in
        let monitor =
          append_process_problem-is_empty (append_process_problem host w [] "app" s.app_process)
            "monitor" s.monitor_process in
        rw isolated (
          append_process_problem-is_empty
            (append_process_problem host w (append_process_problem host w [] "app" s.app_process)
              "monitor" s.monitor_process)
            "wstunnel" s.wstunnel_process
          ∙ ap (λ b. b && is_running s.wstunnel_process)
              (monitor ∙ ap (λ b. b && is_running s.monitor_process) app))
    | inr system ↦ rw system (append_process_problem-is_empty [] "wstunnel" s.wstunnel_process)
  ]

  -- A snapshot of a state is Connected where its processes run, and else Dirty.
  pub snapshot_from_state_lem :
      (root : String) (s : State)
      → (snapshot_from_state host w root s).state ≡ (if is_alive s then connected else dirty)
  unfolding snapshot_from_state
  snapshot_from_state_lem root s = rw (sym (missing_processes-is_empty s)) (ground arith)

  pub snapshot_from_state-active :
      (root : String) (s : State) → (snapshot_from_state host w root s).active ≡ some s
  unfolding snapshot_from_state
  snapshot_from_state-active root s = elim (Bool-cases (is_empty (missing_processes host w s))) [
    | inl none_missing ↦ rw none_missing refl
    | inr some_missing ↦ rw some_missing refl
  ]

  pub snapshot_from_state-root :
      (root : String) (s : State) → (snapshot_from_state host w root s).runtime_root ≡ root
  unfolding snapshot_from_state
  snapshot_from_state-root root s = elim (Bool-cases (is_empty (missing_processes host w s))) [
    | inl none_missing ↦ rw none_missing refl
    | inr some_missing ↦ rw some_missing refl
  ]

  from_store-loaded :
      (root : String) (s : State)
      → load host root w ≡ ok s
      → from_store host w root ≡ snapshot_from_state host w root s
  unfolding from_store
  from_store-loaded root s loaded = rw (loaded, from_store) refl

  from_store-absent :
      (root m : String)
      → load host root w ≡ err (not_exist m)
      → from_store host w root
        ≡ record { state = idle; runtime_root = root; active = none; error = "" }
  unfolding from_store
  from_store-absent root m absent = rw (absent, from_store) refl

module _ {W : Type 0} (host : Host W State) (files : IsFileSystem host) where
  -- After a `Save` that succeeded, `FromStore` reports the saved state: Connected where every process
  -- that the state counts runs with its command line, and else Dirty.
  pub save-from_store :
      (root : String) (s : State) (w w' : W)
      → host.decode (host.encode s) ≡ ok s
      → save host root s w ≡ (ok tt, w')
      → host.ctx_err w' ≡ none
      → ((from_store host w' root).active ≡ some s)
        × ((from_store host w' root).state ≡ (if is_alive host w' s then connected else dirty))
  save-from_store root s w w' decoded saved live =
      let found =
        from_store-loaded host w' root s (save-load host files root s w w' decoded saved live) in
      (
        ap (λ x. x.active) found ∙ snapshot_from_state-active host w' root s,
        ap (λ x. x.state) found ∙ snapshot_from_state_lem host w' root s,
      )

  -- After a `Clear` that succeeded, `FromStore` reports Idle and no state.
  pub clear-from_store :
      (root : String) (w w' : W)
      → clear host root w ≡ (ok tt, w')
      → host.ctx_err w' ≡ none
      → from_store host w' root
        ≡ record { state = idle; runtime_root = root; active = none; error = "" }
  clear-from_store root w w' cleared live =
      let (m, absent) = clear-load host files root w w' cleared live in
      from_store-absent host w' root m absent
