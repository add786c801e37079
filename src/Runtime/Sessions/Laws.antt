-- ===== src/Runtime/Sessions/Laws.antt =====
-- What is listed of the sessions.
use big_red_button.Base.{
  ◌≡◌, refl, sym, ◌∙◌, String, ◌==◌, true, false, none, some, List, [], ◌∷◌, map, Result, ok, err,
  All, ◌⊎◌, inl, inr, Bool-cases, Option-cases, eq_iff, bind_result, bind_result-eq-ok, subst,
  if◌then◌else◌,
}
use big_red_button.Planner.{isolated_app_tunnel_kind}
use big_red_button.Runtime.{State}
use big_red_button.Runtime.Store.{load}
use big_red_button.Runtime.Sessions.{
  IsolatedSession, session_root, session_from, list_entries, list_isolated_sessions, isolated_root,
}
use big_red_button.Host.{Host, DirEntry}

-- A session with a state: it loads from the session's directory, and it is of that session.
pub record HasOwnState {W : Type 0} (host : Host W State) (w : W) (session : IsolatedSession)
    : Type 0 where
  pub held : State
  pub is_held : session.state ≡ some held
  pub loads : load host session.root w ≡ ok held
  pub isolated : held.mode ≡ isolated_app_tunnel_kind
  pub own : held.session_id ≡ session.session_id

abbrev pub IsSound : {W : Type 0} → Host W State → W → IsolatedSession → Type 0
IsSound host w session = (session.state ≡ none) ⊎ HasOwnState host w session

-- The names of the directories among the entries, in order.
unfoldable pub directories : List DirEntry → List String
directories [] = []
directories (entry ∷ entries) =
    let rest = directories entries in if entry.is_dir then entry.name ∷ rest else rest

module _ (quote : String → String) {W : Type 0} (host : Host W State) (w : W) where
  session_from-IsSound :
      (root name : String) (r : Result State)
      → load host (session_root root name) w ≡ r
      → IsSound host w (session_from quote root name r)
  unfolding session_from
  session_from-IsSound root name (err e) loaded = inl refl
  session_from-IsSound root name (ok s) loaded =
      elim (Bool-cases (s.mode == isolated_app_tunnel_kind)) [
        | inr other ↦ inl (rw other refl)
        | inl isolated ↦ elim (Bool-cases (s.session_id == name)) [
          | inr other ↦ inl (rw isolated (rw other refl))
          | inl own ↦ inr (
              rw isolated (
                rw own (record {
                  held = s;
                  is_held = refl;
                  loads = loaded;
                  isolated = (eq_iff s.mode isolated_app_tunnel_kind).0 isolated;
                  own = (eq_iff s.session_id name).0 own;
                })))
        ]
      ]

  session_from-id :
      (root name : String) (r : Result State) → (session_from quote root name r).session_id ≡ name
  unfolding session_from
  session_from-id root name (err e) = refl
  session_from-id root name (ok s) = elim (Bool-cases (s.mode == isolated_app_tunnel_kind)) [
    | inr other ↦ rw other refl
    | inl isolated ↦ elim (Bool-cases (s.session_id == name)) [
      | inr other ↦ rw isolated (rw other refl)
      | inl own ↦ rw isolated (rw own refl)
    ]
  ]

  list_entries-file :
      (root : String) (entry : DirEntry) (entries : List DirEntry)
      → host.ctx_err w ≡ none
      → entry.is_dir ≡ false
      → list_entries quote host root (entry ∷ entries) w ≡ list_entries quote host root entries w
  unfolding list_entries
  list_entries-file root entry entries live file = rw (live, list_entries) (rw file refl)

  list_entries-directory :
      (root : String) (entry : DirEntry) (entries : List DirEntry)
      → host.ctx_err w ≡ none
      → entry.is_dir ≡ true
      → list_entries quote host root (entry ∷ entries) w
        ≡ bind_result (list_entries quote host root entries w) λ sessions. ok (
            session_from quote root entry.name (load host (session_root root entry.name) w)
            ∷ sessions)
  unfolding list_entries
  list_entries-directory root entry entries live directory =
      rw (live, list_entries) (rw directory refl)

  -- A list that is returned is sound, and has one session for each directory, in order.
  pub list_entries-IsSound :
      (root : String) (entries : List DirEntry) (sessions : List IsolatedSession)
      → host.ctx_err w ≡ none
      → list_entries quote host root entries w ≡ ok sessions
      → All (IsSound host w) sessions
        × (map (λ session. session.session_id) sessions ≡ directories entries)
  unfolding list_entries directories
  list_entries-IsSound root [] sessions live h =
      let none_listed : [] ≡ sessions = cc in
      subst (λ l. All (IsSound host w) l × (map (λ session. session.session_id) l ≡ directories []))
        none_listed (tt, refl)
  list_entries-IsSound root (entry ∷ entries) sessions live h = elim (Bool-cases entry.is_dir) [
    | inr file ↦
        let later =
          list_entries-IsSound root entries sessions live
            (sym (list_entries-file root entry entries live file) ∙ h) in
        (later.0, later.1 ∙ rw file refl)
    | inl directory ↦
        let listed = load host (session_root root entry.name) w in
        let (rest, found, made) =
          bind_result-eq-ok (list_entries quote host root entries w) _
            (sym (list_entries-directory root entry entries live directory) ∙ h) in
        let later = list_entries-IsSound root entries rest live found in
        let same : session_from quote root entry.name listed ∷ rest ≡ sessions = cc in
        subst
          (λ l.
            All (IsSound host w) l
            × (map (λ session. session.session_id) l ≡ directories (entry ∷ entries)))
          same
          (
            (session_from-IsSound root entry.name listed refl, later.0),
            rw directory (cc (session_from-id root entry.name listed, later.1)),
          )
  ]

  -- Where the directory of the sessions can be read, a list that is returned is sound, and has one
  -- session for each directory in it, in order.
  pub list_isolated_sessions-IsSound :
      (runtime_root : String) (entries : List DirEntry) (sessions : List IsolatedSession)
      → host.read_dir (isolated_root runtime_root) w ≡ ok entries
      → list_isolated_sessions quote host runtime_root w ≡ ok sessions
      → All (IsSound host w) sessions
        × (map (λ session. session.session_id) sessions ≡ directories entries)
  unfolding list_isolated_sessions
  list_isolated_sessions-IsSound runtime_root entries sessions there h =
      elim (Option-cases (host.ctx_err w)) [
        | inr (e, late) ↦ absurd (cc)
        | inl live ↦ list_entries-IsSound (isolated_root runtime_root) entries sessions live (cc)
      ]
