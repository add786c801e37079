-- ===== src/Runtime/Store/Laws.antt =====
-- What the state file gives back: `Save`, `Load` and `Clear` of internal/runtime/state.go together.
use big_red_button.Base.{
  ◌≡◌, refl, ◌∙◌, ap, String, Option, none, some, Result, ok, err, Err, failure, not_exist, M,
  ◌>>=◌, ◌>>◌, lift, to_result, wrap, inl, inr, ◌⊎◌,
}
use big_red_button.Host.{Host}
use big_red_button.Runtime.{State, validate, checked}
use big_red_button.Runtime.Store.{
  store_path, store_dir, save, write_state, load, clear, read_state, attempt, check_ctx, removed,
}

-- What the store relies on: a file that was written holds the text, a change of its mode leaves the
-- texts as they are, and a file that was removed or was not there is reported as absent.
pub record IsFileSystem {W : Type 0} (host : Host W State) : Type 0 where
  pub read_written :
      (path text : String) (w w' : W)
      → host.write_file path text w ≡ (none, w')
      → host.read_file path w' ≡ ok text
  pub read_chmod :
      (path other : String) (w w' : W)
      → host.chmod path w ≡ (none, w')
      → host.read_file other w' ≡ host.read_file other w
  pub read_removed :
      (path : String) (w w' : W)
      → host.remove path w ≡ (none, w')
      → (m : String) × (host.read_file path w' ≡ err (not_exist m))
  pub read_absent :
      (path : String) (w w' : W) (m : String)
      → host.remove path w ≡ (some (not_exist m), w')
      → (n : String) × (host.read_file path w' ≡ err (not_exist n))

-- A call's answer that the rest of the chain went on from.
chain_inv_at :
    {S A B : Type 0} (p : Result A × S) (f : A → M S B) (t : S) (b : B)
    → (elim (p.0) [ ok a ↦ f a p.1 | err e ↦ (err e, p.1) ]) ≡ (ok b, t)
    → (a : A) × (s' : S) × (p ≡ (ok a, s')) × (f a s' ≡ (ok b, t))
chain_inv_at (ok a, s') f t b h = (a, s', refl, h)
chain_inv_at (err e, s') f t b h = absurd (cc (ap (λ x. x.0) h))

-- The two parts of a chain that returned nil.
chain_inv :
    {S A B : Type 0} (m : M S A) (f : A → M S B) (s t : S) (b : B)
    → (m >>= f) s ≡ (ok b, t)
    → (a : A) × (s' : S) × (m s ≡ (ok a, s')) × (f a s' ≡ (ok b, t))
chain_inv m f s t b h = chain_inv_at (m s) f t b h

check_ctx-ok : (e : Option Err) → to_result e ≡ ok tt → e ≡ none
check_ctx-ok none h = refl
check_ctx-ok (some e) h = absurd (cc h)

attempt_at :
    {W : Type 0} (prefix : String) (p : Option Err × W) (w' : W)
    → attempt prefix (λ (_ : W). p) w' ≡ (ok tt, w')
    → p ≡ (none, w')
attempt_at prefix (none, w) w' h = ap (λ x. (none, x.1)) h
attempt_at prefix (some e, w) w' h = absurd (cc (ap (λ x. x.0) h))

attempt-ok :
    {W : Type 0} (prefix : String) (act : W → Option Err × W) (w w' : W)
    → attempt prefix act w ≡ (ok tt, w')
    → act w ≡ (none, w')
attempt-ok prefix act w w' h = attempt_at prefix (act w) w' h

removed_at :
    {W : Type 0} (p : Option Err × W) (w' : W)
    → removed (λ (_ : W). p) w' ≡ (ok tt, w')
    → (p ≡ (none, w')) ⊎ ((m : String) × (p ≡ (some (not_exist m), w')))
removed_at (none, w) w' h = inl (ap (λ x. (none, x.1)) h)
removed_at (some (not_exist m), w) w' h = inr (m, ap (λ x. (some (not_exist m), x.1)) h)
removed_at (some (failure m), w) w' h = absurd (cc (ap (λ x. x.0) h))

module _ {W : Type 0} (host : Host W State) (files : IsFileSystem host) where
  write_state-ok :
      (dir path text : String) (w w' : W)
      → write_state host dir path text w ≡ (ok tt, w')
      → host.read_file path w' ≡ ok text
  unfolding write_state
  write_state-ok dir path text w w' wrote =
      let last = attempt "set runtime state permissions: " (host.chmod path) in
      let writing = attempt "write runtime state: " (host.write_file path text) in
      let making = attempt "create runtime state directory: " (host.make_dir dir) in
      let (_, w1, _, h1) = chain_inv making (λ _. writing >> last) w w' tt wrote in
      let (_, w2, written, h2) = chain_inv writing (λ _. last) w1 w' tt h1 in
      files.read_chmod path path w2 w' (attempt-ok _ (host.chmod path) w2 w' h2)
      ∙ files.read_written path text w1 w2 (attempt-ok _ (host.write_file path text) w1 w2 written)

  load_at :
      (root path : String) (w : W) {found : Result String}
      → host.ctx_err w ≡ none
      → store_path root ≡ ok path
      → host.read_file path w ≡ found
      → load host root w ≡ read_state host found
  unfolding load
  load_at root path w live at found = rw (live, load) (rw at (ap (read_state host) found))

  read_back :
      (s : State)
      → host.decode (host.encode s) ≡ ok s
      → validate s ≡ none
      → read_state host (ok (host.encode s)) ≡ ok s
  unfolding read_state
  read_back s decoded valid = rw (decoded, read_state) (rw (valid, checked) refl)

  -- Where the JSON of the state is read back as that state, `Load` gives back the state that a `Save`
  -- that succeeded wrote, whatever was on disk before, as long as its own context is live.
  pub save-load :
      (root : String) (s : State) (w w' : W)
      → host.decode (host.encode s) ≡ ok s
      → save host root s w ≡ (ok tt, w')
      → host.ctx_err w' ≡ none
      → load host root w' ≡ ok s
  unfolding save
  save-load root s w w' decoded saved live =
      let writing : String → M W (Unit {0}) =
        λ path. write_state host (store_dir root) path (host.encode s) in
      let locating = lift (store_path root) >>= writing in
      let checking : M W (Unit {0}) = lift (to_result (validate s)) in
      let (_, w1, _, h1) = chain_inv (check_ctx host) (λ _. checking >> locating) w w' tt saved in
      let (_, w2, accepted, h2) = chain_inv checking (λ _. locating) w1 w' tt h1 in
      let (path, w3, located, wrote) = chain_inv (lift (store_path root)) writing w2 w' tt h2 in
      let valid = check_ctx-ok (validate s) (ap (λ x. x.0) accepted) in
      let at : store_path root ≡ ok path = ap (λ x. x.0) located in
      load_at root path w' live at
        (write_state-ok (store_dir root) path (host.encode s) w3 w' wrote)
      ∙ read_back s decoded valid

  -- After a `Clear` that succeeded, `Load` reports that the state is absent, as long as its own context
  -- is live.
  pub clear-load :
      (root : String) (w w' : W)
      → clear host root w ≡ (ok tt, w')
      → host.ctx_err w' ≡ none
      → (m : String) × (load host root w' ≡ err (not_exist m))
  unfolding clear read_state wrap
  clear-load root w w' cleared live =
      let deleting : String → M W (Unit {0}) = λ path. removed (host.remove path) in
      let locating = lift (store_path root) >>= deleting in
      let (_, w1, _, h1) = chain_inv (check_ctx host) (λ _. locating) w w' tt cleared in
      let (path, w2, located, h2) = chain_inv (lift (store_path root)) deleting w1 w' tt h1 in
      let at : store_path root ≡ ok path = ap (λ x. x.0) located in
      elim (removed_at (host.remove path w2) w' h2) [
        | inl gone ↦
            let (m, absent) = files.read_removed path w2 w' gone in
            (_, load_at root path w' live at absent)
        | inr (m, missing) ↦
            let (n, absent) = files.read_absent path w2 w' m missing in
            (_, load_at root path w' live at absent)
      ]
