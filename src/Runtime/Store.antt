-- ===== src/Runtime/Store.antt =====
-- `Store` of internal/runtime/state.go: the state file of a session.
pub mod Laws
use big_red_button.Base.{
  String, ◌==◌, Bool, true, false, Option, none, some, List, [], ◌∷◌, Result, ok, err, Err, failure,
  not_exist, wrap, bind_result, if◌then◌else◌, M, ◌>>=◌, ◌>>◌, lift, to_result, done, return, fail,
}
use big_red_button.Base.Text.{trim_space}
use big_red_button.Base.FilePath.{join_path}
use big_red_button.Host.{Host}
use big_red_button.Runtime.{State, validate, checked}

-- `Store.Path`; the directory of the file is the root, cleaned.
unfoldable pub store_path : String → Result String
store_path root =
    if trim_space root == ""
    then err (failure "runtime state root is required")
    else ok (join_path (trim_space root ∷ "state.json" ∷ []))

unfoldable pub store_dir : String → String
store_dir root = join_path (trim_space root ∷ [])

-- A call that returns only an error, which is wrapped.
abbrev pub attempt : {W : Type 0} → String → (W → Option Err × W) → M W (Unit {0})
attempt prefix act w =
    let (e, w') = act w in elim e [ none ↦ (ok tt, w') | some e ↦ (err (wrap prefix e), w') ]

-- A file that is not there is no error.
abbrev pub removed : {W : Type 0} → (W → Option Err × W) → M W (Unit {0})
removed act w =
    let (e, w') = act w in
    elim e [
      | none ↦ (ok tt, w')
      | some e ↦ elim e [
        | not_exist _ ↦ (ok tt, w')
        | failure m ↦ (err (wrap "remove runtime state: " (failure m)), w')
      ]
    ]

module _ {W : Type 0} (host : Host W State) where
  -- `if err := ctx.Err(); err != nil { return err }`
  abbrev pub check_ctx : M W (Unit {0})
  check_ctx w = (to_result (host.ctx_err w), w)

  -- The part of `Save` that writes: the directory, the file, and its mode.
  unfoldable pub write_state : String → String → String → M W (Unit {0})
  write_state dir path text = do
    attempt "create runtime state directory: " (host.make_dir dir)
    attempt "write runtime state: " (host.write_file path text)
    attempt "set runtime state permissions: " (host.chmod path)

  unfoldable pub save : String → State → M W (Unit {0})
  unfolding write_state
  save root state = do
    check_ctx
    lift (to_result (validate state))
    path ← lift (store_path root)
    write_state (store_dir root) path (host.encode state)

  -- What `Load` makes of the file's text.
  unfoldable pub read_state : Result String → Result State
  unfolding checked
  read_state (err e) = err (wrap "read runtime state: " e)
  read_state (ok text) = elim (host.decode text) [
    | err e ↦ err (wrap "decode runtime state: " e)
    | ok state ↦ checked state
  ]

  unfoldable pub load : String → W → Result State
  unfolding read_state
  load root w = elim (host.ctx_err w) [
    | some e ↦ err e
    | none ↦ bind_result (store_path root) λ path. read_state (host.read_file path w)
  ]

  unfoldable pub clear : String → M W (Unit {0})
  clear root = do check_ctx; path ← lift (store_path root); removed (host.remove path)
