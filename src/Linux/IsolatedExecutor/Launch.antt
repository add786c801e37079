-- ===== src/Linux/IsolatedExecutor/Launch.antt =====
-- The launch of the application: what internal/planner/isolated.go writes into the step's details,
-- internal/platform/linux/dryrun.go reads back.
use mathlib.Core.List.{append-nil}
use big_red_button.Base.{
  ◌≡◌, refl, ap, ◌∙◌, subst, sym, String, ◌<>◌, ◌==◌, Bool, true, false, ◌||◌, ◌⊎◌, List, [], ◌∷◌,
  ◌++◌, ok, map, eq_iff, arith, Bool-cases, inl, inr, if◌then◌else◌,
}
use big_red_button.Base.Text.{trim_space, is_blank}
use big_red_button.Linux.{Command, argv}
use big_red_button.Planner.System.{prefixed}
use big_red_button.Planner.Isolated.{NormalizedOptions}
use big_red_button.Planner.Isolated.Identity.{has_identity, launch_identity_details}
use big_red_button.Planner.Isolated.Normalize.{executable}
use big_red_button.Planner.Isolated.Tunnel.{launch_step, arguments, argument_count}
use big_red_button.Linux.Details.{detail_value, detail_values, values_of, first_or_empty}
use big_red_button.Linux.Details.Laws.{
  mismatch, values_of-found, values_of-other, values_of-all, values_of-none, values_of-prefixed,
  values_of-prefixed_other, detail_value-first, detail_value-third,
}
use big_red_button.Linux.IsolatedCommands.{net_ns_exec_command, validate_namespace_name}
use big_red_button.Linux.IsolatedExecutor.Render.{
  with_env, with_identity, isolated_app_launch_command_from_step,
}

-- `env` with the settings, where there are any.
abbrev pub env_words : List String → List String
env_words [] = []
env_words (value ∷ values) = "env" ∷ trim_space value ∷ map trim_space values

environed :
    (values : List String) (command : Command)
    → is_blank command.name ≡ false
    → let wrapped = with_env (map trim_space values) command in
      (is_blank wrapped.name ≡ false) × (argv wrapped ≡ env_words values ++ argv command)
unfolding with_env is_blank trim_space argv
environed [] command named = (named, refl)
environed (value ∷ values) command named = (refl, refl)

-- `setpriv` with a user and a group, where both are given.
abbrev pub identity_words : String → String → List String
identity_words uid gid =
    if uid == "" || gid == ""
    then []
    else "setpriv" ∷ "--reuid" ∷ uid ∷ "--regid" ∷ gid ∷ "--init-groups" ∷ []

identified :
    (given : Bool) (uid gid : String) (command : Command)
    → is_blank command.name ≡ false
    → (given ≡ true) ⊎ ((uid == "" || gid == "") ≡ true)
    → let wrapped = with_identity (if given then uid else "") (if given then gid else "") command in
      (is_blank wrapped.name ≡ false) × (argv wrapped ≡ identity_words uid gid ++ argv command)
unfolding with_identity is_blank trim_space argv
identified true uid gid command named whole = elim (Bool-cases (uid == "")) [
  | inl nobody ↦ rw nobody (named, refl)
  | inr user ↦ elim (Bool-cases (gid == "")) [
    | inl nogroup ↦ rw user (rw nogroup (named, refl))
    | inr group ↦ rw user (rw group (refl, refl))
  ]
]
identified false uid gid command named (inl whole) = absurd (cc)
identified false uid gid command named (inr part) = rw part (named, refl)

trim_space-blank : (x : String) → (x == "") ≡ true → (trim_space x == "") ≡ true
unfolding trim_space
trim_space-blank x none_given =
    subst (λ y. (trim_space y == "") ≡ true) (sym ((eq_iff x "").0 none_given)) refl

-- Where the identity is not whole, one of its trimmed texts is empty.
identity-cases :
    (options : NormalizedOptions)
    → (has_identity options ≡ true)
      ⊎ ((trim_space options.launch_uid == "" || trim_space options.launch_gid == "") ≡ true)
unfolding has_identity
identity-cases options = elim (Bool-cases (options.launch_uid == "")) [
  | inl nobody ↦ inr (rw (trim_space-blank options.launch_uid nobody) refl)
  | inr user ↦ elim (Bool-cases (options.launch_gid == "")) [
    | inl nogroup ↦
        let none_named = trim_space-blank options.launch_gid nogroup in inr (ground arith)
    | inr group ↦ inl (rw user (rw group refl))
  ]
]

module _ (options : NormalizedOptions) where
  abbrev settings : List String
  settings = prefixed "app_env=" options.launch_env

  abbrev args : List String
  args = prefixed "app_arg=" (arguments options.app_command)

  -- The details behind the first three.
  abbrev behind_three : List String
  behind_three = argument_count options ∷ (launch_identity_details options ++ (settings ++ args))

  details_of_launch :
      (launch_step options).details
      ≡ ("namespace=" <> options.namespace)
        ∷ ("app_id=" <> options.app_id)
        ∷ ("executable=" <> executable options.app_command)
        ∷ behind_three
  unfolding launch_step
  details_of_launch = refl

  -- A key that the first four details do not have is looked up behind them.
  behind_four :
      (p : String)
      → mismatch "namespace=" p ≡ true
      → mismatch "app_id=" p ≡ true
      → mismatch "executable=" p ≡ true
      → mismatch "argument_count=" p ≡ true
      → values_of p (launch_step options).details
        ≡ values_of p (launch_identity_details options ++ (settings ++ args))
  unfolding launch_step
  behind_four p a b c d =
      values_of-other p "namespace=" options.namespace _ a
      ∙ values_of-other p "app_id=" options.app_id _ b
      ∙ values_of-other p "executable=" (executable options.app_command) _ c
      ∙ values_of-other p "argument_count=" _ _ d

  behind_identity :
      (p : String) (rest : List String)
      → mismatch "launch_uid=" p ≡ true
      → mismatch "launch_gid=" p ≡ true
      → values_of p (launch_identity_details options ++ rest) ≡ values_of p rest
  unfolding launch_identity_details
  behind_identity p rest a b = elim (Bool-cases (has_identity options)) [
    | inl named ↦ rw named (
        values_of-other p "launch_uid=" options.launch_uid _ a
        ∙ values_of-other p "launch_gid=" options.launch_gid rest b)
    | inr nobody ↦ rw nobody refl
  ]

  launch_env_read :
      detail_values (launch_step options) "app_env" ≡ map trim_space options.launch_env
  unfolding detail_values
  launch_env_read =
      behind_four "app_env=" refl refl refl refl
      ∙ behind_identity "app_env=" (settings ++ args) refl refl
      ∙ values_of-prefixed "app_env=" options.launch_env args
      ∙ ap (λ l. map trim_space options.launch_env ++ l)
          (values_of-none "app_env=" "app_arg=" (arguments options.app_command) refl)
      ∙ append-nil (map trim_space options.launch_env)

  app_args_read :
      detail_values (launch_step options) "app_arg" ≡ map trim_space (arguments options.app_command)
  unfolding detail_values
  app_args_read =
      behind_four "app_arg=" refl refl refl refl
      ∙ behind_identity "app_arg=" (settings ++ args) refl refl
      ∙ values_of-prefixed_other "app_arg=" "app_env=" options.launch_env args refl
      ∙ values_of-all "app_arg=" (arguments options.app_command)

  -- The two texts of the identity, or nothing where it is not whole.
  identity_read :
      (key : String) (value : String)
      → mismatch "namespace=" (key <> "=") ≡ true
      → mismatch "app_id=" (key <> "=") ≡ true
      → mismatch "executable=" (key <> "=") ≡ true
      → mismatch "argument_count=" (key <> "=") ≡ true
      → mismatch "app_env=" (key <> "=") ≡ true
      → mismatch "app_arg=" (key <> "=") ≡ true
      → ((rest : List String)
          → first_or_empty (
              values_of (key <> "=") (
                ("launch_uid=" <> options.launch_uid)
                ∷ ("launch_gid=" <> options.launch_gid)
                ∷ rest))
            ≡ value)
      → detail_value (launch_step options) key ≡ (if has_identity options then value else "")
  unfolding detail_value detail_values launch_identity_details first_or_empty
  identity_read key value a b c d e f found =
      let k = key <> "=" in
      ap first_or_empty (behind_four k a b c d) ∙ (elim (Bool-cases (has_identity options)) [
        | inl named ↦ rw named (found (settings ++ args))
        | inr nobody ↦ rw nobody (
            ap first_or_empty (
              values_of-prefixed_other k "app_env=" options.launch_env args e
              ∙ values_of-none k "app_arg=" (arguments options.app_command) f))
      ])

  uid_read :
      detail_value (launch_step options) "launch_uid"
      ≡ (if has_identity options then trim_space options.launch_uid else "")
  unfolding first_or_empty
  uid_read =
      identity_read "launch_uid" (trim_space options.launch_uid) refl refl refl refl refl refl
        (λ rest. ap first_or_empty (
          values_of-found "launch_uid=" options.launch_uid
            (("launch_gid=" <> options.launch_gid) ∷ rest)))

  gid_read :
      detail_value (launch_step options) "launch_gid"
      ≡ (if has_identity options then trim_space options.launch_gid else "")
  unfolding first_or_empty
  gid_read =
      identity_read "launch_gid" (trim_space options.launch_gid) refl refl refl refl refl refl
        (λ rest. ap first_or_empty (
          values_of-other "launch_gid=" "launch_uid=" options.launch_uid
            (("launch_gid=" <> options.launch_gid) ∷ rest) refl
          ∙ values_of-found "launch_gid=" options.launch_gid rest))

  -- The executor wraps what it reads back from the launch step.
  launch_built :
      isolated_app_launch_command_from_step (launch_step options)
      ≡ net_ns_exec_command (trim_space options.namespace) (
          with_identity
            (if has_identity options then trim_space options.launch_uid else "")
            (if has_identity options then trim_space options.launch_gid else "")
            (with_env (map trim_space options.launch_env) (record {
              name = trim_space (executable options.app_command);
              args = map trim_space (arguments options.app_command);
            })))
  unfolding isolated_app_launch_command_from_step
  launch_built = λ i.
      net_ns_exec_command
        (detail_value-first (launch_step options) "namespace" options.namespace _ details_of_launch
          i)
        (with_identity (uid_read i) (gid_read i) (
          with_env (launch_env_read i) (record {
            name =
                detail_value-third (launch_step options) "executable" "namespace=" "app_id="
                  options.namespace options.app_id (executable options.app_command) _ refl refl
                  details_of_launch i;
            args = app_args_read i;
          })))

  -- Where the executor accepts the namespace, under whatever name, and the executable is not blank, it
  -- launches `ip netns exec` of that namespace with: `setpriv` of the user and the group where both
  -- are given; `env` with the settings where there are any; the executable and its arguments. Every
  -- text of the options is trimmed.
  pub launch_command :
      (namespace : String)
      → validate_namespace_name (trim_space options.namespace) ≡ ok namespace
      → is_blank (trim_space (executable options.app_command)) ≡ false
      → isolated_app_launch_command_from_step (launch_step options)
        ≡ ok (record {
          name = "ip";
          args =
              "netns"
              ∷ "exec"
              ∷ namespace
              ∷ (identity_words (trim_space options.launch_uid) (trim_space options.launch_gid)
                  ++ (env_words options.launch_env
                      ++ (trim_space (executable options.app_command)
                          ∷ map trim_space (arguments options.app_command))));
        })
  unfolding net_ns_exec_command argv
  launch_command namespace accepted named =
      let inner : Command = record {
        name = trim_space (executable options.app_command);
        args = map trim_space (arguments options.app_command);
      } in
      let (set_named, set_argv) = environed options.launch_env inner named in
      let (wrapped_named, wrapped_argv) =
        identified (has_identity options) (trim_space options.launch_uid)
          (trim_space options.launch_gid) (with_env (map trim_space options.launch_env) inner)
          set_named (identity-cases options) in
      let words = identity_words (trim_space options.launch_uid) (trim_space options.launch_gid) in
      launch_built
      ∙ rw accepted (
          rw wrapped_named (
            ap (λ line. ok (record { name = "ip"; args = "netns" ∷ "exec" ∷ namespace ∷ line }))
              (wrapped_argv ∙ ap (λ line. words ++ line) set_argv)))
