-- ===== src/Planner/Isolated/Identity/Settings.antt =====
-- The environment that `normalizeLaunchEnv` of internal/planner/isolated.go lets through.
use big_red_button.Base.{
  ◌≡◌, refl, ap, sym, ◌∙◌, subst, String, ◌<>◌, ◌==◌, true, false, List, [], ◌∷◌, ◌++◌, map, ok,
  All, All-append, arith, Bool-cases, Option-cases, inl, inr, contains, eqb, bind_result-eq-ok,
}
use big_red_button.Base.Text.{trim_space, cut_char, any_char}
use big_red_button.Base.Distinct.{Distinct, Distinct-snoc}
use big_red_button.Planner.Isolated.Identity.{
  Environment, allowed_keys, is_allowed_desktop_env_key, add_setting, add_variable, add_variables,
  normalize_launch_env,
}

-- The text of a key with its value.
abbrev pub setting : String × String → String
setting (key, value) = key <> ("=" <> value)

abbrev pub key_of : String × String → String
key_of (key, value) = key

-- The key is one of a desktop, and the value has no NUL.
abbrev pub IsSetting : String × String → Type 0
IsSetting (key, value) =
    (contains allowed_keys key ≡ true) × (any_char (λ c. eqb c 0) value ≡ false)

-- What the loop has collected are settings with different keys.
record IsEnvironment (found : Environment) : Type 0 where
  pairs : List (String × String)
  keys : map key_of pairs ≡ found.seen
  texts : map setting pairs ≡ found.normalized
  distinct : Distinct found.seen
  good : All IsSetting pairs

map-snoc :
    (f : String × String → String) (xs : List (String × String)) (x : String × String)
    → map f (xs ++ (x ∷ [])) ≡ map f xs ++ (f x ∷ [])
map-snoc f [] x = refl
map-snoc f (y ∷ ys) x = ap (λ l. f y ∷ l) (map-snoc f ys x)

add_fresh-IsEnvironment :
    (key value : String) (found : Environment)
    → IsEnvironment found
    → IsSetting (key, value)
    → contains found.seen key ≡ false
    → IsEnvironment (record {
      seen = found.seen ++ (key ∷ []);
      normalized = found.normalized ++ ((key <> ("=" <> value)) ∷ []);
    })
add_fresh-IsEnvironment key value found h good fresh = record {
  pairs = h.pairs ++ ((key, value) ∷ []);
  keys = map-snoc key_of h.pairs (key, value) ∙ ap (λ l. l ++ (key ∷ [])) h.keys;
  texts =
      map-snoc setting h.pairs (key, value) ∙ ap (λ l. l ++ (setting (key, value) ∷ [])) h.texts;
  distinct = Distinct-snoc found.seen key fresh h.distinct;
  good = All-append IsSetting h.pairs ((key, value) ∷ []) h.good (good, tt);
}

add_setting-IsEnvironment :
    (key value : String) (found out : Environment)
    → IsEnvironment found
    → add_setting key value found ≡ ok out
    → IsEnvironment out
unfolding add_setting is_allowed_desktop_env_key
add_setting-IsEnvironment key value found out h done =
    elim (Bool-cases (contains allowed_keys key)) [
      | inr other ↦ absurd (ground arith)
      | inl allowed ↦ elim (Bool-cases (any_char (λ c. eqb c 0) value)) [
        | inl nul ↦ absurd (ground arith)
        | inr clean ↦ elim (Bool-cases (contains found.seen key)) [
          | inl seen ↦ let same : found ≡ out = ground arith in subst IsEnvironment same h
          | inr fresh ↦
              let next : Environment = record {
                seen = found.seen ++ (key ∷ []);
                normalized = found.normalized ++ ((key <> ("=" <> value)) ∷ []);
              } in
              let same : next ≡ out = cc in
              subst IsEnvironment same
                (add_fresh-IsEnvironment key value found h (allowed, clean) fresh)
        ]
      ]
    ]

add_variable-IsEnvironment :
    (value : String) (found out : Environment)
    → IsEnvironment found
    → add_variable value found ≡ ok out
    → IsEnvironment out
unfolding add_variable
add_variable-IsEnvironment value found out h done = elim (Bool-cases (trim_space value == "")) [
  | inl blank ↦ let same : found ≡ out = ground arith in subst IsEnvironment same h
  | inr text ↦ elim (Option-cases (cut_char b'=' (trim_space value))) [
    | inl whole ↦ absurd (ground arith)
    | inr (parts, cut) ↦
        let set : add_setting (trim_space (parts.0)) (parts.1) found ≡ ok out = cc in
        add_setting-IsEnvironment (trim_space (parts.0)) (parts.1) found out h set
  ]
]

add_variables-IsEnvironment :
    (values : List String) (found out : Environment)
    → IsEnvironment found
    → add_variables values found ≡ ok out
    → IsEnvironment out
unfolding add_variables
add_variables-IsEnvironment [] found out h done =
    let same : found ≡ out = cc in subst IsEnvironment same h
add_variables-IsEnvironment (value ∷ values) found out h done =
    let (next, added, rest) =
      bind_result-eq-ok (add_variable value found) (add_variables values) done in
    add_variables-IsEnvironment values next out
      (add_variable-IsEnvironment value found next h added) rest

-- The launch environment that normalization accepts is a list of settings `KEY=value`, the keys all
-- different and among those of a desktop session, the values without NUL.
pub normalize_launch_env-Settings :
    (values out : List String)
    → normalize_launch_env values ≡ ok out
    → (pairs : List (String × String)) × (map setting pairs ≡ out)
      × Distinct (map key_of pairs)
      × All IsSetting pairs
unfolding normalize_launch_env
normalize_launch_env-Settings values out done =
    let start : Environment = record { seen = []; normalized = [] } in
    let (found, collected, finished) =
      bind_result-eq-ok (add_variables values start) (λ found. ok found.normalized) done in
    let h =
      add_variables-IsEnvironment values start found
        (record { pairs = []; keys = refl; texts = refl; distinct = tt; good = tt }) collected in
    let last : found.normalized ≡ out = cc in
    (h.pairs, h.texts ∙ last, subst Distinct (sym h.keys) h.distinct, h.good)
