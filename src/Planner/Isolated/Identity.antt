-- ===== src/Planner/Isolated/Identity.antt =====
-- Who runs what: the session, the application, its user and its environment, in
-- internal/planner/isolated.go.
pub mod Uuid
pub mod Settings
use big_red_button.Base.{
  ◌≡◌, refl, ℕ, zero, suc, ◌-◌, String, ◌<>◌, ◌==◌, Char, code, Bool, true, ◌&&◌, ◌||◌, not, none,
  some, List, [], ◌∷◌, ◌++◌, Result, ok, err, failure, bind_result, is_empty, if◌then◌else◌, eqb,
  leb, len, contains,
}
use big_red_button.Base.Int.{ℤ, below}
use big_red_button.Base.Net.{atoi}
use big_red_button.Base.Text.{trim_space, cut_char, any_char, keep_chars, take_chars}
use big_red_button.Planner.Isolated.{NormalizedOptions}

-- The letter of an alphabet at a position.
letter_at : ℕ → String → Char → Char
letter_at k String.[] default = default
letter_at zero (String.◌∷◌ c s) default = c
letter_at (suc k) (String.◌∷◌ c s) default = letter_at k s default

unfoldable pub lower_char : Char → Char
unfolding letter_at
lower_char c =
    if leb b'A' (code c) && leb (code c) b'Z'
    then letter_at (code c - b'A') "abcdefghijklmnopqrstuvwxyz" c
    else c

-- `strings.ToLower` on ASCII. Of the capitals beyond it only U+0130 and U+212A have a lower case in
-- ASCII, and `i` and `k` are no hexadecimal digits.
unfoldable pub to_lower : String → String
to_lower String.[] = String.[]
to_lower (String.◌∷◌ c s) = String.◌∷◌ (lower_char c) (to_lower s)

unfoldable pub is_hex : ℕ → Bool
is_hex c = (leb b'0' c && leb c b'9') || (leb b'a' c && leb c b'f')

-- Where a UUID has its dashes.
unfoldable pub is_dash_index : ℕ → Bool
is_dash_index i = eqb i 8 || eqb i 13 || eqb i 18 || eqb i 23

-- The loop over the characters, from an index on.
unfoldable pub check_uuid : ℕ → String → Bool
check_uuid i String.[] = true
check_uuid i (String.◌∷◌ c s) =
    (if is_dash_index i then eqb (code c) b'-' else is_hex (code c)) && check_uuid (suc i) s

unfoldable pub is_uuid : String → Bool
is_uuid s = eqb (len s) 36 && check_uuid 0 s

unfoldable pub normalize_uuid : String → String → Result String
normalize_uuid value label =
    let lowered = to_lower (trim_space value) in
    if is_uuid lowered then ok lowered else err (failure (label <> " must be an RFC 4122 UUID"))

-- The first eight characters that are not dashes. A session has 32 of them, so that the slice of the
-- source does not fail.
unfoldable pub short_session_id : String → String
unfolding take_chars
short_session_id session_id = take_chars 8 (keep_chars (λ c. not (eqb c b'-')) session_id)

unfoldable pub trimmed_texts : List String → List String
trimmed_texts [] = []
trimmed_texts (value ∷ values) =
    let rest = trimmed_texts values in
    if trim_space value == "" then rest else trim_space value ∷ rest

-- A command is its executable and its arguments.
unfoldable pub normalize_app_command : List String → Result (List String)
normalize_app_command values =
    if is_empty (trimmed_texts values)
    then err (failure "isolated app command is required")
    else ok (trimmed_texts values)

unfoldable pub parse_non_negative_id : String → String → Result ℤ
parse_non_negative_id value label = elim (atoi value) [
  | none ↦ err (failure (label <> " must be numeric"))
  | some parsed ↦
      if below parsed 0 then err (failure (label <> " must not be negative")) else ok parsed
]

unfoldable pub normalize_launch_identity : String → String → Result (String × String)
normalize_launch_identity raw_uid raw_gid =
    let uid = trim_space raw_uid in
    let gid = trim_space raw_gid in
    if uid == "" && gid == ""
    then ok ("", "")
    else if uid == "" || gid == ""
    then err (failure "launch UID and GID must be provided together")
    else bind_result (parse_non_negative_id uid "launch UID")
        λ _. bind_result (parse_non_negative_id gid "launch GID") λ _. ok (uid, gid)

abbrev pub allowed_keys : List String
allowed_keys =
    "DISPLAY" ∷ "WAYLAND_DISPLAY" ∷ "XAUTHORITY" ∷ "XDG_RUNTIME_DIR" ∷ "DBUS_SESSION_BUS_ADDRESS"
    ∷ "PULSE_SERVER" ∷ "PIPEWIRE_RUNTIME_DIR" ∷ []

unfoldable pub is_allowed_desktop_env_key : String → Bool
is_allowed_desktop_env_key = contains allowed_keys

-- What the loop over the environment collects: the keys it has seen, and `KEY=value` texts.
pub record Environment : Type 0 where
  pub seen : List String
  pub normalized : List String

unfoldable pub add_setting : String → String → Environment → Result Environment
add_setting key value found =
    if not (is_allowed_desktop_env_key key)
    then err (failure ("launch environment key " <> (key <> " is not allowed")))
    else if any_char (λ c. eqb c 0) value
    then err (failure ("launch environment value for " <> (key <> " contains NUL")))
    else if contains found.seen key
    then ok found
    else ok (record {
      seen = found.seen ++ (key ∷ []);
      normalized = found.normalized ++ ((key <> ("=" <> value)) ∷ []);
    })

unfoldable pub add_variable : String → Environment → Result Environment
add_variable value found =
    if trim_space value == "" then ok found else elim (cut_char b'=' (trim_space value)) [
      | none ↦ err (failure "launch environment value must be KEY=value")
      | some (key, env_value) ↦ add_setting (trim_space key) env_value found
    ]

unfoldable pub add_variables : List String → Environment → Result Environment
add_variables [] found = ok found
add_variables (value ∷ values) found = bind_result (add_variable value found) (add_variables values)

unfoldable pub normalize_launch_env : List String → Result (List String)
normalize_launch_env values =
    bind_result (add_variables values (record { seen = []; normalized = [] }))
      λ found. ok found.normalized

unfoldable pub has_identity : NormalizedOptions → Bool
has_identity options = not (options.launch_uid == "" || options.launch_gid == "")

unfoldable pub launch_identity_details : NormalizedOptions → List String
launch_identity_details options =
    if has_identity options
    then ("launch_uid=" <> options.launch_uid) ∷ ("launch_gid=" <> options.launch_gid) ∷ []
    else []

unfoldable pub setpriv_prerequisite : NormalizedOptions → List String
setpriv_prerequisite options = if has_identity options then "binary=setpriv" ∷ [] else []

unfoldable pub env_prerequisite : NormalizedOptions → List String
env_prerequisite options = if is_empty options.launch_env then [] else "binary=env" ∷ []

normalize_uuid_test :
    normalize_uuid " 0A1B2C3D-0000-4000-8000-00000000000F" "session ID"
    ≡ ok "0a1b2c3d-0000-4000-8000-00000000000f"
unfolding normalize_uuid to_lower lower_char is_uuid check_uuid is_dash_index is_hex trim_space
normalize_uuid_test = refl

short_session_id_test : short_session_id "0a1b2c3d-0000-4000-8000-00000000000f" ≡ "0a1b2c3d"
unfolding short_session_id keep_chars
short_session_id_test = refl

normalize_launch_env_test :
    normalize_launch_env (" DISPLAY=:0" ∷ "" ∷ "DISPLAY=:1" ∷ []) ≡ ok ("DISPLAY=:0" ∷ [])
unfolding normalize_launch_env add_variables add_variable add_setting trim_space cut_char any_char
    contains is_allowed_desktop_env_key
normalize_launch_env_test = refl
