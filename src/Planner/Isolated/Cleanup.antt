-- ===== src/Planner/Isolated/Cleanup.antt =====
-- What the cleanup plan of internal/planner/isolated.go shares with the tunnel plan of its session.
use big_red_button.Base.{◌≡◌, refl, String, true, ok, arith, eq_iff, List, [], ◌∷◌, map, keep, ◌==◌}
use big_red_button.Base.Text.{trim_space, all_chars, is_space}
use big_red_button.Base.Unicode.{is_letter, is_digit}
use big_red_button.Planner.{Plan, Step}
use big_red_button.Planner.Isolated.{IsolatedAppOptions}
use big_red_button.Planner.Isolated.Identity.{is_uuid, short_session_id}
use big_red_button.Planner.Isolated.Network.{
  is_name_char, validate_linux_interface_name, validate_linux_namespace_name,
}
use big_red_button.Planner.Isolated.Normalize.{default_names, check_names}
use big_red_button.Planner.Isolated.Normalize.DefaultNames.{IsPrefix, validate_name-name}
use big_red_button.Linux.Details.{detail_value}

pub wireguard-IsPrefix : IsPrefix "brbwg"
unfolding all_chars is_space is_name_char is_letter is_digit
wireguard-IsPrefix = record {
  filled = ground (arith, eq_iff "brbwg" "");
  short = omega arith;
  plain = refl;
  named = refl;
}

pub namespace-IsPrefix : IsPrefix "brb-"
unfolding all_chars is_space is_name_char is_letter is_digit
namespace-IsPrefix = record {
  filled = ground (arith, eq_iff "brb-" "");
  short = omega arith;
  plain = refl;
  named = refl;
}

pub host_veth-IsPrefix : IsPrefix "brbh"
unfolding all_chars is_space is_name_char is_letter is_digit
host_veth-IsPrefix = record {
  filled = ground (arith, eq_iff "brbh" "");
  short = omega arith;
  plain = refl;
  named = refl;
}

namespace_veth-IsPrefix : IsPrefix "brbn"
unfolding all_chars is_space is_name_char is_letter is_digit
namespace_veth-IsPrefix = record {
  filled = ground (arith, eq_iff "brbn" "");
  short = omega arith;
  plain = refl;
  named = refl;
}

-- The names that are derived from a session id pass the checks.
pub check_names-default_names :
    (id : String)
    → is_uuid id ≡ true
    → check_names (default_names (short_session_id id)) ≡ ok (default_names (short_session_id id))
unfolding check_names default_names validate_linux_interface_name validate_linux_namespace_name
check_names-default_names id valid =
    rw
      (validate_name-name "brbwg" id wireguard-IsPrefix valid 15 "wireguard interface"
        (omega arith))
      (rw (validate_name-name "brb-" id namespace-IsPrefix valid 64 "namespace" (omega arith)) (
        rw (validate_name-name "brbh" id host_veth-IsPrefix valid 15 "host veth" (omega arith)) (
          rw
            (validate_name-name "brbn" id namespace_veth-IsPrefix valid 15 "namespace veth"
              (omega arith))
            refl)))

-- The options leave the names to the session.
pub record LeavesNames (options : IsolatedAppOptions) : Type 0 where
  pub no_interface : trim_space options.wireguard_interface ≡ ""
  pub no_namespace : trim_space options.namespace ≡ ""
  pub no_host_veth : trim_space options.host_veth ≡ ""
  pub no_namespace_veth : trim_space options.namespace_veth ≡ ""

-- What the steps with an id say for a key.
abbrev pub said : String → String → List Step → List String
said id key steps = map (λ step. detail_value step key) (keep (λ step. step.id == id) steps)

-- The one step with an id, in two plans, says the same for a key.
abbrev pub Agree : String → String → String → Plan → Plan → Type 0
Agree id other key plan cleanup =
    (value : String) × (said id key plan.steps ≡ value ∷ [])
    × (said other key cleanup.steps ≡ value ∷ [])
