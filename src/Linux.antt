-- ===== src/Linux.antt =====
-- internal/platform/linux: commands, and the executors that run a plan's steps by them.
pub mod Commands
pub mod RouteGet
pub mod Details
pub mod RouteExecutor
pub mod DnsExecutor
pub mod WireguardExecutor
pub mod Lifecycle
pub mod IsolatedCommands
pub mod IsolatedExecutor
use big_red_button.Base.{String, List, [], ◌∷◌, join, Option}

pub record Command : Type 0 where
  pub name : String
  pub args : List String

unfoldable pub argv : Command → List String
argv command = command.name ∷ command.args

-- `Command.String`
unfoldable pub show_command : Command → String
unfolding argv join
show_command command = join " " (argv command)

pub data OperationPhase : Type 0 where
  operation_apply operation_rollback : OperationPhase

-- An `Operation`: a command that was run, or a note on the runtime state.
pub data Action : Type 0 where
  command : Command → Action
  runtime : String → Action

pub record Operation : Type 0 where
  pub phase : OperationPhase
  pub step_id : String
  pub action : Action

abbrev pub default_ip_binary : String
default_ip_binary = "ip"

abbrev pub default_resolvectl_binary : String
default_resolvectl_binary = "resolvectl"

abbrev pub default_wg_binary : String
default_wg_binary = "wg"

abbrev pub default_nft_binary : String
default_nft_binary = "nft"
