-- ===== src/Host.antt =====
-- What the executors ask of the machine: commands, processes, files, and the context of a call.
-- `W` is the machine's state. The runners and the stopper are interfaces of the source; the rest are
-- calls of the operating system.
use big_red_button.Base.{
  ◌≡◌, refl, ◌⊎◌, inl, inr, String, ◌<>◌, ◌==◌, Bool, Option, none, some, List, Result, ok, err,
  Err, failure, not_exist, wrap, if◌then◌else◌, M,
}
use big_red_button.Base.Int.{ℤ}
use big_red_button.Base.Text.{trim_space}
use big_red_button.Linux.{Command, show_command}

-- `supervisor.ProcessInfo`, which stands for the process too.
pub record ProcessInfo : Type 0 where
  pub pid : ℤ
  pub command : Command

-- `os.DirEntry`, as far as it is read.
pub record DirEntry : Type 0 where
  pub name : String
  pub is_dir : Bool

pub record Host (W State : Type 0) : Type 0 where
  -- `ctx.Err()`
  pub ctx_err : W → Option Err
  -- `CommandRunner.Run`: the output, and an error
  pub run : Command → W → (String × Option Err) × W
  -- `ProcessRunner.Start` and `Process.Stop`
  pub start : Command → M W ProcessInfo
  pub stop : ProcessInfo → W → Option Err × W
  -- `ProcessStopper.StopPID`, and what `PIDExists` and `PIDArgvMatches` find under /proc
  pub stop_pid : ℤ → W → Option Err × W
  pub pid_exists : ℤ → W → Bool
  pub argv_matches : ℤ → List String → W → Bool
  -- `validateExecutable`'s look at the file system
  pub check_executable : String → W → Option Err
  -- os
  pub make_dir : String → W → Option Err × W
  pub read_file : String → W → Result String
  pub write_file : String → String → W → Option Err × W
  pub chmod : String → W → Option Err × W
  pub remove : String → W → Option Err × W
  pub read_dir : String → W → Result (List DirEntry)
  -- `os.Stat`, `os.RemoveAll` and `os.Getpid`
  pub stat : String → W → Option Err
  pub remove_all : String → W → Option Err × W
  pub getpid : ℤ
  -- json.MarshalIndent of a runtime state, which no value of it makes fail, with the newline behind
  -- it, and json.Unmarshal
  pub encode : State → String
  pub decode : String → Result State

-- An error with a text behind it.
unfoldable pub append_detail : Err → String → Err
append_detail (failure m) detail = failure (m <> detail)
append_detail (not_exist m) detail = not_exist (m <> detail)

unfoldable pub command_error : Command → String → Err → Err
unfolding append_detail wrap
command_error command output e =
    let wrapped = wrap ("run " <> (show_command command <> ": ")) e in
    if trim_space output == "" then wrapped else append_detail wrapped (": " <> trim_space output)

module _ {W State : Type 0} (host : Host W State) where
  -- The part that the executors' `run` methods share: run the command and wrap its error.
  unfoldable pub call : Command → M W String
  call command w =
      let (answer, w') = host.run command w in
      elim answer.1 [
        | none ↦ (ok answer.0, w')
        | some e ↦ (err (command_error command answer.0 e), w')
      ]

-- A command that ran came to an end with no error or with one.
pub Answer-cases :
    {W : Type 0} (p : (String × Option Err) × W)
    → ((out : String) × (w : W) × (p ≡ ((out, none), w)))
      ⊎ ((out : String) × (x : Err) × (w : W) × (p ≡ ((out, some x), w)))
Answer-cases ((out, none), w) = inl (out, w, refl)
Answer-cases ((out, some x), w) = inr (out, x, w, refl)
