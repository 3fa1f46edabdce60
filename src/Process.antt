-- ===== src/Process.antt =====
-- Processes: src/process.rs on Unix. `System` is what the code calls outside: `libc`, the clock, the
-- file system and `std::process`. `Process/Signal` sends signals and stops processes,
-- `Process/Spawn` starts them; their children hold the theorems. Durations are milliseconds.
pub mod Signal
pub mod Spawn
use launch_code.Prelude.{
  ℕ, zero, suc, ◌+◌, ◌-◌, ◌^◌, Bool, Option, List, Result, ltb, ◌==◌, if◌then◌else◌,
}
use launch_code.Prelude.Int.{ℤ, pos, negsuc}
use launch_code.Prelude.Io.{Io}
use launch_code.Text.{Text}
use launch_code.Map.{Map}
use launch_code.Error.{IoError, ProcessError}

-- `std::io::Error` of a system call: `raw_os_error` and the error.
pub record OsError : Type 0 where
  pub errno : ℕ
  pub error : IoError

-- `std::process::Output`; `stdout` is none where it is not UTF-8.
pub record Output : Type 0 where
  pub success : Bool
  pub stdout : Option Text

pub data Stdio : Type 0 where
  inherit null piped : Stdio
  file : Text → Stdio

-- `std::process::Command`: `env` holds the changes to the inherited environment, none for a
-- variable that is removed.
pub record Command : Type 0 where
  pub program : Text
  pub args : List Text
  pub current_dir : Option Text
  pub env : Map (Option Text)
  pub stdin : Stdio
  pub stdout : Stdio
  pub stderr : Stdio
  pub setsid : Bool

pub data Pipe : Type 0 where
  stdout_pipe stderr_pipe : Pipe

-- What `kill` and `waitpid` are given: an `i32`.
abbrev pub Target : Type 0
Target = ℤ

-- `pid as i32` of a `u32`
unfoldable pub process : ℕ → Target
process pid = if ltb pid (2 ^ 31) then pos pid else negsuc (2 ^ 32 - 1 - pid)

-- `-` of an `i32`; of the smallest one it is the same where overflow is not checked.
unfoldable pub negate : Target → Target
negate (pos zero) = pos zero
negate (pos (suc n)) = negsuc n
negate (negsuc n) = if n + 1 == 2 ^ 31 then negsuc n else pos (n + 1)

-- `-(pid as i32)`
unfoldable pub group : ℕ → Target
group pid = negate (process pid)

-- `take_pipe` is whether a pipe of the child could be taken, `spawn_pump` starts the thread that runs
-- `pump_tee_stream` on it and `join_pump` is what the thread returned, none where it panicked.
-- `kill` gives the error of a call that fails; `ps` is none where the program cannot be run.
pub record System : Type 1 where
  pub Os : Type 0
  pub esrch : ℕ
  pub eperm : ℕ
  pub sigterm : ℕ
  pub sigkill : ℕ
  pub sigstop : ℕ
  pub sigcont : ℕ
  pub kill : Target → ℕ → Os → Option OsError × Os
  pub ps : List Text → Os → Option Output × Os
  pub waitpid : Target → Os → Os
  pub now : Os → ℕ × Os
  pub sleep : ℕ → Os → Os
  pub create_dir_all : Text → Io Os IoError (Unit {0})
  pub open_append : Text → Io Os IoError (Unit {0})
  pub spawn : Command → Io Os IoError ℕ
  pub wait : ℕ → Io Os IoError (Option ℤ)
  pub take_pipe : ℕ → Pipe → Os → Bool × Os
  pub spawn_pump : ℕ → Pipe → Text → Os → Os
  pub join_pump : ℕ → Pipe → Os → Option (Result ProcessError (Unit {0})) × Os
  pub parent : Text → Option Text
