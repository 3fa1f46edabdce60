-- ===== src/Sessions.antt =====
-- Session control: src/app/session_api.rs, with `reconcile_session` and `find_session_mut` of
-- src/app.rs. `Machine` is what these functions call outside: the clock, processes, log files, and
-- the preparation of a launch. `Sessions/Reconcile`, `Sessions/Resolve`, `Sessions/Cleanup`,
-- `Sessions/Retry`, `Sessions/Stop`, `Sessions/Restart` and `Sessions/Signals` hold the operations,
-- their children the theorems.
pub mod Reconcile
pub mod Resolve
pub mod Cleanup
pub mod Retry
pub mod Stop
pub mod Restart
pub mod Signals
use launch_code.Prelude.{ℕ, Bool, Option, List}
use launch_code.Prelude.Io.{Io}
use launch_code.Text.{Text}
use launch_code.Error.{AppError, ProcessError}
use launch_code.Map.{Map}
use launch_code.Model.{LaunchSpec, DebugSessionMeta}

-- `clock` is `unix_timestamp_secs`, `is_alive` is `is_process_alive`, `remove_file` is
-- `fs::remove_file` with whether it succeeded; the others have the names of the functions.
pub record Machine : Type 1 where
  pub Os : Type 0
  pub clock : Os → ℕ × Os
  pub sleep : ℕ → Os → Os
  pub is_alive : ℕ → Os → Bool × Os
  pub stop_process : ℕ → Bool → ℕ → Io Os ProcessError (Unit {0})
  pub suspend_process : ℕ → Io Os ProcessError (Unit {0})
  pub resume_process : ℕ → Io Os ProcessError (Unit {0})
  pub run_shell_task : Text → Text → Map Text → List Text → Text → Io Os ProcessError (Unit {0})
  pub remove_file : Text → Os → Bool × Os
  pub prepare_debug_spec : LaunchSpec → Io Os AppError (LaunchSpec × Option DebugSessionMeta)
  pub run_prelaunch_task_if_any : LaunchSpec → Text → Io Os AppError (Unit {0})
  pub spawn_session_worker : Text → LaunchSpec → Text → Io Os AppError ℕ
  pub default_log_path : Text → Text
