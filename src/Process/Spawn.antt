-- ===== src/Process/Spawn.antt =====
-- Starting processes: their environment, their log file, and the modes in which their output is
-- shown. `Spawn/Environment` states which environment a process gets.
pub mod Environment
pub mod Tee
use launch_code.Prelude.{
  ℕ, Bool, true, false, Option, none, some, List, [], ◌∷◌, Result, ok, err, ◌==◌, if◌then◌else◌,
}
use launch_code.Prelude.Int.{ℤ, pos}
use launch_code.Prelude.Io.{Io, ◌>>=◌, ◌>>◌, pure, fail, lift}
use launch_code.Text.{Text, codes}
use launch_code.Map
use launch_code.Map.{Map}
use launch_code.Error.{IoError, other_kind, ProcessError, empty_command, io, task_command_failed}
use launch_code.Process.{
  System, Command, Pipe, stdout_pipe, stderr_pipe, Stdio, inherit, null, piped, file,
}

-- `Command::new`
abbrev new_command : Text → Command
new_command program = record {
  program = program;
  args = [];
  current_dir = none;
  env = [];
  stdin = inherit;
  stdout = inherit;
  stderr = inherit;
  setsid = false;
}

-- `Command::env_remove` for each name
unfoldable pub remove_variables : List Text → Map (Option Text) → Map (Option Text)
remove_variables [] changes = changes
remove_variables (key ∷ keys) changes = remove_variables keys (Map.insert key none changes)

-- `Command::envs`
unfoldable pub set_variables : Map Text → Map (Option Text) → Map (Option Text)
set_variables [] changes = changes
set_variables ((key, value) ∷ env) changes = set_variables env (Map.insert key (some value) changes)

unfoldable pub apply_environment : Command → Map Text → List Text → Command
apply_environment cmd env env_remove = record cmd {
  env = set_variables env (remove_variables env_remove cmd.env);
}

-- `command[0]` and `command[1..]`; the callers have tested that there is a first word.
unfoldable pub base_process_command : Text → List Text → Text → Map Text → List Text → Command
unfolding apply_environment
base_process_command program args cwd env env_remove =
    apply_environment (record (new_command program) { args = args; current_dir = some cwd }) env
      env_remove

unfoldable pub task_command_command : Text → Command
task_command_command task_command = record (new_command (codes "sh")) {
  args = codes "-c" ∷ task_command ∷ [];
}

pub data ProcessLogMode : Type 0 where
  file_log stdout_log tee_log : ProcessLogMode

-- `std::io::Error::other`
abbrev io_other : Text → IoError
io_other message = record { kind = other_kind; message = message }

module _ (system : System) where
  open system use {
    Os, create_dir_all, open_append, spawn, wait, take_pipe, spawn_pump, join_pump, parent,
  }

  abbrev io_result : {A : Type 0} → Result IoError A × Os → Result ProcessError A × Os
  io_result (ok a, os) = (ok a, os)
  io_result (err e, os) = (err (io e), os)

  abbrev lift_io : {A : Type 0} → Io Os IoError A → Io Os ProcessError A
  lift_io m os = io_result (m os)

  unfoldable pub create_parent : Option Text → Io Os ProcessError (Unit {0})
  create_parent none = pure tt
  create_parent (some dir) = lift_io (create_dir_all dir)

  unfoldable pub ensure_log_parent : Text → Io Os ProcessError (Unit {0})
  unfolding create_parent
  ensure_log_parent log_path = create_parent (parent log_path)

  unfoldable pub spawn_process_with_file_log :
      List Text → Text → Map Text → List Text → Text → Io Os ProcessError ℕ
  spawn_process_with_file_log [] cwd env env_remove log_path = fail empty_command
  spawn_process_with_file_log (program ∷ args) cwd env env_remove log_path = do
    ensure_log_parent log_path
    lift_io (open_append log_path)
    let cmd = base_process_command program args cwd env env_remove
    lift_io (
        spawn (record cmd {
          stdin = null;
          stdout = file log_path;
          stderr = file log_path;
          setsid = true;
        }))

  unfoldable pub spawn_process_with_env_control :
      List Text → Text → Map Text → List Text → Text → Io Os ProcessError ℕ
  spawn_process_with_env_control = spawn_process_with_file_log

  unfoldable pub spawn_process : List Text → Text → Map Text → Text → Io Os ProcessError ℕ
  spawn_process command cwd env log_path =
      spawn_process_with_env_control command cwd env [] log_path

  abbrev taken : Text → Bool × Os → Result ProcessError (Unit {0}) × Os
  taken message (true, os) = (ok tt, os)
  taken message (false, os) = (err (io (io_other message)), os)

  unfoldable pub capture : ℕ → Pipe → Text → Io Os ProcessError (Unit {0})
  capture pid pipe message os = taken message (take_pipe pid pipe os)

  abbrev joined :
      Text → Option (Result ProcessError (Unit {0})) × Os → Result ProcessError (Unit {0}) × Os
  joined message (some r, os) = (r, os)
  joined message (none, os) = (err (io (io_other message)), os)

  unfoldable pub join : ℕ → Pipe → Text → Io Os ProcessError (Unit {0})
  join pid pipe message os = joined message (join_pump pid pipe os)

  abbrev start : ℕ → Pipe → Text → Io Os ProcessError (Unit {0})
  start pid pipe log_path os = (ok tt, spawn_pump pid pipe log_path os)

  unfoldable pub run_process_foreground_tee :
      Text → List Text → Text → Map Text → List Text → Text → Io Os ProcessError (ℕ × Option ℤ)
  run_process_foreground_tee program args cwd env env_remove log_path = do
    ensure_log_parent log_path
    lift_io (open_append log_path)
    let cmd = base_process_command program args cwd env env_remove
    pid ← lift_io (spawn (record cmd { stdin = inherit; stdout = piped; stderr = piped }))
    capture pid stdout_pipe (codes "failed to capture child stdout")
    capture pid stderr_pipe (codes "failed to capture child stderr")
    start pid stdout_pipe log_path
    start pid stderr_pipe log_path
    status ← lift_io (wait pid)
    join pid stdout_pipe (codes "stdout tee thread panicked")
    join pid stderr_pipe (codes "stderr tee thread panicked")
    pure (pid, status)

  unfoldable pub run_process_foreground_with_env_control :
      List Text
      → Text
      → Map Text
      → List Text
      → Text
      → ProcessLogMode
      → Io Os ProcessError (ℕ × Option ℤ)
  run_process_foreground_with_env_control [] cwd env env_remove log_path mode = fail empty_command
  run_process_foreground_with_env_control (program ∷ args) cwd env env_remove log_path stdout_log =
      do
        let cmd = base_process_command program args cwd env env_remove
        pid ← lift_io (spawn (record cmd { stdin = inherit; stdout = inherit; stderr = inherit }))
        status ← lift_io (wait pid)
        pure (pid, status)
  run_process_foreground_with_env_control (program ∷ args) cwd env env_remove log_path file_log = do
    ensure_log_parent log_path
    lift_io (open_append log_path)
    let cmd = base_process_command program args cwd env env_remove
    pid ←
        lift_io
          (spawn (record cmd { stdin = inherit; stdout = file log_path; stderr = file log_path }))
    status ← lift_io (wait pid)
    pure (pid, status)
  run_process_foreground_with_env_control (program ∷ args) cwd env env_remove log_path tee_log =
      run_process_foreground_tee program args cwd env env_remove log_path

  unfoldable pub run_process_foreground :
      List Text → Text → Map Text → Text → ProcessLogMode → Io Os ProcessError (ℕ × Option ℤ)
  run_process_foreground command cwd env log_path log_mode =
      run_process_foreground_with_env_control command cwd env [] log_path log_mode

  -- `status.success()`
  abbrev is_success : Option ℤ → Bool
  is_success (some (pos n)) = n == 0
  is_success _ = false

  abbrev task_result : Text → Option ℤ → Result ProcessError (Unit {0})
  task_result task_command exit_code =
      if is_success exit_code then ok tt else err (task_command_failed task_command exit_code)

  unfoldable pub run_shell_task_with_env_control :
      Text → Text → Map Text → List Text → Text → Io Os ProcessError (Unit {0})
  run_shell_task_with_env_control task_command cwd env env_remove log_path = do
    create_parent (parent log_path)
    lift_io (open_append log_path)
    let cmd = record (task_command_command task_command) {
      current_dir = some cwd;
      stdin = null;
      stdout = file log_path;
      stderr = file log_path;
    }
    pid ← lift_io (spawn (apply_environment cmd env env_remove))
    status ← lift_io (wait pid)
    lift (task_result task_command status)

  unfoldable pub run_shell_task : Text → Text → Map Text → Text → Io Os ProcessError (Unit {0})
  run_shell_task task_command cwd env log_path =
      run_shell_task_with_env_control task_command cwd env [] log_path
