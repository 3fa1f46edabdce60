-- ===== src/Error.antt =====
-- The error values: src/error.rs, and the error types of the components that it wraps
-- (src/state.rs, src/process.rs, src/runtime/mod.rs, src/debug.rs, src/config.rs, src/envfile.rs).
-- An error carries the texts that the code puts in it. `std::io::Error` is its kind and its text,
-- `serde_json::Error` is its text.
pub mod Codes
use launch_code.Prelude.{ℕ, Option, Result}
use launch_code.Prelude.Int.{ℤ}
use launch_code.Text.{Text}

-- The kinds of `std::io::ErrorKind` that the program tells apart.
pub data ErrorKind : Type 0 where
  not_found invalid_input connection_refused other_kind : ErrorKind

pub record IoError : Type 0 where
  pub kind : ErrorKind
  pub message : Text

pub data StateError : Type 0 where
  io : IoError → StateError
  serde : Text → StateError
  unsupported_state_schema_version : ℕ → ℕ → StateError

pub data ProcessError : Type 0 where
  empty_command : ProcessError
  io : IoError → ProcessError
  signal : ℕ → ℕ → IoError → ProcessError
  stop_timeout : ℕ → ℕ → ProcessError
  task_command_failed : Text → Option ℤ → ProcessError
  unsupported_operation : Text → ProcessError

pub data RuntimeError : Type 0 where
  missing_entry : RuntimeError
  invalid_entry : Text → RuntimeError

pub data DebugError : Type 0 where
  invalid_endpoint : Text → ℕ → IoError → DebugError
  fallback_bind_failed : Text → IoError → DebugError

pub data ConfigError : Type 0 where
  launch_file_not_found : ConfigError
  config_not_found unsupported_runtime_type missing_program : Text → ConfigError
  invalid_env_file_line : Text → ConfigError
  io : IoError → ConfigError
  json : Text → ConfigError

pub data EnvFileError : Type 0 where
  invalid_line : Text → EnvFileError
  io : IoError → EnvFileError

pub data AppError : Type 0 where
  io : IoError → AppError
  json : Text → AppError
  runtime : RuntimeError → AppError
  debug : DebugError → AppError
  config : ConfigError → AppError
  state : StateError → AppError
  process : ProcessError → AppError
  session_not_found session_id_ambiguous session_missing_pid : Text → AppError
  session_missing_debug_meta session_missing_log_path session_state_changed : Text → AppError
  profile_not_found : Text → AppError
  profile_bundle_version_unsupported : ℕ → AppError
  profile_validation_failed invalid_env_pair invalid_env_file_line : Text → AppError
  invalid_log_regex invalid_log_time_window : Text → AppError
  python_debugpy_unavailable go_dlv_unavailable : AppError
  unsupported_debug_runtime unsupported_dap_runtime : Text → AppError
  http dap link_not_found invalid_link_path : Text → AppError
  invalid_start_options invalid_build_options unsupported_build_runtime : Text → AppError
  build_failed runtime_readiness_failed confirmation_required : Text → AppError

abbrev pub App : Type 0 → Type 0
App = Result AppError
