-- ===== src/Profiles.antt =====
-- src/app/spec_ops.rs and the profiles of src/app/config_ops.rs: the launch specification of a
-- start, of a profile that is saved, and of a profile that is run with overrides. The file reader and
-- the current directory are arguments.
mod Steps
pub mod Validate
pub mod Commands
pub mod Consistent
use launch_code.Prelude.{
  ℕ, Bool, true, false, not, Option, none, some, List, [], ◌∷◌, ◌++◌, Result, ok, err, ◌>>=◌, ◌>>◌,
  ok_or, map_err, unwrap_or, is_none, is_empty, keep, if◌then◌else◌,
}
use launch_code.Text
use launch_code.Text.{Text, codes, split_once}
use launch_code.Map
use launch_code.Map.{Map}
use launch_code.Error.{
  AppError, App, profile_not_found, invalid_env_pair, IoError, EnvFileError, invalid_line,
}
use launch_code.Model.{
  RuntimeKind, python, node, rust, go, LaunchMode, run, debug_mode, LogRetention, temporary,
  persistent, DebugConfig, debug_config_default, LaunchSpec,
}
use launch_code.EnvFile.{parse_env_file_map}
use launch_code.Batch.{runtime_label}

pub data RuntimeArg : Type 0 where
  python_arg node_arg rust_arg go_arg : RuntimeArg

pub data LaunchModeArg : Type 0 where
  run_arg debug_arg : LaunchModeArg

pub data LogRetentionArg : Type 0 where
  temporary_arg persistent_arg : LogRetentionArg

-- What `build_launch_spec` reads of the options of a start.
pub record StartArgs : Type 0 where
  pub name : Option Text
  pub runtime : RuntimeArg
  pub entry : Text
  pub cwd : Text
  pub args : List Text
  pub env : List Text
  pub env_file : List Text
  pub managed : Bool
  pub log_retention : LogRetentionArg

pub record ConfigSaveArgs : Type 0 where
  pub name : Text
  pub runtime : RuntimeArg
  pub entry : Text
  pub cwd : Text
  pub args : List Text
  pub env : List Text
  pub env_file : List Text
  pub managed : Bool
  pub mode : LaunchModeArg
  pub host : Text
  pub port : ℕ
  pub wait_for_client : Bool
  pub subprocess : Bool
  pub log_retention : LogRetentionArg
  pub prelaunch_task : Option Text
  pub poststop_task : Option Text

pub record ConfigRunArgs : Type 0 where
  pub name : Text
  pub mode : Option LaunchModeArg
  pub log_retention : Option LogRetentionArg
  pub managed : Bool
  pub clear_args : Bool
  pub clear_env : Bool
  pub env_file : List Text
  pub args : List Text
  pub env : List Text

unfoldable pub to_runtime_kind : RuntimeArg → RuntimeKind
to_runtime_kind python_arg = python
to_runtime_kind node_arg = node
to_runtime_kind rust_arg = rust
to_runtime_kind go_arg = go

unfoldable pub to_launch_mode : LaunchModeArg → LaunchMode
to_launch_mode run_arg = run
to_launch_mode debug_arg = debug_mode

unfoldable pub to_log_retention : LogRetentionArg → LogRetention
to_log_retention temporary_arg = temporary
to_log_retention persistent_arg = persistent

unfoldable pub parse_env_items : List Text → Map Text → App (Map Text)
parse_env_items [] env_map = ok env_map
parse_env_items (item ∷ items) env_map = do
  pair ← ok_or (split_once b'=' item) (invalid_env_pair item)
  parse_env_items items (Map.insert pair.0 pair.1 env_map)

unfoldable pub parse_env_map : List Text → App (Map Text)
unfolding parse_env_items
parse_env_map items = parse_env_items items []

unfoldable pub app_error : EnvFileError → AppError
app_error (invalid_line line) = AppError.invalid_env_file_line line
app_error (EnvFileError.io e) = AppError.io e

unfoldable pub remove_env_remove_keys : List Text → List Text → List Text
remove_env_remove_keys env_remove [] = env_remove
remove_env_remove_keys env_remove (key ∷ keys) =
    remove_env_remove_keys (keep (λ item. not (Text.eq item key)) env_remove) keys

-- `clone` and the two clears.
unfoldable pub clear_environment : LaunchSpec → LaunchSpec
clear_environment spec = record spec { env = []; env_files = []; env_remove = [] }

-- The override of the mode.
unfoldable pub with_mode : Option LaunchModeArg → LaunchSpec → LaunchSpec
with_mode none spec = spec
with_mode (some debug_arg) spec = record spec {
  mode = debug_mode;
  debug = some (unwrap_or spec.debug debug_config_default);
}
with_mode (some run_arg) spec = record spec { mode = run; debug = none }

-- The overrides of the log retention, of the supervision and of the arguments.
unfoldable pub with_options : ConfigRunArgs → LaunchSpec → LaunchSpec
with_options args spec = record spec {
  log_retention = elim args.log_retention [
    | none ↦ spec.log_retention
    | some retention ↦ to_log_retention retention
  ];
  managed = if args.managed then true else spec.managed;
  args = (if args.clear_args then [] else spec.args) ++ args.args;
}

-- Variables that are set are not removed any more.
unfoldable pub set_all : Map Text → LaunchSpec → LaunchSpec
set_all env_map spec = record spec {
  env = Map.extend spec.env env_map;
  env_remove = remove_env_remove_keys spec.env_remove (Map.keys env_map);
}

module _ (read_to_string : Text → Result IoError Text) where
  unfoldable pub spec_env_file : Text → App (Map Text)
  spec_env_file path = map_err app_error (parse_env_file_map (read_to_string path))

  unfoldable pub extend_env : List Text → Map Text → App (Map Text)
  extend_env [] env = ok env
  extend_env (path ∷ paths) env = do
    env_map ← spec_env_file path
    extend_env paths (Map.extend env env_map)

  unfoldable pub build_launch_spec : StartArgs → LaunchMode → Option DebugConfig → App LaunchSpec
  build_launch_spec args mode debug = do
    from_files ← extend_env args.env_file []
    overrides ← parse_env_map args.env
    let runtime = to_runtime_kind args.runtime
    ok (record {
      name = unwrap_or args.name (runtime_label runtime ++ b'-' ∷ args.entry);
      runtime = runtime;
      entry = args.entry;
      args = args.args;
      cwd = args.cwd;
      env = Map.extend from_files overrides;
      env_files = [];
      env_remove = [];
      managed = args.managed;
      mode = mode;
      log_retention = to_log_retention args.log_retention;
      debug = debug;
      prelaunch_task = none;
      poststop_task = none;
    })

  unfoldable pub extend_spec_env_from_file : LaunchSpec → Text → App LaunchSpec
  unfolding set_all
  extend_spec_env_from_file spec env_file = do
    env_map ← spec_env_file env_file
    ok (set_all env_map spec)

  unfoldable pub extend_spec_env_from_files : List Text → LaunchSpec → App LaunchSpec
  extend_spec_env_from_files [] spec = ok spec
  extend_spec_env_from_files (env_file ∷ env_files) spec = do
    next ← extend_spec_env_from_file spec env_file
    extend_spec_env_from_files env_files next

  -- The files start from no variables; the variables of the profile come last.
  unfoldable pub materialize_profile_env_files : LaunchSpec → App LaunchSpec
  unfolding set_all
  materialize_profile_env_files spec = if is_empty spec.env_files then ok spec else do
    effective ← extend_spec_env_from_files spec.env_files (record spec { env = [] })
    ok (record (set_all spec.env effective) { env_files = [] })

  unfoldable pub override_env : List Text → LaunchSpec → App LaunchSpec
  unfolding set_all
  override_env env spec =
      if is_empty env
      then ok spec
      else do overrides ← parse_env_map env; ok (set_all overrides spec)

  -- The specification that `handle_config_run` starts.
  unfoldable pub config_run_spec : ConfigRunArgs → Map LaunchSpec → App LaunchSpec
  config_run_spec args profiles = do
    spec ← ok_or (Map.get args.name profiles) (profile_not_found args.name)
    let chosen = with_options args (with_mode args.mode spec)
    base ←
        if args.clear_env
        then ok (clear_environment chosen)
        else materialize_profile_env_files chosen
    with_files ← extend_spec_env_from_files args.env_file base
    override_env args.env with_files

-- A relative environment file of a profile is one of the current directory.
module _ (is_absolute : Text → Bool) (join : Text → Text → Text)
    (current_dir : Result IoError Text) where
  unfoldable pub from_directory : Text → List Text → List Text
  from_directory dir [] = []
  from_directory dir (path ∷ paths) =
      (if is_absolute path then path else join dir path) ∷ from_directory dir paths

  unfoldable pub normalize_profile_env_files : List Text → App (List Text)
  normalize_profile_env_files env_files =
      if is_empty env_files
      then ok []
      else do dir ← map_err AppError.io current_dir; ok (from_directory dir env_files)

  unfoldable pub profile_debug : ConfigSaveArgs → Option DebugConfig
  profile_debug args = elim (to_launch_mode args.mode) [
    | run ↦ none
    | debug_mode ↦ some (record {
      host = args.host;
      port = args.port;
      wait_for_client = args.wait_for_client;
      subprocess = args.subprocess;
    })
  ]

  unfoldable pub build_profile_spec : ConfigSaveArgs → App LaunchSpec
  unfolding profile_debug
  build_profile_spec args = do
    env ← parse_env_map args.env
    env_files ← normalize_profile_env_files args.env_file
    ok (record {
      name = args.name;
      runtime = to_runtime_kind args.runtime;
      entry = args.entry;
      args = args.args;
      cwd = args.cwd;
      env = env;
      env_files = env_files;
      env_remove = [];
      managed = args.managed;
      mode = to_launch_mode args.mode;
      log_retention = to_log_retention args.log_retention;
      debug = profile_debug args;
      prelaunch_task = args.prelaunch_task;
      poststop_task = args.poststop_task;
    })
