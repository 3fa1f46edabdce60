-- ===== src/LaunchConfig.antt =====
-- src/config.rs: a launch specification from a launch file. Paths, files, variables of the
-- environment and `serde_json` are `Outside`.
pub mod Template
pub mod Environment
pub mod Variables
pub mod Consistent
use launch_code.Prelude.{
  ℕ, Bool, true, false, not, ◌&&◌, ◌||◌, Option, none, some, List, [], ◌∷◌, Result, ok, err, ◌>>=◌,
  ◌>>◌, ok_or, map_err, unwrap_or, if◌then◌else◌,
}
use launch_code.Text
use launch_code.Text.{Text, codes, to_ascii_lowercase}
use launch_code.Map
use launch_code.Map.{Map}
use launch_code.Error.{
  ConfigError, launch_file_not_found, config_not_found, unsupported_runtime_type, missing_program,
  invalid_env_file_line, io, json, EnvFileError, invalid_line, IoError,
}
use launch_code.Model.{
  RuntimeKind, python, node, rust, go, LaunchMode, run, debug_mode, LogRetention, temporary,
  DebugConfig, LaunchSpec,
}
use launch_code.EnvFile.{parse_env_file_map}
use launch_code.LaunchConfig.Template.{expand_template_string}
use launch_code.LaunchConfig.Environment.{LaunchEnvValue, EnvChanges, launch_environment}

pub record LaunchConfiguration : Type 0 where
  pub name : Text
  pub runtime_type : Text
  pub request : Option Text
  pub program : Option Text
  pub args : Option (List Text)
  pub cwd : Option Text
  pub env : Option (Map LaunchEnvValue)
  pub env_file : Option Text
  pub python : Option Text
  pub python_path : Option Text
  pub managed : Option Bool
  pub log_retention : Option LogRetention
  pub debug_host : Option Text
  pub debug_port : Option ℕ
  pub wait_for_client : Option Bool
  pub sub_process : Option Bool
  pub prelaunch_task : Option Text
  pub post_debug_task : Option Text
  pub post_stop_task : Option Text

pub record LaunchFile : Type 0 where
  pub configurations : List LaunchConfiguration

pub record LaunchRequest : Type 0 where
  pub name : Text
  pub mode : LaunchMode
  pub managed_override : Option Bool
  pub log_retention_override : Option LogRetention
  pub launch_file : Option Text

-- `parent`, `file_name`, `join` and `is_absolute` are those of `Path`; `file_name` is none where it is
-- not UTF-8.
pub record Outside : Type 0 where
  pub exists : Text → Bool
  pub parent : Text → Option Text
  pub file_name : Text → Option Text
  pub join : Text → Text → Text
  pub is_absolute : Text → Bool
  pub variable : Text → Option Text
  pub read_to_string : Text → Result IoError Text
  pub from_str : Text → Result Text LaunchFile

abbrev pub or_option : {A : Type 0} → Option A → Option A → Option A
or_option (some a) b = some a
or_option none b = b

unfoldable pub runtime_named : Text → Text → Result ConfigError RuntimeKind
runtime_named kind original =
    if Text.eq kind (codes "python")
    then ok python
    else if Text.eq kind (codes "node")
        || Text.eq kind (codes "pwa-node")
        || Text.eq kind (codes "node-terminal")
    then ok node
    else if Text.eq kind (codes "rust")
        || Text.eq kind (codes "lldb")
        || Text.eq kind (codes "codelldb")
    then ok rust
    else if Text.eq kind (codes "go")
    then ok go
    else err (unsupported_runtime_type original)

unfoldable pub map_runtime : Text → Result ConfigError RuntimeKind
unfolding runtime_named
map_runtime kind = runtime_named (to_ascii_lowercase kind) (to_ascii_lowercase kind)

unfoldable pub find_configuration : Text → List LaunchConfiguration → Option LaunchConfiguration
find_configuration name [] = none
find_configuration name (item ∷ items) =
    let rest = find_configuration name items in if Text.eq item.name name then some item else rest

abbrev is_debug_request : Option Text → Bool
is_debug_request none = false
is_debug_request (some request) = Text.eq (to_ascii_lowercase request) (codes "debug")

unfoldable pub launch_mode : LaunchMode → Option Text → LaunchMode
launch_mode debug_mode request = debug_mode
launch_mode run request = if is_debug_request request then debug_mode else run

unfoldable pub debug_config : LaunchMode → LaunchConfiguration → Option DebugConfig
debug_config run config = none
debug_config debug_mode config = some (record {
  host = unwrap_or config.debug_host (codes "127.0.0.1");
  port = unwrap_or config.debug_port 5678;
  wait_for_client = unwrap_or config.wait_for_client true;
  subprocess = unwrap_or config.sub_process true;
})

abbrev config_error : EnvFileError → ConfigError
config_error (invalid_line line) = invalid_env_file_line line
config_error (EnvFileError.io e) = ConfigError.io e

module _ (outside : Outside) where
  open outside use {
    exists, parent, file_name, join, is_absolute, variable, read_to_string, from_str,
  }

  abbrev explicit_file : Text → Result ConfigError Text
  explicit_file path = if exists path then ok path else err launch_file_not_found

  unfoldable pub resolve_launch_file : Text → Option Text → Result ConfigError Text
  resolve_launch_file root (some path) = explicit_file path
  resolve_launch_file root none =
      let vscode_path = join root (codes ".vscode/launch.json") in
      let local_path = join root (codes ".launch-code/launch.json") in
      if exists vscode_path
      then ok vscode_path
      else if exists local_path
      then ok local_path
      else err launch_file_not_found

  abbrev is_vscode : Option Text → Bool
  is_vscode none = false
  is_vscode (some name) = Text.eq name (codes ".vscode")

  unfoldable pub infer_workspace_root : Text → Text
  infer_workspace_root launch_file =
      let launch_dir = unwrap_or (parent launch_file) (codes ".") in
      if is_vscode (file_name launch_dir)
      then unwrap_or (parent launch_dir) launch_dir
      else launch_dir

  unfoldable pub resolve_path_string : Text → Text → Text
  resolve_path_string base value =
      let expanded = expand_template_string variable base (unwrap_or (file_name base) []) value in
      if is_absolute expanded then expanded else join base expanded

  unfoldable pub parse_env_file : Text → Result ConfigError (Map Text)
  parse_env_file path = map_err config_error (parse_env_file_map (read_to_string path))

  abbrev pub env_file_variables : Text → Option Text → Result ConfigError (Map Text)
  env_file_variables workspace none = ok []
  env_file_variables workspace (some env_file) =
      parse_env_file (resolve_path_string workspace env_file)

  abbrev resolved_option : Text → Option Text → Option Text
  resolved_option workspace none = none
  resolved_option workspace (some path) = some (resolve_path_string workspace path)

  unfoldable pub launch_spec :
      Text → LaunchRequest → LaunchConfiguration → Result ConfigError LaunchSpec
  launch_spec workspace request config = do
    runtime ← map_runtime config.runtime_type
    program ← ok_or config.program (missing_program config.name)
    from_file ← env_file_variables workspace config.env_file
    let changes =
        launch_environment from_file (unwrap_or config.env [])
          (resolved_option workspace (or_option config.python config.python_path))
    let mode = launch_mode request.mode config.request
    ok (record {
      name = config.name;
      runtime = runtime;
      entry = resolve_path_string workspace program;
      args = unwrap_or config.args [];
      cwd = unwrap_or (resolved_option workspace config.cwd) workspace;
      env = changes.env_map;
      env_files = [];
      env_remove = Map.keys changes.env_remove;
      managed = unwrap_or request.managed_override (unwrap_or config.managed false);
      mode = mode;
      log_retention =
          unwrap_or request.log_retention_override (unwrap_or config.log_retention temporary);
      debug = debug_config mode config;
      prelaunch_task = config.prelaunch_task;
      poststop_task = or_option config.post_stop_task config.post_debug_task;
    })

  unfoldable pub load_launch_spec : Text → LaunchRequest → Result ConfigError LaunchSpec
  load_launch_spec workspace_root request = do
    launch_path ← resolve_launch_file workspace_root request.launch_file
    payload ← map_err ConfigError.io (read_to_string launch_path)
    launch_file ← map_err json (from_str payload)
    config ←
        ok_or (find_configuration request.name launch_file.configurations)
          (config_not_found request.name)
    launch_spec (infer_workspace_root launch_path) request config
