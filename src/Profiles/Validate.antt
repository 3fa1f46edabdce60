-- ===== src/Profiles/Validate.antt =====
-- `validate_profile_spec`: what is checked of a profile, in the order of the checks. The file system,
-- the commands that probe the debuggers and the texts of errors are `Probes`.
pub mod Ready
use launch_code.Prelude.{
  Bool, true, false, not, Option, none, some, List, [], ◌∷◌, ◌++◌, Result, ok, err, ◌>>=◌, ◌>>◌,
  ok_or, map_err, is_none, if◌then◌else◌,
}
use launch_code.Text.{Text, codes}
use launch_code.Map.{Map}
use launch_code.Error.{
  AppError, App, profile_validation_failed, profile_not_found, IoError, RuntimeError,
}
use launch_code.Model.{RuntimeKind, python, node, rust, go, run, debug_mode, LaunchSpec}
use launch_code.Process.{Command}
use launch_code.Process.Spawn.{base_process_command}
use launch_code.Batch.{runtime_label}
use launch_code.Runtime.{build_command}
use launch_code.Runtime.Backend.{
  DebugBackendKind, python_debugpy, node_inspector, go_delve, for_runtime, requires_python_debugpy,
}
use launch_code.Runtime.Python.{python_executable}
use launch_code.Profiles.{materialize_profile_env_files}

-- `output` runs a command and says whether it succeeded.
pub record Probes : Type 0 where
  pub exists : Text → Bool
  pub is_dir : Text → Bool
  pub is_absolute : Text → Bool
  pub join : Text → Text → Text
  pub read_to_string : Text → Result IoError Text
  pub output : Command → Result IoError Bool
  pub display : AppError → Text
  pub display_runtime : RuntimeError → Text
  pub display_io : IoError → Text

abbrev pub failed : {A : Type 0} → Text → App A
failed message = err (profile_validation_failed message)

abbrev pub require : Bool → Text → App (Unit {0})
require b message = if b then ok tt else failed message

module _ (probes : Probes) where
  open probes use {
    exists, is_dir, is_absolute, join, read_to_string, output, display, display_runtime, display_io,
  }

  abbrev pub setup_failure : AppError → AppError
  setup_failure e = profile_validation_failed (codes "env setup failed: " ++ display e)

  abbrev pub build_failure : RuntimeError → AppError
  build_failure e = profile_validation_failed (codes "build command failed: " ++ display_runtime e)

  unfoldable pub check_cwd : LaunchSpec → App (List Text)
  check_cwd spec = do
    require (exists spec.cwd) (codes "cwd not found: " ++ spec.cwd)
    require (is_dir spec.cwd) (codes "cwd is not a directory: " ++ spec.cwd)
    ok ((codes "cwd_exists=" ++ spec.cwd) ∷ [])

  abbrev entry_path : LaunchSpec → Text
  entry_path spec = if is_absolute spec.entry then spec.entry else join spec.cwd spec.entry

  unfoldable pub check_manifest : LaunchSpec → App (List Text)
  check_manifest spec =
      let manifest = join spec.cwd (codes "Cargo.toml") in
      do
        require (exists manifest) (codes "Cargo.toml not found for rust runtime: " ++ manifest)
        ok ((codes "cargo_manifest_exists=" ++ manifest) ∷ [])

  unfoldable pub check_entry_path : LaunchSpec → App (List Text)
  check_entry_path spec = do
    require (exists (entry_path spec)) (codes "entry not found: " ++ entry_path spec)
    ok ((codes "entry_exists=" ++ entry_path spec) ∷ [])

  unfoldable pub check_entry : LaunchSpec → App (List Text)
  check_entry spec = elim spec.runtime [
    | rust ↦ check_manifest spec
    | python ↦ check_entry_path spec
    | node ↦ check_entry_path spec
    | go ↦ check_entry_path spec
  ]

  unfoldable pub check_command : LaunchSpec → App (List Text)
  check_command spec = do
    map_err build_failure (build_command join exists spec)
    ok (codes "command_buildable=true" ∷ [])

  abbrev probe : LaunchSpec → Text → List Text → Result IoError Bool
  probe spec program args =
      output (base_process_command program args spec.cwd spec.env spec.env_remove)

  unfoldable pub check_debugpy : LaunchSpec → App (List Text)
  check_debugpy spec =
      let interpreter = python_executable join exists spec in
      do
        success ←
            map_err
              (λ e. profile_validation_failed (
                codes "python debugpy check failed for interpreter `"
                ++ interpreter
                ++ codes "`: "
                ++ display_io e))
              (probe spec interpreter (codes "-c" ∷ codes "import debugpy" ∷ []))
        require success (codes "debugpy unavailable for interpreter `" ++ interpreter ++ codes "`")
        ok ((codes "python_debugpy_ready=" ++ interpreter) ∷ [])

  unfoldable pub check_delve : LaunchSpec → App (List Text)
  check_delve spec = do
    success ←
        map_err
          (λ e. profile_validation_failed (codes "dlv version check failed: " ++ display_io e))
          (probe spec (codes "dlv") (codes "version" ∷ []))
    require success (codes "dlv unavailable in PATH for go debug runtime")
    ok (codes "go_dlv_ready=true" ∷ [])

  unfoldable pub check_tool : DebugBackendKind → LaunchSpec → App (List Text)
  check_tool python_debugpy spec = check_debugpy spec
  check_tool node_inspector spec = ok []
  check_tool go_delve spec = check_delve spec

  unfoldable pub check_debugger : LaunchSpec → App (List Text)
  check_debugger spec = do
    backend ← ok_or (for_runtime spec.runtime) (
        profile_validation_failed (
          codes "debug mode currently supports python, node, and go runtimes only; found "
          ++ runtime_label spec.runtime))
    if is_none spec.debug then failed (codes "debug mode requires debug config") else ok tt
    checks ← check_tool backend spec
    ok (codes "debug_config_present=true" ∷ checks)

  unfoldable pub check_mode : LaunchSpec → App (List Text)
  check_mode spec = elim spec.mode [ run ↦ ok [] | debug_mode ↦ check_debugger spec ]

  unfoldable pub validate_profile_spec : LaunchSpec → App (List Text)
  validate_profile_spec spec = do
    effective ← map_err setup_failure (materialize_profile_env_files read_to_string spec)
    cwd_checks ← check_cwd effective
    entry_checks ← check_entry effective
    command_checks ← check_command effective
    mode_checks ← check_mode effective
    ok (cwd_checks ++ entry_checks ++ command_checks ++ mode_checks)

  -- The loop of `config validate --all`: how many profiles are valid, or the first that is not.
  abbrev in_profile : Text → AppError → AppError
  in_profile name (profile_validation_failed message) =
      profile_validation_failed (codes "profile `" ++ name ++ codes "`: " ++ message)
  in_profile name e = e

  unfoldable pub validate_all : Map LaunchSpec → App (List (Text × List Text))
  validate_all [] = ok []
  validate_all ((name, spec) ∷ profiles) = do
    checks ← map_err (in_profile name) (validate_profile_spec spec)
    rest ← validate_all profiles
    ok ((name, checks) ∷ rest)
