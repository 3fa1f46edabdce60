-- ===== src/Tests/Configs.antt =====
-- Profiles at concrete inputs.
use mathlib.Core.Path.{subst}
use launch_code.Prelude.{
  ℕ, ◌≡◌, refl, true, false, none, some, List, [], ◌∷◌, ◌++◌, Result, ok, err, keep,
}
use launch_code.Text
use launch_code.Text.{Text, codes, split_once, mem, trim, is_whitespace}
use launch_code.Map
use launch_code.Map.{Map}
use launch_code.Map.Merge.{IsDistinct}
use launch_code.Error.{IoError, not_found}
use launch_code.Model.{
  LaunchSpec, app_state_default, node, run, debug_mode, persistent, temporary, debug_config_default,
}
use launch_code.Runtime.{build_command}
use launch_code.Runtime.Node
use launch_code.Runtime.Backend.{for_runtime}
use launch_code.State.Files.{touch, lock, open_tmp, write_tmp, rename_tmp}
use launch_code.State.Migrate.{migrate_state, migrate_sessions}
use launch_code.State.Store.{
  Serde, World, load_existing, load_unlocked, replace_file, encode, save_unlocked, open_lock_file,
  update, update_locked,
}
use launch_code.LaunchConfig.Consistent.{IsConsistent}
use launch_code.Profiles.{
  debug_arg, temporary_arg, ConfigRunArgs, to_log_retention, parse_env_map, parse_env_items,
  remove_env_remove_keys, with_mode, with_options, set_all, extend_spec_env_from_files,
  materialize_profile_env_files, override_env, config_run_spec,
}
use launch_code.Profiles.Consistent.{config_run_spec-IsConsistent}
use launch_code.Profiles.Validate.{
  Probes, validate_profile_spec, check_cwd, check_entry, check_entry_path, check_command,
  check_mode, check_debugger, check_tool,
}
use launch_code.Profiles.Validate.Ready.{Ready, validate_profile_spec-Ready}
use launch_code.Profiles.Commands.{
  BundleFiles, ConfigImportArgs, ProfileBundle, handle_config_import, import_bundle,
  import_profiles,
}
use launch_code.Profiles.Commands.Imported.{Imported, handle_config_import-Imported}

abbrev profile : LaunchSpec
profile = record {
  name = codes "web";
  runtime = node;
  entry = codes "app.js";
  args = [];
  cwd = codes "/p";
  env = [];
  env_files = [];
  env_remove = codes "A" ∷ [];
  managed = false;
  mode = run;
  log_retention = persistent;
  debug = none;
  prelaunch_task = none;
  poststop_task = none;
}

abbrev profiles : Map LaunchSpec
profiles = (codes "web", profile) ∷ []

abbrev run_args : ConfigRunArgs
run_args = record {
  name = codes "web";
  mode = some debug_arg;
  log_retention = some temporary_arg;
  managed = false;
  clear_args = false;
  clear_env = false;
  env_file = [];
  args = codes "--port" ∷ [];
  env = codes "A=1" ∷ [];
}

abbrev run_spec : LaunchSpec
run_spec = record profile {
  mode = debug_mode;
  debug = some debug_config_default;
  log_retention = temporary;
  args = codes "--port" ∷ [];
  env = (codes "A", codes "1") ∷ [];
  env_remove = [];
}

abbrev no_file : Text → Result IoError Text
no_file path = err (record { kind = not_found; message = [] })

profile-IsConsistent : IsConsistent profile
unfolding Map.get
profile-IsConsistent = record { debugger = (λ h. cc, λ h. cc); apart = λ key h. cc }

profile_found : Map.get (codes "web") profiles ≡ some profile
unfolding Map.get Text.eq
profile_found = refl

profile_runs : config_run_spec no_file run_args profiles ≡ ok run_spec
unfolding config_run_spec Map.get Text.eq with_mode with_options to_log_retention
    materialize_profile_env_files extend_spec_env_from_files override_env parse_env_map
    parse_env_items split_once Map.insert set_all Map.extend remove_env_remove_keys Map.keys keep
profile_runs = refl

config_run_spec-IsConsistent_example : IsConsistent run_spec
config_run_spec-IsConsistent_example =
    config_run_spec-IsConsistent no_file run_args profiles profile run_spec profile_found
      profile-IsConsistent profile_runs

-- Everything exists, and every probe succeeds.
abbrev all_there : Probes
all_there = record {
  exists = λ path. true;
  is_dir = λ path. true;
  is_absolute = λ path. false;
  join = λ dir path. dir ++ b'/' ∷ path;
  read_to_string = no_file;
  output = λ cmd. ok true;
  display = λ e. codes "failed";
  display_runtime = λ e. codes "failed";
  display_io = λ e. codes "failed";
}

abbrev passed : List Text
passed =
    codes "cwd_exists=/p"
    ∷ codes "entry_exists=/p/app.js"
    ∷ codes "command_buildable=true"
    ∷ codes "debug_config_present=true"
    ∷ []

profile_passes : validate_profile_spec all_there run_spec ≡ ok passed
unfolding validate_profile_spec materialize_profile_env_files check_cwd check_entry check_entry_path
    check_command check_mode check_debugger check_tool build_command Node.build for_runtime trim
    is_whitespace
profile_passes = refl

validate_profile_spec-Ready_example :
    (effective : LaunchSpec) × (materialize_profile_env_files no_file run_spec ≡ ok effective)
    × Ready all_there effective
validate_profile_spec-Ready_example =
    validate_profile_spec-Ready all_there run_spec passed profile_passes

-- A serializer that says nothing of the state.
abbrev one_text : Serde
one_text = record { to_string_pretty = λ s. ok (codes "1"); from_str = λ t. ok app_state_default }

abbrev bundle_files : BundleFiles ℕ
bundle_files = record {
  parent = λ path. none;
  create_dir_all = λ dir n. (ok tt, n);
  write = λ path payload n. (ok tt, n);
  read_to_string = λ path n. (ok (codes "bundle"), n);
  from_str = λ text. ok (record { version = 1; profiles = profiles });
  to_string_pretty = λ bundle. ok (codes "bundle");
}

abbrev import_args : ConfigImportArgs
import_args = record { file = codes "b.json"; replace = true }

abbrev before_import : World ℕ
before_import = record {
  fs = record { state_file = none; tmp_file = none; faults = []; others = [] };
  os = 0;
}

abbrev after_import : World ℕ
after_import = record { fs = record before_import.fs { state_file = some (codes "1") }; os = 0 }

profiles_imported :
    handle_config_import one_text bundle_files import_args before_import ≡ (ok tt, after_import)
unfolding handle_config_import import_bundle import_profiles update update_locked load_unlocked
    load_existing save_unlocked encode replace_file open_lock_file touch lock open_tmp write_tmp
    rename_tmp migrate_state migrate_sessions
profiles_imported = refl

handle_config_import-Imported_example :
    Imported one_text bundle_files import_args before_import after_import
unfolding Map.get
handle_config_import-Imported_example =
    handle_config_import-Imported one_text bundle_files import_args distinct before_import
      after_import profiles_imported
  where
    distinct :
        (text : Text) (bundle : ProfileBundle)
        → bundle_files.from_str text ≡ ok bundle
        → IsDistinct bundle.profiles
    distinct text bundle h = subst (λ (b : ProfileBundle). IsDistinct b.profiles) same (refl, tt)
      where
        same : record { version = 1; profiles = profiles } ≡ bundle
        same = cc
