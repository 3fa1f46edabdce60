-- ===== src/Profiles/Commands.antt =====
-- The commands of src/app/config_ops.rs that read and change the profiles of the store, without what
-- they print. The bundle's file is `BundleFiles`.
pub mod Imported
use launch_code.Prelude.{
  ℕ, Bool, true, false, Option, none, some, [], Result, map_err, ok, err, ok_or, ◌==◌,
  if◌then◌else◌, is_empty,
}
use launch_code.Prelude.Io.{Io, ◌>>=◌, ◌>>◌, pure, fail, lift}
use launch_code.Text.{Text}
use launch_code.Map
use launch_code.Map.{Map}
use launch_code.Error.{
  AppError, profile_not_found, profile_bundle_version_unsupported, profile_validation_failed, App,
  IoError,
}
use launch_code.Model.{AppState, LaunchSpec}
use launch_code.State.Store.{Serde, World, lift_fs, lift_os, load, update}
use launch_code.Profiles.{ConfigSaveArgs, ConfigRunArgs, build_profile_spec, config_run_spec}

pub record ProfileBundle : Type 0 where
  pub version : ℕ
  pub profiles : Map LaunchSpec

abbrev pub profile_bundle_version : ℕ
profile_bundle_version = 1

pub record ConfigImportArgs : Type 0 where
  pub file : Text
  pub replace : Bool

-- `fs::create_dir_all` and `fs::write`, `Path::parent`, `fs::read_to_string` and `serde_json`.
pub record BundleFiles (O : Type 0) : Type 0 where
  pub parent : Text → Option Text
  pub create_dir_all : Text → Io O IoError (Unit {0})
  pub write : Text → Text → Io O IoError (Unit {0})
  pub read_to_string : Text → Io O IoError Text
  pub from_str : Text → Result Text ProfileBundle
  pub to_string_pretty : ProfileBundle → Result Text Text

module _ {O : Type 0} where
  abbrev pub io_result : {A : Type 0} → Result IoError A × O → Result AppError A × O
  io_result (ok a, os) = (ok a, os)
  io_result (err e, os) = (err (AppError.io e), os)

  abbrev pub lift_io : {A : Type 0} → Io O IoError A → Io (World O) AppError A
  lift_io m = lift_os (λ os. io_result (m os))

  -- A mutation of the profiles that calls nothing outside.
  abbrev pub change_profiles :
      {R : Type 0} → (Map LaunchSpec → Map LaunchSpec × R) → AppState → Io O AppError (AppState × R)
  change_profiles change state =
      let next = change state.profiles in pure (record state { profiles = next.0 }, next.1)

-- The mutation of `config import`.
unfoldable pub import_profiles : Bool → Map LaunchSpec → Map LaunchSpec → Map LaunchSpec × Unit {0}
import_profiles replace imported profiles =
    (Map.extend (if replace then [] else profiles) imported, tt)

module _ (json : Serde) {O : Type 0} where
  unfoldable pub handle_config_show : Text → Io (World O) AppError LaunchSpec
  handle_config_show name = do
    state ← lift_fs AppError.state (load json)
    lift (ok_or (Map.get name state.profiles) (profile_not_found name))

  unfoldable pub handle_config_save :
      (Text → Bool)
      → (Text → Text → Text)
      → Result IoError Text
      → ConfigSaveArgs
      → Io (World O) AppError (Unit {0})
  handle_config_save is_absolute join current_dir args = do
    spec ← lift (build_profile_spec is_absolute join current_dir args)
    update json AppError.state
        (change_profiles (λ profiles. (Map.insert args.name spec profiles, tt)))

  abbrev removed_or : Text → Option LaunchSpec → Io (World O) AppError (Unit {0})
  removed_or name none = fail (profile_not_found name)
  removed_or name (some spec) = pure tt

  unfoldable pub handle_config_delete : Text → Io (World O) AppError (Unit {0})
  handle_config_delete name = do
    removed ←
        update json AppError.state
          (change_profiles (λ profiles. (Map.remove name profiles, Map.get name profiles)))
    removed_or name removed

  -- Up to `handle_start_spec`, with the specification that it gets.
  unfoldable pub handle_config_run :
      (Text → Result IoError Text) → ConfigRunArgs → Io (World O) AppError LaunchSpec
  handle_config_run read_to_string args = do
    state ← lift_fs AppError.state (load json)
    lift (config_run_spec read_to_string args state.profiles)

  module _ (files : BundleFiles O) where
    open files use {parent, create_dir_all, write, read_to_string, from_str, to_string_pretty}

    unfoldable pub create_parent : Option Text → Io (World O) AppError (Unit {0})
    create_parent none = pure tt
    create_parent (some dir) = if is_empty dir then pure tt else lift_io (create_dir_all dir)

    unfoldable pub handle_config_export : Text → Io (World O) AppError (Unit {0})
    handle_config_export file = do
      state ← lift_fs AppError.state (load json)
      create_parent (parent file)
      payload ← lift (
          map_err AppError.json (
            to_string_pretty
              (record { version = profile_bundle_version; profiles = state.profiles })))
      lift_io (write file payload)

    -- The version of a bundle is looked at before anything is changed.
    unfoldable pub import_bundle : Bool → ProfileBundle → Io (World O) AppError (Unit {0})
    unfolding import_profiles
    import_bundle replace bundle =
        if bundle.version == profile_bundle_version
        then update json AppError.state (change_profiles (import_profiles replace bundle.profiles))
        else fail (profile_bundle_version_unsupported bundle.version)

    unfoldable pub handle_config_import : ConfigImportArgs → Io (World O) AppError (Unit {0})
    unfolding import_bundle
    handle_config_import args = do
      payload ← lift_io (read_to_string args.file)
      bundle ← lift (map_err AppError.json (from_str payload))
      import_bundle args.replace bundle
