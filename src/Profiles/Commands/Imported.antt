-- ===== src/Profiles/Commands/Imported.antt =====
-- What an import of profiles leaves in the store.
use launch_code.Prelude.{
  ◌≡◌, refl, sym, ap, ◌∙◌, Bool, true, false, Option, none, some, Result, err, [], ok, map_err,
  arith, ◌==◌, if◌then◌else◌,
}
use launch_code.Prelude.Io.{Io, fail, after_ok, after_lift, pure-eq-ok}
use launch_code.Text.{Text}
use launch_code.Map
use launch_code.Map.{Map}
use launch_code.Map.Merge.{IsDistinct, or_else, get-extend}
use launch_code.Error.{IoError, AppError, profile_bundle_version_unsupported}
use launch_code.Model.{AppState, LaunchSpec}
use launch_code.State.Files.{locked_file}
use launch_code.State.Store.{Serde, World, decode_file, encode, update}
use launch_code.State.Store.Contract.{Updated, update-Updated, lift_os-eq-ok}
use launch_code.Profiles.Steps.{map_err-eq-ok}
use launch_code.Profiles.Commands.{
  ProfileBundle, profile_bundle_version, ConfigImportArgs, BundleFiles, io_result, lift_io,
  change_profiles, import_profiles, import_bundle, handle_config_import,
}

-- The profile that an import leaves under a name.
abbrev pub imported_profile : Bool → Map LaunchSpec → Map LaunchSpec → Text → Option LaunchSpec
imported_profile replace imported profiles name =
    or_else (Map.get name imported) (if replace then none else Map.get name profiles)

-- A run of the command that returned.
pub record Imported {O : Type 0} (json : Serde) (files : BundleFiles O) (args : ConfigImportArgs)
    (w w' : World O) : Type 0 where
  pub text : Text
  pub opened : (os : O) × (files.read_to_string args.file w.os ≡ (ok text, os))
  pub bundle : ProfileBundle
  pub before : AppState
  pub after : AppState
  pub payload : Text
  pub parsed : files.from_str text ≡ ok bundle
  pub supported : bundle.version ≡ profile_bundle_version
  pub decoded : decode_file json (locked_file w.fs) ≡ ok before
  pub merged :
      (name : Text)
      → Map.get name after.profiles
        ≡ imported_profile args.replace bundle.profiles before.profiles name
  pub kept : (after.sessions ≡ before.sessions) × (after.project_info ≡ before.project_info)
  pub encoded : encode json after ≡ ok payload
  pub written : w'.fs.state_file ≡ some payload

get-import_profiles :
    (replace : Bool) (imported profiles : Map LaunchSpec) (name : Text)
    → IsDistinct imported
    → Map.get name (import_profiles replace imported profiles).0
      ≡ imported_profile replace imported profiles name
unfolding import_profiles Map.get
get-import_profiles true imported profiles name d = get-extend name [] imported d
get-import_profiles false imported profiles name d = get-extend name profiles imported d

io_result-eq-ok :
    {A O : Type 0} (r : Result IoError A × O) {a : A} {os : O}
    → io_result r ≡ (ok a, os)
    → r ≡ (ok a, os)
io_result-eq-ok (ok b, u) h = cc
io_result-eq-ok (err e, u) h = cc

module _ {O : Type 0} (json : Serde) (files : BundleFiles O) (args : ConfigImportArgs)
    (distinct : (text : Text) (bundle : ProfileBundle)
      → files.from_str text ≡ ok bundle
      → IsDistinct bundle.profiles)
    (w : World O) where
  merge_bundle :
      (text : Text) (bundle : ProfileBundle) (w₁ : World O) {w' : World O}
      → (os : O) × (files.read_to_string args.file w.os ≡ (ok text, os))
      → files.from_str text ≡ ok bundle
      → bundle.version ≡ profile_bundle_version
      → w₁.fs ≡ w.fs
      → Updated json (change_profiles (import_profiles args.replace bundle.profiles)) w₁ tt w'
      → Imported json files args w w'
  merge_bundle text bundle w₁ opened parsed supported same u = record {
    text = text;
    opened = opened;
    bundle = bundle;
    before = u.before;
    after = u.after;
    payload = u.payload;
    parsed = parsed;
    supported = supported;
    decoded = ap (λ fs. decode_file json (locked_file fs)) (sym same) ∙ u.decoded;
    merged = λ name.
        ap (λ (s : AppState). Map.get name s.profiles) (sym changed)
        ∙ get-import_profiles args.replace bundle.profiles u.before.profiles name
            (distinct text bundle parsed);
    kept = (
      ap (λ (s : AppState). s.sessions) (sym changed),
      ap (λ (s : AppState). s.project_info) (sym changed),
    );
    encoded = u.encoded;
    written = u.written;
  }
    where
      changed :
          record u.before {
            profiles = (import_profiles args.replace bundle.profiles u.before.profiles).0;
          }
          ≡ u.after
      changed = ap (λ (p : AppState × Unit {0}). p.0) (pure-eq-ok u.mutated).0

  check_bundle :
      (text : Text) (bundle : ProfileBundle) (w₁ : World O) {w' : World O}
      → (os : O) × (files.read_to_string args.file w.os ≡ (ok text, os))
      → files.from_str text ≡ ok bundle
      → w₁.fs ≡ w.fs
      → import_bundle json files args.replace bundle w₁ ≡ (ok tt, w')
      → Imported json files args w w'
  unfolding import_bundle
  check_bundle text bundle w₁ {w' = w'} opened parsed same h =
      decided (bundle.version == profile_bundle_version) refl h
    where
      mutate : AppState → Io O AppError (AppState × Unit {0})
      mutate = change_profiles (import_profiles args.replace bundle.profiles)

      decided :
          (b : Bool)
          → (bundle.version == profile_bundle_version) ≡ b
          → (if b
                then update json AppError.state mutate
                else fail (profile_bundle_version_unsupported bundle.version))
              w₁
            ≡ (ok tt, w')
          → Imported json files args w w'
      decided true v k =
          merge_bundle text bundle w₁ opened parsed (ground arith) same
            (update-Updated json AppError.state mutate w₁ k)
      decided false v k = cc

  -- An import that returns has read the file that it names, a bundle of the supported version, and left in the store the
  -- bundle's profiles over those that were there, which it dropped if it was to replace them.
  pub handle_config_import-Imported :
      (w' : World O)
      → handle_config_import json files args w ≡ (ok tt, w')
      → Imported json files args w w'
  unfolding handle_config_import import_bundle
  handle_config_import-Imported w' h =
      after_ok (lift_io (files.read_to_string args.file)) _ w h λ text w₁ read h₁.
        after_lift (map_err AppError.json (files.from_str text)) _ w₁ h₁ λ bundle parsed h₂.
          let r = lift_os-eq-ok (λ os. io_result (files.read_to_string args.file os)) w read in
          check_bundle text bundle w₁
            (w₁.os, io_result-eq-ok (files.read_to_string args.file w.os) r.0)
            (map_err-eq-ok AppError.json _ parsed) r.1 h₂
