-- ===== src/Profiles/Validate/Ready.antt =====
-- What the checks of a profile say of it.
use launch_code.Prelude.{
  ◌≡◌, refl, Bool, true, false, Option, none, some, List, [], ok, map_err, ok_or, is_some, is_none,
  if◌then◌else◌,
}
use launch_code.Text.{Text, codes}
use launch_code.Error.{App}
use launch_code.Model.{LaunchMode, run, debug_mode, DebugConfig, LaunchSpec}
use launch_code.Runtime.{build_command}
use launch_code.Runtime.Backend.{for_runtime}
use launch_code.Profiles.Steps.{after_result, map_err-eq-ok, ok_or-eq-ok}
use launch_code.Profiles.{materialize_profile_env_files}
use launch_code.Profiles.Validate.{
  Probes, failed, require, setup_failure, build_failure, check_cwd, check_entry, check_command,
  check_mode, check_debugger, validate_profile_spec,
}

require-eq-ok : (b : Bool) (message : Text) {a : Unit {0}} → require b message ≡ ok a → b ≡ true
require-eq-ok true message h = refl
require-eq-ok false message h = cc

-- What passing says of the specification with the variables of its files.
pub record Ready (probes : Probes) (spec : LaunchSpec) : Type 0 where
  pub cwd_exists : probes.exists spec.cwd ≡ true
  pub cwd_is_dir : probes.is_dir spec.cwd ≡ true
  pub command : List Text
  pub buildable : build_command probes.join probes.exists spec ≡ ok command
  pub debuggable :
      spec.mode ≡ debug_mode
      → (is_some spec.debug ≡ true) × (is_some (for_runtime spec.runtime) ≡ true)

module _ (probes : Probes) (spec : LaunchSpec) where
  check_cwd-ok :
      (checks : List Text)
      → check_cwd probes spec ≡ ok checks
      → (probes.exists spec.cwd ≡ true) × (probes.is_dir spec.cwd ≡ true)
  unfolding check_cwd
  check_cwd-ok checks h = after_result (require (probes.exists spec.cwd) _) _ h λ _ found h₁.
      after_result (require (probes.is_dir spec.cwd) _) _ h₁
        λ _ is_dir h₂. (require-eq-ok _ _ found, require-eq-ok _ _ is_dir)

  check_command-ok :
      (checks : List Text)
      → check_command probes spec ≡ ok checks
      → (command : List Text) × (build_command probes.join probes.exists spec ≡ ok command)
  unfolding check_command
  check_command-ok checks h =
      after_result (map_err (build_failure probes) (build_command probes.join probes.exists spec)) _
        h λ command built h₁. (command, map_err-eq-ok (build_failure probes) _ built)

  check_debugger-ok :
      (checks : List Text)
      → check_debugger probes spec ≡ ok checks
      → (is_some spec.debug ≡ true) × (is_some (for_runtime spec.runtime) ≡ true)
  unfolding check_debugger
  check_debugger-ok checks h =
      after_result (ok_or (for_runtime spec.runtime) _) _ h λ backend found h₁.
        after_result
          (if is_none spec.debug then failed (codes "debug mode requires debug config") else ok tt)
          _ h₁
          λ _ configured h₂.
            (given spec.debug _ configured, cc (ok_or-eq-ok (for_runtime spec.runtime) _ found))
    where
      given :
          (debug : Option DebugConfig) (message : Text) {a : Unit {0}}
          → (if is_none debug then failed message else ok tt) ≡ ok a
          → is_some debug ≡ true
      given none message h = cc
      given (some d) message h = refl

  check_mode-ok :
      (checks : List Text)
      → check_mode probes spec ≡ ok checks
      → spec.mode ≡ debug_mode
      → (is_some spec.debug ≡ true) × (is_some (for_runtime spec.runtime) ≡ true)
  unfolding check_mode
  check_mode-ok checks h = decided spec.mode h
    where
      decided :
          (mode : LaunchMode)
          → ◌≡◌ {A = App (List Text)}
              (elim mode [ run ↦ ok [] | debug_mode ↦ check_debugger probes spec ])
              (ok checks)
          → mode ≡ debug_mode
          → (is_some spec.debug ≡ true) × (is_some (for_runtime spec.runtime) ≡ true)
      decided run k mode = cc
      decided debug_mode k mode = check_debugger-ok checks k

-- A profile that is found valid has its working directory, and with the variables of its files a
-- command can be built, and in debug mode a debugger is configured for a runtime that has one.
pub validate_profile_spec-Ready :
    (probes : Probes) (spec : LaunchSpec) (checks : List Text)
    → validate_profile_spec probes spec ≡ ok checks
    → (effective : LaunchSpec) × (materialize_profile_env_files probes.read_to_string spec
        ≡ ok effective)
      × Ready probes effective
unfolding validate_profile_spec
validate_profile_spec-Ready probes spec checks h =
    after_result
      (map_err (setup_failure probes) (materialize_profile_env_files probes.read_to_string spec)) _
      h
      λ effective materialized h₁.
        after_result (check_cwd probes effective) _ h₁ λ cwd_checks cwd_ok h₂.
          after_result (check_entry probes effective) _ h₂ λ entry_checks entry_ok h₃.
            after_result (check_command probes effective) _ h₃ λ command_checks command_ok h₄.
              after_result (check_mode probes effective) _ h₄ λ mode_checks mode_ok h₅.
                let cwd = check_cwd-ok probes effective cwd_checks cwd_ok in
                let built = check_command-ok probes effective command_checks command_ok in
                (
                  effective,
                  map_err-eq-ok (setup_failure probes) _ materialized,
                  record {
                    cwd_exists = cwd.0;
                    cwd_is_dir = cwd.1;
                    command = built.0;
                    buildable = built.1;
                    debuggable = check_mode-ok probes effective mode_checks mode_ok;
                  },
                )
