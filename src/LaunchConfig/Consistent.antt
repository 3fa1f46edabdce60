-- ===== src/LaunchConfig/Consistent.antt =====
-- Whether a launch specification that was loaded fits together.
use mathlib.Core.Path.{subst}
use launch_code.Prelude.{
  ◌≡◌, refl, sym, ◌∙◌, ◌↔◌, Bool, true, false, Option, none, some, [], ◌∷◌, Result, ok, err, ok_or,
  map_err, result_post, arith, is_some, if◌then◌else◌,
}
use launch_code.Text
use launch_code.Text.{Text, codes, mem}
use launch_code.Map
use launch_code.Map.{Map}
use launch_code.Map.Merge.{mem-keys}
use launch_code.Error.{ConfigError, json, missing_program, config_not_found}
use launch_code.Model.{LaunchMode, run, debug_mode, LaunchSpec}
use launch_code.LaunchConfig.{
  Outside, LaunchConfiguration, LaunchRequest, debug_config, map_runtime, find_configuration,
  resolve_launch_file, infer_workspace_root, env_file_variables, launch_spec, load_launch_spec,
}
use launch_code.LaunchConfig.Environment.{
  LaunchEnvValue, string, number, bool, null, EnvChanges, set_variable, change_variable,
  change_variables, set_interpreter, launch_environment,
}
use launch_code.LaunchConfig.Variables.{found, said, set_variable-found, change_variable-found}

-- A debugger is configured exactly in debug mode, and no variable is both set and removed.
pub record IsConsistent (spec : LaunchSpec) : Type 0 where
  pub debugger : (spec.mode ≡ debug_mode) ↔ (is_some spec.debug ≡ true)
  pub apart : (key : Text) → is_some (Map.get key spec.env) ≡ true → mem key spec.env_remove ≡ false

-- Not both set and removed.
abbrev Apart : Option Text × Bool → Type 0
Apart p = is_some p.0 ≡ true → p.1 ≡ false

set_variable-Apart :
    (key j text : Text) (changes : EnvChanges)
    → Apart (found key changes)
    → Apart (found key (set_variable j text changes))
set_variable-Apart key j text changes h =
    subst Apart (sym (set_variable-found key j text changes)) (decided (Text.eq j key))
  where
    decided : (b : Bool) → Apart (if b then (some text, false) else found key changes)
    decided true = λ k. refl
    decided false = h

said-Apart :
    (value : LaunchEnvValue) (before : Option Text × Bool) → Apart (said (some value) before)
said-Apart (string t) before k = refl
said-Apart (number t) before k = refl
said-Apart (bool b) before k = refl
said-Apart null before k = cc

change_variables-Apart :
    (key : Text) (env : Map LaunchEnvValue) (changes : EnvChanges)
    → Apart (found key changes)
    → Apart (found key (change_variables env changes))
unfolding change_variables
change_variables-Apart key [] changes h = h
change_variables-Apart key ((j, value) ∷ env) changes h =
    change_variables-Apart key env (change_variable j value changes)
      (subst Apart (sym (change_variable-found key j value changes)) (decided (Text.eq j key)))
  where
    decided :
        (b : Bool) → Apart (if b then said (some value) (found key changes) else found key changes)
    decided true = said-Apart value (found key changes)
    decided false = h

set_interpreter-Apart :
    (key : Text) (interpreter : Option Text) (changes : EnvChanges)
    → Apart (found key changes)
    → Apart (found key (set_interpreter interpreter changes))
unfolding set_interpreter
set_interpreter-Apart key none changes h = h
set_interpreter-Apart key (some path) changes h =
    set_variable-Apart key (codes "PYTHON_BIN") path changes h

launch_environment-Apart :
    (from_file : Map Text) (env : Map LaunchEnvValue) (interpreter : Option Text) (key : Text)
    → Apart (found key (launch_environment from_file env interpreter))
unfolding launch_environment Map.get
launch_environment-Apart from_file env interpreter key =
    set_interpreter-Apart key interpreter
      (change_variables env (record { env_map = Map.extend [] from_file; env_remove = [] }))
      (change_variables-Apart key env
        (record { env_map = Map.extend [] from_file; env_remove = [] }) (λ k. refl))

debug_config-mode :
    (mode : LaunchMode) (config : LaunchConfiguration)
    → (mode ≡ debug_mode) ↔ (is_some (debug_config mode config) ≡ true)
unfolding debug_config
debug_config-mode run config = ground arith
debug_config-mode debug_mode config = ground arith

abbrev IsOk : Result ConfigError LaunchSpec → Type 0
IsOk (ok spec) = IsConsistent spec
IsOk (err e) = Unit

module _ (outside : Outside) where
  launch_spec-IsOk :
      (workspace : Text) (request : LaunchRequest) (config : LaunchConfiguration)
      → IsOk (launch_spec outside workspace request config)
  unfolding launch_spec
  launch_spec-IsOk workspace request config =
      result_post IsOk (map_runtime config.runtime_type) _ (λ e. tt)
        λ runtime.
          result_post IsOk (ok_or config.program (missing_program config.name)) _ (λ e. tt)
            λ program.
              result_post IsOk (env_file_variables outside workspace config.env_file) _ (λ e. tt)
                λ from_file. record {
                  debugger = debug_config-mode _ config;
                  apart = λ key h. mem-keys key _ ∙ launch_environment-Apart from_file _ _ key h;
                }

  -- A launch specification that is loaded configures a debugger exactly in debug mode, and sets no
  -- variable that it removes.
  pub load_launch_spec-IsConsistent :
      (workspace_root : Text) (request : LaunchRequest) (spec : LaunchSpec)
      → load_launch_spec outside workspace_root request ≡ ok spec
      → IsConsistent spec
  unfolding load_launch_spec
  load_launch_spec-IsConsistent workspace_root request spec h = subst IsOk h loaded
    where
      loaded : IsOk (load_launch_spec outside workspace_root request)
      loaded =
          result_post IsOk (resolve_launch_file outside workspace_root request.launch_file) _
            (λ e. tt)
            λ launch_path.
              result_post IsOk (map_err ConfigError.io (outside.read_to_string launch_path)) _
                (λ e. tt)
                λ payload.
                  result_post IsOk (map_err json (outside.from_str payload)) _ (λ e. tt)
                    λ launch_file.
                      result_post IsOk
                        (ok_or (find_configuration request.name launch_file.configurations)
                          (config_not_found request.name))
                        _ (λ e. tt)
                        λ config.
                          launch_spec-IsOk (infer_workspace_root outside launch_path) request config
