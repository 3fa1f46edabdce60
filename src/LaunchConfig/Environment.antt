-- ===== src/LaunchConfig/Environment.antt =====
-- The variables of a launch in `load_launch_spec` of src/config.rs: those of the environment file,
-- those of the configuration, where null removes one, and the interpreter.
use launch_code.Prelude.{Bool, true, false, Option, none, some, [], ◌∷◌}
use launch_code.Text.{Text, codes}
use launch_code.Map
use launch_code.Map.{Map}

-- A number is the text that `to_string` gives.
pub data LaunchEnvValue : Type 0 where
  string : Text → LaunchEnvValue
  number : Text → LaunchEnvValue
  bool : Bool → LaunchEnvValue
  null : LaunchEnvValue

unfoldable pub env_value_to_string : LaunchEnvValue → Text
env_value_to_string (string raw) = raw
env_value_to_string (number raw) = raw
env_value_to_string (bool true) = codes "true"
env_value_to_string (bool false) = codes "false"
env_value_to_string null = []

-- `env_remove` is a set, a map to nothing.
pub record EnvChanges : Type 0 where
  pub env_map : Map Text
  pub env_remove : Map (Unit {0})

unfoldable pub set_variable : Text → Text → EnvChanges → EnvChanges
set_variable key value changes = record {
  env_map = Map.insert key value changes.env_map;
  env_remove = Map.remove key changes.env_remove;
}

unfoldable pub change_variable : Text → LaunchEnvValue → EnvChanges → EnvChanges
unfolding set_variable
change_variable key null changes = record {
  env_map = Map.remove key changes.env_map;
  env_remove = Map.insert key tt changes.env_remove;
}
change_variable key value changes = set_variable key (env_value_to_string value) changes

unfoldable pub change_variables : Map LaunchEnvValue → EnvChanges → EnvChanges
change_variables [] changes = changes
change_variables ((key, value) ∷ env) changes =
    change_variables env (change_variable key value changes)

unfoldable pub set_interpreter : Option Text → EnvChanges → EnvChanges
set_interpreter none changes = changes
set_interpreter (some path) changes = set_variable (codes "PYTHON_BIN") path changes

unfoldable pub launch_environment : Map Text → Map LaunchEnvValue → Option Text → EnvChanges
unfolding change_variables set_interpreter
launch_environment from_file env interpreter =
    set_interpreter interpreter
      (change_variables env (record { env_map = Map.extend [] from_file; env_remove = [] }))
