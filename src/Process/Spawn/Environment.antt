-- ===== src/Process/Spawn/Environment.antt =====
-- The environment that a process starts with.
use launch_code.Prelude.{◌≡◌, refl, Option, none, some, List, [], ◌∷◌, arith, if◌then◌else◌}
use launch_code.Text
use launch_code.Text.{Text, mem}
use launch_code.Map
use launch_code.Map.{Map}
use launch_code.Map.Merge.{IsDistinct}
use launch_code.Process.{Command}
use launch_code.Process.Spawn.{
  remove_variables, set_variables, apply_environment, base_process_command,
}

-- What a child process finds under a name: the command's change, or the variable of its parent.
abbrev pub or_inherited : Option (Option Text) → Option Text → Option Text
or_inherited none inherited = inherited
or_inherited (some change) inherited = change

unfoldable pub child_variable : (Text → Option Text) → Command → Text → Option Text
child_variable inherited cmd key = or_inherited (Map.get key cmd.env) (inherited key)

-- The variables of the launch over those that it removes, over those of the parent.
unfoldable pub launch_variable : (Text → Option Text) → Map Text → List Text → Text → Option Text
launch_variable inherited env env_remove key = elim (Map.get key env) [
  | some value ↦ some value
  | none ↦ if mem key env_remove then none else inherited key
]

abbrev overridden : Option Text → Option (Option Text) → Option (Option Text)
overridden none change = change
overridden (some value) change = some (some value)

get-set_variables :
    (key : Text) (env : Map Text) (changes : Map (Option Text))
    → IsDistinct env
    → Map.get key (set_variables env changes) ≡ overridden (Map.get key env) (Map.get key changes)
unfolding set_variables Map.get
get-set_variables key [] changes h = refl
get-set_variables key ((j, v) ∷ env) changes h = ground (
  arith,
  get-set_variables key env (Map.insert j (some v) changes) h.1,
  Map.get-insert j key (some v) changes,
  Text.eq_iff j key,
  h.0,
)

get-remove_variables :
    (key : Text) (keys : List Text) (changes : Map (Option Text))
    → Map.get key (remove_variables keys changes)
      ≡ (if mem key keys then some none else Map.get key changes)
unfolding remove_variables mem
get-remove_variables key [] changes = refl
get-remove_variables key (j ∷ keys) changes = ground (
  arith,
  get-remove_variables key keys (Map.insert j none changes),
  Map.get-insert j key none changes,
  Text.eq_iff j key,
  Text.eq_iff key j,
)

-- A process that is started finds the variables of its launch; of the others it finds none of those
-- that the launch removes, and its parent's. A variable that is both set and removed is set.
pub base_process_command-launch_variable :
    (inherited : Text → Option Text) (program : Text) (args : List Text) (cwd : Text)
    (env : Map Text) (env_remove : List Text) (key : Text)
    → IsDistinct env
    → child_variable inherited (base_process_command program args cwd env env_remove) key
      ≡ launch_variable inherited env env_remove key
unfolding child_variable launch_variable base_process_command apply_environment Map.get
base_process_command-launch_variable inherited program args cwd env env_remove key h = ground (
  arith,
  get-set_variables key env (remove_variables env_remove []) h,
  get-remove_variables key env_remove [],
)
