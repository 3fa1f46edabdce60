-- ===== src/LaunchConfig/Variables.antt =====
-- Which variables a launch sets and removes.
use mathlib.Core.Path.{subst}
use launch_code.Prelude.{
  ◌≡◌, refl, ap, ◌∙◌, Bool, true, false, Option, none, some, [], ◌∷◌, arith, is_some, if◌then◌else◌,
}
use launch_code.Text
use launch_code.Text.{Text, codes}
use launch_code.Map
use launch_code.Map.{Map}
use launch_code.Map.Merge.{IsDistinct, get-extend, or_else}
use launch_code.LaunchConfig.Environment.{
  LaunchEnvValue, null, env_value_to_string, EnvChanges, set_variable, change_variable,
  change_variables, set_interpreter, launch_environment,
}

-- The text of a variable, and whether it is removed, from what the configuration says of it.
abbrev pub said : Option LaunchEnvValue → Option Text × Bool → Option Text × Bool
said none before = before
said (some null) before = (none, true)
said (some value) before = (some (env_value_to_string value), false)

abbrev pub interpreted : Option Text → Text → Option Text × Bool → Option Text × Bool
interpreted none key before = before
interpreted (some path) key before =
    if Text.eq (codes "PYTHON_BIN") key then (some path, false) else before

-- The interpreter over the configuration over the environment file.
unfoldable pub wanted : Map Text → Map LaunchEnvValue → Option Text → Text → Option Text × Bool
wanted from_file env interpreter key =
    interpreted interpreter key (said (Map.get key env) (Map.get key from_file, false))

abbrev pub found : Text → EnvChanges → Option Text × Bool
found key changes = (Map.get key changes.env_map, is_some (Map.get key changes.env_remove))

pub set_variable-found :
    (key j text : Text) (changes : EnvChanges)
    → found key (set_variable j text changes)
      ≡ (if Text.eq j key then (some text, false) else found key changes)
unfolding set_variable
set_variable-found key j text changes =
    ground
      (arith, Map.get-insert j key text changes.env_map, Map.get-remove j key changes.env_remove)

pub change_variable-found :
    (key j : Text) (value : LaunchEnvValue) (changes : EnvChanges)
    → found key (change_variable j value changes)
      ≡ (if Text.eq j key then said (some value) (found key changes) else found key changes)
unfolding change_variable
change_variable-found key j null changes =
    ground (arith, Map.get-remove j key changes.env_map, Map.get-insert j key tt changes.env_remove)
change_variable-found key j value changes =
    set_variable-found key j (env_value_to_string value) changes

change_variables-found :
    (key : Text) (env : Map LaunchEnvValue) (changes : EnvChanges)
    → IsDistinct env
    → found key (change_variables env changes) ≡ said (Map.get key env) (found key changes)
unfolding change_variables Map.get
change_variables-found key [] changes h = refl
change_variables-found key ((j, value) ∷ env) changes h =
    change_variables-found key env (change_variable j value changes) h.1
    ∙ ap (said (Map.get key env)) (change_variable-found key j value changes)
    ∙ decided (Text.eq j key) refl
  where
    decided :
        (b : Bool)
        → Text.eq j key ≡ b
        → said
            (Map.get key env)
            (if b then said (some value) (found key changes) else found key changes)
          ≡ said (if b then some value else Map.get key env) (found key changes)
    decided true e =
        ap (λ o. said o (said (some value) (found key changes)))
          (subst (λ k. Map.get k env ≡ none) ((Text.eq_iff j key).0 e) h.0)
    decided false e = refl

or_none : (o : Option Text) → or_else o none ≡ o
or_none none = refl
or_none (some text) = refl

without_interpreter :
    (from_file : Map Text) (env : Map LaunchEnvValue) (key : Text)
    → IsDistinct from_file
    → IsDistinct env
    → found key (launch_environment from_file env none)
      ≡ said (Map.get key env) (Map.get key from_file, false)
unfolding launch_environment set_interpreter Map.get
without_interpreter from_file env key hf he =
    change_variables-found key env (record { env_map = Map.extend [] from_file; env_remove = [] })
      he
    ∙ ap (λ o. said (Map.get key env) (o, false))
        (get-extend key [] from_file hf ∙ or_none (Map.get key from_file))

-- A launch sets and removes what its configuration says: the interpreter, then the variables of the
-- configuration, of which null removes one, then those of the environment file. None is both set and
-- removed.
pub launch_environment-wanted :
    (from_file : Map Text) (env : Map LaunchEnvValue) (interpreter : Option Text) (key : Text)
    → IsDistinct from_file
    → IsDistinct env
    → found key (launch_environment from_file env interpreter)
      ≡ wanted from_file env interpreter key
unfolding launch_environment wanted set_interpreter
launch_environment-wanted from_file env none key hf he = without_interpreter from_file env key hf he
launch_environment-wanted from_file env (some path) key hf he =
    set_variable-found key (codes "PYTHON_BIN") path (launch_environment from_file env none)
    ∙ ap (λ p. if Text.eq (codes "PYTHON_BIN") key then (some path, false) else p)
        (without_interpreter from_file env key hf he)
