-- ===== src/Profiles/Consistent.antt =====
-- The specification that a profile is run with.
use mathlib.Core.Path.{subst}
use launch_code.Prelude.{
  ◌≡◌, refl, sym, Bool, true, false, not, ◌&&◌, ◌||◌, none, some, List, [], ◌∷◌, Result, ok, err,
  ok_or, result_post, arith, is_some, is_empty, keep, if◌then◌else◌, ◌>>=◌, Option,
}
use launch_code.Text
use launch_code.Text.{Text, mem}
use launch_code.Map
use launch_code.Map.{Map}
use launch_code.Map.Merge.{mem-keys}
use launch_code.Error.{IoError, App, profile_not_found}
use launch_code.Model.{LaunchSpec}
use launch_code.LaunchConfig.Consistent.{IsConsistent}
use launch_code.Profiles.{
  LaunchModeArg, run_arg, debug_arg, ConfigRunArgs, parse_env_map, remove_env_remove_keys,
  clear_environment, with_mode, with_options, set_all, spec_env_file, extend_spec_env_from_file,
  extend_spec_env_from_files, materialize_profile_env_files, override_env, config_run_spec,
}

mem-keep :
    (key k : Text) (items : List Text)
    → mem key (keep (λ item. not (Text.eq item k)) items) ≡ (mem key items && not (Text.eq k key))
unfolding mem keep
mem-keep key k [] = refl
mem-keep key k (item ∷ items) =
    ground
      (arith, mem-keep key k items, Text.eq_iff key item, Text.eq_iff item k, Text.eq_iff k key)

mem-remove_env_remove_keys :
    (key : Text) (items keys : List Text)
    → mem key (remove_env_remove_keys items keys) ≡ (mem key items && not (mem key keys))
unfolding remove_env_remove_keys mem
mem-remove_env_remove_keys key items [] = ground arith
mem-remove_env_remove_keys key items (k ∷ keys) = ground (
  arith,
  mem-remove_env_remove_keys key (keep (λ item. not (Text.eq item k)) items) keys,
  mem-keep key k items,
  Text.eq_iff key k,
  Text.eq_iff k key,
)

is_some-extend :
    (key : Text) (m n : Map Text)
    → is_some (Map.get key (Map.extend m n)) ≡ (is_some (Map.get key n) || is_some (Map.get key m))
unfolding Map.extend Map.get
is_some-extend key m [] = refl
is_some-extend key m ((k, v) ∷ n) =
    ground (arith, is_some-extend key (Map.insert k v m) n, Map.get-insert k key v m)

abbrev no_variables : Map Text
no_variables = []

abbrev Apart : Map Text → List Text → Type 0
Apart env env_remove = (key : Text) → is_some (Map.get key env) ≡ true → mem key env_remove ≡ false

set_all-Apart :
    (env env_map : Map Text) (env_remove : List Text)
    → Apart env env_remove
    → Apart (Map.extend env env_map) (remove_env_remove_keys env_remove (Map.keys env_map))
set_all-Apart env env_map env_remove h key k = ground (
  arith,
  is_some-extend key env env_map,
  mem-remove_env_remove_keys key env_remove (Map.keys env_map),
  mem-keys key env_map,
  h key,
)

set_all-IsConsistent :
    (env_map : Map Text) (spec : LaunchSpec)
    → IsConsistent spec
    → IsConsistent (set_all env_map spec)
unfolding set_all
set_all-IsConsistent env_map spec h = record {
  debugger = h.debugger;
  apart = set_all-Apart spec.env env_map spec.env_remove h.apart;
}

with_mode-IsConsistent :
    (mode : Option LaunchModeArg) (spec : LaunchSpec)
    → IsConsistent spec
    → IsConsistent (with_mode mode spec)
unfolding with_mode
with_mode-IsConsistent none spec h = h
with_mode-IsConsistent (some debug_arg) spec h = record { debugger = ground arith; apart = h.apart }
with_mode-IsConsistent (some run_arg) spec h = record { debugger = ground arith; apart = h.apart }

with_options-IsConsistent :
    (args : ConfigRunArgs) (spec : LaunchSpec)
    → IsConsistent spec
    → IsConsistent (with_options args spec)
unfolding with_options
with_options-IsConsistent args spec h = record { debugger = h.debugger; apart = h.apart }

clear_environment-IsConsistent :
    (spec : LaunchSpec) → IsConsistent spec → IsConsistent (clear_environment spec)
unfolding clear_environment mem
clear_environment-IsConsistent spec h = record { debugger = h.debugger; apart = λ key k. refl }

abbrev IsOk : App LaunchSpec → Type 0
IsOk (ok spec) = IsConsistent spec
IsOk (err e) = Unit

-- A step on what a step gave.
then_IsOk :
    (m : App LaunchSpec) (f : LaunchSpec → App LaunchSpec)
    → IsOk m
    → ((spec : LaunchSpec) → IsConsistent spec → IsOk (f spec))
    → IsOk (m >>= f)
then_IsOk (ok spec) f h step = step spec h
then_IsOk (err e) f h step = tt

if_IsOk : (b : Bool) (m n : App LaunchSpec) → IsOk m → IsOk n → IsOk (if b then m else n)
if_IsOk true m n h k = h
if_IsOk false m n h k = k

module _ (read_to_string : Text → Result IoError Text) where
  extend_spec_env_from_files-IsOk :
      (env_files : List Text) (spec : LaunchSpec)
      → IsConsistent spec
      → IsOk (extend_spec_env_from_files read_to_string env_files spec)
  unfolding extend_spec_env_from_files extend_spec_env_from_file
  extend_spec_env_from_files-IsOk [] spec h = h
  extend_spec_env_from_files-IsOk (path ∷ paths) spec h =
      then_IsOk (extend_spec_env_from_file read_to_string spec path) _
        (result_post IsOk (spec_env_file read_to_string path) _ (λ e. tt)
          λ env_map. set_all-IsConsistent env_map spec h)
        (extend_spec_env_from_files-IsOk paths)

  materialize-IsOk :
      (spec : LaunchSpec)
      → IsConsistent spec
      → IsOk (materialize_profile_env_files read_to_string spec)
  unfolding materialize_profile_env_files Map.get
  materialize-IsOk spec h = if_IsOk (is_empty spec.env_files) _ _ h (
      then_IsOk
        (extend_spec_env_from_files read_to_string spec.env_files (record spec { env = [] })) _
        (extend_spec_env_from_files-IsOk spec.env_files (record spec { env = [] })
          (record { debugger = h.debugger; apart = λ key. no_variable key }))
        λ effective k.
          let whole = set_all-IsConsistent spec.env effective k in
          record { debugger = whole.debugger; apart = whole.apart })
    where
      no_variable :
          (key : Text) → is_some (Map.get key no_variables) ≡ true → mem key spec.env_remove ≡ false
      no_variable key k = cc

  override_env-IsOk :
      (env : List Text) (spec : LaunchSpec)
      → IsConsistent spec
      → IsOk (override_env read_to_string env spec)
  unfolding override_env
  override_env-IsOk env spec h = if_IsOk (is_empty env) _ _ h (
      result_post IsOk (parse_env_map env) _ (λ e. tt)
        λ overrides. set_all-IsConsistent overrides spec h)

  -- If a profile configures a debugger exactly in debug mode and sets no variable that it removes,
  -- so does the specification that it is run with, whatever overrides are given.
  pub config_run_spec-IsConsistent :
      (args : ConfigRunArgs) (profiles : Map LaunchSpec) (profile spec : LaunchSpec)
      → Map.get args.name profiles ≡ some profile
      → IsConsistent profile
      → config_run_spec read_to_string args profiles ≡ ok spec
      → IsConsistent spec
  unfolding config_run_spec
  config_run_spec-IsConsistent args profiles profile spec found h e = subst IsOk e (
      subst (λ o. IsOk (ok_or o (profile_not_found args.name) >>= overridden)) (sym found)
        (then_IsOk
          (if args.clear_env
            then ok (clear_environment (chosen profile))
            else materialize_profile_env_files read_to_string (chosen profile))
          _
          (if_IsOk args.clear_env _ _ (clear_environment-IsConsistent (chosen profile) ready)
            (materialize-IsOk (chosen profile) ready))
          λ base k.
            then_IsOk (extend_spec_env_from_files read_to_string args.env_file base) _
              (extend_spec_env_from_files-IsOk args.env_file base k) (override_env-IsOk args.env)))
    where
      chosen : LaunchSpec → LaunchSpec
      chosen p = with_options args (with_mode args.mode p)

      overridden : LaunchSpec → App LaunchSpec
      overridden p = do
        base ←
            if args.clear_env
            then ok (clear_environment (chosen p))
            else materialize_profile_env_files read_to_string (chosen p)
        with_files ← extend_spec_env_from_files read_to_string args.env_file base
        override_env read_to_string args.env with_files

      ready : IsConsistent (chosen profile)
      ready =
          with_options-IsConsistent args (with_mode args.mode profile)
            (with_mode-IsConsistent args.mode profile h)
