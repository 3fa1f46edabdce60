-- ===== src/Batch/Targets.antt =====
-- src/cli/lifecycle_args.rs: which sessions the lifecycle commands name. Parsing the arguments is
-- the work of `clap`.
use launch_code.Prelude.{
  ℕ, Bool, false, not, ◌||◌, Option, none, some, List, [], ◌∷◌, any, length, ltb, is_some,
  if◌then◌else◌,
}
use launch_code.Text
use launch_code.Text.{Text, codes, to_ascii_lowercase}
use launch_code.Model.{RuntimeKind}
use launch_code.Batch.{ListStatusArg, BatchSortArg}

pub record SessionTargetArgs : Type 0 where
  pub id : Option Text
  pub session_ids : List Text
  pub all : Bool

pub record BatchFilterArgs : Type 0 where
  pub status : Option ListStatusArg
  pub runtime : Option RuntimeKind
  pub name_contains : Option Text
  pub dry_run : Bool
  pub yes : Bool
  pub continue_on_error : Bool
  pub max_failures : ℕ
  pub sort : Option BatchSortArg
  pub limit : Option ℕ
  pub summary : Bool
  pub jobs : ℕ

pub record StopArgs : Type 0 where
  pub target : SessionTargetArgs
  pub batch : BatchFilterArgs
  pub force : Bool
  pub grace_timeout_ms : ℕ

pub record RestartArgs : Type 0 where
  pub target : SessionTargetArgs
  pub batch : BatchFilterArgs
  pub force : Bool
  pub no_force : Bool
  pub grace_timeout_ms : ℕ

pub record SuspendArgs : Type 0 where
  pub target : SessionTargetArgs
  pub batch : BatchFilterArgs

pub record ResumeArgs : Type 0 where
  pub target : SessionTargetArgs
  pub batch : BatchFilterArgs

-- `eq_ignore_ascii_case("all")`
unfoldable pub is_all : Text → Bool
is_all value = Text.eq (to_ascii_lowercase value) (codes "all")

unfoldable pub is_all_target_keyword : Option Text → Bool
unfolding is_all
is_all_target_keyword none = false
is_all_target_keyword (some candidate) = is_all candidate

unfoldable pub targets_all : SessionTargetArgs → Bool
unfolding is_all_target_keyword is_all
targets_all args = args.all || is_all_target_keyword args.id || any is_all args.session_ids

unfoldable pub named_targets : Option Text → List Text → List Text
named_targets (some id) session_ids = id ∷ []
named_targets none session_ids = session_ids

unfoldable pub target_ids : SessionTargetArgs → List Text
target_ids args = if targets_all args then [] else named_targets args.id args.session_ids

abbrev only_one : List Text → Option Text
only_one (id ∷ []) = some id
only_one _ = none

unfoldable pub single_target_id : SessionTargetArgs → Option Text
single_target_id args = only_one (target_ids args)

unfoldable pub is_multi_target : SessionTargetArgs → Bool
is_multi_target args = ltb 1 (length (target_ids args))

unfoldable pub has_batch_filters : BatchFilterArgs → Bool
has_batch_filters batch =
    is_some batch.status
    || is_some batch.runtime
    || is_some batch.name_contains
    || batch.dry_run
    || batch.yes
    || not batch.continue_on_error
    || ltb 0 batch.max_failures
    || is_some batch.sort
    || is_some batch.limit
    || batch.summary
    || ltb 1 batch.jobs
