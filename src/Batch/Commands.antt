-- ===== src/Batch/Commands.antt =====
-- The lifecycle commands of src/app/session_cli/batch.rs: one session, several, or all that match,
-- in a workspace; and the guards of the commands for all workspaces. What is printed is the result.
use launch_code.Prelude.{
  ℕ, Bool, true, false, not, ◌&&◌, ◌||◌, Option, none, some, List, [], ◌∷◌, ◌++◌, Result, ok, err,
  ltb, unwrap_or, if◌then◌else◌,
}
use launch_code.Prelude.Io.{Io, ◌>>=◌, ◌>>◌, pure, lift, fail}
use launch_code.Text
use launch_code.Text.{Text, codes}
use launch_code.Error.{AppError, session_not_found, invalid_start_options, confirmation_required}
use launch_code.Model.{SessionRecord}
use launch_code.Batch.{
  BatchAction, stop_action, restart_action, suspend_action, resume_action, BatchSelector, by_id,
  BatchExecutionControl, BatchExecutionPlan, BatchSessionRow, BatchExecutionResult, filters,
  runtime_label, status_label, SessionApi,
}
use launch_code.Batch.Targets.{
  BatchFilterArgs, SessionTargetArgs, StopArgs, RestartArgs, SuspendArgs, ResumeArgs, targets_all,
  target_ids, single_target_id, is_multi_target, has_batch_filters,
}
use launch_code.Batch.Engine.{Job, Link, apply_batch_action, execute_batch_control_for_store}

unfoldable pub selector_from_batch : (Text → Text) → BatchFilterArgs → BatchSelector
selector_from_batch to_lowercase batch = record {
  status = batch.status;
  runtime = batch.runtime;
  name_filter = elim batch.name_contains [ none ↦ none | some value ↦ some (to_lowercase value) ];
  dry_run = batch.dry_run;
}

unfoldable pub control_from_batch : BatchFilterArgs → BatchExecutionControl
control_from_batch batch = record {
  continue_on_error = batch.continue_on_error;
  max_failures = batch.max_failures;
}

unfoldable pub plan_from_batch : BatchFilterArgs → BatchExecutionPlan
plan_from_batch batch = record {
  sort = unwrap_or batch.sort by_id;
  limit = batch.limit;
  summary = batch.summary;
  jobs = batch.jobs;
}

unfoldable pub validate_batch_jobs_with_control :
    BatchExecutionPlan → BatchExecutionControl → Result AppError (Unit {0})
validate_batch_jobs_with_control plan control =
    if not (ltb 1 plan.jobs)
    then ok tt
    else if not control.continue_on_error || ltb 0 control.max_failures
    then err (
        invalid_start_options
          (codes "`--jobs > 1` requires `--continue-on-error true` and `--max-failures 0`"))
    else ok tt

unfoldable pub ensure_global_batch_apply_confirmation :
    Text → Bool → Bool → Result AppError (Unit {0})
ensure_global_batch_apply_confirmation action_label dry_run confirmed =
    if dry_run || confirmed
    then ok tt
    else err (
        confirmation_required (
          codes "global `"
          ++ action_label
          ++ codes " --all` requires `--yes`; use `--dry-run` to preview."))

pub data CommandOutput : Type 0 where
  no_output : CommandOutput
  one_session : SessionRecord → CommandOutput
  target_rows : List BatchSessionRow → CommandOutput
  batch_report : BatchExecutionResult → CommandOutput

abbrev local_link : Link
local_link = record { link_name = none; link_path = none }

abbrev batch_flags : AppError
batch_flags = invalid_start_options (codes "batch flags require `--all` or `all` session target")

-- `route` is `resolve_global_store_for_session_id` where the global fallback is on.
module _ {W : Type 0} (display : AppError → Text) (to_lowercase : Text → Text)
    (schedule : List (List Job) → List Job)
    (route : Option (Text → Io W AppError (Option (SessionApi W)))) (api : SessionApi W) where
  unfoldable pub handle_batch_control_local :
      BatchAction
      → BatchSelector
      → BatchExecutionControl
      → BatchExecutionPlan
      → Bool
      → ℕ
      → Io W AppError CommandOutput
  handle_batch_control_local action selector control plan force grace = do
    lift (validate_batch_jobs_with_control plan control)
    (result, failures) ←
        execute_batch_control_for_store display to_lowercase schedule api action (filters selector)
          selector.dry_run control plan force grace local_link 0
    pure (batch_report result)

  abbrev act_on_route :
      BatchAction → Text → Bool → ℕ → Text → Option (SessionApi W) → Io W AppError SessionRecord
  act_on_route action id force grace missing none = fail (session_not_found missing)
  act_on_route action id force grace missing (some routed) =
      apply_batch_action routed action id force grace

  unfoldable pub fall_back :
      BatchAction
      → Text
      → Bool
      → ℕ
      → Result AppError SessionRecord × W
      → Result AppError SessionRecord × W
  fall_back action id force grace (err (session_not_found missing), w) = elim route [
    | none ↦ (err (session_not_found missing), w)
    | some find ↦
        if Text.eq missing id
        then (do routed ← find id; act_on_route action id force grace missing routed) w
        else (err (session_not_found missing), w)
  ]
  fall_back action id force grace out = out

  unfoldable pub apply_multi_target_action_with_fallback :
      BatchAction → Text → Bool → ℕ → Io W AppError SessionRecord
  unfolding fall_back
  apply_multi_target_action_with_fallback action id force grace w =
      fall_back action id force grace (apply_batch_action api action id force grace w)

  unfoldable pub target_row : Text → Result AppError SessionRecord → BatchSessionRow
  target_row id (ok updated) = record {
    id = updated.id;
    runtime = runtime_label updated.spec.runtime;
    status_before = codes "unknown";
    status_after = some (status_label updated.status);
    link_name = none;
    link_path = none;
    ok = true;
    error = none;
  }
  target_row id (err e) = record {
    id = id;
    runtime = codes "unknown";
    status_before = codes "unknown";
    status_after = none;
    link_name = none;
    link_path = none;
    ok = false;
    error = some (display e);
  }

  abbrev after_target :
      Text
      → (W → List BatchSessionRow × W)
      → Result AppError SessionRecord × W
      → List BatchSessionRow × W
  after_target id next (r, w) = let (rows, u) = next w in (target_row id r ∷ rows, u)

  unfoldable pub run_targets : BatchAction → Bool → ℕ → List Text → W → List BatchSessionRow × W
  run_targets action force grace [] w = ([], w)
  run_targets action force grace (id ∷ ids) w =
      after_target id (run_targets action force grace ids)
        (apply_multi_target_action_with_fallback action id force grace w)

  unfoldable pub handle_multi_target_control_local :
      BatchAction → List Text → Bool → ℕ → Io W AppError CommandOutput
  handle_multi_target_control_local action ids force grace w =
      let (rows, u) = run_targets action force grace ids w in (ok (target_rows rows), u)

  -- The common shape of `handle_stop`, `handle_restart`, `handle_suspend` and `handle_resume`.
  abbrev single : BatchAction → Option Text → Bool → ℕ → Io W AppError CommandOutput
  single action none force grace = pure no_output
  single action (some id) force grace = do
    session ← apply_batch_action api action id force grace
    pure (one_session session)

  unfoldable pub handle_lifecycle :
      BatchAction → SessionTargetArgs → BatchFilterArgs → Bool → ℕ → Io W AppError CommandOutput
  handle_lifecycle action target batch force grace =
      if targets_all target
      then handle_batch_control_local action (selector_from_batch to_lowercase batch)
          (control_from_batch batch) (plan_from_batch batch) force grace
      else if has_batch_filters batch
      then fail batch_flags
      else if is_multi_target target
      then handle_multi_target_control_local action (target_ids target) force grace
      else single action (single_target_id target) force grace

  unfoldable pub handle_stop : StopArgs → Io W AppError CommandOutput
  handle_stop args =
      handle_lifecycle stop_action args.target args.batch args.force args.grace_timeout_ms

  unfoldable pub handle_restart : RestartArgs → Io W AppError CommandOutput
  handle_restart args =
      handle_lifecycle restart_action args.target args.batch (args.force && not args.no_force)
        args.grace_timeout_ms

  unfoldable pub handle_suspend : SuspendArgs → Io W AppError CommandOutput
  handle_suspend args = handle_lifecycle suspend_action args.target args.batch false 0

  unfoldable pub handle_resume : ResumeArgs → Io W AppError CommandOutput
  handle_resume args = handle_lifecycle resume_action args.target args.batch false 0
