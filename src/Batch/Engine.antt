-- ===== src/Batch/Engine.antt =====
-- `execute_batch_control_for_store` and `execute_batch_control_global` of
-- src/app/session_cli/batch/engine.rs. Worker threads act on one world: the order in which the
-- buckets' jobs are done is an argument.
pub mod Schedule
pub mod Limited
pub mod Slots
pub mod Report
use Prim.Native.Nat.{Ordering}
use launch_code.Prelude.{
  ℕ, zero, suc, ◌+◌, ◌%◌, min, max, ◌≡◌, refl, Bool, true, false, not, ◌||◌, Option, none, some,
  List, [], ◌∷◌, ◌++◌, Result, ok, err, length, is_empty, keep, map, leb, ltb, ◌==◌, if◌then◌else◌,
}
use launch_code.Prelude.Io.{Io, ◌>>=◌, ◌>>◌, pure}
use launch_code.Text
use launch_code.Text.{Text, codes, mem}
use launch_code.Text.Decimal.{u64_max}
use launch_code.Order.{then_with, text_cmp, option_cmp, sort_by}
use launch_code.Error.{AppError}
use launch_code.Model.{SessionRecord}
use launch_code.Batch.{
  BatchAction, stop_action, restart_action, suspend_action, resume_action, ListFilters,
  BatchExecutionControl, BatchExecutionPlan, BatchSessionRow, BatchLinkErrorRow,
  BatchExecutionResult, should_stop_after_failure, runtime_label, status_label, SessionApi,
}
use launch_code.Batch.Selection.{select}

-- A session with its place among the selected ones.
abbrev pub Job : Type 0
Job = ℕ × SessionRecord

unfoldable pub enumerate_from : ℕ → List SessionRecord → List Job
enumerate_from i [] = []
enumerate_from i (s ∷ ss) = (i, s) ∷ enumerate_from (i + 1) ss

unfoldable pub bucket : ℕ → ℕ → List Job → List Job
bucket workers w jobs = keep (λ job. job.0 % workers == w) jobs

-- The buckets from `w` on.
unfoldable pub buckets_from : ℕ → ℕ → ℕ → List Job → List (List Job)
unfolding bucket
buckets_from workers zero w jobs = []
buckets_from workers (suc n) w jobs = bucket workers w jobs ∷ buckets_from workers n (w + 1) jobs

unfoldable pub buckets : ℕ → List Job → List (List Job)
unfolding buckets_from
buckets workers jobs = buckets_from workers workers 0 jobs

-- `rows_by_index.get_mut(index)`
unfoldable pub set_slot : {A : Type 0} → ℕ → A → List (Option A) → List (Option A)
set_slot i a [] = []
set_slot zero a (slot ∷ slots) = some a ∷ slots
set_slot (suc i) a (slot ∷ slots) = slot ∷ set_slot i a slots

unfoldable pub no_rows : {A : Type 0} → ℕ → List (Option A)
no_rows zero = []
no_rows (suc n) = none ∷ no_rows n

unfoldable pub fill_slots : {A : Type 0} → List (ℕ × A) → List (Option A) → List (Option A)
fill_slots [] slots = slots
fill_slots ((i, a) ∷ rest) slots = fill_slots rest (set_slot i a slots)

unfoldable pub flatten : {A : Type 0} → List (Option A) → List A
flatten [] = []
flatten (none ∷ slots) = flatten slots
flatten (some a ∷ slots) = a ∷ flatten slots

abbrev empty_result : BatchExecutionResult
empty_result = record {
  rows = [];
  selected_count = 0;
  processed_count = 0;
  link_errors = [];
  stopped_early = false;
}

-- Whose sessions a batch acts on; `display` is the text of an error.
pub record Link : Type 0 where
  pub link_name : Option Text
  pub link_path : Option Text

module _ (display : AppError → Text) (link : Link) where
  unfoldable pub batch_row : SessionRecord → Result AppError SessionRecord → BatchSessionRow
  batch_row session (ok updated) = record {
    id = updated.id;
    runtime = runtime_label session.spec.runtime;
    status_before = status_label session.status;
    status_after = some (status_label updated.status);
    link_name = link.link_name;
    link_path = link.link_path;
    ok = true;
    error = none;
  }
  batch_row session (err e) = record {
    id = session.id;
    runtime = runtime_label session.spec.runtime;
    status_before = status_label session.status;
    status_after = none;
    link_name = link.link_name;
    link_path = link.link_path;
    ok = false;
    error = some (display e);
  }

  unfoldable pub dry_run_row : SessionRecord → BatchSessionRow
  dry_run_row session = record {
    id = session.id;
    runtime = runtime_label session.spec.runtime;
    status_before = status_label session.status;
    status_after = some (status_label session.status);
    link_name = link.link_name;
    link_path = link.link_path;
    ok = true;
    error = none;
  }

-- `saturating_add(1)` of a `usize`
abbrev pub count_failure : ℕ → ℕ
count_failure n = min u64_max (n + 1)

abbrev pub workers_of : ℕ → ℕ → ℕ
workers_of jobs selected_count = max 1 (min jobs selected_count)

module _ {W : Type 0} where
  unfoldable pub apply_batch_action :
      SessionApi W → BatchAction → Text → Bool → ℕ → Io W AppError SessionRecord
  apply_batch_action api stop_action id force grace = api.stop id force grace
  apply_batch_action api restart_action id force grace = api.restart id force grace
  apply_batch_action api suspend_action id force grace = api.suspend id
  apply_batch_action api resume_action id force grace = api.resume id

  -- The parameters that every step of a run shares.
  module _ (display : AppError → Text) (act : Text → Io W AppError SessionRecord)
      (link : Link) where
    abbrev pub prepend :
        BatchSessionRow → (List BatchSessionRow × ℕ) × W → (List BatchSessionRow × ℕ) × W
    prepend row ((rows, failures), w) = ((row ∷ rows, failures), w)

    module _ (control : BatchExecutionControl) where
      -- What follows an action; `next` are the sessions that are left.
      unfoldable pub after_action :
          SessionRecord
          → ℕ
          → (ℕ → W → (List BatchSessionRow × ℕ) × W)
          → Result AppError SessionRecord × W
          → (List BatchSessionRow × ℕ) × W
      after_action session failures next (ok updated, w) =
          prepend (batch_row display link session (ok updated)) (next failures w)
      after_action session failures next (err e, w) =
          if should_stop_after_failure control (count_failure failures)
          then ((batch_row display link session (err e) ∷ [], count_failure failures), w)
          else prepend (batch_row display link session (err e)) (next (count_failure failures) w)

      unfoldable pub run_sequential : List SessionRecord → ℕ → W → (List BatchSessionRow × ℕ) × W
      unfolding after_action
      run_sequential [] failures w = (([], failures), w)
      run_sequential (session ∷ sessions) failures w =
          after_action session failures (run_sequential sessions) (act session.id w)

    abbrev failure_of : Result AppError SessionRecord → ℕ
    failure_of (ok updated) = 0
    failure_of (err e) = 1

    -- What the workers produce when they do their jobs in this order.
    unfoldable pub after_job :
        Job
        → (W → (List (ℕ × BatchSessionRow) × ℕ) × W)
        → Result AppError SessionRecord × W
        → (List (ℕ × BatchSessionRow) × ℕ) × W
    after_job (i, session) next (r, w) =
        let ((produced, failures), u) = next w in
        (((i, batch_row display link session r) ∷ produced, failure_of r + failures), u)

    unfoldable pub run_jobs : List Job → W → (List (ℕ × BatchSessionRow) × ℕ) × W
    unfolding after_job
    run_jobs [] w = (([], 0), w)
    run_jobs (job ∷ jobs) w = after_job job (run_jobs jobs) (act job.1.id w)

  -- `schedule` is the order in which the jobs of the buckets are done.
  module _ (display : AppError → Text) (to_lowercase : Text → Text)
      (schedule : List (List Job) → List Job) (api : SessionApi W) (action : BatchAction)
      (filters : ListFilters) (dry_run : Bool) (control : BatchExecutionControl)
      (plan : BatchExecutionPlan) (force : Bool) (grace : ℕ) (link : Link) where
    abbrev pub act : Text → Io W AppError SessionRecord
    act id = apply_batch_action api action id force grace

    abbrev pub report : ℕ → List BatchSessionRow → BatchExecutionResult
    report selected_count rows = record {
      rows = rows;
      selected_count = selected_count;
      processed_count = length rows;
      link_errors = [];
      stopped_early = false;
    }

    abbrev sequential_result :
        ℕ → (List BatchSessionRow × ℕ) × W → Result AppError (BatchExecutionResult × ℕ) × W
    sequential_result n ((rows, failures), w) =
        (ok (record (report n rows) { stopped_early = ltb (length rows) n }, failures), w)

    abbrev parallel_result :
        ℕ
        → ℕ
        → (List (ℕ × BatchSessionRow) × ℕ) × W
        → Result AppError (BatchExecutionResult × ℕ) × W
    parallel_result n failures ((produced, local_failures), w) = (
      ok (
        report n (flatten (fill_slots produced (no_rows n))),
        min u64_max (failures + local_failures),
      ),
      w,
    )

    -- By whether the run is dry, and whether there are several workers.
    unfoldable pub run_some :
        Bool → Bool → List SessionRecord → ℕ → Io W AppError (BatchExecutionResult × ℕ)
    run_some true parallel selected failures w =
        pure (report (length selected) (map (dry_run_row display link) selected), failures) w
    run_some false true selected failures w =
        let n = length selected in
        parallel_result n failures (
          run_jobs display act link
            (schedule (buckets (workers_of plan.jobs n) (enumerate_from 0 selected))) w)
    run_some false false selected failures w =
        sequential_result (length selected)
          (run_sequential display act link control selected failures w)

    unfoldable pub run_selected : List SessionRecord → ℕ → Io W AppError (BatchExecutionResult × ℕ)
    run_selected selected failures =
        if is_empty selected
        then pure (empty_result, failures)
        else run_some dry_run (ltb 1 plan.jobs) selected failures

    -- With the count of failures, which the caller passes by reference.
    unfoldable pub execute_batch_control_for_store : ℕ → Io W AppError (BatchExecutionResult × ℕ)
    execute_batch_control_for_store failures = do
      sessions ← api.list
      run_selected (select to_lowercase action filters plan sessions) failures
