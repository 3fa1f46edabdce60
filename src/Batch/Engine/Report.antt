-- ===== src/Batch/Engine/Report.antt =====
-- What the report of a batch on one workspace says, for dry runs, one worker and several.
use mathlib.Core.Path.{subst}
use launch_code.Prelude.{
  ℕ, suc, ◌+◌, ◌≤◌, ◌<◌, ◌≡◌, refl, ap, Bool, true, false, Option, List, [], ◌∷◌, Result, ok, err,
  length, map, ltb, ◌||◌, arith, inl,
}
use launch_code.Prelude.Io.{Io, after_ok}
use launch_code.Text.{Text}
use launch_code.Text.Decimal.{u64_max}
use launch_code.Error.{AppError}
use launch_code.Model.{SessionRecord}
use launch_code.Batch.{
  BatchAction, ListFilters, BatchExecutionControl, BatchExecutionPlan, BatchSessionRow,
  BatchExecutionResult, should_stop_after_failure, SessionApi,
}
use launch_code.Batch.Selection.{select}
use launch_code.Batch.Selection.Chosen.{length-select}
use launch_code.Batch.Engine.{
  Job, Link, enumerate_from, buckets, no_rows, fill_slots, flatten, dry_run_row, run_jobs,
  after_job, workers_of, run_some, run_selected, execute_batch_control_for_store, act,
}
use launch_code.Batch.Engine.Schedule.{
  Has, Merge, Merge-All, Merge-Has, Merge-length, buckets_from-All, buckets_from-Has, total-buckets,
}
use launch_code.Batch.Engine.Slots.{
  Placed, Filled, Aligned, enumerate_from-Placed, enumerate_from-Has, length-enumerate_from,
  run_jobs-Produced, no_rows-Aligned, fill_slots-Aligned, fill_slots-Filled, flatten-Prefix,
  Aligned-length,
}
use launch_code.Batch.Engine.Limited.{Prefix, run_sequential-Limited}

pub record Report (control : BatchExecutionControl) (whole : Bool) (selected : List SessionRecord)
    (after : ℕ) (result : BatchExecutionResult) : Type 0 where
  pub about : Prefix selected result.rows
  pub selection : result.selected_count ≡ length selected
  pub processed : result.processed_count ≡ length result.rows
  pub at_most : length result.rows ≤ length selected
  pub early : result.stopped_early ≡ ltb (length result.rows) (length selected)
  pub stops : result.stopped_early ≡ true → should_stop_after_failure control after ≡ true
  pub complete : whole ≡ true → length result.rows ≡ length selected

-- The world after one action for each job, in this order.
unfoldable pub acted : {W : Type 0} → (Text → Io W AppError SessionRecord) → List Job → W → W
acted act [] w = w
acted act (job ∷ jobs) w = acted act jobs (act job.1.id w).1

run_jobs-acted :
    {W : Type 0} (display : AppError → Text) (act : Text → Io W AppError SessionRecord)
    (link : Link) (jobs : List Job) (w : W)
    → (run_jobs display act link jobs w).1 ≡ acted act jobs w
unfolding run_jobs after_job acted
run_jobs-acted display act link [] w = refl
run_jobs-acted display act link (job ∷ jobs) w =
    run_jobs-acted display act link jobs (act job.1.id w).1

every_place :
    (workers : ℕ) (selected : List SessionRecord) (order : List Job) (i : ℕ)
    → 0 < workers
    → Merge (buckets workers (enumerate_from 0 selected)) order
    → i < length selected
    → Has i order
unfolding buckets
every_place workers selected order i some_worker m h = Merge-Has i m (
    buckets_from-Has workers workers 0 i (enumerate_from 0 selected) (omega arith)
      (ground (arith, some_worker))
      (enumerate_from-Has 0 i selected (omega arith) (omega (arith, h))))

-- Every job is done by workers in some order.
run_jobs-Whole :
    {W : Type 0} (display : AppError → Text) (act : Text → Io W AppError SessionRecord)
    (link : Link) (workers : ℕ) (selected : List SessionRecord) (order : List Job) (w : W)
    → 0 < workers
    → Merge (buckets workers (enumerate_from 0 selected)) order
    → let rows =
        flatten (fill_slots (run_jobs display act link order w).0.0 (no_rows (length selected))) in
      Prefix selected rows × (length rows ≡ length selected)
unfolding buckets
run_jobs-Whole display act link workers selected order w some_worker m =
    flatten-Prefix selected slots aligned filled
  where
    produced : List (ℕ × BatchSessionRow)
    produced = (run_jobs display act link order w).0.0

    slots : List (Option BatchSessionRow)
    slots = fill_slots produced (no_rows (length selected))

    aligned : Aligned selected slots
    aligned =
        fill_slots-Aligned selected order produced (no_rows (length selected))
          (run_jobs-Produced display act link order w)
          (Merge-All (Placed 0 selected) m (
            buckets_from-All (Placed 0 selected) workers workers 0 (enumerate_from 0 selected)
              (enumerate_from-Placed 0 selected)))
          (no_rows-Aligned selected)

    filled : (i : ℕ) → i < length selected → Filled i slots
    filled i h =
        fill_slots-Filled i selected order produced (no_rows (length selected))
          (omega (
            arith,
            h,
            Aligned-length selected (no_rows (length selected)) (no_rows-Aligned selected),
          ))
          (run_jobs-Produced display act link order w)
          (inl (every_place workers selected order i some_worker m h))

-- Several workers that act on the buckets in any order act once for each job in that order, and there
-- are as many jobs as sessions, with one for every place; every session has its row, in the order of
-- the sessions.
pub run_jobs-Complete :
    {W : Type 0} (display : AppError → Text) (act : Text → Io W AppError SessionRecord)
    (link : Link) (workers : ℕ) (selected : List SessionRecord) (order : List Job) (w : W)
    → 0 < workers
    → Merge (buckets workers (enumerate_from 0 selected)) order
    → let rows =
        flatten (fill_slots (run_jobs display act link order w).0.0 (no_rows (length selected))) in
      Prefix selected rows
      × (length rows ≡ length selected)
      × ((run_jobs display act link order w).1 ≡ acted act order w)
      × (length order ≡ length selected)
      × ((i : ℕ) → i < length selected → Has i order)
run_jobs-Complete display act link workers selected order w some_worker m =
    let (p, e) = run_jobs-Whole display act link workers selected order w some_worker m in
    (
      p,
      e,
      run_jobs-acted display act link order w,
      omega (
        arith,
        Merge-length m,
        total-buckets workers (enumerate_from 0 selected) some_worker,
        length-enumerate_from 0 selected,
      ),
      λ i h. every_place workers selected order i some_worker m h,
    )

dry_rows-Prefix :
    (display : AppError → Text) (link : Link) (selected : List SessionRecord)
    → Prefix selected (map (dry_run_row display link) selected)
      × (length (map (dry_run_row display link) selected) ≡ length selected)
unfolding dry_run_row
dry_rows-Prefix display link [] = (tt, refl)
dry_rows-Prefix display link (s ∷ ss) =
    let (p, e) = dry_rows-Prefix display link ss in (((refl, refl, λ h. cc), p), ap suc e)

module _ {W : Type 0} (display : AppError → Text) (to_lowercase : Text → Text)
    (schedule : List (List Job) → List Job) (api : SessionApi W) (action : BatchAction)
    (filters : ListFilters) (dry_run : Bool) (control : BatchExecutionControl)
    (plan : BatchExecutionPlan) (force : Bool) (grace : ℕ) (link : Link)
    (fair : (bs : List (List Job)) → Merge bs (schedule bs)) where
  abbrev Reported :
      Bool → List SessionRecord → Result AppError (BatchExecutionResult × ℕ) × W → Type 0
  Reported whole selected (ok (result, after), w) = Report control whole selected after result
  Reported whole selected (err e, w) = ⊥

  run_some-Reported :
      (dry parallel : Bool) (selected : List SessionRecord) (before : ℕ) (w : W)
      → before + length selected ≤ u64_max
      → Reported (dry || parallel) selected (
          run_some display to_lowercase schedule api action filters dry_run control plan force grace
            link dry parallel selected before w)
  unfolding run_some
  run_some-Reported true parallel selected before w room =
      let (p, e) = dry_rows-Prefix display link selected in
      record {
        about = p;
        selection = refl;
        processed = refl;
        at_most = omega (arith, e);
        early = ground (arith, e);
        stops = λ k. cc;
        complete = λ k. e;
      }
  run_some-Reported false true selected before w room =
      let order = schedule (buckets workers (enumerate_from 0 selected)) in
      let (p, e) =
        run_jobs-Whole display do_one link workers selected order w (omega arith)
          (fair (buckets workers (enumerate_from 0 selected))) in
      record {
        about = p;
        selection = refl;
        processed = refl;
        at_most = omega (arith, e);
        early = ground (arith, e);
        stops = λ k. cc;
        complete = λ k. e;
      }
    where
      workers : ℕ
      workers = workers_of plan.jobs (length selected)

      do_one : Text → Io W AppError SessionRecord
      do_one =
          act display to_lowercase schedule api action filters dry_run control plan force grace link
  run_some-Reported false false selected before w room =
      let h = run_sequential-Limited display do_one link control selected before w room in
      record {
        about = h.about;
        selection = refl;
        processed = refl;
        at_most = h.at_most;
        early = refl;
        stops = λ k. (h.stops (ground (arith, k))).1;
        complete = λ k. cc;
      }
    where
      do_one : Text → Io W AppError SessionRecord
      do_one =
          act display to_lowercase schedule api action filters dry_run control plan force grace link

  run_selected-Reported :
      (selected : List SessionRecord) (before : ℕ) (w : W)
      → before + length selected ≤ u64_max
      → Reported (dry_run || ltb 1 plan.jobs) selected (
          run_selected display to_lowercase schedule api action filters dry_run control plan force
            grace link selected before w)
  unfolding run_selected
  run_selected-Reported [] before w room = record {
    about = tt;
    selection = refl;
    processed = refl;
    at_most = omega arith;
    early = ground arith;
    stops = λ k. cc;
    complete = λ k. refl;
  }
  run_selected-Reported (s ∷ ss) before w room =
      run_some-Reported dry_run (ltb 1 plan.jobs) (s ∷ ss) before w room

  -- A batch that reports found sessions, and reports on a prefix of those that it chose, in order and
  -- in number; a dry run and one of several workers on all of them. It stopped early exactly if it
  -- left some out, and then the control says to stop after its failures.
  pub execute_batch_control_for_store-Report :
      (before after : ℕ) (w u : W) (result : BatchExecutionResult)
      → execute_batch_control_for_store display to_lowercase schedule api action filters dry_run
          control plan force grace link before w
        ≡ (ok (result, after), u)
      → ((sessions : List SessionRecord) (v : W)
          → api.list w ≡ (ok sessions, v)
          → before + length sessions ≤ u64_max)
      → (sessions : List SessionRecord) × (v : W) × (api.list w ≡ (ok sessions, v))
        × Report control
            (dry_run || ltb 1 plan.jobs)
            (select to_lowercase action filters plan sessions)
            after
            result
  unfolding execute_batch_control_for_store
  execute_batch_control_for_store-Report before after w u result h room =
      after_ok api.list _ w h λ sessions v listed rest.
        let selected = select to_lowercase action filters plan sessions in
        (
          sessions,
          v,
          listed,
          subst (Reported (dry_run || ltb 1 plan.jobs) selected) rest (
              run_selected-Reported selected before v (
                omega (
                  arith,
                  room sessions v listed,
                  length-select to_lowercase action filters plan sessions,
                ))),
        )
