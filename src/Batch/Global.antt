-- ===== src/Batch/Global.antt =====
-- A batch over all linked workspaces, one after the other, of src/app/session_cli/batch/engine.rs.
use Prim.Native.Nat.{Ordering}
use launch_code.Prelude.{
  ℕ, ◌+◌, min, Bool, true, false, some, List, [], ◌∷◌, ◌++◌, Result, ok, err, length, if◌then◌else◌,
}
use launch_code.Text.{Text, mem}
use launch_code.Text.Decimal.{u64_max}
use launch_code.Order.{then_with, text_cmp, option_cmp, sort_by}
use launch_code.Error.{AppError}
use launch_code.Batch.{
  BatchAction, BatchExecutionControl, BatchExecutionPlan, BatchSessionRow, BatchLinkErrorRow,
  BatchExecutionResult, ListFilters, should_stop_after_failure, SessionApi,
}
use launch_code.Batch.Engine.{Job, count_failure, execute_batch_control_for_store}

-- A link's name and path.
abbrev pub LinkEntry : Type 0
LinkEntry = Text × Text

-- `filter(|item| seen_paths.insert(item.path))`
unfoldable pub first_of_paths : List Text → List LinkEntry → List LinkEntry
first_of_paths seen [] = []
first_of_paths seen ((name, path) ∷ links) =
    let rest = first_of_paths (path ∷ seen) links in
    let same = first_of_paths seen links in if mem path seen then same else (name, path) ∷ rest

unfoldable pub row_cmp : BatchSessionRow → BatchSessionRow → Ordering
row_cmp left right =
    then_with (text_cmp left.id right.id) (option_cmp text_cmp left.link_name right.link_name)

unfoldable pub link_error_cmp : BatchLinkErrorRow → BatchLinkErrorRow → Ordering
link_error_cmp left right =
    then_with (option_cmp text_cmp left.link_name right.link_name)
      (option_cmp text_cmp left.link_path right.link_path)

unfoldable pub finalize_batch_result :
    List BatchSessionRow → ℕ → List BatchLinkErrorRow → Bool → BatchExecutionResult
finalize_batch_result rows selected_count link_errors stopped_early =
    let sorted = sort_by row_cmp rows in
    record {
      rows = sorted;
      selected_count = selected_count;
      processed_count = length sorted;
      link_errors = sort_by link_error_cmp link_errors;
      stopped_early = stopped_early;
    }

-- What the loop over the links has gathered.
pub record Gathered : Type 0 where
  pub rows : List BatchSessionRow
  pub selected_count : ℕ
  pub link_errors : List BatchLinkErrorRow
  pub stopped_early : Bool

abbrev gathered_none : Gathered
gathered_none = record { rows = []; selected_count = 0; link_errors = []; stopped_early = false }

-- `saturating_add` of a `usize`
abbrev plus : ℕ → ℕ → ℕ
plus a b = min u64_max (a + b)

module _ {W : Type 0} (display : AppError → Text) (to_lowercase : Text → Text)
    (schedule : List (List Job) → List Job) (api_at : Text → SessionApi W) (action : BatchAction)
    (filters : ListFilters) (dry_run : Bool) (control : BatchExecutionControl)
    (plan : BatchExecutionPlan) (force : Bool) (grace : ℕ) where
  -- The gathered values so far, and what follows with the new ones.
  unfoldable pub after_link :
      LinkEntry
      → ℕ
      → Gathered
      → (ℕ → Gathered → W → Gathered × W)
      → Result AppError (BatchExecutionResult × ℕ) × W
      → Gathered × W
  after_link link before g next (ok (scoped, failures), w) =
      let grown = record g {
        rows = g.rows ++ scoped.rows;
        selected_count = plus g.selected_count scoped.selected_count;
      } in
      if scoped.stopped_early
      then (record grown { stopped_early = true }, w)
      else next failures grown w
  after_link (name, path) before g next (err e, w) =
      let failures = count_failure before in
      let row : BatchLinkErrorRow = record {
        link_name = some name;
        link_path = some path;
        error = display e;
      } in
      let grown = record g { link_errors = g.link_errors ++ row ∷ [] } in
      if should_stop_after_failure control failures
      then (record grown { stopped_early = true }, w)
      else next failures grown w

  unfoldable pub run_links : List LinkEntry → ℕ → Gathered → W → Gathered × W
  unfolding after_link
  run_links [] failures g w = (g, w)
  run_links ((name, path) ∷ links) failures g w =
      after_link (name, path) failures g (run_links links)
        (execute_batch_control_for_store display to_lowercase schedule (api_at path) action filters
          dry_run control plan force grace (record { link_name = some name; link_path = some path })
          failures w)

  abbrev finalized : Gathered × W → BatchExecutionResult × W
  finalized (g, w) =
      (finalize_batch_result g.rows g.selected_count g.link_errors g.stopped_early, w)

  unfoldable pub execute_batch_control_global_sequential :
      List LinkEntry → W → BatchExecutionResult × W
  execute_batch_control_global_sequential links w = finalized (run_links links 0 gathered_none w)
