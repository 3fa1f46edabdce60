-- ===== src/Batch/Selection.antt =====
-- The sessions that a batch acts on: those that match, in the order asked for, up to the limit.
pub mod Chosen
use Prim.Native.Nat.{compare, Ordering, lt, eq, gt}
use launch_code.Prelude.{
  ℕ, Bool, true, false, not, ◌&&◌, Option, none, some, List, [], ◌∷◌, keep, take, if◌then◌else◌,
}
use launch_code.Text.{Text, contains}
use launch_code.Model.{
  RuntimeKind, SessionRecord, SessionStatus, running, stopped, suspended, unknown, is_stopped,
}
use launch_code.Order.{then_with, text_cmp, sort_by, truncate}
use launch_code.Batch.{
  BatchAction, stop_action, restart_action, suspend_action, resume_action, ListStatusArg,
  BatchSortArg, by_id, by_name, by_status, by_runtime, ListFilters, BatchExecutionPlan,
  runtime_label, runtime_eq, matches_list_status,
}

unfoldable pub default_batch_status_match : BatchAction → SessionStatus → Bool
default_batch_status_match stop_action status = not (is_stopped status)
default_batch_status_match restart_action running = true
default_batch_status_match restart_action suspended = true
default_batch_status_match suspend_action running = true
default_batch_status_match resume_action suspended = true
default_batch_status_match _ _ = false

unfoldable pub status_matches : BatchAction → Option ListStatusArg → SessionStatus → Bool
status_matches action none status = default_batch_status_match action status
status_matches action (some filter) status = matches_list_status filter status

unfoldable pub runtime_matches : Option RuntimeKind → RuntimeKind → Bool
runtime_matches none runtime = true
runtime_matches (some filter) runtime = runtime_eq runtime filter

-- `to_lowercase` is `str::to_lowercase`.
module _ (to_lowercase : Text → Text) where
  unfoldable pub name_matches : Option Text → Text → Bool
  name_matches none name = true
  name_matches (some filter) name = contains filter (to_lowercase name)

  unfoldable pub matches_batch_control_filters : BatchAction → ListFilters → SessionRecord → Bool
  matches_batch_control_filters action filters session =
      status_matches action filters.status_filter session.status
      && runtime_matches filters.runtime_filter session.spec.runtime
      && name_matches filters.name_filter session.spec.name

unfoldable pub status_sort_rank : SessionStatus → ℕ
status_sort_rank running = 0
status_sort_rank suspended = 1
status_sort_rank stopped = 2
status_sort_rank unknown = 3

unfoldable pub sort_key : BatchSortArg → SessionRecord → SessionRecord → Ordering
sort_key by_id left right = text_cmp left.id right.id
sort_key by_name left right = text_cmp left.spec.name right.spec.name
sort_key by_status left right =
    then_with (compare (status_sort_rank left.status) (status_sort_rank right.status))
      (text_cmp left.id right.id)
sort_key by_runtime left right =
    then_with (text_cmp (runtime_label left.spec.runtime) (runtime_label right.spec.runtime))
      (text_cmp left.id right.id)

-- The comparison of `sort_batch_sessions`: equal ones are compared by their ids.
unfoldable pub batch_cmp : BatchSortArg → SessionRecord → SessionRecord → Ordering
unfolding sort_key
batch_cmp sort left right = then_with (sort_key sort left right) (text_cmp left.id right.id)

unfoldable pub sort_batch_sessions : BatchSortArg → List SessionRecord → List SessionRecord
unfolding batch_cmp
sort_batch_sessions sort = sort_by (batch_cmp sort)

unfoldable pub select :
    (Text → Text)
    → BatchAction
    → ListFilters
    → BatchExecutionPlan
    → List SessionRecord
    → List SessionRecord
select to_lowercase action filters plan sessions = truncate plan.limit (
    sort_batch_sessions plan.sort
      (keep (matches_batch_control_filters to_lowercase action filters) sessions))
