-- ===== src/Batch/Selection/Chosen.antt =====
-- Which sessions a batch acts on.
use Prim.Native.Nat.{compare}
use launch_code.Prelude.{◌≤◌, List, keep, length, length-keep, arith}
use launch_code.Text.{Text}
use launch_code.Model.{SessionRecord}
use launch_code.Order.{text_cmp, sort_by}
use launch_code.Order.Lawful.{Lawful, compare-Lawful, then_with-Lawful, text_cmp-Lawful, on-Lawful}
use launch_code.Order.Sorted.{length-sort_by}
use launch_code.Order.Chosen.{Chosen, sort_by-Chosen, length-truncate}
use launch_code.Batch.{
  BatchAction, BatchSortArg, by_id, by_name, by_status, by_runtime, ListFilters, BatchExecutionPlan,
  runtime_label,
}
use launch_code.Batch.Selection.{
  matches_batch_control_filters, status_sort_rank, sort_key, batch_cmp, sort_batch_sessions, select,
}

id-Lawful : Lawful (λ (a b : SessionRecord). text_cmp a.id b.id)
id-Lawful = on-Lawful (λ (s : SessionRecord). s.id) text_cmp text_cmp-Lawful

sort_key-Lawful : (sort : BatchSortArg) → Lawful (sort_key sort)
unfolding sort_key
sort_key-Lawful by_id = id-Lawful
sort_key-Lawful by_name = on-Lawful (λ (s : SessionRecord). s.spec.name) text_cmp text_cmp-Lawful
sort_key-Lawful by_status =
    then_with-Lawful _ _
      (on-Lawful (λ (s : SessionRecord). status_sort_rank s.status) compare compare-Lawful)
      id-Lawful
sort_key-Lawful by_runtime =
    then_with-Lawful _ _
      (on-Lawful (λ (s : SessionRecord). runtime_label s.spec.runtime) text_cmp text_cmp-Lawful)
      id-Lawful

batch_cmp-Lawful : (sort : BatchSortArg) → Lawful (batch_cmp sort)
unfolding batch_cmp
batch_cmp-Lawful sort = then_with-Lawful _ _ (sort_key-Lawful sort) id-Lawful

-- A batch acts on sessions that match, in the order asked for; what it leaves out comes later in
-- that order, and is nothing unless the limit is reached.
pub select-Chosen :
    (to_lowercase : Text → Text) (action : BatchAction) (filters : ListFilters)
    (plan : BatchExecutionPlan) (sessions : List SessionRecord)
    → Chosen
        (batch_cmp plan.sort)
        (keep (matches_batch_control_filters to_lowercase action filters) sessions)
        plan.limit
        (select to_lowercase action filters plan sessions)
unfolding select sort_batch_sessions
select-Chosen to_lowercase action filters plan sessions =
    sort_by-Chosen (batch_cmp plan.sort)
      (keep (matches_batch_control_filters to_lowercase action filters) sessions) plan.limit
      (batch_cmp-Lawful plan.sort)

pub length-select :
    (to_lowercase : Text → Text) (action : BatchAction) (filters : ListFilters)
    (plan : BatchExecutionPlan) (sessions : List SessionRecord)
    → length (select to_lowercase action filters plan sessions) ≤ length sessions
unfolding select sort_batch_sessions
length-select to_lowercase action filters plan sessions =
    let p = matches_batch_control_filters to_lowercase action filters in
    let cmp = batch_cmp plan.sort in
    omega (
      arith,
      length-truncate plan.limit (sort_by cmp (keep p sessions)),
      length-sort_by cmp (keep p sessions),
      length-keep p sessions,
    )
