-- ===== src/Listing/Ordered.antt =====
-- The rows that a list shows.
use Prim.Native.Nat.{compare}
use launch_code.Prelude.{ℕ, Option, List, unwrap_or}
use launch_code.Text.{to_ascii_lowercase}
use launch_code.Order.{then_with, text_cmp, option_cmp}
use launch_code.Order.Lawful.{
  Lawful, compare-Lawful, then_with-Lawful, text_cmp-Lawful, option_cmp-Lawful, on-Lawful,
  reverse-Lawful,
}
use launch_code.Order.Chosen.{Chosen, sort_by-Chosen}
use launch_code.Listing.{
  SessionListRow, ListSortArg, by_id, by_name, by_runtime, by_status, by_updated, by_restarts,
  status_label_rank, by_row_name, by_both, list_cmp, apply_list_order,
}

both-Lawful : Lawful by_both
both-Lawful =
    then_with-Lawful _ _ (on-Lawful (λ (r : SessionListRow). r.id) text_cmp text_cmp-Lawful) (
      on-Lawful (λ (r : SessionListRow). r.link_name) (option_cmp text_cmp)
        (option_cmp-Lawful text_cmp text_cmp-Lawful))

name-Lawful : Lawful (λ left right. then_with (by_row_name left right) (by_both left right))
name-Lawful =
    then_with-Lawful _ _
      (on-Lawful (λ (r : SessionListRow). to_ascii_lowercase r.name) text_cmp text_cmp-Lawful)
      both-Lawful

list_cmp-Lawful : (sort : ListSortArg) → Lawful (list_cmp sort)
unfolding list_cmp
list_cmp-Lawful by_id = both-Lawful
list_cmp-Lawful by_name = name-Lawful
list_cmp-Lawful by_runtime =
    then_with-Lawful _ _ (on-Lawful (λ (r : SessionListRow). r.runtime) text_cmp text_cmp-Lawful)
      name-Lawful
list_cmp-Lawful by_status =
    then_with-Lawful _ _
      (on-Lawful (λ (r : SessionListRow). status_label_rank r.status) compare compare-Lawful)
      name-Lawful
list_cmp-Lawful by_updated =
    then_with-Lawful _ _
      (reverse-Lawful _ (on-Lawful (λ (r : SessionListRow). r.updated_at) compare compare-Lawful))
      both-Lawful
list_cmp-Lawful by_restarts =
    then_with-Lawful _ _
      (reverse-Lawful _
        (on-Lawful (λ (r : SessionListRow). r.restart_count) compare compare-Lawful))
      name-Lawful

-- A list shows its rows in the order asked for, by name and link where nothing is asked for; what it
-- leaves out comes later in that order, and is nothing unless the limit is reached.
pub apply_list_order-Chosen :
    (sort : Option ListSortArg) (limit : Option ℕ) (rows : List SessionListRow)
    → Chosen (list_cmp (unwrap_or sort by_id)) rows limit (apply_list_order sort limit rows)
unfolding apply_list_order
apply_list_order-Chosen sort limit rows =
    sort_by-Chosen (list_cmp (unwrap_or sort by_id)) rows limit
      (list_cmp-Lawful (unwrap_or sort by_id))
