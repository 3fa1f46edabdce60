-- ===== src/Listing.antt =====
-- Lists of sessions: the filters, the rows and their order of src/app/session_cli.rs and
-- src/app/session_cli/view.rs. `Listing/Index` is src/app/session_cli/global_scan_index.rs,
-- `Listing/Cache` is src/app/session_cli/list_cache.rs. Printing the rows is output.
pub mod Ordered
pub mod Index
pub mod Cache
use Prim.Native.Nat.{compare, Ordering}
use launch_code.Prelude.{
  ℕ, Bool, true, false, ◌&&◌, Option, none, some, List, [], ◌∷◌, ◌++◌, unwrap_or, is_empty,
  if◌then◌else◌,
}
use launch_code.Text
use launch_code.Text.{Text, codes, to_ascii_lowercase}
use launch_code.Text.Decimal.{to_string}
use launch_code.Map
use launch_code.Map.{Map}
use launch_code.Model.{SessionRecord, SessionStatus, LaunchMode, run, debug_mode, DebugSessionMeta}
use launch_code.Order.{then_with, text_cmp, option_cmp, sort_by, truncate}
use launch_code.Sessions.Resolve.{infer_parent_session_id, collect_child_session_ids}
use launch_code.Batch.{ListStatusArg, ListFilters, matches_list_status, runtime_label, status_label}
use launch_code.Batch.Selection.{runtime_matches, name_matches}

pub record SessionListRow : Type 0 where
  pub id : Text
  pub status : Text
  pub runtime : Text
  pub mode : Text
  pub updated_at : ℕ
  pub pid : Option ℕ
  pub restart_count : ℕ
  pub name : Text
  pub entry : Text
  pub debug_endpoint : Option Text
  pub parent_session_id : Option Text
  pub child_session_ids : List Text
  pub link_name : Option Text
  pub link_path : Option Text

unfoldable pub mode_label : LaunchMode → Text
mode_label run = codes "run"
mode_label debug_mode = codes "debug"

unfoldable pub list_status_matches : Option ListStatusArg → SessionStatus → Bool
list_status_matches none status = true
list_status_matches (some filter) status = matches_list_status filter status

-- `to_lowercase` is `str::to_lowercase`.
unfoldable pub matches_list_filters : (Text → Text) → ListFilters → SessionRecord → Bool
matches_list_filters to_lowercase filters session =
    list_status_matches filters.status_filter session.status
    && runtime_matches filters.runtime_filter session.spec.runtime
    && name_matches to_lowercase filters.name_filter session.spec.name

unfoldable pub debug_endpoint : Option DebugSessionMeta → Option Text
debug_endpoint none = none
debug_endpoint (some meta) = some (meta.host ++ b':' ∷ to_string meta.active_port)

module _ (to_lowercase : Text → Text) (filters : ListFilters)
    (link_name link_path : Option Text) where
  unfoldable pub list_row : Option Text → List Text → Text → SessionRecord → SessionListRow
  list_row parent children id session = record {
    id = id;
    status = status_label session.status;
    runtime = runtime_label session.spec.runtime;
    mode = mode_label session.spec.mode;
    updated_at = session.updated_at;
    pid = session.pid;
    restart_count = session.restart_count;
    name = session.spec.name;
    entry = session.spec.entry;
    debug_endpoint = debug_endpoint session.debug_meta;
    parent_session_id = parent;
    child_session_ids = children;
    link_name = link_name;
    link_path = link_path;
  }

  -- Without the topology
  unfoldable pub flat_rows : List SessionRecord → List SessionListRow
  flat_rows [] = []
  flat_rows (session ∷ sessions) =
      let rows = flat_rows sessions in
      if matches_list_filters to_lowercase filters session
      then list_row none [] session.id session ∷ rows
      else rows

  unfoldable pub session_map_from : Map SessionRecord → List SessionRecord → Map SessionRecord
  session_map_from m [] = m
  session_map_from m (session ∷ sessions) =
      session_map_from (Map.insert session.id session m) sessions

  -- With the topology, over the entries of the map of all sessions
  unfoldable pub topology_rows : Map SessionRecord → Map SessionRecord → List SessionListRow
  topology_rows session_map [] = []
  topology_rows session_map ((id, session) ∷ entries) =
      let rows = topology_rows session_map entries in
      if matches_list_filters to_lowercase filters session
      then list_row (infer_parent_session_id session session_map)
          (collect_child_session_ids session session_map) id session
        ∷ rows
      else rows

  unfoldable pub collect_rows_from_sessions : Bool → List SessionRecord → List SessionListRow
  collect_rows_from_sessions include_topology sessions =
      let session_map = session_map_from [] sessions in
      if is_empty sessions
      then []
      else if include_topology
      then topology_rows session_map session_map
      else flat_rows sessions

pub data ListSortArg : Type 0 where
  by_id by_name by_runtime by_status by_updated by_restarts : ListSortArg

-- `status_sort_rank` of src/app/session_cli.rs, which goes by the label
unfoldable pub status_label_rank : Text → ℕ
status_label_rank status =
    if Text.eq status (codes "running")
    then 0
    else if Text.eq status (codes "suspended")
    then 1
    else if Text.eq status (codes "stopped")
    then 2
    else if Text.eq status (codes "unknown")
    then 3
    else 255

abbrev pub by_row_id : SessionListRow → SessionListRow → Ordering
by_row_id left right = text_cmp left.id right.id

abbrev pub by_row_link : SessionListRow → SessionListRow → Ordering
by_row_link left right = option_cmp text_cmp left.link_name right.link_name

abbrev pub by_row_name : SessionListRow → SessionListRow → Ordering
by_row_name left right = text_cmp (to_ascii_lowercase left.name) (to_ascii_lowercase right.name)

abbrev pub by_both : SessionListRow → SessionListRow → Ordering
by_both left right = then_with (by_row_id left right) (by_row_link left right)

-- The comparisons of `apply_list_order`; the latest and the most often restarted come first.
unfoldable pub list_cmp : ListSortArg → SessionListRow → SessionListRow → Ordering
list_cmp by_id left right = by_both left right
list_cmp by_name left right = then_with (by_row_name left right) (by_both left right)
list_cmp by_runtime left right =
    then_with (text_cmp left.runtime right.runtime)
      (then_with (by_row_name left right) (by_both left right))
list_cmp by_status left right =
    then_with (compare (status_label_rank left.status) (status_label_rank right.status))
      (then_with (by_row_name left right) (by_both left right))
list_cmp by_updated left right =
    then_with (compare right.updated_at left.updated_at) (by_both left right)
list_cmp by_restarts left right =
    then_with (compare right.restart_count left.restart_count)
      (then_with (by_row_name left right) (by_both left right))

unfoldable pub apply_list_order :
    Option ListSortArg → Option ℕ → List SessionListRow → List SessionListRow
apply_list_order sort limit rows = truncate limit (sort_by (list_cmp (unwrap_or sort by_id)) rows)
