-- ===== src/Listing/Index.antt =====
-- src/app/session_cli/global_scan_index.rs: how many sessions of each status a workspace had when its
-- state file was last read, to skip it in lists of all workspaces. Reading and writing the index
-- file are `IndexFile`.
pub mod Skipped
use launch_code.Prelude.{
  ℕ, ◌+◌, min, Bool, true, false, not, ◌&&◌, Option, none, some, List, [], ◌∷◌, length, ◌==◌,
  if◌then◌else◌,
}
use launch_code.Text.{Text}
use launch_code.Text.Decimal.{u64_max}
use launch_code.Map
use launch_code.Map.{Map}
use launch_code.Model.{SessionRecord, SessionStatus, running, stopped, suspended, unknown}
use launch_code.Batch.{
  ListStatusArg, running_arg, stopped_arg, suspended_arg, unknown_arg, ListFilters,
}

abbrev pub global_list_scan_index_schema_version : ℕ
global_list_scan_index_schema_version = 1

pub record StateFileSignature : Type 0 where
  pub len : ℕ
  pub modified_secs : ℕ
  pub modified_nanos : ℕ

-- `==` of the derived `PartialEq`
unfoldable pub signature_eq : StateFileSignature → StateFileSignature → Bool
signature_eq a b =
    a.len == b.len && a.modified_secs == b.modified_secs && a.modified_nanos == b.modified_nanos

pub record LinkSessionStatusSummary : Type 0 where
  pub state_signature : StateFileSignature
  pub total_count : ℕ
  pub running_count : ℕ
  pub stopped_count : ℕ
  pub suspended_count : ℕ
  pub unknown_count : ℕ

pub record GlobalListScanIndexDoc : Type 0 where
  pub schema_version : ℕ
  pub links : Map LinkSessionStatusSummary

-- `GlobalListScanIndexDoc::default`
abbrev pub index_doc_default : GlobalListScanIndexDoc
index_doc_default = record { schema_version = global_list_scan_index_schema_version; links = [] }

pub record GlobalListScanIndex : Type 0 where
  pub path : Option Text
  pub doc : GlobalListScanIndexDoc

abbrev or_default : Option GlobalListScanIndexDoc → GlobalListScanIndexDoc
or_default none = index_doc_default
or_default (some doc) = doc

abbrev current : GlobalListScanIndexDoc → GlobalListScanIndexDoc
current doc =
    if doc.schema_version == global_list_scan_index_schema_version then doc else index_doc_default

-- `read` is what `fs::read_to_string` gave, `from_str` is `serde_json`'s.
unfoldable pub load_best_effort :
    (Text → Option GlobalListScanIndexDoc) → Option Text → Option Text → GlobalListScanIndex
load_best_effort from_str none read = record { path = none; doc = index_doc_default }
load_best_effort from_str (some path) none = record { path = some path; doc = index_doc_default }
load_best_effort from_str (some path) (some payload) = record {
  path = some path;
  doc = current (or_default (from_str payload));
}

unfoldable pub status_count : LinkSessionStatusSummary → Option ListStatusArg → ℕ
status_count summary none = summary.total_count
status_count summary (some running_arg) = summary.running_count
status_count summary (some stopped_arg) = summary.stopped_count
status_count summary (some suspended_arg) = summary.suspended_count
status_count summary (some unknown_arg) = summary.unknown_count

unfoldable pub skip_summary :
    Option LinkSessionStatusSummary → StateFileSignature → ListFilters → Bool
unfolding status_count
skip_summary none signature filters = false
skip_summary (some summary) signature filters =
    if not (signature_eq summary.state_signature signature)
    then false
    else if summary.total_count == 0
    then true
    else status_count summary filters.status_filter == 0

unfoldable pub should_skip_for_filters :
    GlobalListScanIndex → Text → StateFileSignature → ListFilters → Bool
unfolding skip_summary
should_skip_for_filters index link_path signature filters =
    skip_summary (Map.get link_path index.doc.links) signature filters

-- `saturating_add(1)` of a `usize`
abbrev add_one : ℕ → ℕ
add_one n = min u64_max (n + 1)

-- The counts of the loop; `total_count` is set at its end.
unfoldable pub count_status : SessionStatus → LinkSessionStatusSummary → LinkSessionStatusSummary
count_status running s = record s { running_count = add_one s.running_count }
count_status stopped s = record s { stopped_count = add_one s.stopped_count }
count_status suspended s = record s { suspended_count = add_one s.suspended_count }
count_status unknown s = record s { unknown_count = add_one s.unknown_count }

unfoldable pub count_sessions :
    LinkSessionStatusSummary → List SessionRecord → LinkSessionStatusSummary
unfolding count_status
count_sessions summary [] = summary
count_sessions summary (session ∷ sessions) =
    count_sessions (count_status session.status summary) sessions

unfoldable pub update_link_summary :
    Text → StateFileSignature → List SessionRecord → GlobalListScanIndex → GlobalListScanIndex
unfolding count_sessions
update_link_summary link_path signature sessions index =
    let none_yet : LinkSessionStatusSummary = record {
      state_signature = signature;
      total_count = length sessions;
      running_count = 0;
      stopped_count = 0;
      suspended_count = 0;
      unknown_count = 0;
    } in
    let summary = count_sessions none_yet sessions in
    record index { doc = record index.doc { links = Map.insert link_path summary index.doc.links } }
