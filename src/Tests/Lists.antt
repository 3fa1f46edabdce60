-- ===== src/Tests/Lists.antt =====
-- Batches and lists at concrete inputs.
use mathlib.Core.Path.{subst}
use launch_code.Prelude.{
  ℕ, ◌+◌, ◌≤◌, ◌<◌, ◌≡◌, refl, true, false, none, some, List, [], ◌∷◌, ◌++◌, Result, ok, err, arith,
  keep, length, ◌⊎◌,
}
use launch_code.Prelude.Io.{Io}
use launch_code.Text
use launch_code.Text.{Text, codes}
use launch_code.Text.Decimal.{u64_max}
use launch_code.Map
use launch_code.Error.{AppError, session_not_found}
use launch_code.Model.{SessionRecord, stopped}
use launch_code.Batch.{
  stop_action, SessionApi, ListFilters, BatchExecutionControl, BatchExecutionPlan,
  BatchExecutionResult, by_id, running_arg, should_stop_after_failure, runtime_label, status_label,
}
use launch_code.Order.{truncate, sort_by, insert_by}
use launch_code.Batch.Selection.{
  matches_batch_control_filters, status_matches, default_batch_status_match, runtime_matches,
  name_matches, sort_batch_sessions, batch_cmp, select,
}
use launch_code.Batch.Selection.Chosen.{select-Chosen}
use launch_code.Batch.Engine.{
  Job, Link, enumerate_from, buckets, run_sequential, run_jobs, fill_slots, no_rows, flatten,
  execute_batch_control_for_store, run_selected, run_some, after_action, apply_batch_action,
  batch_row,
}
use launch_code.Batch.Engine.Schedule.{Has, Merge, step, done, Takes, there}
use launch_code.Batch.Engine.Limited.{Limited, Prefix, run_sequential-Limited}
use launch_code.Batch.Engine.Report.{
  Report, acted, run_jobs-Complete, execute_batch_control_for_store-Report,
}
use launch_code.Listing.{matches_list_filters}
use launch_code.Listing.Index.{
  StateFileSignature, signature_eq, GlobalListScanIndex, index_doc_default, should_skip_for_filters,
  update_link_summary,
}
use launch_code.Listing.Index.Skipped.{should_skip_for_filters-none}
use launch_code.Listing.Cache.{
  CacheFiles, SessionListCacheDoc, load_sessions_for_listing, try_read_cache, accept,
  sessions_are_cacheable, session_is_cacheable,
}
use launch_code.Listing.Cache.Fresh.{Cached, Listed, load_sessions_for_listing-Fresh}
use launch_code.Order.Chosen.{Chosen}
use launch_code.Tests.Control.{one_session}

abbrev second_session : SessionRecord
second_session = record one_session { id = codes "s2"; pid = none; status = stopped }

abbrev two_sessions : List SessionRecord
two_sessions = second_session ∷ one_session ∷ []

-- No action succeeds; the world counts them.
abbrev refusing : SessionApi ℕ
refusing = record {
  list = λ n. (ok two_sessions, n);
  stop = λ id force grace n. (err (session_not_found id), n + 1);
  restart = λ id force grace n. (err (session_not_found id), n + 1);
  suspend = λ id n. (err (session_not_found id), n + 1);
  resume = λ id n. (err (session_not_found id), n + 1);
}

abbrev all_sessions : ListFilters
all_sessions = record { status_filter = none; runtime_filter = none; name_filter = none }

abbrev one_worker : BatchExecutionPlan
one_worker = record { sort = by_id; limit = some 1; summary = false; jobs = 1 }

abbrev one_failure : BatchExecutionControl
one_failure = record { continue_on_error = true; max_failures = 1 }

abbrev here : Link
here = record { link_name = none; link_path = none }

abbrev same : Text → Text
same t = t

abbrev message : AppError → Text
message e = codes "failed"

select-Chosen_example :
    Chosen
      (batch_cmp by_id)
      (keep (matches_batch_control_filters same stop_action all_sessions) two_sessions)
      (some 1)
      (select same stop_action all_sessions one_worker two_sessions)
select-Chosen_example = select-Chosen same stop_action all_sessions one_worker two_sessions

abbrev refuse : Text → Io ℕ AppError SessionRecord
refuse id n = (err (session_not_found id), n + 1)

run_sequential-Limited_example :
    Limited one_failure two_sessions 0
      (run_sequential message refuse here one_failure two_sessions 0 0).0.0
      (run_sequential message refuse here one_failure two_sessions 0 0).0.1
run_sequential-Limited_example =
    run_sequential-Limited message refuse here one_failure two_sessions 0 0 (omega arith)

-- The second worker acts first.
abbrev second_first : List Job
second_first = (1, one_session) ∷ (0, second_session) ∷ []

second_first-Merge : Merge (buckets 2 (enumerate_from 0 two_sessions)) second_first
unfolding buckets enumerate_from keep
second_first-Merge = step (there Takes.here) (step Takes.here (done (refl, (refl, tt))))

run_jobs-Complete_example :
    let rows = flatten (fill_slots (run_jobs message refuse here second_first 0).0.0 (no_rows 2)) in
    Prefix two_sessions rows
    × (length rows ≡ length two_sessions)
    × ((run_jobs message refuse here second_first 0).1 ≡ acted refuse second_first 0)
    × (length second_first ≡ length two_sessions)
    × ((i : ℕ) → i < length two_sessions → Has i second_first)
run_jobs-Complete_example =
    run_jobs-Complete message refuse here 2 two_sessions second_first 0 (omega arith)
      second_first-Merge

-- One worker after the other.
abbrev in_turn : List (List Job) → List Job
in_turn [] = []
in_turn (b ∷ bs) = b ++ in_turn bs

skip_empty : {bs : List (List Job)} {order : List Job} → Merge bs order → Merge ([] ∷ bs) order
skip_empty (done empty) = done (refl, empty)
skip_empty (step t m) = step (there t) (skip_empty m)

bucket_first :
    (b : List Job) {bs : List (List Job)} {order : List Job}
    → Merge bs order
    → Merge (b ∷ bs) (b ++ order)
bucket_first [] m = skip_empty m
bucket_first (job ∷ b) m = step Takes.here (bucket_first b m)

in_turn-Merge : (bs : List (List Job)) → Merge bs (in_turn bs)
in_turn-Merge [] = done tt
in_turn-Merge (b ∷ bs) = bucket_first b (in_turn-Merge bs)

abbrev stopping : Io ℕ AppError (BatchExecutionResult × ℕ)
stopping =
    execute_batch_control_for_store message same in_turn refusing stop_action all_sessions false
      one_failure one_worker true 0 here 0

abbrev stopped_result : BatchExecutionResult
stopped_result = record {
  rows =
      record {
        id = codes "s1";
        runtime = codes "python";
        status_before = codes "running";
        status_after = none;
        link_name = none;
        link_path = none;
        ok = false;
        error = some (codes "failed");
      }
      ∷ [];
  selected_count = 1;
  processed_count = 1;
  link_errors = [];
  stopped_early = false;
}

stopping_runs : stopping 0 ≡ (ok (stopped_result, 1), 1)
unfolding execute_batch_control_for_store select run_selected truncate sort_batch_sessions sort_by
    keep matches_batch_control_filters status_matches default_batch_status_match runtime_matches
    name_matches insert_by run_some run_sequential after_action apply_batch_action
    should_stop_after_failure batch_row runtime_label status_label
stopping_runs = refl

abbrev Few : Result AppError (List SessionRecord) × ℕ → Type 0
Few (ok sessions, v) = 0 + length sessions ≤ u64_max
Few (err e, v) = Unit

execute_batch_control_for_store-Report_example :
    (sessions : List SessionRecord) × (v : ℕ) × (◌≡◌ {A = Result AppError (List SessionRecord) × ℕ}
      (ok two_sessions, 0)
      (ok sessions, v))
    × Report one_failure false
        (select same stop_action all_sessions one_worker sessions)
        1
        stopped_result
execute_batch_control_for_store-Report_example =
    execute_batch_control_for_store-Report message same in_turn refusing stop_action all_sessions
      false one_failure one_worker true 0 here in_turn-Merge 0 1 0 1 stopped_result stopping_runs
      room
  where
    room :
        (sessions : List SessionRecord) (v : ℕ)
        → ◌≡◌ {A = Result AppError (List SessionRecord) × ℕ} (ok two_sessions, 0) (ok sessions, v)
        → 0 + length sessions ≤ u64_max
    room sessions v h = subst Few h (omega arith)

abbrev signature : StateFileSignature
signature = record { len = 10; modified_secs = 1; modified_nanos = 2 }

abbrev empty_index : GlobalListScanIndex
empty_index = record { path = none; doc = index_doc_default }

abbrev running_only : ListFilters
running_only = record all_sessions { status_filter = some running_arg }

skips :
    should_skip_for_filters
      (update_link_summary (codes "/p") signature (second_session ∷ []) empty_index)
      (codes "/p")
      signature
      running_only
    ≡ true
unfolding should_skip_for_filters update_link_summary Map.get Map.insert Text.eq signature_eq
skips = refl

should_skip_for_filters-none_example :
    keep (matches_list_filters same running_only) (second_session ∷ []) ≡ []
should_skip_for_filters-none_example =
    should_skip_for_filters-none same running_only (codes "/p") signature signature
      (second_session ∷ []) empty_index skips

-- A cache file that the world's text is.
abbrev stopped_doc : SessionListCacheDoc
stopped_doc = record {
  schema_version = 1;
  state_signature = signature;
  sessions = second_session ∷ [];
}

abbrev cache_files : CacheFiles Text
cache_files = record {
  read_state_signature = λ w. (some signature, w);
  read_cache = λ w. (some w, w);
  create_dir_all = λ w. (ok tt, w);
  write_file = λ payload w. (ok tt, payload);
  remove_cache = λ w. [];
  from_str = λ t. some stopped_doc;
  to_string = λ doc. ok (codes "doc");
}

abbrev list_nothing : Io Text AppError (List SessionRecord)
list_nothing w = (ok [], w)

cached_list :
    load_sessions_for_listing cache_files list_nothing (codes "doc")
    ≡ (ok (second_session ∷ []), codes "doc")
unfolding load_sessions_for_listing try_read_cache accept signature_eq sessions_are_cacheable
    session_is_cacheable
cached_list = refl

load_sessions_for_listing-Fresh_example :
    Cached cache_files list_nothing (codes "doc") (codes "doc") (second_session ∷ [])
    ⊎ Listed cache_files list_nothing (codes "doc") (second_session ∷ [])
load_sessions_for_listing-Fresh_example =
    load_sessions_for_listing-Fresh cache_files list_nothing (codes "doc") (codes "doc")
      (second_session ∷ []) cached_list
