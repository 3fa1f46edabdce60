-- ===== src/Tests/Control.antt =====
-- Session control at concrete inputs.
use launch_code.Prelude.{
  ℕ, ◌+◌, ◌≡◌, refl, true, false, some, none, [], ◌∷◌, List, Result, ok, err, ◌⊎◌, ltb,
  if◌then◌else◌,
}
use launch_code.Prelude.Io.{Io}
use launch_code.Text.{Text, codes}
use launch_code.Map
use launch_code.Map.{Map}
use launch_code.Error.{AppError, state, session_state_changed}
use launch_code.Model.{
  AppState, SessionRecord, LaunchSpec, app_state_default, python, run, persistent, running, stopped,
}
use launch_code.State.Store.{Serde, World, update}
use launch_code.Model.{status_eq}
use launch_code.Text.{trim, trim_start, trim_start_by, trim_end_by, is_whitespace}
use launch_code.State.Migrate.{migrate_state, migrate_sessions, migrate_session}
use launch_code.State.Files.{touch, lock, open_tmp, write_tmp, rename_tmp, read_state}
use launch_code.State.Store.{
  update_locked, load_unlocked, load_existing, decode_text, save_unlocked, encode, replace_file,
  open_lock_file,
}
use launch_code.Sessions.Reconcile.{
  session_requires_reconcile_for_list, reconcile_found, reconcile_session, pid_alive, reconcile_for,
  mark_stopped, find_session,
}
use launch_code.Sessions.Stop.{
  stop_expected, should_prune_session_log, build_post_stop_task, prune_session_log_path,
}
use launch_code.Sessions.Resolve.{pid_eq}
use launch_code.Sessions.Cleanup.{
  remove_matched, matched_ids, age_matches, remove_sessions, prune_entry,
}
use launch_code.Sessions.Retry.{retry_from, retry_after, retry_backoff}
use launch_code.Text
use launch_code.Sessions.{Machine}
use launch_code.Sessions.Reconcile.{list_mutation, collect_reconcile_candidate_ids, reconcile_ids}
use launch_code.Sessions.Reconcile.Rounds.{
  Listed, list_mutation-IsSettled, Reconciled, reconcile_ids-Reconciled,
}
use launch_code.Sessions.Stop.{StopOutcome, stop_mutation, stop_session}
use launch_code.Sessions.Stop.Swap.{Stopped, stop-Stopped}
use launch_code.Sessions.Restart.{commit_restart}
use launch_code.Sessions.Restart.Commit.{Recorded, Withdrawn, commit_restart-Committed}
use launch_code.Sessions.Cleanup.{SessionCleanupResult, cleanup_mutation, matches}
use launch_code.Sessions.Cleanup.Removal.{Removed, cleanup_mutation-Removed}
use launch_code.Sessions.Retry.{retry_session_control, Attempts, retry_session_control-Attempts}

-- A machine that counts what it is asked to do; no process is alive, and stopping one succeeds.
abbrev pub counting_machine : Machine
counting_machine = record {
  Os = ℕ;
  clock = λ n. (1000, n);
  sleep = λ ms n. n + ms;
  is_alive = λ pid n. (false, n + 1);
  stop_process = λ pid force grace n. (ok tt, n + 1);
  suspend_process = λ pid n. (ok tt, n + 1);
  resume_process = λ pid n. (ok tt, n + 1);
  run_shell_task = λ task cwd env env_remove log n. (ok tt, n + 1);
  remove_file = λ path n. (true, n + 1);
  prepare_debug_spec = λ spec n. (ok (spec, none), n);
  run_prelaunch_task_if_any = λ spec log n. (ok tt, n);
  spawn_session_worker = λ id spec log n. (ok 77, n + 1);
  default_log_path = λ id. id;
}

abbrev one_spec : LaunchSpec
one_spec = record {
  name = codes "web";
  runtime = python;
  entry = codes "app.py";
  args = [];
  cwd = codes ".";
  env = [];
  env_files = [];
  env_remove = [];
  managed = false;
  mode = run;
  log_retention = persistent;
  debug = none;
  prelaunch_task = none;
  poststop_task = none;
}

abbrev pub one_session : SessionRecord
one_session = record {
  id = codes "s1";
  spec = one_spec;
  status = running;
  pid = some 7;
  supervisor_pid = none;
  log_path = none;
  debug_meta = none;
  created_at = 1;
  updated_at = 1;
  last_exit_code = none;
  restart_count = 0;
}

abbrev pub one_app : AppState
one_app = record app_state_default { sessions = (codes "s1", one_session) ∷ [] }

abbrev settled_session : SessionRecord
settled_session = record one_session { pid = none; status = stopped; updated_at = 1000 }

abbrev listing : Result AppError (AppState × List SessionRecord) × ℕ
listing =
    list_mutation counting_machine (collect_reconcile_candidate_ids one_app.sessions) one_app 0

listing_runs : listing ≡ (
  ok (record one_app { sessions = (codes "s1", settled_session) ∷ [] }, settled_session ∷ []),
  1,
)
unfolding list_mutation collect_reconcile_candidate_ids session_requires_reconcile_for_list
    reconcile_ids reconcile_found reconcile_session pid_alive reconcile_for mark_stopped Map.get
    Map.insert Map.values Text.eq Text.lt
listing_runs = refl

list_mutation-IsSettled_example :
    Listed counting_machine one_app
      (record one_app { sessions = (codes "s1", settled_session) ∷ [] })
      (settled_session ∷ [])
list_mutation-IsSettled_example = list_mutation-IsSettled counting_machine one_app 0 listing_runs

reconcile_runs :
    reconcile_ids counting_machine (codes "s1" ∷ codes "s2" ∷ []) 1000 one_app.sessions 0
    ≡ (ok ((codes "s1", settled_session) ∷ []), 1)
unfolding reconcile_ids reconcile_found reconcile_session pid_alive reconcile_for mark_stopped
    Map.get Map.insert Text.eq Text.lt
reconcile_runs = refl

reconcile_ids-Reconciled_example :
    Reconciled counting_machine
      (codes "s1" ∷ codes "s2" ∷ [])
      one_app.sessions
      ((codes "s1", settled_session) ∷ [])
reconcile_ids-Reconciled_example =
    reconcile_ids-Reconciled counting_machine (codes "s1" ∷ codes "s2" ∷ []) 1000 one_app.sessions 0
      reconcile_runs

-- A serializer of one state.
abbrev one_state : Serde
one_state = record { to_string_pretty = λ s. ok (codes "1"); from_str = λ t. ok one_app }

abbrev stored : World ℕ
stored = record {
  fs = record { state_file = some (codes "1"); tmp_file = none; faults = []; others = [] };
  os = 0;
}

abbrev stop_outcome : StopOutcome
stop_outcome = record { session = settled_session; post_task = none; log_should_prune = false }

stop_runs :
    update one_state {E = AppError} state
      (stop_mutation counting_machine (codes "s1") (some 7))
      stored
    ≡ (ok stop_outcome, stored)
unfolding update update_locked load_unlocked load_existing decode_text save_unlocked encode
    replace_file open_lock_file touch lock open_tmp write_tmp rename_tmp read_state migrate_state
    migrate_sessions migrate_session stop_mutation find_session stop_session stop_expected
    should_prune_session_log build_post_stop_task pid_eq Map.get Map.insert Text.eq Text.lt trim
    trim_start trim_start_by trim_end_by is_whitespace
stop_runs = refl

stop-Stopped_example :
    Stopped one_state (codes "s1") (some 7) (some (codes "1")) (some (codes "1")) stop_outcome
stop-Stopped_example =
    stop-Stopped counting_machine one_state (codes "s1") (some 7) stored stop_runs

-- The plan is from before another process took the session.
abbrev old_plan : SessionRecord
old_plan = record one_session { pid = some 6 }

abbrev late : Result AppError SessionRecord × World ℕ
late = commit_restart counting_machine one_state old_plan (one_spec, none) 9 stored

commit_restart-Committed_example :
    ((session : SessionRecord) × (late.0 ≡ ok session)
      × Recorded counting_machine old_plan
          (one_spec, none)
          9
          one_state
          (some (codes "1"))
          late.1.fs.state_file
          session)
    ⊎ ((e : AppError) × (late.0 ≡ err e)
        × Withdrawn counting_machine old_plan (one_spec, none) 9 one_state stored e late.1)
commit_restart-Committed_example =
    commit_restart-Committed counting_machine old_plan (one_spec, none) 9 one_state stored late.0
      late.1 refl

abbrev cleanup_outcome : SessionCleanupResult
cleanup_outcome = record {
  dry_run = false;
  matched_session_ids = codes "s1" ∷ [];
  removed_session_ids = codes "s1" ∷ [];
  kept_count = 0;
}

cleanup_runs :
    cleanup_mutation counting_machine
      (stopped ∷ [])
      none
      false
      (collect_reconcile_candidate_ids one_app.sessions)
      one_app
      0
    ≡ (ok (record one_app { sessions = [] }, cleanup_outcome), 1)
unfolding cleanup_mutation collect_reconcile_candidate_ids session_requires_reconcile_for_list
    reconcile_ids reconcile_found reconcile_session pid_alive reconcile_for mark_stopped Map.get
    Map.insert Map.remove Text.eq Text.lt remove_matched matched_ids matches age_matches status_eq
    remove_sessions prune_entry prune_session_log_path
cleanup_runs = refl

cleanup_mutation-Removed_example :
    (reconciled : Map SessionRecord) × (os₁ : ℕ) × (reconcile_ids counting_machine
        (collect_reconcile_candidate_ids one_app.sessions)
        1000
        one_app.sessions
        0
      ≡ (ok reconciled, os₁))
    × Removed counting_machine
        (matches (stopped ∷ []) none 1000)
        false
        one_app
        reconciled
        (record one_app { sessions = [] })
        cleanup_outcome
cleanup_mutation-Removed_example =
    cleanup_mutation-Removed counting_machine (stopped ∷ []) none false
      (collect_reconcile_candidate_ids one_app.sessions) one_app 0 (tt, tt) cleanup_runs

-- An operation that conflicts as long as the clock is below fifteen.
abbrev contended : Io ℕ AppError ℕ
contended n = (if ltb n 15 then err (session_state_changed (codes "s1")) else ok n, n)

retry_runs : retry_session_control {S = ℕ} (λ ms n. n + ms) (codes "s1") contended 0 ≡ (ok 30, 30)
unfolding retry_session_control retry_from retry_after retry_backoff
retry_runs = refl

retry_session_control-Attempts_example :
    Attempts {S = ℕ}
      (λ ms n. n + ms)
      (codes "s1")
      contended
      0
      0
      (retry_session_control {S = ℕ} (λ ms n. n + ms) (codes "s1") contended 0)
retry_session_control-Attempts_example =
    retry_session_control-Attempts {S = ℕ} (λ ms n. n + ms) (codes "s1") contended 0
