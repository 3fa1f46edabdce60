-- ===== src/Sessions/Stop.antt =====
-- Stopping a session: `api_stop_session_with_options` of src/app/session_api.rs. The update of the
-- store compares the process with the one that was stopped.
pub mod Swap
use launch_code.Prelude.{
  ℕ, ◌+◌, ◌≡◌, Bool, true, false, not, ◌&&◌, ◌||◌, Option, none, some, List, [], ◌∷◌, Result, ok,
  err, ok_or, is_some, is_none, is_empty, unwrap_or, min, arith, if◌then◌else◌,
}
use launch_code.Prelude.Io.{Io, ◌>>=◌, ◌>>◌, pure, fail, lift}
use launch_code.Text.{Text, trim}
use launch_code.Text.Decimal.{u32_max}
use launch_code.Error.{
  AppError, ProcessError, state, process, session_state_changed, session_missing_pid,
  session_missing_debug_meta,
}
use launch_code.Map
use launch_code.Map.{Map}
use launch_code.Model.{
  AppState, SessionRecord, LaunchSpec, LogRetention, temporary, persistent, DebugSessionMeta,
  running, stopped, suspended, is_stopped,
}
use launch_code.State.Store.{Serde, World, lift_fs, lift_os, load, update}
use launch_code.Sessions.{Machine}
use launch_code.Sessions.Reconcile.{
  find_session, put_session, unix_timestamp_secs, reconcile_session, pid_alive,
}
use launch_code.Sessions.Resolve.{resolve_session_id, pid_eq}
use launch_code.Sessions.Retry.{retry_session_control}

-- `should_prune_session_log` of src/app.rs
abbrev pub is_temporary : LogRetention → Bool
is_temporary temporary = true
is_temporary persistent = false

unfoldable pub should_prune_session_log : SessionRecord → Bool
should_prune_session_log session = is_temporary session.spec.log_retention

pub record ShellTaskSpec : Type 0 where
  pub task : Text
  pub cwd : Text
  pub env : Map Text
  pub env_remove : List Text
  pub log_path : Text

unfoldable pub post_stop_task : SessionRecord → Option Text → Option Text → Option ShellTaskSpec
post_stop_task session (some task) (some log_path) = some (record {
  task = task;
  cwd = session.spec.cwd;
  env = session.spec.env;
  env_remove = session.spec.env_remove;
  log_path = log_path;
})
post_stop_task session _ _ = none

unfoldable pub build_post_stop_task : SessionRecord → Option ShellTaskSpec
unfolding post_stop_task
build_post_stop_task session = post_stop_task session session.spec.poststop_task session.log_path

-- What the first update of a stop hands back.
pub record StopOutcome : Type 0 where
  pub session : SessionRecord
  pub post_task : Option ShellTaskSpec
  pub log_should_prune : Bool

-- The session is as it was read.
unfoldable pub stop_expected : Option ℕ → ℕ → SessionRecord → StopOutcome
stop_expected expected_pid now session = record {
  session = record session { pid = none; status = stopped; updated_at = now };
  post_task = if is_some expected_pid then build_post_stop_task session else none;
  log_should_prune = should_prune_session_log session;
}

-- Someone else stopped the session.
unfoldable pub stop_already : ℕ → SessionRecord → StopOutcome
stop_already now session = record {
  session =
      if is_stopped session.status
      then session
      else record session { status = stopped; updated_at = now };
  post_task = none;
  log_should_prune = should_prune_session_log session;
}

unfoldable pub stop_session : Option ℕ → ℕ → SessionRecord → Result AppError StopOutcome
stop_session expected_pid now session =
    if pid_eq session.pid expected_pid
    then ok (stop_expected expected_pid now session)
    else if is_none session.pid
    then ok (stop_already now session)
    else err (session_state_changed session.id)

module _ (machine : Machine) where
  open machine use {
    Os, sleep, is_alive, stop_process, suspend_process, resume_process, run_shell_task, remove_file,
    prepare_debug_spec, run_prelaunch_task_if_any, spawn_session_worker, default_log_path,
  }

  -- The mutation of `api_stop_session_once`.
  unfoldable pub stop_mutation :
      Text → Option ℕ → AppState → Io Os AppError (AppState × StopOutcome)
  stop_mutation session_id expected_pid app = do
    now ← unix_timestamp_secs machine
    session ← lift (find_session session_id app)
    outcome ← lift (stop_session expected_pid now session)
    pure (put_session session_id outcome.session app, outcome)

  abbrev process_result : Result ProcessError Unit × Os → Result AppError (Unit {0}) × Os
  process_result (ok _, os) = (ok tt, os)
  process_result (err e, os) = (err (process e), os)

  abbrev pub as_app : Io Os ProcessError (Unit {0}) → Io Os AppError (Unit {0})
  as_app m os = process_result (m os)

  unfoldable pub stop_expected_process : Option ℕ → Bool → ℕ → Io Os AppError (Unit {0})
  stop_expected_process none force grace = pure tt
  stop_expected_process (some pid) force grace = as_app (stop_process pid force grace)

  unfoldable pub run_post_task : Option ShellTaskSpec → Io Os AppError (Unit {0})
  run_post_task none = pure tt
  run_post_task (some t) = as_app (run_shell_task t.task t.cwd t.env t.env_remove t.log_path)

  abbrev bool_result : Bool × Os → Result AppError Bool × Os
  bool_result (b, os) = (ok b, os)

  -- `prune_session_log_path` of src/app.rs
  unfoldable pub prune_session_log_path : Option Text → Io Os AppError Bool
  prune_session_log_path none = pure false
  prune_session_log_path (some path) =
      if is_empty (trim path) then pure false else λ os. bool_result (remove_file path os)

  -- The second update of a stop: the log of a session with a temporary log is removed.
  unfoldable pub prune_mutation : Text → AppState → Io Os AppError (AppState × SessionRecord)
  prune_mutation session_id app = do
    session ← lift (find_session session_id app)
    prune_session_log_path session.log_path
    let pruned = record session { log_path = none }
    pure (put_session session_id pruned app, pruned)

  module _ (json : Serde) where
    unfoldable pub load_session : Text → Io (World Os) AppError SessionRecord
    load_session session_id = do app ← lift_fs state (load json); lift (find_session session_id app)

    unfoldable pub finish_stop : Text → StopOutcome → Io (World Os) AppError SessionRecord
    finish_stop session_id outcome =
        if outcome.log_should_prune
        then update json state (prune_mutation session_id)
        else pure outcome.session

    unfoldable pub api_stop_session_once : Text → Bool → ℕ → Io (World Os) AppError SessionRecord
    api_stop_session_once session_id force grace = do
      read ← load_session session_id
      lift_os (stop_expected_process read.pid force grace)
      outcome ← update json state (stop_mutation session_id read.pid)
      lift_os (run_post_task outcome.post_task)
      finish_stop session_id outcome

    abbrev pub sleep_world : ℕ → World Os → World Os
    sleep_world ms w = record w { os = sleep ms w.os }

    unfoldable pub api_stop_session_with_options :
        Text → Bool → ℕ → Io (World Os) AppError SessionRecord
    api_stop_session_with_options session_id force grace = do
      id ← resolve_session_id json session_id
      retry_session_control sleep_world id (api_stop_session_once id force grace)
