-- ===== src/Sessions/Restart.antt =====
-- Restarting a session: `api_restart_session_with_options` of src/app/session_api.rs.
pub mod Commit
use launch_code.Prelude.{
  ℕ, ◌+◌, ◌≡◌, Bool, true, false, not, ◌&&◌, ◌||◌, Option, none, some, List, [], ◌∷◌, Result, ok,
  err, ok_or, is_some, is_none, is_empty, unwrap_or, min, arith, if◌then◌else◌,
}
use launch_code.Prelude.Io.{Io, ◌>>=◌, ◌>>◌, pure, fail, lift}
use launch_code.Text.{Text, trim}
use launch_code.Text.Decimal.{u32_max}
use launch_code.Error.{
  AppError, ProcessError, state, process, session_state_changed, session_missing_pid,
  session_missing_debug_meta,
}
use launch_code.Map
use launch_code.Map.{Map}
use launch_code.Model.{
  AppState, SessionRecord, LaunchSpec, LogRetention, temporary, persistent, DebugSessionMeta,
  running, stopped, suspended, is_stopped,
}
use launch_code.State.Store.{Serde, World, lift_fs, lift_os, load, update}
use launch_code.Sessions.{Machine}
use launch_code.Sessions.Reconcile.{
  find_session, put_session, unix_timestamp_secs, reconcile_session, pid_alive,
}
use launch_code.Sessions.Resolve.{resolve_session_id, pid_eq}
use launch_code.Sessions.Retry.{retry_session_control}
use launch_code.Sessions.Stop.{as_app, stop_expected_process, load_session, sleep_world}

module _ (machine : Machine) where
  open machine use {
    Os, sleep, is_alive, stop_process, suspend_process, resume_process, run_shell_task, remove_file,
    prepare_debug_spec, run_prelaunch_task_if_any, spawn_session_worker, default_log_path,
  }

  -- What a restart takes from the session before it acts.
  unfoldable pub restart_log_path : SessionRecord → Text
  restart_log_path session = unwrap_or session.log_path (default_log_path session.id)

  -- A live process is stopped; the process may be gone already.
  unfoldable pub stop_if_alive : Option ℕ → Bool → ℕ → Io Os AppError (Unit {0})
  stop_if_alive expected_pid force grace = do
    alive ← pid_alive machine expected_pid
    if alive then stop_expected_process machine expected_pid force grace else pure tt

  -- The session as the update of a restart leaves it; the count saturates.
  unfoldable pub restarted :
      LaunchSpec → Option DebugSessionMeta → ℕ → Text → ℕ → SessionRecord → SessionRecord
  restarted spec debug_meta pid log_path now session = record session {
    spec = spec;
    pid = some pid;
    status = running;
    restart_count = min u32_max (session.restart_count + 1);
    updated_at = now;
    debug_meta = debug_meta;
    log_path = some (unwrap_or session.log_path log_path);
  }

  unfoldable pub restart_mutation :
      SessionRecord
      → LaunchSpec × Option DebugSessionMeta
      → ℕ
      → AppState
      → Io Os AppError (AppState × SessionRecord)
  restart_mutation plan prepared pid app = do
    now ← unix_timestamp_secs machine
    session ← lift (find_session plan.id app)
    let next = restarted prepared.0 prepared.1 pid (restart_log_path plan) now session
    if pid_eq session.pid plan.pid
        then pure (put_session plan.id next app, next)
        else fail (session_state_changed session.id)

  -- The error of stopping the new process is dropped.
  unfoldable pub or_kill :
      ℕ → Result AppError SessionRecord × World Os → Result AppError SessionRecord × World Os
  or_kill pid (ok session, w) = (ok session, w)
  or_kill pid (err e, w) = (err e, record w { os = (stop_process pid true 150 w.os).1 })

  module _ (json : Serde) where
    -- The update of a restart; if it fails, the process that was started is killed.
    unfoldable pub commit_restart :
        SessionRecord
        → LaunchSpec × Option DebugSessionMeta
        → ℕ
        → Io (World Os) AppError SessionRecord
    commit_restart plan prepared pid w =
        or_kill pid (update json state (restart_mutation plan prepared pid) w)

    unfoldable pub api_restart_session_once : Text → Bool → ℕ → Io (World Os) AppError SessionRecord
    api_restart_session_once session_id force grace = do
      plan ← load_session machine json session_id
      lift_os (stop_if_alive plan.pid force grace)
      prepared ← lift_os (prepare_debug_spec plan.spec)
      lift_os (run_prelaunch_task_if_any prepared.0 (restart_log_path plan))
      pid ← lift_os (spawn_session_worker plan.id prepared.0 (restart_log_path plan))
      commit_restart plan prepared pid

    unfoldable pub api_restart_session_with_options :
        Text → Bool → ℕ → Io (World Os) AppError SessionRecord
    api_restart_session_with_options session_id force grace = do
      id ← resolve_session_id json session_id
      retry_session_control (sleep_world machine json) id (api_restart_session_once id force grace)
