-- ===== src/Sessions/Cleanup.antt =====
-- Removing sessions by status and age: `api_cleanup_sessions_with_options` of
-- src/app/session_api.rs.
pub mod Removal
use launch_code.Prelude.{
  ok, ℕ, ◌-◌, ◌≡◌, Bool, true, false, not, ◌&&◌, ◌||◌, Option, none, some, List, [], ◌∷◌, any,
  length, is_empty, arith, leb, if◌then◌else◌,
}
use launch_code.Prelude.Io.{Io, ◌>>=◌, ◌>>◌, pure}
use launch_code.Text
use launch_code.Text.{Text}
use launch_code.Error.{AppError, state}
use launch_code.Map
use launch_code.Map.{Map}
use launch_code.Model.{AppState, SessionRecord, SessionStatus, status_eq}
use launch_code.State.Store.{Serde, World, lift_fs, lift_os, load, update}
use launch_code.Sessions.{Machine}
use launch_code.Sessions.Reconcile.{
  collect_reconcile_candidate_ids, reconcile_ids, unix_timestamp_secs,
}
use launch_code.Sessions.Stop.{prune_session_log_path}

pub record SessionCleanupResult : Type 0 where
  pub dry_run : Bool
  pub matched_session_ids : List Text
  pub removed_session_ids : List Text
  pub kept_count : ℕ

-- `older_than_secs.is_none_or(..)`, with `saturating_sub`
unfoldable pub age_matches : Option ℕ → ℕ → SessionRecord → Bool
age_matches none now session = true
age_matches (some secs) now session = leb secs (now - session.updated_at)

unfoldable pub matches : List SessionStatus → Option ℕ → ℕ → SessionRecord → Bool
matches statuses older_than_secs now session =
    any (λ value. status_eq value session.status) statuses
    && age_matches older_than_secs now session

-- In the order of the map, which is sorted.
unfoldable pub matched_ids : (SessionRecord → Bool) → Map SessionRecord → List Text
matched_ids p [] = []
matched_ids p ((id, session) ∷ rest) =
    let ids = matched_ids p rest in if p session then id ∷ ids else ids

module _ (machine : Machine) where
  open machine use {Os}

  unfoldable pub prune_entry : Option SessionRecord → Io Os AppError (Unit {0})
  prune_entry none = pure tt
  prune_entry (some session) = do prune_session_log_path machine session.log_path; pure tt

  -- `state.sessions.remove(id)`, and the log of what was removed.
  unfoldable pub remove_sessions :
      List Text → Map SessionRecord → Io Os AppError (Map SessionRecord)
  remove_sessions [] sessions = pure sessions
  remove_sessions (id ∷ ids) sessions = do
    prune_entry (Map.get id sessions)
    remove_sessions ids (Map.remove id sessions)

  abbrev cleanup_result : Bool → List Text → Map SessionRecord → SessionCleanupResult
  cleanup_result dry_run matched sessions = record {
    dry_run = dry_run;
    matched_session_ids = matched;
    removed_session_ids = if dry_run then [] else matched;
    kept_count = length sessions;
  }

  -- The mutation behind the reconciled sessions.
  unfoldable pub remove_matched :
      Bool
      → List Text
      → AppState
      → Map SessionRecord
      → Io Os AppError (AppState × SessionCleanupResult)
  remove_matched dry_run matched app sessions = do
    kept ← (if dry_run then pure sessions else remove_sessions matched sessions)
    pure (record app { sessions = kept }, cleanup_result dry_run matched kept)

  module _ (statuses : List SessionStatus) (older_than_secs : Option ℕ) (dry_run : Bool) where
    unfoldable pub cleanup_mutation :
        List Text → AppState → Io Os AppError (AppState × SessionCleanupResult)
    cleanup_mutation ids app = do
      now ← unix_timestamp_secs machine
      sessions ← reconcile_ids machine ids now app.sessions
      remove_matched dry_run (matched_ids (matches statuses older_than_secs now) sessions) app
          sessions

    -- `remove_mappings` is `session_lookup::remove_session_mappings`, whose error is dropped.
    module _ (json : Serde) (remove_mappings : List Text → Os → Os) where
      unfoldable pub forget_mappings :
          SessionCleanupResult → Io (World Os) AppError SessionCleanupResult
      forget_mappings result w =
          if is_empty result.removed_session_ids
          then (ok result, w)
          else (ok result, record w { os = remove_mappings result.removed_session_ids w.os })

      unfoldable pub api_cleanup_sessions_with_options : Io (World Os) AppError SessionCleanupResult
      api_cleanup_sessions_with_options = do
        preloaded ← lift_fs state (load json)
        result ←
            update json state
              (cleanup_mutation (collect_reconcile_candidate_ids preloaded.sessions))
        forget_mappings result
