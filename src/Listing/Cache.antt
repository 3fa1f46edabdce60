-- ===== src/Listing/Cache.antt =====
-- src/app/session_cli/list_cache.rs: the sessions of a workspace in which nothing runs are kept beside
-- the state file. `CacheFiles` is the file system and `serde_json`.
pub mod Fresh
use launch_code.Prelude.{
  ℕ, Bool, true, false, ◌&&◌, ◌||◌, not, Option, none, some, List, [], ◌∷◌, Result, ok, err,
  is_none, is_empty, all, ◌==◌, if◌then◌else◌,
}
use launch_code.Prelude.Io.{Io, ◌>>=◌, ◌>>◌, pure, lift}
use launch_code.Text.{Text}
use launch_code.Error.{AppError}
use launch_code.Model.{SessionRecord, is_stopped}
use launch_code.Listing.Index.{StateFileSignature, signature_eq}

abbrev pub list_cache_schema_version : ℕ
list_cache_schema_version = 1

pub record SessionListCacheDoc : Type 0 where
  pub schema_version : ℕ
  pub state_signature : StateFileSignature
  pub sessions : List SessionRecord

-- `read_state_signature` and `read_cache` are none where a call fails; `remove_cache` is the removal
-- of the file where it exists.
pub record CacheFiles (W : Type 0) : Type 0 where
  pub read_state_signature : W → Option StateFileSignature × W
  pub read_cache : W → Option Text × W
  pub create_dir_all : Io W AppError (Unit {0})
  pub write_file : Text → Io W AppError (Unit {0})
  pub remove_cache : W → W
  pub from_str : Text → Option SessionListCacheDoc
  pub to_string : SessionListCacheDoc → Result AppError Text

unfoldable pub session_is_cacheable : SessionRecord → Bool
session_is_cacheable session = is_none session.pid && is_stopped session.status

unfoldable pub sessions_are_cacheable : List SessionRecord → Bool
sessions_are_cacheable = all session_is_cacheable

unfoldable pub accept :
    StateFileSignature → Option SessionListCacheDoc → Option (List SessionRecord)
accept signature none = none
accept signature (some doc) =
    if not (doc.schema_version == list_cache_schema_version)
    then none
    else if not (signature_eq doc.state_signature signature)
    then none
    else if not (sessions_are_cacheable doc.sessions)
    then none
    else some doc.sessions

module _ {W : Type 0} (files : CacheFiles W) (api_list : Io W AppError (List SessionRecord)) where
  open files use {
    read_state_signature, read_cache, create_dir_all, write_file, remove_cache, from_str, to_string,
  }

  abbrev pub parsed : StateFileSignature → Option Text → Option (List SessionRecord)
  parsed signature none = none
  parsed signature (some payload) = accept signature (from_str payload)

  unfoldable pub try_read_cache : StateFileSignature → W → Option (List SessionRecord) × W
  try_read_cache signature w = let (payload, u) = read_cache w in (parsed signature payload, u)

  unfoldable pub write_cache : StateFileSignature → List SessionRecord → Io W AppError (Unit {0})
  write_cache signature sessions = do
    create_dir_all
    payload ← lift (
        to_string (record {
          schema_version = list_cache_schema_version;
          state_signature = signature;
          sessions = sessions;
        }))
    write_file payload

  abbrev written : List SessionRecord → Option StateFileSignature × W → W
  written sessions (none, w) = remove_cache w
  written sessions (some signature, w) = (write_cache signature sessions w).1

  unfoldable pub refresh_cache_after_list : List SessionRecord → W → W
  refresh_cache_after_list sessions w =
      if is_empty sessions || not (sessions_are_cacheable sessions)
      then remove_cache w
      else written sessions (read_state_signature w)

  abbrev pub listed :
      Result AppError (List SessionRecord) × W → Result AppError (List SessionRecord) × W
  listed (ok sessions, w) = (ok sessions, refresh_cache_after_list sessions w)
  listed (err e, w) = (err e, w)

  abbrev pub or_list : Option (List SessionRecord) × W → Result AppError (List SessionRecord) × W
  or_list (none, w) = listed (api_list w)
  or_list (some sessions, w) = (ok sessions, w)

  abbrev pub by_signature : Option StateFileSignature × W → Result AppError (List SessionRecord) × W
  by_signature (none, w) = listed (api_list w)
  by_signature (some signature, w) = or_list (try_read_cache signature w)

  unfoldable pub load_sessions_for_listing : Io W AppError (List SessionRecord)
  load_sessions_for_listing w = by_signature (read_state_signature w)
