-- ===== src/State/Store.antt =====
-- `StateStore` of src/state.rs: loading, saving and updating under the lock. `serde_json` is the
-- parameter `json`; what it is relied on for is `SerdeLaws`.
mod Atomic
pub mod Contract
pub mod Crash
pub mod RoundTrip
use launch_code.Prelude.{
  ◌≡◌, false, Option, none, some, Result, ok, err, map_err, is_empty, if◌then◌else◌,
}
use launch_code.Prelude.Io.{Io, ◌>>=◌, ◌>>◌, pure, lift}
use launch_code.Text.{Text, trim}
use launch_code.Error.{StateError, serde}
use launch_code.Model.{AppState, app_state_default, app_state_schema_version}
use launch_code.State.Migrate.{migrate_state}
use launch_code.State.Files.{Files, touch, lock, open_tmp, write_tmp, rename_tmp, read_state}

pub record Serde : Type 0 where
  pub to_string_pretty : AppState → Result Text Text
  pub from_str : Text → Result Text AppState

-- What is written is read back, and is never blank.
pub record SerdeLaws (json : Serde) : Type 0 where
  pub from_str-to_string :
      (state : AppState) (payload : Text)
      → json.to_string_pretty state ≡ ok payload
      → json.from_str payload ≡ ok state
  pub payload_not_blank :
      (state : AppState) (payload : Text)
      → json.to_string_pretty state ≡ ok payload
      → is_empty (trim payload) ≡ false

-- A store's files, and the rest of the system that a mutation may act on.
pub record World (O : Type 0) : Type 0 where
  pub fs : Files
  pub os : O

module _ {O E A : Type 0} where
  abbrev lift_fs_result :
      World O → (StateError → E) → Result StateError A × Files → Result E A × World O
  lift_fs_result w from (r, fs) = (map_err from r, record w { fs = fs })

  abbrev pub lift_fs : (StateError → E) → Io Files StateError A → Io (World O) E A
  lift_fs from m w = lift_fs_result w from (m w.fs)

  abbrev lift_os_result : World O → Result E A × O → Result E A × World O
  lift_os_result w (r, os) = (r, record w { os = os })

  abbrev pub lift_os : Io O E A → Io (World O) E A
  lift_os m w = lift_os_result w (m w.os)

-- The part of `save_unlocked` behind the payload: the temporary file is written and synced, then it
-- takes the place of `state.json`, and the directory is opened and synced.
unfoldable pub replace_file : Text → Io Files StateError (Unit {0})
replace_file payload = do open_tmp; write_tmp payload; touch; rename_tmp; touch; touch

-- `open_lock_file` makes the directory and opens the lock's file.
unfoldable pub open_lock_file : Io Files StateError (Unit {0})
open_lock_file = do touch; touch

module _ (json : Serde) where
  -- What a file's text says, without the failures of reading it.
  unfoldable pub decode_text : Text → Result StateError AppState
  decode_text payload =
      if is_empty (trim payload)
      then ok app_state_default
      else elim (json.from_str payload) [ ok state ↦ migrate_state state | err e ↦ err (serde e) ]

  unfoldable pub decode_file : Option Text → Result StateError AppState
  decode_file none = ok app_state_default
  decode_file (some payload) = decode_text payload

  -- `load_unlocked`; the test is `path.exists()`.
  unfoldable pub load_existing : Option Text → Io Files StateError AppState
  load_existing none = pure app_state_default
  load_existing (some payload) = do text ← read_state; lift (decode_text text)

  unfoldable pub load_unlocked : Io Files StateError AppState
  unfolding load_existing
  load_unlocked fs = load_existing fs.state_file fs

  -- The text that `save_unlocked` writes for a state.
  unfoldable pub encode : AppState → Result StateError Text
  encode state = elim (migrate_state state) [
    | err e ↦ err e
    | ok persisted ↦
        map_err serde
          (json.to_string_pretty (record persisted { schema_version = app_state_schema_version }))
  ]

  unfoldable pub save_unlocked : AppState → Io Files StateError (Unit {0})
  save_unlocked state = do touch; payload ← lift (encode state); replace_file payload

  unfoldable pub load : Io Files StateError AppState
  load = do open_lock_file; lock; load_unlocked

  unfoldable pub save : AppState → Io Files StateError (Unit {0})
  save state = do open_lock_file; lock; save_unlocked state

  module _ {O E R : Type 0} (from : StateError → E) where
    -- The three steps of `update` under the lock.
    unfoldable pub update_locked : (AppState → Io O E (AppState × R)) → Io (World O) E R
    update_locked mutate = do
      state ← lift_fs from load_unlocked
      next ← lift_os (mutate state)
      lift_fs from (save_unlocked next.0)
      pure next.1

    unfoldable pub update : (AppState → Io O E (AppState × R)) → Io (World O) E R
    update mutate = do lift_fs from open_lock_file; lift_fs from lock; update_locked mutate
