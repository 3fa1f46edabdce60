-- ===== src/Tests.antt =====
-- The theorems at concrete inputs.
mod Configs
mod Control
mod Launches
mod Lists
mod Names
mod Processes
mod Wire
use launch_code.Prelude.{
  ℕ, ◌+◌, ◌&&◌, is_none, Bool, ◌≡◌, refl, true, some, none, [], ◌∷◌, ok, err, ◌↔◌, ◌<◌, arith, ◌==◌,
  if◌then◌else◌, is_empty,
}
use launch_code.Prelude.Io.{Io}
use launch_code.Text.{Text, codes, trim, is_whitespace}
use launch_code.Map
use launch_code.Map.{Map}
use launch_code.Error.{StateError, unsupported_state_schema_version, session_not_found}
use launch_code.Error.Codes.{agrees, http_status_for_error, exit_code, http_status-agrees-exit_code}
use launch_code.Model.{AppState, app_state_default, app_state_schema_version}
use launch_code.EnvFile.{parse_env_payload}
use launch_code.EnvFile.RoundTrip.{render, is_name_char, parse_env_payload-render}
use launch_code.State.Migrate.{migrate_state, migrate_sessions, migrate_state_idem}
use launch_code.State.Files.{Files, touch, lock, open_tmp, write_tmp, rename_tmp}
use launch_code.State.Store.{
  Serde, SerdeLaws, World, decode_file, load_existing, load_unlocked, replace_file, encode,
  save_unlocked, open_lock_file, update, update_locked,
}
use launch_code.State.Store.Contract.{Updated, update-Updated}
use launch_code.State.Store.Crash.{IsWhole, update-IsWhole}
use launch_code.State.Store.RoundTrip.{decode-encode}

-- A serializer of one state, the default one; it refuses every other.
is_default : AppState → Bool
is_default s =
    s.schema_version == 1 && is_empty s.profiles && is_empty s.sessions && is_none s.project_info

abbrev one_state : Serde
one_state = record {
  to_string_pretty = λ s. if is_default s then ok (codes "1") else err [];
  from_str = λ t. ok app_state_default;
}

one_state-SerdeLaws : SerdeLaws one_state
unfolding is_default trim is_whitespace
one_state-SerdeLaws = record {
  from_str-to_string = λ s payload h. ground arith;
  payload_not_blank = λ s payload h. ground arith;
}

abbrev no_files : Files
no_files = record { state_file = none; tmp_file = none; faults = []; others = [] }

abbrev start : World ℕ
start = record { fs = no_files; os = 3 }

-- A mutation that keeps the state, counts its calls and returns the count.
abbrev counting : AppState → Io ℕ StateError (AppState × ℕ)
counting s n = (ok (s, n), n + 1)

abbrev saved_once : World ℕ
saved_once = record { fs = record no_files { state_file = some (codes "1") }; os = 4 }

update_counts : update one_state (λ e. e) counting start ≡ (ok 3, saved_once)
unfolding update update_locked load_unlocked load_existing save_unlocked encode replace_file
    open_lock_file touch lock open_tmp write_tmp rename_tmp is_default migrate_state
    migrate_sessions
update_counts = refl

update-Updated_example : Updated one_state counting start 3 saved_once
update-Updated_example = update-Updated one_state (λ e. e) counting start update_counts

update-IsWhole_example :
    IsWhole one_state counting start
      (update one_state (λ (e : StateError). e) counting start).1.fs.state_file
update-IsWhole_example = update-IsWhole one_state (λ e. e) counting start

encode_default : encode one_state app_state_default ≡ ok (codes "1")
unfolding encode is_default migrate_state migrate_sessions
encode_default = refl

decode-encode_example : decode_file one_state (some (codes "1")) ≡ migrate_state app_state_default
decode-encode_example =
    decode-encode one_state one_state-SerdeLaws app_state_default (codes "1") encode_default

abbrev assignments : Map Text
assignments =
    (codes "A", codes "1")
    ∷ (codes "export", codes "two \"words\"\n#")
    ∷ (codes "A", codes "3")
    ∷ []

parse_env_payload-render_example :
    parse_env_payload (render assignments) ≡ ok (Map.extend [] assignments)
unfolding is_name_char
parse_env_payload-render_example = parse_env_payload-render assignments (ground arith)
