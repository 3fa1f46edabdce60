-- ===== src/State/Store/RoundTrip.antt =====
-- Saving and loading.
use launch_code.Prelude.{◌≡◌, some, Result-cases, ok, err, inl, inr, arith}
use launch_code.Text.{Text}
use launch_code.Error.{StateError}
use launch_code.Model.{AppState, app_state_schema_version}
use launch_code.State.Migrate.{migrate_state, migrate_state_idem}
use launch_code.State.Store.{Serde, SerdeLaws, decode_text, decode_file, encode}

-- Stamping the version on a migrated state changes nothing.
stamp_lem :
    (state : AppState)
    → state.schema_version ≡ app_state_schema_version
    → record state { schema_version = app_state_schema_version } ≡ state
stamp_lem state e = ground arith

module _ (json : Serde) (state : AppState) (payload : Text)
    (h : encode json state ≡ ok payload) where
  encode_migrated : (e : StateError) → migrate_state state ≡ err e → ⊥
  unfolding encode
  encode_migrated e bad = ground arith

  encoded_text :
      (next : AppState) → migrate_state state ≡ ok next → json.to_string_pretty next ≡ ok payload
  unfolding encode
  encoded_text next good = ground (arith, stamp_lem next (migrate_state_idem state good).0)

module _ (json : Serde) (laws : SerdeLaws json) where
  decode-encode_migrated :
      (state next : AppState) (payload : Text)
      → encode json state ≡ ok payload
      → migrate_state state ≡ ok next
      → decode_file json (some payload) ≡ ok next
  unfolding decode_file decode_text
  decode-encode_migrated state next payload h good =
      let text = encoded_text json state payload h next good in
      ground (
        arith,
        laws.payload_not_blank next payload text,
        laws.from_str-to_string next payload text,
        (migrate_state_idem state good).1,
      )

  -- Reading back what was written for a state gives what migration makes of the state: the state
  -- itself if it was migrated before, as every loaded one is.
  pub decode-encode :
      (state : AppState) (payload : Text)
      → encode json state ≡ ok payload
      → decode_file json (some payload) ≡ migrate_state state
  decode-encode state payload h = elim (Result-cases (migrate_state state)) [
    | inr (e, bad) ↦ absurd (encode_migrated json state payload h e bad)
    | inl (next, good) ↦ rw good (decode-encode_migrated state next payload h good)
  ]
