-- ===== src/State/Store/Atomic.antt =====
-- Loading, and replacing `state.json`, call by call: what the file holds wherever a call fails.
use launch_code.Prelude.{
  ◌≡◌, refl, ◌⊎◌, inl, inr, Option, none, some, Result, Result-cases, ok, err, arith, ap,
}
use launch_code.Prelude.Io.{bind-eq-ok, lift}
use launch_code.Text.{Text}
use launch_code.Error.{StateError}
use launch_code.Model.{AppState}
use launch_code.State.Files.{
  Files, touch, lock, locked_file, open_tmp, write_tmp, rename_tmp, read_state,
}
use launch_code.State.Store.{
  Serde, decode_file, load_existing, load_unlocked, replace_file, encode, save_unlocked,
  open_lock_file,
}

-- The file after the steps of a replacement: old until the rename, the whole payload from then on.
pub replace_file_atomic :
    (payload : Text) (fs : Files)
    → ((replace_file payload fs).1.state_file ≡ fs.state_file)
      ⊎ ((replace_file payload fs).1.state_file ≡ some payload)
unfolding replace_file touch open_tmp write_tmp rename_tmp
replace_file_atomic payload fs = ground arith

pub replace_file-eq-ok :
    (payload : Text) (fs : Files) {fs' : Files}
    → replace_file payload fs ≡ (ok tt, fs')
    → fs'.state_file ≡ some payload
unfolding replace_file touch open_tmp write_tmp rename_tmp
replace_file-eq-ok payload fs h = ground arith

touch_file : (fs : Files) → (touch fs).1.state_file ≡ fs.state_file
unfolding touch
touch_file fs = ground arith

pub open_lock_file-file : (fs : Files) → (open_lock_file fs).1.state_file ≡ fs.state_file
unfolding open_lock_file touch
open_lock_file-file fs = ground arith

pub open_lock_file-others : (fs : Files) → (open_lock_file fs).1.others ≡ fs.others
unfolding open_lock_file touch
open_lock_file-others fs = ground arith

pub lock-file :
    (fs : Files)
    → ((lock fs).1.state_file ≡ fs.state_file) ⊎ ((lock fs).1.state_file ≡ locked_file fs)
unfolding lock
lock-file fs = ground arith

pub lock-eq-ok :
    (fs : Files) {fs' : Files} → lock fs ≡ (ok tt, fs') → fs'.state_file ≡ locked_file fs
unfolding lock
lock-eq-ok fs h = ground arith

module _ (json : Serde) where
  load_existing-file :
      (file : Option Text) (fs : Files) → (load_existing json file fs).1.state_file ≡ fs.state_file
  unfolding load_existing read_state touch
  load_existing-file none fs = refl
  load_existing-file (some payload) fs = ground arith

  pub load_unlocked-file : (fs : Files) → (load_unlocked json fs).1.state_file ≡ fs.state_file
  unfolding load_unlocked
  load_unlocked-file fs = load_existing-file fs.state_file fs

  load_existing-eq-ok :
      (file : Option Text) (fs : Files) {state : AppState} {fs' : Files}
      → fs.state_file ≡ file
      → load_existing json file fs ≡ (ok state, fs')
      → decode_file json file ≡ ok state
  unfolding load_existing read_state touch decode_file
  load_existing-eq-ok none fs e h = ground arith
  load_existing-eq-ok (some payload) fs e h = ground arith

  -- What a load returns is what the file says.
  pub load_unlocked-eq-ok :
      (fs : Files) {state : AppState} {fs' : Files}
      → load_unlocked json fs ≡ (ok state, fs')
      → decode_file json fs.state_file ≡ ok state
  unfolding load_unlocked
  load_unlocked-eq-ok fs h = load_existing-eq-ok fs.state_file fs refl h

  module _ (state : AppState) (fs : Files) where
    save_with_payload :
        (payload : Text)
        → encode json state ≡ ok payload
        → ((save_unlocked json state fs).1.state_file ≡ fs.state_file)
          ⊎ ((save_unlocked json state fs).1.state_file ≡ some payload)
    unfolding save_unlocked
    save_with_payload payload e =
        ground (arith, touch_file fs, replace_file_atomic payload (touch fs).1)

    save_without_payload :
        (error : StateError)
        → encode json state ≡ err error
        → (save_unlocked json state fs).1.state_file ≡ fs.state_file
    unfolding save_unlocked
    save_without_payload error e = ground (arith, touch_file fs)

    -- Wherever a call of `save_unlocked` fails, the file is the old one or the whole new text.
    pub save_unlocked_atomic :
        ((save_unlocked json state fs).1.state_file ≡ fs.state_file)
        ⊎ ((payload : Text) × (encode json state ≡ ok payload)
            × ((save_unlocked json state fs).1.state_file ≡ some payload))
    save_unlocked_atomic = elim (Result-cases (encode json state)) [
      | inl (payload, e) ↦ elim (save_with_payload payload e) [
        | inl old ↦ inl old
        | inr new ↦ inr (payload, e, new)
      ]
      | inr (error, e) ↦ inl (save_without_payload error e)
    ]

    pub save_unlocked-eq-ok :
        {fs' : Files}
        → save_unlocked json state fs ≡ (ok tt, fs')
        → (payload : Text) × (encode json state ≡ ok payload) × (fs'.state_file ≡ some payload)
    unfolding save_unlocked
    save_unlocked-eq-ok h =
        let (_, fs₁, _, rest) = bind-eq-ok touch _ fs h in
        let (payload, fs₂, e, rest') = bind-eq-ok (lift (encode json state)) _ fs₁ rest in
        (
          payload,
          ap (λ (p : Result StateError Text × Files). p.0) e,
          replace_file-eq-ok payload fs₂ rest',
        )
