-- ===== src/State/Store/Contract.antt =====
-- What an update of the store that returns has done.
use launch_code.Prelude.{◌≡◌, ap, ◌∙◌, some, Result, ok, arith}
use launch_code.Prelude.Io.{Io, after_ok}
use launch_code.Text.{Text}
use launch_code.Error.{StateError}
use launch_code.Model.{AppState}
use launch_code.State.Files.{Files, lock, locked_file}
use launch_code.State.Store.{
  Serde, World, lift_fs, lift_os, decode_file, encode, load_unlocked, save_unlocked, open_lock_file,
  update, update_locked,
}
use launch_code.State.Store.Atomic.{
  open_lock_file-file, open_lock_file-others, lock-eq-ok, load_unlocked-eq-ok, save_unlocked-eq-ok,
}

module _ {O E A : Type 0} where
  pub lift_fs-eq-ok :
      (from : StateError → E) (m : Io Files StateError A) (w : World O) {a : A} {w' : World O}
      → lift_fs from m w ≡ (ok a, w')
      → (m w.fs ≡ (ok a, w'.fs)) × (w'.os ≡ w.os)
  lift_fs-eq-ok from m w h = ground arith

  pub lift_fs-fs :
      (from : StateError → E) (m : Io Files StateError A) (w : World O)
      → (lift_fs from m w).1.fs ≡ (m w.fs).1
  lift_fs-fs from m w = ground arith

  pub lift_os-fs : (m : Io O E A) (w : World O) → (lift_os m w).1.fs ≡ w.fs
  lift_os-fs m w = ground arith

  pub lift_os-eq-ok :
      (m : Io O E A) (w : World O) {a : A} {w' : World O}
      → lift_os m w ≡ (ok a, w')
      → (m w.os ≡ (ok a, w'.os)) × (w'.fs ≡ w.fs)
  lift_os-eq-ok m w h = ground arith

module _ {O E : Type 0} (from : StateError → E) (w w₁ : World O) where
  -- Opening the lock's file changes nothing that the lock will show.
  pub opened_locked :
      lift_fs from open_lock_file w ≡ (ok tt, w₁) → locked_file w₁.fs ≡ locked_file w.fs
  opened_locked q =
      let o = lift_fs-eq-ok from open_lock_file w q in
      cc (
        ap (λ (p : Result StateError Unit × Files). p.1.state_file) o.0,
        ap (λ (p : Result StateError Unit × Files). p.1.others) o.0,
        open_lock_file-file w.fs,
        open_lock_file-others w.fs,
      )

  pub locked_at :
      (w₂ : World O)
      → lift_fs from open_lock_file w ≡ (ok tt, w₁)
      → lift_fs from lock w₁ ≡ (ok tt, w₂)
      → (w₂.os ≡ w.os) × (w₂.fs.state_file ≡ locked_file w.fs)
  locked_at w₂ q₁ q₂ =
      let o = lift_fs-eq-ok from open_lock_file w q₁ in
      let l = lift_fs-eq-ok from lock w₁ q₂ in
      (cc (o.1, l.1), lock-eq-ok w₁.fs l.0 ∙ opened_locked q₁)

-- A run of `update` that returned `result`.
pub record Updated {O E R : Type 0} (json : Serde) (mutate : AppState → Io O E (AppState × R))
    (w : World O) (result : R) (w' : World O) : Type 0 where
  pub before : AppState
  pub after : AppState
  pub payload : Text
  pub decoded : decode_file json (locked_file w.fs) ≡ ok before
  pub mutated : mutate before w.os ≡ (ok (after, result), w'.os)
  pub encoded : encode json after ≡ ok payload
  pub written : w'.fs.state_file ≡ some payload

module _ {O E R : Type 0} (json : Serde) (from : StateError → E)
    (mutate : AppState → Io O E (AppState × R)) (w : World O) where
  finished :
      {result : R} {w' : World O} (w₁ w₂ w₃ w₄ w₅ : World O) (state : AppState)
      (next : AppState × R)
      → lift_fs from open_lock_file w ≡ (ok tt, w₁)
      → lift_fs from lock w₁ ≡ (ok tt, w₂)
      → lift_fs from (load_unlocked json) w₂ ≡ (ok state, w₃)
      → lift_os (mutate state) w₃ ≡ (ok next, w₄)
      → lift_fs from (save_unlocked json next.0) w₄ ≡ (ok tt, w₅)
      → (next.1 ≡ result) × (w₅ ≡ w')
      → Updated json mutate w result w'
  finished w₁ w₂ w₃ w₄ w₅ state next opened locked loaded mutated saved (r, e) =
      let l = locked_at from w w₁ w₂ opened locked in
      let d = lift_fs-eq-ok from (load_unlocked json) w₂ loaded in
      let m = lift_os-eq-ok (mutate state) w₃ mutated in
      let v = lift_fs-eq-ok from (save_unlocked json next.0) w₄ saved in
      let (payload, encoded, written) = save_unlocked-eq-ok json next.0 w₄.fs v.0 in
      record {
        before = state;
        after = next.0;
        payload = payload;
        decoded = rw l.1 at (load_unlocked-eq-ok json w₂.fs d.0);
        mutated = cc (m.0, l.0, d.1, v.1, ap (λ (x : World O). x.os) e);
        encoded = encoded;
        written = cc (written, ap (λ (x : World O). x.fs.state_file) e);
      }

  -- An update that returns applied its mutation, once, to the state that the file held when the lock
  -- was taken, other writers included, and left the encoding of the mutated state in the file.
  pub update-Updated :
      {result : R} {w' : World O}
      → update json from mutate w ≡ (ok result, w')
      → Updated json mutate w result w'
  unfolding update update_locked
  update-Updated h = after_ok (lift_fs from open_lock_file) _ w h λ _ w₁ opened h₁.
      after_ok (lift_fs from lock) _ w₁ h₁ λ _ w₂ locked h₂.
        after_ok (lift_fs from (load_unlocked json)) _ w₂ h₂ λ state w₃ loaded h₃.
          after_ok (lift_os (mutate state)) _ w₃ h₃ λ next w₄ mutated h₄.
            after_ok (lift_fs from (save_unlocked json next.0)) _ w₄ h₄ λ _ w₅ saved h₅.
              finished w₁ w₂ w₃ w₄ w₅ state next opened locked loaded mutated saved (ground arith)
