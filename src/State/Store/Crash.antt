-- ===== src/State/Store/Crash.antt =====
-- What an update leaves in the state file, wherever it fails.
use launch_code.Prelude.{◌≡◌, ap, ◌∙◌, inl, inr, Option, some, Result, ok}
use launch_code.Prelude.Io.{Io, bind_post}
use launch_code.Text.{Text}
use launch_code.Error.{StateError}
use launch_code.Model.{AppState}
use launch_code.State.Files.{Files, lock, locked_file}
use launch_code.State.Store.{
  Serde, World, lift_fs, lift_os, decode_file, encode, load_unlocked, save_unlocked, open_lock_file,
  update, update_locked,
}
use launch_code.State.Store.Atomic.{
  open_lock_file-file, lock-file, load_unlocked-file, load_unlocked-eq-ok, save_unlocked_atomic,
}
use launch_code.State.Store.Contract.{
  lift_fs-eq-ok, lift_fs-fs, lift_os-eq-ok, lift_os-fs, locked_at, opened_locked,
}

-- The state file after an update, whether it returned or failed: as it was, as others left it before
-- the lock was there, or the whole encoding of what the mutation made of the state found then.
pub data IsWhole {O E R : Type 0} (json : Serde) (mutate : AppState → Io O E (AppState × R))
    (w : World O) (file : Option Text) : Type 0 where
  untouched : file ≡ w.fs.state_file → IsWhole json mutate w file
  as_locked : file ≡ locked_file w.fs → IsWhole json mutate w file
  replaced :
      (before after : AppState) (result : R) (os : O) (payload : Text)
      → decode_file json (locked_file w.fs) ≡ ok before
      → mutate before w.os ≡ (ok (after, result), os)
      → encode json after ≡ ok payload
      → file ≡ some payload
      → IsWhole json mutate w file

-- The file behind a step of which the outcome is known.
module _ {O E A : Type 0} (from : StateError → E) (m : Io Files StateError A) (w : World O) where
  file-lift_fs :
      {r : Result E A} {w' : World O}
      → lift_fs from m w ≡ (r, w')
      → w'.fs.state_file ≡ (m w.fs).1.state_file
  file-lift_fs e = cc (
    ap (λ (p : Result E A × World O). p.1.fs.state_file) e,
    ap (λ (fs : Files). fs.state_file) (lift_fs-fs from m w),
  )

module _ {O E R : Type 0} (json : Serde) (from : StateError → E)
    (mutate : AppState → Io O E (AppState × R)) (w : World O) where
  save-IsWhole :
      (w₂ : World O) (before after : AppState) (result : R) (os : O)
      → decode_file json (locked_file w.fs) ≡ ok before
      → mutate before w.os ≡ (ok (after, result), os)
      → w₂.fs.state_file ≡ locked_file w.fs
      → IsWhole json mutate w (save_unlocked json after w₂.fs).1.state_file
  save-IsWhole w₂ before after result os decoded mutated at =
      elim (save_unlocked_atomic json after w₂.fs) [
        | inl old ↦ as_locked (old ∙ at)
        | inr (payload, encoded, written) ↦
            replaced before after result os payload decoded mutated encoded written
      ]

  module _ (w₂ : World O) (os_is : w₂.os ≡ w.os) (at : w₂.fs.state_file ≡ locked_file w.fs) where
    loaded-file :
        {r : Result E AppState} (u : World O)
        → lift_fs from (load_unlocked json) w₂ ≡ (r, u)
        → u.fs.state_file ≡ locked_file w.fs
    loaded-file u q =
        file-lift_fs from (load_unlocked json) w₂ q ∙ load_unlocked-file json w₂.fs ∙ at

    -- The mutation runs between the load and the save, and does not touch the file.
    module _ (state : AppState) (w₃ : World O)
        (q₃ : lift_fs from (load_unlocked json) w₂ ≡ (ok state, w₃)) where
      mutated-file :
          {r : Result E (AppState × R)} (u : World O)
          → lift_os (mutate state) w₃ ≡ (r, u)
          → u.fs.state_file ≡ locked_file w.fs
      mutated-file {r} u q = cc (
        loaded-file w₃ q₃,
        ap (λ (fs : Files). fs.state_file) (lift_os-fs (mutate state) w₃),
        ap (λ (p : Result E (AppState × R) × World O). p.1.fs.state_file) q,
      )

      saved-IsWhole :
          (next : AppState × R) (w₄ : World O)
          → lift_os (mutate state) w₃ ≡ (ok next, w₄)
          → IsWhole json mutate w (save_unlocked json next.0 w₄.fs).1.state_file
      saved-IsWhole next w₄ q₄ =
          let d = lift_fs-eq-ok from (load_unlocked json) w₂ q₃ in
          let m = lift_os-eq-ok (mutate state) w₃ q₄ in
          save-IsWhole w₄ state next.0 next.1 w₄.os (rw at at (load_unlocked-eq-ok json w₂.fs d.0))
            (cc (m.0, d.1, os_is)) (mutated-file w₄ q₄)

    update_locked-IsWhole :
        IsWhole json mutate w (update_locked json from mutate w₂).1.fs.state_file
    unfolding update_locked
    update_locked-IsWhole =
        bind_post (lift_fs from (load_unlocked json)) _ w₂
          (λ out. IsWhole json mutate w out.1.fs.state_file) (λ e u q. as_locked (loaded-file u q))
          λ state w₃ q₃.
            bind_post (lift_os (mutate state)) _ w₃
              (λ out. IsWhole json mutate w out.1.fs.state_file)
              (λ e u q. as_locked (mutated-file state w₃ q₃ u q))
              λ next w₄ q₄.
                bind_post (lift_fs from (save_unlocked json next.0)) _ w₄
                  (λ out. IsWhole json mutate w out.1.fs.state_file)
                  (λ e u q.
                    rw (file-lift_fs from (save_unlocked json next.0) w₄ q)
                      (saved-IsWhole state w₃ q₃ next w₄ q₄))
                  λ _ w₅ q₅.
                    rw (file-lift_fs from (save_unlocked json next.0) w₄ q₅)
                      (saved-IsWhole state w₃ q₃ next w₄ q₄)

  opened-file :
      {r : Result E Unit} (w₁ : World O)
      → lift_fs from open_lock_file w ≡ (r, w₁)
      → w₁.fs.state_file ≡ w.fs.state_file
  opened-file w₁ q = file-lift_fs from open_lock_file w q ∙ open_lock_file-file w.fs

  -- Whatever an update does, fails or not, and wherever a system call of it fails, the state file is
  -- never torn: it is as before, or as others left it, or the whole text of the mutated state.
  pub update-IsWhole : IsWhole json mutate w (update json from mutate w).1.fs.state_file
  unfolding update
  update-IsWhole =
      bind_post (lift_fs from open_lock_file) _ w (λ out. IsWhole json mutate w out.1.fs.state_file)
        (λ e u q. untouched (opened-file u q))
        λ _ w₁ q₁.
          bind_post (lift_fs from lock) _ w₁ (λ out. IsWhole json mutate w out.1.fs.state_file)
            (λ e u q. elim (lock-file w₁.fs) [
              | inl old ↦ untouched (file-lift_fs from lock w₁ q ∙ old ∙ opened-file w₁ q₁)
              | inr new ↦ as_locked (file-lift_fs from lock w₁ q ∙ new ∙ opened_locked from w w₁ q₁)
            ])
            λ _ w₂ q₂. let l = locked_at from w w₁ w₂ q₁ q₂ in update_locked-IsWhole w₂ l.0 l.1
