-- ===== src/Sessions/Retry.antt =====
-- `retry_session_control` and `retry_backoff` of src/app/session_api.rs.
use launch_code.Prelude.{
  ℕ, zero, suc, ◌+◌, ◌*◌, ◌<◌, ◌≡◌, refl, Bool, true, false, min, Result, ok, err, arith, ltb,
  if◌then◌else◌,
}
use launch_code.Prelude.Io.{Io}
use launch_code.Text.{Text}
use launch_code.Text.Decimal.{u64_max}
use launch_code.Error.{AppError, session_state_changed}

abbrev pub session_control_max_retries : ℕ
session_control_max_retries = 3

-- Milliseconds; `saturating_add` and `saturating_mul` of `u64`.
unfoldable pub retry_backoff : ℕ → ℕ
retry_backoff attempt = min u64_max (min u64_max (attempt + 1) * 10)

module _ {S A : Type 0} (sleep : ℕ → S → S) (id : Text) where
  -- What is done with the outcome of an attempt; `next` are the attempts that follow.
  unfoldable pub retry_after :
      ℕ → (S → Result AppError A × S) → Result AppError A × S → Result AppError A × S
  retry_after attempt next (ok a, s) = (ok a, s)
  retry_after attempt next (err (session_state_changed _), s) =
      if ltb (attempt + 1) session_control_max_retries
      then next (sleep (retry_backoff attempt) s)
      else (err (session_state_changed id), s)
  retry_after attempt next (err e, s) = (err e, s)

  module _ (operation : Io S AppError A) where
    -- The loop from `attempt` on; `rounds` are left.
    unfoldable pub retry_from : ℕ → ℕ → Io S AppError A
    unfolding retry_after
    retry_from zero attempt s = (err (session_state_changed id), s)
    retry_from (suc rounds) attempt s =
        retry_after attempt (retry_from rounds (attempt + 1)) (operation s)

    unfoldable pub retry_session_control : Io S AppError A
    unfolding retry_from
    retry_session_control = retry_from session_control_max_retries 0

abbrev pub is_conflict : {A : Type 0} → Result AppError A → Bool
is_conflict (err (session_state_changed _)) = true
is_conflict _ = false

-- The runs that are allowed: an outcome that is no conflict ends the loop, a conflict is followed by
-- a pause and another attempt, and the third one by an error with the session's name.
pub data Attempts {S A : Type 0} (sleep : ℕ → S → S) (id : Text) (operation : Io S AppError A)
    : ℕ → S → Result AppError A × S → Type 0 where
  settled :
      {attempt : ℕ} {s t : S} {r : Result AppError A}
      → operation s ≡ (r, t)
      → is_conflict r ≡ false
      → Attempts sleep id operation attempt s (r, t)
  again :
      {attempt : ℕ} {s t : S} {who : Text} {out : Result AppError A × S}
      → operation s ≡ (err (session_state_changed who), t)
      → attempt + 1 < session_control_max_retries
      → Attempts sleep id operation (attempt + 1) (sleep ((attempt + 1) * 10) t) out
      → Attempts sleep id operation attempt s out
  gave_up :
      {attempt : ℕ} {s t : S} {who : Text}
      → operation s ≡ (err (session_state_changed who), t)
      → attempt + 1 ≡ session_control_max_retries
      → Attempts sleep id operation attempt s (err (session_state_changed id), t)

module _ {S A : Type 0} (sleep : ℕ → S → S) (id : Text) (operation : Io S AppError A) where
  after_conflict :
      (attempt : ℕ) (s t : S) (who : Text) (next : S → Result AppError A × S)
      → operation s ≡ (err (session_state_changed who), t)
      → attempt < session_control_max_retries
      → (attempt + 1 < session_control_max_retries
          → (t : S) → Attempts sleep id operation (attempt + 1) t (next t))
      → Attempts sleep id operation attempt s
          (retry_after sleep id attempt next (err (session_state_changed who), t))
  unfolding retry_after retry_backoff
  after_conflict zero s t who next e h k = again e (omega arith) (k (omega arith) (sleep 10 t))
  after_conflict (suc zero) s t who next e h k =
      again e (omega arith) (k (omega arith) (sleep 20 t))
  after_conflict (suc (suc zero)) s t who next e h k = gave_up e refl
  after_conflict (suc (suc (suc n))) s t who next e h k = ground arith

  retry_after-Attempts :
      (attempt : ℕ) (s : S) (next : S → Result AppError A × S) (out : Result AppError A × S)
      → operation s ≡ out
      → attempt < session_control_max_retries
      → (attempt + 1 < session_control_max_retries
          → (t : S) → Attempts sleep id operation (attempt + 1) t (next t))
      → Attempts sleep id operation attempt s (retry_after sleep id attempt next out)
  unfolding retry_after
  retry_after-Attempts attempt s next (ok a, t) e h k = settled e refl
  retry_after-Attempts attempt s next (err (session_state_changed who), t) e h k =
      after_conflict attempt s t who next e h k
  retry_after-Attempts attempt s next (err _, t) e h k = settled e refl

  retry_from-Attempts :
      (rounds attempt : ℕ) (s : S)
      → attempt + rounds ≡ session_control_max_retries
      → 0 < rounds
      → Attempts sleep id operation attempt s (retry_from sleep id operation rounds attempt s)
  unfolding retry_from
  retry_from-Attempts zero attempt s h k = ground arith
  retry_from-Attempts (suc rounds) attempt s h k =
      retry_after-Attempts attempt s (retry_from sleep id operation rounds (attempt + 1))
        (operation s) refl (omega arith)
        (λ more t. retry_from-Attempts rounds (attempt + 1) t (omega arith) (omega arith))

  -- A control operation is tried again exactly after a conflict, with a pause of ten milliseconds more
  -- each time, at most three times in all; the last conflict is reported under the session's name.
  pub retry_session_control-Attempts :
      (s : S) → Attempts sleep id operation 0 s (retry_session_control sleep id operation s)
  unfolding retry_session_control
  retry_session_control-Attempts s =
      retry_from-Attempts session_control_max_retries 0 s refl (omega arith)
