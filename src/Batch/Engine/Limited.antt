-- ===== src/Batch/Engine/Limited.antt =====
-- A batch on one workspace, one session after the other: its rows and where it stops.
use launch_code.Prelude.{
  ℕ, suc, ◌+◌, ◌≤◌, ◌<◌, ◌≡◌, refl, Bool, true, false, List, [], ◌∷◌, Result, ok, err, length,
  arith, if◌then◌else◌,
}
use launch_code.Prelude.Io.{Io}
use launch_code.Text.{Text}
use launch_code.Text.Decimal.{u64_max}
use launch_code.Error.{AppError}
use launch_code.Model.{SessionRecord}
use launch_code.Batch.{
  BatchExecutionControl, BatchSessionRow, should_stop_after_failure, runtime_label, status_label,
}
use launch_code.Batch.Engine.{Link, batch_row, count_failure, after_action, run_sequential, prepend}

-- What a row says of its session before the action; a row of a failure bears the session's name.
abbrev pub Describes : SessionRecord → BatchSessionRow → Type 0
Describes session row =
    (row.runtime ≡ runtime_label session.spec.runtime)
    × (row.status_before ≡ status_label session.status)
    × (row.ok ≡ false → row.id ≡ session.id)

-- The rows are about the first sessions, in their order.
abbrev pub Prefix : List SessionRecord → List BatchSessionRow → Type 0
Prefix sessions [] = Unit
Prefix [] (row ∷ rows) = ⊥
Prefix (session ∷ sessions) (row ∷ rows) = Describes session row × Prefix sessions rows

unfoldable pub failed_rows : List BatchSessionRow → ℕ
failed_rows [] = 0
failed_rows (row ∷ rows) = (if row.ok then 0 else 1) + failed_rows rows

-- The last row is one of a failure.
abbrev pub LastFailed : List BatchSessionRow → Type 0
LastFailed [] = ⊥
LastFailed (row ∷ []) = row.ok ≡ false
LastFailed (row ∷ next ∷ rows) = LastFailed (next ∷ rows)

LastFailed-cons :
    (row : BatchSessionRow) (rows : List BatchSessionRow)
    → LastFailed rows
    → LastFailed (row ∷ rows)
LastFailed-cons row [] h = elim h [ ]
LastFailed-cons row (next ∷ rows) h = h

pub record Limited (control : BatchExecutionControl) (sessions : List SessionRecord) (before : ℕ)
    (rows : List BatchSessionRow) (after : ℕ) : Type 0 where
  pub about : Prefix sessions rows
  pub at_most : length rows ≤ length sessions
  pub counted : after ≡ before + failed_rows rows
  pub stops :
      length rows < length sessions
      → LastFailed rows × (should_stop_after_failure control after ≡ true)
  pub goes_on : (n : ℕ) → before < n → n < after → should_stop_after_failure control n ≡ false

module _ (display : AppError → Text) (link : Link) where
  pub batch_row-Describes :
      (session : SessionRecord) (r : Result AppError SessionRecord)
      → Describes session (batch_row display link session r)
  unfolding batch_row
  batch_row-Describes session (ok updated) = (refl, refl, λ h. cc)
  batch_row-Describes session (err e) = (refl, refl, λ h. refl)

module _ {W : Type 0} (display : AppError → Text) (act : Text → Io W AppError SessionRecord)
    (link : Link) (control : BatchExecutionControl) where
  abbrev Run : List SessionRecord → ℕ → (List BatchSessionRow × ℕ) × W → Type 0
  Run sessions before out = Limited control sessions before out.0.0 out.0.1

  went_on :
      (session : SessionRecord) (sessions : List SessionRecord) (before : ℕ)
      (updated : SessionRecord) (out : (List BatchSessionRow × ℕ) × W)
      → Run sessions before out
      → Run
          (session ∷ sessions)
          before
          (prepend display act link (batch_row display link session (ok updated)) out)
  unfolding batch_row failed_rows
  went_on session sessions before updated ((rows, after), w) h = record {
    about = (batch_row-Describes display link session (ok updated), h.about);
    at_most = omega (arith, h.at_most);
    counted = omega (arith, h.counted);
    stops = λ short.
        let (failed, limit) = h.stops (omega arith) in
        (LastFailed-cons (batch_row display link session (ok updated)) rows failed, limit);
    goes_on = h.goes_on;
  }

  went_on_failing :
      (session : SessionRecord) (sessions : List SessionRecord) (before : ℕ) (e : AppError)
      (failures : ℕ) (out : (List BatchSessionRow × ℕ) × W)
      → failures ≡ before + 1
      → should_stop_after_failure control failures ≡ false
      → Run sessions failures out
      → Run
          (session ∷ sessions)
          before
          (prepend display act link (batch_row display link session (err e)) out)
  unfolding batch_row failed_rows
  went_on_failing session sessions before e failures ((rows, after), w) one ran h = record {
    about = (batch_row-Describes display link session (err e), h.about);
    at_most = omega (arith, h.at_most);
    counted = omega (arith, h.counted);
    stops = λ short.
        let (failed, limit) = h.stops (omega arith) in
        (LastFailed-cons (batch_row display link session (err e)) rows failed, limit);
    goes_on = λ n lo hi. grind (arith, one, ran, h.goes_on n);
  }

  after_action-Limited :
      (session : SessionRecord) (sessions : List SessionRecord) (before : ℕ)
      (next : ℕ → W → (List BatchSessionRow × ℕ) × W) (r : Result AppError SessionRecord × W)
      → before + suc (length sessions) ≤ u64_max
      → ((n : ℕ) (w : W) → n ≤ before + 1 → Run sessions n (next n w))
      → Run
          (session ∷ sessions)
          before
          (after_action display act link control session before next r)
  unfolding after_action batch_row failed_rows
  after_action-Limited session sessions before next (ok updated, w) room k =
      went_on session sessions before updated (next before w) (k before w (omega arith))
  after_action-Limited session sessions before next (err e, w) room k =
      by_test (should_stop_after_failure control (count_failure before)) refl
    where
      counted : count_failure before ≡ before + 1
      counted = omega arith

      row : BatchSessionRow
      row = batch_row display link session (err e)

      by_test :
          (b : Bool)
          → should_stop_after_failure control (count_failure before) ≡ b
          → Run (session ∷ sessions) before (
              if b
              then ((row ∷ [], count_failure before), w)
              else prepend display act link row (next (count_failure before) w))
      by_test true h = record {
        about = (batch_row-Describes display link session (err e), tt);
        at_most = omega arith;
        counted = omega (arith, counted);
        stops = λ short. (refl, h);
        goes_on = λ n lo hi. absurd (omega (arith, counted, lo, hi));
      }
      by_test false h =
          let failures = count_failure before in
          went_on_failing session sessions before e failures (next failures w) counted h
            (k failures w (omega (arith, counted)))

  -- A batch of a workspace acts on its sessions in order and counts its failures, and stops before the
  -- last one only at a failure after which the control says so; at no failure before did it say so.
  pub run_sequential-Limited :
      (sessions : List SessionRecord) (before : ℕ) (w : W)
      → before + length sessions ≤ u64_max
      → Limited control sessions before
          (run_sequential display act link control sessions before w).0.0
          (run_sequential display act link control sessions before w).0.1
  unfolding run_sequential failed_rows
  run_sequential-Limited [] before w room = record {
    about = tt;
    at_most = omega arith;
    counted = omega arith;
    stops = λ short. absurd (omega (arith, short));
    goes_on = λ n lo hi. absurd (omega (arith, lo, hi));
  }
  run_sequential-Limited (session ∷ sessions) before w room =
      after_action-Limited session sessions before
        (run_sequential display act link control sessions) (act session.id w) room
        (λ n v h. run_sequential-Limited sessions n v (omega (arith, room, h)))
