-- ===== src/Process/Signal/Exiting.antt =====
-- A stop of a process that exits within the grace time.
use launch_code.Prelude.{ℕ, ◌+◌, ◌≤◌, ◌≡◌, Bool, false, ok, arith}
use launch_code.Process.{System, process}
use launch_code.Process.Signal.{
  is_process_alive, send_signal_group, wait_for_exit, kill_if_alive, stop_process_with_options,
}
use launch_code.Process.Signal.Waited.{Clock, Waited, expired, exited, paused, wait_for_exit-Waited}

-- The process is gone for good from the time `limit` on; who asks for a process that is gone learns
-- so, and who learns so asked for one that is gone.
pub record Exits (system : System) (pid : ℕ) (clock : Clock system pid) (limit : ℕ) : Type 1 where
  pub Gone : system.Os → Type 0
  pub in_time : (os : system.Os) → limit ≤ clock.time os → Gone os
  pub gone_reports : (os : system.Os) → Gone os → (is_process_alive system pid os).0 ≡ false
  pub reported : (os u : system.Os) → is_process_alive system pid os ≡ (false, u) → Gone u

module _ (system : System) (pid : ℕ) (clock : Clock system pid) (limit : ℕ)
    (exits : Exits system pid clock limit) where
  open system use {Os, sigterm, now, waitpid}
  open clock use {time, now_reads, now_passes}
  open exits use {Gone, in_time, gone_reports, reported}

  Waited-Gone :
      {deadline : ℕ} {os u : Os} → limit ≤ deadline → Waited system pid deadline os u → Gone u
  Waited-Gone {os = os} {u} h (expired e late) =
      in_time u (grind (arith, now_reads os, now_passes os, e))
  Waited-Gone h (exited {u = u} {v} e early p) = reported u v p
  Waited-Gone h (paused e early p w) = Waited-Gone h w

  waited-Gone :
      (grace : ℕ) (os : Os) → limit ≤ time os + grace → Gone (wait_for_exit system pid grace os)
  waited-Gone grace os h =
      Waited-Gone (omega (arith, now_reads os)) (wait_for_exit-Waited system pid clock grace os)

  -- When SIGTERM is delivered and the process exits before the grace time is over, the stop succeeds,
  -- whether it may kill or not.
  pub stop_process_with_options-Exits :
      (force : Bool) (grace : ℕ) (os u : Os)
      → send_signal_group system pid sigterm os ≡ (ok tt, u)
      → limit ≤ time u + grace
      → (t : Os) × (stop_process_with_options system pid force grace os ≡ (ok tt, t))
  unfolding stop_process_with_options kill_if_alive
  stop_process_with_options-Exits force grace os u sent h = (
    waitpid (process pid) (is_process_alive system pid (wait_for_exit system pid grace u)).1,
    rw (sent, dead),
  )
    where
      dead : (is_process_alive system pid (wait_for_exit system pid grace u)).0 ≡ false
      dead = gone_reports (wait_for_exit system pid grace u) (waited-Gone grace u h)
