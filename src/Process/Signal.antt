-- ===== src/Process/Signal.antt =====
-- Signals, the test whether a process is alive, and stopping a process.
pub mod Waited
pub mod Stopping
pub mod Exiting
use launch_code.Prelude.{
  ℕ, zero, suc, ◌+◌, ◌/◌, min, Bool, true, false, not, ◌&&◌, ◌||◌, Option, none, some, List, [],
  ◌∷◌, Result, ok, err, ltb, ◌==◌, any, if◌then◌else◌,
}
use launch_code.Prelude.Io.{Io, ◌>>=◌, ◌>>◌, pure, fail}
use launch_code.Text.{Text, codes, trim}
use launch_code.Text.Decimal.{u64_max, to_string}
use launch_code.Error.{IoError, ProcessError, signal, stop_timeout}
use launch_code.Process.{System, OsError, Output, process, group}

-- `state.trim().contains('Z')` of the output of a `ps` that succeeded
unfoldable pub is_zombie_output : Option Output → Bool
is_zombie_output none = false
is_zombie_output (some output) =
    if output.success
    then elim output.stdout [ none ↦ false | some state ↦ any (◌==◌ b'Z') (trim state) ]
    else false

-- A round takes fifty milliseconds at least.
abbrev pub wait_fuel : ℕ → ℕ
wait_fuel timeout = timeout / 50 + 2

module _ (system : System) where
  open system use {
    Os, esrch, eperm, sigterm, sigkill, sigstop, sigcont, kill, ps, waitpid, now, sleep,
  }

  abbrev zombie_result : Option Output × Os → Bool × Os
  zombie_result (output, os) = (is_zombie_output output, os)

  unfoldable pub is_zombie_process : ℕ → Os → Bool × Os
  is_zombie_process pid os =
      zombie_result (ps (codes "-o" ∷ codes "stat=" ∷ codes "-p" ∷ to_string pid ∷ []) os)

  abbrev negated : Bool × Os → Bool × Os
  negated (b, os) = (not b, os)

  unfoldable pub alive_after : ℕ → Option OsError × Os → Bool × Os
  alive_after pid (none, os) = negated (is_zombie_process pid os)
  alive_after pid (some e, os) = (e.errno == eperm, os)

  unfoldable pub is_process_alive : ℕ → Os → Bool × Os
  unfolding alive_after
  is_process_alive pid os = alive_after pid (kill (process pid) 0 os)

  unfoldable pub signal_after : ℕ → ℕ → Option OsError × Os → Result ProcessError (Unit {0}) × Os
  signal_after pid sig (none, os) = (ok tt, os)
  signal_after pid sig (some e, os) =
      if e.errno == esrch then (ok tt, os) else (err (signal pid sig e.error), os)

  unfoldable pub send_signal : ℕ → ℕ → Io Os ProcessError (Unit {0})
  unfolding signal_after
  send_signal pid sig os = signal_after pid sig (kill (process pid) sig os)

  -- The group could not be signalled, and the process was asked for where the error allows it.
  unfoldable pub group_fallback : ℕ → ℕ → OsError → Bool × Os → Result ProcessError (Unit {0}) × Os
  unfolding send_signal
  group_fallback pid sig e (true, os) = send_signal pid sig os
  group_fallback pid sig e (false, os) = signal_after pid sig (some e, os)

  unfoldable pub group_after : ℕ → ℕ → Option OsError × Os → Result ProcessError (Unit {0}) × Os
  unfolding group_fallback
  group_after pid sig (none, os) = (ok tt, os)
  group_after pid sig (some e, os) =
      if e.errno == esrch || e.errno == eperm
      then group_fallback pid sig e (is_process_alive pid os)
      else signal_after pid sig (some e, os)

  unfoldable pub send_signal_group : ℕ → ℕ → Io Os ProcessError (Unit {0})
  unfolding group_after
  send_signal_group pid sig os = group_after pid sig (kill (group pid) sig os)

  unfoldable pub suspend_process : ℕ → Io Os ProcessError (Unit {0})
  suspend_process pid = send_signal_group pid sigstop

  unfoldable pub resume_process : ℕ → Io Os ProcessError (Unit {0})
  resume_process pid = send_signal_group pid sigcont

  -- The loop of `wait_for_exit`: what a test of the clock, then a test of the process leads to.
  unfoldable pub after_probe : (Os → Os) → Bool × Os → Os
  after_probe next (true, os) = next (sleep 50 os)
  after_probe next (false, os) = os

  unfoldable pub after_now : ℕ → ℕ → (Os → Os) → ℕ × Os → Os
  unfolding after_probe
  after_now pid deadline next (t, os) =
      if ltb t deadline then after_probe next (is_process_alive pid os) else os

  unfoldable pub wait_from : ℕ → ℕ → ℕ → Os → Os
  unfolding after_now
  wait_from zero pid deadline os = os
  wait_from (suc fuel) pid deadline os =
      after_now pid deadline (wait_from fuel pid deadline) (now os)

  abbrev pub wait_until : ℕ → ℕ → ℕ × Os → Os
  wait_until pid timeout (t, os) = wait_from (wait_fuel timeout) pid (t + timeout) os

  unfoldable pub wait_for_exit : ℕ → ℕ → Os → Os
  unfolding wait_from
  wait_for_exit pid timeout os = wait_until pid timeout (now os)

  abbrev pub waited : ℕ → ℕ → Io Os ProcessError (Unit {0})
  waited pid timeout os = (ok tt, wait_for_exit pid timeout os)

  abbrev pub probe : ℕ → Io Os ProcessError Bool
  probe pid os = let r = is_process_alive pid os in (ok r.0, r.1)

  abbrev pub force_timeout : ℕ
  force_timeout = 2000

  -- `timeout.as_millis()` as a `u64`
  abbrev pub timed_out : ℕ → ℕ → Io Os ProcessError (Unit {0})
  timed_out pid timeout = fail (stop_timeout pid (min u64_max timeout))

  unfoldable pub after_kill : ℕ → ℕ → Bool → Io Os ProcessError (Unit {0})
  after_kill pid grace true = timed_out pid (grace + force_timeout)
  after_kill pid grace false = pure tt

  unfoldable pub force_stop : ℕ → ℕ → Io Os ProcessError (Unit {0})
  unfolding after_kill
  force_stop pid grace = do
    send_signal_group pid sigkill
    waited pid force_timeout
    alive ← probe pid
    after_kill pid grace alive

  unfoldable pub kill_if_alive : ℕ → Bool → ℕ → Bool → Io Os ProcessError (Unit {0})
  unfolding force_stop
  kill_if_alive pid force grace false = pure tt
  kill_if_alive pid true grace true = force_stop pid grace
  kill_if_alive pid false grace true = timed_out pid grace

  unfoldable pub stop_process_with_options : ℕ → Bool → ℕ → Io Os ProcessError (Unit {0})
  stop_process_with_options pid force grace = do
    send_signal_group pid sigterm
    waited pid grace
    alive ← probe pid
    kill_if_alive pid force grace alive
    λ os. (ok tt, waitpid (process pid) os)

  unfoldable pub stop_process : ℕ → Io Os ProcessError (Unit {0})
  stop_process pid = stop_process_with_options pid true 150
