-- ===== src/Process/Signal/Waited.antt =====
-- How the loop that waits for a process to exit ends.
use launch_code.Prelude.{
  ℕ, zero, suc, ◌+◌, ◌*◌, ◌≤◌, ◌<◌, ◌≡◌, refl, Bool, true, false, arith, ltb, ltb→lt, if◌then◌else◌,
}
use launch_code.Process.{System}
use launch_code.Process.Signal.{
  is_process_alive, after_probe, after_now, wait_from, wait_for_exit, wait_fuel,
}

-- `Instant` never goes back, and a pause takes the time it was asked for.
pub record Clock (system : System) (pid : ℕ) : Type 0 where
  pub time : system.Os → ℕ
  pub now_reads : (os : system.Os) → (system.now os).0 ≡ time os
  pub now_passes : (os : system.Os) → time os ≤ time (system.now os).1
  pub probe_passes : (os : system.Os) → time os ≤ time (is_process_alive system pid os).1
  pub sleep_passes : (ms : ℕ) (os : system.Os) → time os + ms ≤ time (system.sleep ms os)

module _ (system : System) (pid deadline : ℕ) where
  open system use {Os, now, sleep}

  -- The runs of the loop: it ends at the deadline or when the process is gone, and pauses otherwise.
  pub data Waited : Os → Os → Type 0 where
    expired : {os u : Os} {t : ℕ} → now os ≡ (t, u) → deadline ≤ t → Waited os u
    exited :
        {os u v : Os} {t : ℕ}
        → now os ≡ (t, u)
        → t < deadline
        → is_process_alive system pid u ≡ (false, v)
        → Waited os v
    paused :
        {os u v w : Os} {t : ℕ}
        → now os ≡ (t, u)
        → t < deadline
        → is_process_alive system pid u ≡ (true, v)
        → Waited (sleep 50 v) w
        → Waited os w

module _ (system : System) (pid : ℕ) (clock : Clock system pid) where
  open system use {Os, now, sleep}
  open clock use {time, now_reads, now_passes, probe_passes, sleep_passes}

  after_probe-Waited :
      (deadline t : ℕ) (os u : Os) (next : Os → Os) (r : Bool × Os)
      → now os ≡ (t, u)
      → t < deadline
      → is_process_alive system pid u ≡ r
      → ((v : Os) → time os + 50 ≤ time v → Waited system pid deadline v (next v))
      → Waited system pid deadline os (after_probe system next r)
  unfolding after_probe
  after_probe-Waited deadline t os u next (true, v) e h p k =
      paused e h p (k (sleep 50 v) (omega (arith, sleep_passes 50 v, later)))
    where
      later : time os ≤ time v
      later = grind (arith, now_passes os, probe_passes u, e, p)
  after_probe-Waited deadline t os u next (false, v) e h p k = exited e h p

  after_now-Waited :
      (deadline : ℕ) (os : Os) (next : Os → Os) (r : ℕ × Os)
      → now os ≡ r
      → (r.0 < deadline → (v : Os) → time os + 50 ≤ time v → Waited system pid deadline v (next v))
      → Waited system pid deadline os (after_now system pid deadline next r)
  unfolding after_now
  after_now-Waited deadline os next (t, u) e k = by_test (ltb t deadline) refl
    where
      by_test :
          (b : Bool)
          → ltb t deadline ≡ b
          → Waited system pid deadline os
              (if b then after_probe system next (is_process_alive system pid u) else u)
      by_test true h =
          after_probe-Waited deadline t os u next (is_process_alive system pid u) e
            (ltb→lt t deadline h) refl (k (ltb→lt t deadline h))
      by_test false h = expired e (ground (arith, h))

  wait_from-Waited :
      (fuel deadline : ℕ) (os : Os)
      → 0 < fuel
      → deadline + 50 ≤ time os + 50 * fuel
      → Waited system pid deadline os (wait_from system fuel pid deadline os)
  unfolding wait_from
  wait_from-Waited zero deadline os h bound = ground (arith, h)
  wait_from-Waited (suc fuel) deadline os h bound =
      after_now-Waited deadline os (wait_from system fuel pid deadline) (now os) refl
        (λ early v later.
          wait_from-Waited fuel deadline v (omega (arith, early, now_reads os, bound))
            (omega (arith, bound, later)))

  -- With a clock that never goes back the wait ends: at its deadline, or when the process is found
  -- gone; until then it asks for the process and pauses for fifty milliseconds.
  pub wait_for_exit-Waited :
      (timeout : ℕ) (os : Os)
      → Waited system pid ((now os).0 + timeout) (now os).1 (wait_for_exit system pid timeout os)
  unfolding wait_for_exit
  wait_for_exit-Waited timeout os =
      wait_from-Waited (wait_fuel timeout) ((now os).0 + timeout) (now os).1 (omega arith) (enough)
    where
      enough : ((now os).0 + timeout) + 50 ≤ time (now os).1 + 50 * wait_fuel timeout
      enough = omega (arith, now_reads os, now_passes os)
