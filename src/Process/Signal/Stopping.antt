-- ===== src/Process/Signal/Stopping.antt =====
-- How a stop ends.
use mathlib.Core.Path.{subst}
use launch_code.Prelude.{
  ℕ, ◌+◌, min, ◌≡◌, ◌≢◌, ◌==◌, ◌||◌, refl, Bool, true, false, Option, none, some, Result, ok, err,
  arith, if◌then◌else◌, ◌⊎◌, inl, inr,
}
use launch_code.Prelude.Io.{Io, bind_post, continue, ◌>>=◌}
use launch_code.Text.Decimal.{u64_max}
use launch_code.Error.{IoError, ProcessError, signal, stop_timeout}
use launch_code.Process.{System, OsError, Target, group, process}
use launch_code.Process.Signal.{
  is_process_alive, signal_after, send_signal, group_fallback, group_after, send_signal_group,
  wait_for_exit, force_stop, kill_if_alive, stop_process_with_options, after_kill,
}

module _ (system : System) (pid : ℕ) where
  open system use {Os, kill, esrch, eperm, sigterm, sigkill, waitpid}

  -- A call of `kill` that failed, and not because there is no such process.
  pub record Refused (sig : ℕ) (e : IoError) : Type 0 where
    pub before : Os
    pub after : Os
    pub target : Target
    pub refusal : OsError
    pub failed : kill target sig before ≡ (some refusal, after)
    pub exists : refusal.errno ≢ esrch
    pub reported : refusal.error ≡ e

  -- The process was found in this state by a probe that ended in `after`.
  abbrev pub Found : Bool → Os → Type 0
  Found alive after = (before : Os) × (is_process_alive system pid before ≡ (alive, after))

  abbrev pub Sent : ℕ → Result ProcessError (Unit {0}) × Os → Type 0
  Sent sig (ok _, os) = Unit
  Sent sig (err e, os) = (source : IoError) × (e ≡ signal pid sig source) × Refused sig source

  failed-Sent :
      (sig : ℕ) (target : Target) (before os t : Os) (e : OsError)
      → kill target sig before ≡ (some e, os)
      → Sent sig (signal_after system pid sig (some e, t))
  unfolding signal_after
  failed-Sent sig target before os t e h = by_test (e.errno == esrch) refl
    where
      by_test :
          (b : Bool)
          → (e.errno == esrch) ≡ b
          → Sent sig (if b then (ok tt, t) else (err (signal pid sig e.error), t))
      by_test true k = tt
      by_test false k = (
        e.error,
        refl,
        record {
          before = before;
          after = os;
          target = target;
          refusal = e;
          failed = h;
          exists = ground (arith, k);
          reported = refl;
        },
      )

  signal_after-Sent :
      (sig : ℕ) (target : Target) (before : Os) (r : Option OsError × Os)
      → kill target sig before ≡ r
      → Sent sig (signal_after system pid sig r)
  unfolding signal_after
  signal_after-Sent sig target before (none, os) h = tt
  signal_after-Sent sig target before (some e, os) h = failed-Sent sig target before os os e h

  group_fallback-Sent :
      (sig : ℕ) (before os : Os) (e : OsError) (r : Bool × Os)
      → kill (group pid) sig before ≡ (some e, os)
      → Sent sig (group_fallback system pid sig e r)
  unfolding group_fallback send_signal
  group_fallback-Sent sig before os e (true, u) h =
      signal_after-Sent sig (process pid) u (kill (process pid) sig u) refl
  group_fallback-Sent sig before os e (false, u) h = failed-Sent sig (group pid) before os u e h

  -- A signal is refused only by a call that failed for another reason than a missing process.
  send_signal_group-Sent : (sig : ℕ) (os : Os) → Sent sig (send_signal_group system pid sig os)
  unfolding send_signal_group group_after
  send_signal_group-Sent sig os = by_call (kill (group pid) sig os) refl
    where
      by_call :
          (r : Option OsError × Os)
          → kill (group pid) sig os ≡ r
          → Sent sig (group_after system pid sig r)
      by_call (none, u) h = tt
      by_call (some e, u) h =
          elim (e.errno == esrch || e.errno == eperm)
            as (λ b. Sent sig (
              if b
              then group_fallback system pid sig e (is_process_alive system pid u)
              else signal_after system pid sig (some e, u))) [
                | true ↦ group_fallback-Sent sig os u e (is_process_alive system pid u) h
                | false ↦ failed-Sent sig (group pid) os u u e h
              ]

  abbrev pub limit : Bool → ℕ → ℕ
  limit true grace = grace + 2000
  limit false grace = grace

  -- The process was found alive after it was waited for.
  abbrev pub Alive : ℕ → Os → Os → Type 0
  Alive timeout u t = is_process_alive system pid (wait_for_exit system pid timeout u) ≡ (true, t)

  -- The waits before a stop gave up: one of up to the grace time, and one of up to two seconds after
  -- SIGKILL where that was allowed.
  abbrev pub Outlived : Bool → ℕ → Os → Os → Type 0
  Outlived false grace u t = Alive grace u t
  Outlived true grace u t =
      (v : Os) × (killed : Os) × Alive grace u v
      × (send_signal_group system pid sigkill v ≡ (ok tt, killed))
      × Alive 2000 killed t

  abbrev TimedOut : Bool → ℕ → ProcessError → Os → Os → Type 0
  TimedOut force grace e u t =
      (e ≡ stop_timeout pid (min u64_max (limit force grace))) × Outlived force grace u t

  abbrev SignalRefused : Bool → ProcessError → Type 0
  SignalRefused force e =
      (sig : ℕ) × (source : IoError) × (e ≡ signal pid sig source)
      × Refused sig source
      × ((sig ≡ sigterm) ⊎ ((sig ≡ sigkill) × (force ≡ true)))

  -- The outcomes before the process is reaped, behind a SIGTERM that led to `u`.
  abbrev Settled : Bool → ℕ → Os → Result ProcessError (Unit {0}) × Os → Type 0
  Settled force grace u (ok _, t) = Found false t
  Settled force grace u (err e, t) = TimedOut force grace e u t ⊎ SignalRefused force e

  -- The outcomes of a stop that began in `os`.
  abbrev pub Outcome : Bool → ℕ → Os → Result ProcessError (Unit {0}) × Os → Type 0
  Outcome force grace os (ok _, t) = (u : Os) × Found false u × (t ≡ waitpid (process pid) u)
  Outcome force grace os (err e, t) =
      ((u : Os) × (send_signal_group system pid sigterm os ≡ (ok tt, u))
        × TimedOut force grace e u t)
      ⊎ SignalRefused force e

  refused_signal :
      (force : Bool) (sig : ℕ) (os u : Os) (e : ProcessError)
      → (sig ≡ sigterm) ⊎ ((sig ≡ sigkill) × (force ≡ true))
      → send_signal_group system pid sig os ≡ (err e, u)
      → SignalRefused force e
  refused_signal force sig os u e which h =
      let (source, k, refused) = subst (Sent sig) h (send_signal_group-Sent sig os) in
      (sig, source, k, refused, which)

  after_kill-Settled :
      (grace : ℕ) (u v killed : Os) (r : Bool × Os)
      → Alive grace u v
      → send_signal_group system pid sigkill v ≡ (ok tt, killed)
      → is_process_alive system pid (wait_for_exit system pid 2000 killed) ≡ r
      → Settled true grace u (after_kill system pid grace r.0 r.1)
  unfolding after_kill
  after_kill-Settled grace u v killed (true, t) alive sent h =
      inl (refl, (v, killed, alive, sent, h))
  after_kill-Settled grace u v killed (false, t) alive sent h =
      (wait_for_exit system pid 2000 killed, h)

  force_stop-Settled :
      (grace : ℕ) (u v : Os)
      → Alive grace u v
      → Settled true grace u (force_stop system pid grace v)
  unfolding force_stop
  force_stop-Settled grace u v alive =
      bind_post (send_signal_group system pid sigkill) _ v (Settled true grace u)
        (λ e t h. inr (refused_signal true sigkill v t e (inr (refl, refl)) h))
        (λ _ killed h.
          after_kill-Settled grace u v killed
            (is_process_alive system pid (wait_for_exit system pid 2000 killed)) alive h refl)

  kill_if_alive-Settled :
      (force : Bool) (grace : ℕ) (u : Os) (r : Bool × Os)
      → is_process_alive system pid (wait_for_exit system pid grace u) ≡ r
      → Settled force grace u (kill_if_alive system pid force grace r.0 r.1)
  unfolding kill_if_alive
  kill_if_alive-Settled force grace u (false, v) h = (wait_for_exit system pid grace u, h)
  kill_if_alive-Settled false grace u (true, v) h = inl (refl, h)
  kill_if_alive-Settled true grace u (true, v) h = force_stop-Settled grace u v h

  reaped-Outcome :
      (force : Bool) (grace : ℕ) (m : Io Os ProcessError (Unit {0})) (os u v : Os)
      → send_signal_group system pid sigterm os ≡ (ok tt, u)
      → Settled force grace u (m v)
      → Outcome force grace os ((m >>= λ _ t. (ok tt, waitpid (process pid) t)) v)
  reaped-Outcome force grace m os u v sent h = go (m v) h
    where
      go :
          (r : Result ProcessError (Unit {0}) × Os)
          → Settled force grace u r
          → Outcome force grace os (continue r (λ _ t. (ok tt, waitpid (process pid) t)))
      go (ok _, t) k = (t, k, refl)
      go (err e, t) (inl k) = inl (u, sent, k)
      go (err e, t) (inr k) = inr k

  -- A stop that succeeds found the process gone, and then only reaped it. One that fails either had a
  -- signal refused, SIGKILL only where it was allowed, or sent SIGTERM, waited for up to the grace
  -- time and found the process alive, and where it was allowed to kill sent SIGKILL, waited for up to
  -- two seconds and found it alive again; it reports the sum of these times, cut off at 64 bits.
  pub stop_process_with_options-Outcome :
      (force : Bool) (grace : ℕ) (os : Os)
      → Outcome force grace os (stop_process_with_options system pid force grace os)
  unfolding stop_process_with_options
  stop_process_with_options-Outcome force grace os =
      bind_post (send_signal_group system pid sigterm) _ os (Outcome force grace os)
        (λ e u h. inr (refused_signal force sigterm os u e (inl refl) h))
        (λ _ u h.
          let r = is_process_alive system pid (wait_for_exit system pid grace u) in
          reaped-Outcome force grace (kill_if_alive system pid force grace r.0) os u r.1 h
            (kill_if_alive-Settled force grace u r refl))
