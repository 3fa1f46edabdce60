-- ===== src/Sessions/Stop/Swap.antt =====
-- A recorded stop, and the process that was read before it.
use launch_code.Prelude.{ap, ◌≡◌, ◌≢◌, ◌⊎◌, ◌↔◌, ℕ, Option, none, some, ok, arith, true}
use launch_code.Prelude.Io.{after_lift, pure-eq-ok}
use launch_code.Text
use launch_code.Text.{Text}
use launch_code.Error.{state}
use launch_code.Map
use launch_code.Model.{AppState, SessionRecord, stopped}
use launch_code.State.Files.{locked_file}
use launch_code.State.Store.{Serde, World, decode_file, encode, update}
use launch_code.State.Store.Contract.{update-Updated}
use launch_code.Sessions.{Machine}
use launch_code.Sessions.Reconcile.{find_session, put_session}
use launch_code.Sessions.Resolve.{pid_eq}
use launch_code.Sessions.Stop.{
  StopOutcome, stop_expected, stop_already, stop_session, stop_mutation,
}

pub pid_eq_iff : (a b : Option ℕ) → (pid_eq a b ≡ true) ↔ (a ≡ b)
unfolding pid_eq
pid_eq_iff none none = ground arith
pid_eq_iff (some a) (some b) = ground arith
pid_eq_iff none (some b) = ground arith
pid_eq_iff (some a) none = ground arith

stop_session-eq-ok :
    (expected_pid : Option ℕ) (now : ℕ) (session : SessionRecord) {outcome : StopOutcome}
    → stop_session expected_pid now session ≡ ok outcome
    → ((session.pid ≡ none) ⊎ (session.pid ≡ expected_pid))
      × (outcome.session.pid ≡ none)
      × (outcome.session.status ≡ stopped)
unfolding stop_session stop_expected stop_already
stop_session-eq-ok expected_pid now session h = ground (arith, pid_eq_iff session.pid expected_pid)

-- What a stop of the session `id` did, from the state that was read under the lock.
pub record Stopped (json : Serde) (id : Text) (expected_pid : Option ℕ) (file file' : Option Text)
    (outcome : StopOutcome) : Type 0 where
  pub before : AppState
  pub after : AppState
  pub session : SessionRecord
  pub payload : Text
  pub decoded : decode_file json file ≡ ok before
  pub found : Map.get id before.sessions ≡ some session
  pub expected : (session.pid ≡ none) ⊎ (session.pid ≡ expected_pid)
  pub stored : Map.get id after.sessions ≡ some outcome.session
  pub no_pid : outcome.session.pid ≡ none
  pub is_stopped : outcome.session.status ≡ stopped
  pub others_kept : (j : Text) → j ≢ id → Map.get j after.sessions ≡ Map.get j before.sessions
  pub kept : (after.profiles ≡ before.profiles) × (after.project_info ≡ before.project_info)
  pub encoded : encode json after ≡ ok payload
  pub written : file' ≡ some payload

module _ (machine : Machine) where
  open machine use {Os, clock}

  -- The mutation alone.
  record Swapped (id : Text) (expected_pid : Option ℕ) (before after : AppState)
      (outcome : StopOutcome) : Type 0 where
    pub session : SessionRecord
    pub found : Map.get id before.sessions ≡ some session
    pub expected : (session.pid ≡ none) ⊎ (session.pid ≡ expected_pid)
    pub no_pid : outcome.session.pid ≡ none
    pub is_stopped : outcome.session.status ≡ stopped
    pub sessions : after.sessions ≡ Map.insert id outcome.session before.sessions
    pub kept : (after.profiles ≡ before.profiles) × (after.project_info ≡ before.project_info)

  swapped :
      (id : Text) (expected_pid : Option ℕ) (now : ℕ) (before : AppState) (session : SessionRecord)
      (outcome : StopOutcome) {after : AppState} {result : StopOutcome}
      → find_session id before ≡ ok session
      → stop_session expected_pid now session ≡ ok outcome
      → put_session id outcome.session before ≡ after
      → outcome ≡ result
      → Swapped id expected_pid before after result
  unfolding find_session
  swapped id expected_pid now before session outcome found stop e e' =
      let (expected, no_pid, is_stopped) = stop_session-eq-ok expected_pid now session stop in
      record {
        session = session;
        found = ground arith;
        expected = expected;
        no_pid = ground arith;
        is_stopped = ground arith;
        sessions = ground arith;
        kept = (ground arith, ground arith);
      }

  stop_mutation-Swapped :
      (id : Text) (expected_pid : Option ℕ) (before : AppState) (os : Os) {after : AppState}
      {outcome : StopOutcome} {os' : Os}
      → stop_mutation machine id expected_pid before os ≡ (ok (after, outcome), os')
      → Swapped id expected_pid before after outcome
  unfolding stop_mutation
  stop_mutation-Swapped id expected_pid before os h =
      let now = (clock os).0 in
      let os₁ = (clock os).1 in
      after_lift (find_session id before) _ os₁ h λ session found h₁.
        after_lift (stop_session expected_pid now session) _ os₁ h₁ λ outcome stop h₂.
          let e = (pure-eq-ok h₂).0 in
          swapped id expected_pid now before session outcome found stop
            (ap (λ (p : AppState × StopOutcome). p.0) e)
            (ap (λ (p : AppState × StopOutcome). p.1) e)

  -- A stop that is recorded changed nothing but the session that it names, which the file showed
  -- without a process or with the one that was stopped; it has no process now and is stopped.
  pub stop-Stopped :
      (json : Serde) (id : Text) (expected_pid : Option ℕ) (w : World Os) {outcome : StopOutcome}
      {w' : World Os}
      → update json state (stop_mutation machine id expected_pid) w ≡ (ok outcome, w')
      → Stopped json id expected_pid (locked_file w.fs) w'.fs.state_file outcome
  stop-Stopped json id expected_pid w {outcome} h =
      let u = update-Updated json state (stop_mutation machine id expected_pid) w h in
      let s = stop_mutation-Swapped id expected_pid u.before w.os u.mutated in
      record {
        before = u.before;
        after = u.after;
        session = s.session;
        payload = u.payload;
        decoded = u.decoded;
        found = s.found;
        expected = s.expected;
        stored = rw s.sessions (
            ground
              (arith, Map.get-insert id id outcome.session u.before.sessions, Text.eq_refl id));
        no_pid = s.no_pid;
        is_stopped = s.is_stopped;
        others_kept = λ j ne. rw s.sessions (
            ground
              (arith, Map.get-insert id j outcome.session u.before.sessions, Text.eq_iff id j));
        kept = s.kept;
        encoded = u.encoded;
        written = u.written;
      }
