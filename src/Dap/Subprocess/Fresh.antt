-- ===== src/Dap/Subprocess/Fresh.antt =====
-- The name and the session of a child that is registered.
use launch_code.Prelude.{
  ℕ, zero, suc, ◌+◌, ◌≡◌, ◌≢◌, Bool, true, false, Option, some, none, ok, length, is_none, arith,
  ap, sym, ◌∙◌, ◌↔◌, ok_or,
}
use launch_code.Prelude.Io.{after_lift, pure-eq-ok}
use launch_code.Text
use launch_code.Text.{Text}
use launch_code.Map
use launch_code.Map.{Map}
use launch_code.Map.Free.{AllTaken, AllTaken-bound}
use launch_code.Model.{AppState, SessionRecord}
use launch_code.Sessions.{Machine}
use launch_code.Dap.Subprocess.{
  DebugpyAttachTarget, search_suffix, unique_session_id, child_base, child_session,
  register_mutation,
}

search_suffix-none :
    (sessions : Map SessionRecord) (base : Text) (rounds suffix : ℕ)
    → search_suffix sessions base rounds suffix ≡ none
    → AllTaken base sessions suffix rounds
unfolding search_suffix
search_suffix-none sessions base zero suffix h = tt
search_suffix-none sessions base (suc rounds) suffix h =
    ground (arith, search_suffix-none sessions base rounds (suffix + 1))

search_suffix-free :
    (sessions : Map SessionRecord) (base : Text) (rounds suffix : ℕ) {id : Text}
    → search_suffix sessions base rounds suffix ≡ some id
    → Map.contains_key id sessions ≡ false
unfolding search_suffix
search_suffix-free sessions base zero suffix h = ground arith
search_suffix-free sessions base (suc rounds) suffix {id = id} h =
    ground (arith, search_suffix-free sessions base rounds (suffix + 1) {id = id})

search_suffix-found :
    (sessions : Map SessionRecord) (base : Text)
    → search_suffix sessions base (suc (length sessions)) 1 ≢ none
search_suffix-found sessions base h =
    let b =
      AllTaken-bound base sessions 1 (suc (length sessions))
        (search_suffix-none sessions base (suc (length sessions)) 1 h) in
    omega arith

unique_session_id-free :
    (sessions : Map SessionRecord) (base : Text) (allow_suffix : Bool) {id : Text}
    → unique_session_id sessions base allow_suffix ≡ some id
    → Map.contains_key id sessions ≡ false
unfolding unique_session_id
unique_session_id-free sessions base allow_suffix {id = id} h =
    ground (arith, search_suffix-free sessions base (suc (length sessions)) 1 {id = id})

-- A name is refused exactly if it was asked for and is taken; otherwise the search for a suffix ends.
pub unique_session_id-none_iff :
    (sessions : Map SessionRecord) (base : Text) (allow_suffix : Bool)
    → (unique_session_id sessions base allow_suffix ≡ none)
      ↔ ((allow_suffix ≡ false) × (Map.contains_key base sessions ≡ true))
unfolding unique_session_id
unique_session_id-none_iff sessions base allow_suffix =
    ground (arith, search_suffix-found sessions base)

-- What a registration that returned `id` did to the sessions.
pub record Registered (parent_session_id : Text) (target : DebugpyAttachTarget)
    (app app' : AppState) (id : Text) : Type 0 where
  pub parent : SessionRecord
  pub now : ℕ
  pub found : Map.get parent_session_id app.sessions ≡ some parent
  pub fresh : Map.get id app.sessions ≡ none
  pub stored : Map.get id app'.sessions ≡ some (child_session id target parent now)
  pub kept :
      (j : Text) (session : SessionRecord)
      → Map.get j app.sessions ≡ some session
      → Map.get j app'.sessions ≡ some session

registered :
    (parent_session_id : Text) (target : DebugpyAttachTarget) (requested : Option Text) (now : ℕ)
    (app app' : AppState) (parent : SessionRecord) (id : Text)
    → Map.get parent_session_id app.sessions ≡ some parent
    → unique_session_id app.sessions
        (child_base parent_session_id target requested)
        (is_none requested)
      ≡ some id
    → app'.sessions ≡ Map.insert id (child_session id target parent now) app.sessions
    → Registered parent_session_id target app app' id
registered parent_session_id target requested now app app' parent id found unique e =
    let child = child_session id target parent now in
    let base = child_base parent_session_id target requested in
    let free = unique_session_id-free app.sessions base (is_none requested) unique in
    record {
      parent = parent;
      now = now;
      found = found;
      fresh = ground (arith, free);
      stored = rw e (ground (arith, Map.get-insert id id child app.sessions, Text.eq_refl id));
      kept = λ j session f.
          rw e (ground (arith, free, Map.get-insert id j child app.sessions, Text.eq_iff id j));
    }

module _ (machine : Machine) where
  open machine use {Os, clock}

  -- A child that is registered is a new session, and every session that was there is kept as it was.
  pub register_mutation-Registered :
      (parent_session_id : Text) (target : DebugpyAttachTarget) (requested : Option Text)
      (app : AppState) (os : Os) {app' : AppState} {id : Text} {os' : Os}
      → register_mutation machine parent_session_id target requested app os ≡ (ok (app', id), os')
      → Registered parent_session_id target app app' id
  unfolding register_mutation
  register_mutation-Registered parent_session_id target requested app os {app' = app'} {id = id} h =
      after_lift (ok_or (Map.get parent_session_id app.sessions) _) _ os h λ parent found h₁.
        after_lift (ok_or (unique_session_id app.sessions _ _) _) _ os h₁ λ child q h₂.
          let e = (pure-eq-ok h₂).0 in
          let now = (clock os).0 in
          let same = ap (λ (p : AppState × Text). p.1) e in
          registered parent_session_id target requested now app app' parent id
            (ground (arith, found)) (ground (arith, q, same))
            (sym (ap (λ (p : AppState × Text). p.0.sessions) e)
              ∙ ap (λ (c : Text). Map.insert c (child_session c target parent now) app.sessions)
                  same)
