-- ===== src/Dap/Events.antt =====
-- The queue of events of a proxy: `push_event` of src/dap/shared.rs.
pub mod Newest
use launch_code.Prelude.{
  ℕ, zero, suc, ◌+◌, ◌-◌, ◌≤◌, ◌≡◌, refl, List, [], ◌∷◌, ◌++◌, length, drop, min, arith, ltb,
  if◌then◌else◌,
}

abbrev pub max_event_queue_len : ℕ
max_event_queue_len = 1000

module _ {A : Type 0} where
  -- `pop_front`, whose value is dropped
  abbrev pop_front : List A → List A
  pop_front [] = []
  pop_front (x ∷ xs) = xs

  -- The loop; a round takes one event, so that as many rounds as there are events are enough.
  unfoldable pub shrink : ℕ → List A → List A
  shrink zero events = events
  shrink (suc rounds) events =
      let rest = shrink rounds (pop_front events) in
      if ltb max_event_queue_len (length events) then rest else events

  unfoldable pub push_event : List A → A → List A
  unfolding shrink
  push_event events event = let pushed = events ++ event ∷ [] in shrink (length pushed) pushed
