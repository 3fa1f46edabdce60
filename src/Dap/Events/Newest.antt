-- ===== src/Dap/Events/Newest.antt =====
-- Which events the queue keeps.
use launch_code.Prelude.{
  ℕ, zero, suc, ◌+◌, ◌-◌, ◌≤◌, ◌≡◌, refl, sym, List, [], ◌∷◌, ◌++◌, length, length-append, drop,
  arith, ltb, Bool-cases, inl, inr,
}
use launch_code.Dap.Events.{max_event_queue_len, shrink, push_event}

module _ {A : Type 0} where
  shrink-drop :
      (rounds : ℕ) (events : List A)
      → length events ≤ rounds + max_event_queue_len
      → (shrink rounds events ≡ drop (length events - max_event_queue_len) events)
        × (length (shrink rounds events) ≤ max_event_queue_len)
  unfolding shrink
  shrink-drop zero events h =
      let e : length events - max_event_queue_len ≡ 0 = omega arith in (rw e refl, omega arith)
  shrink-drop (suc rounds) [] h = ground arith
  shrink-drop (suc rounds) (x ∷ events) h =
      elim (Bool-cases (ltb max_event_queue_len (suc (length events)))) [
        | inl more ↦
            let e : suc (length events) - max_event_queue_len
                ≡ suc (length events - max_event_queue_len) =
              ground arith in
            rw (more, e) (shrink-drop rounds events (omega arith))
        | inr enough ↦
            let e : suc (length events) - max_event_queue_len ≡ 0 = ground arith in
            rw (enough, e) (refl, ground arith)
      ]

  -- The queue keeps its newest thousand events, in their order, and never more.
  pub push_event-drop :
      (events : List A) (event : A)
      → (push_event events event
          ≡ drop (length events + 1 - max_event_queue_len) (events ++ event ∷ []))
        × (length (push_event events event) ≤ max_event_queue_len)
  unfolding push_event
  push_event-drop events event =
      let e = length-append events (event ∷ []) in
      let s = shrink-drop (length (events ++ event ∷ [])) (events ++ event ∷ []) (omega arith) in
      (rw (sym e) s.0, s.1)
