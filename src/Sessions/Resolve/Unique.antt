-- ===== src/Sessions/Resolve/Unique.antt =====
-- What a name of a session stands for.
use launch_code.Prelude.{
  ◌≡◌, refl, ◌⊎◌, inl, inr, Bool, List, [], ◌∷◌, ok, err, arith, true, false, ◌&&◌,
}
use launch_code.Text
use launch_code.Text.{Text, mem, starts_with}
use launch_code.Error.{session_not_found}
use launch_code.Map
use launch_code.Map.{Map}
use launch_code.Model.{SessionRecord}
use launch_code.Sessions.Resolve.{matching_ids, choose_match, resolve_session_id_in_map}

starts_with_refl : (s : Text) → starts_with s s ≡ true
unfolding starts_with
starts_with_refl [] = refl
starts_with_refl (c ∷ s) = ground (arith, starts_with_refl s)

mem-matching_ids :
    (q id : Text) (m : Map SessionRecord)
    → mem id (matching_ids q m) ≡ (starts_with q id && Map.contains_key id m)
unfolding matching_ids mem Map.get
mem-matching_ids q id [] = ground arith
mem-matching_ids q id ((k, s) ∷ m) =
    ground (arith, Text.eq_iff id k, Text.eq_iff k id, mem-matching_ids q id m)

chosen :
    (q id : Text) (ids : List Text)
    → choose_match q ids ≡ ok id
    → (mem id ids ≡ true) × ((j : Text) → mem j ids ≡ true → j ≡ id)
unfolding choose_match mem
chosen q id [] h = ground arith
chosen q id (a ∷ []) h = (ground (arith, Text.eq_iff id a), λ j k. ground (arith, Text.eq_iff j a))
chosen q id (a ∷ b ∷ ids) h = ground arith

not_chosen :
    (q : Text) (ids : List Text)
    → choose_match q ids ≡ err (session_not_found q)
    → (j : Text) → mem j ids ≡ false
unfolding choose_match mem
not_chosen q [] h j = refl
not_chosen q (a ∷ []) h j = ground arith
not_chosen q (a ∷ b ∷ ids) h j = ground arith

-- A name is resolved to the session of that name or, without one, to the only session whose name
-- starts with it.
pub resolve_session_id-IsUnique :
    (sessions : Map SessionRecord) (q id : Text)
    → resolve_session_id_in_map sessions q ≡ ok id
    → (Map.contains_key id sessions ≡ true)
      × (starts_with q id ≡ true)
      × ((id ≡ q)
          ⊎ ((j : Text) → Map.contains_key j sessions ≡ true → starts_with q j ≡ true → j ≡ id))
unfolding resolve_session_id_in_map
resolve_session_id-IsUnique sessions q id h = go (Map.contains_key q sessions) refl
  where
    go :
        (b : Bool)
        → Map.contains_key q sessions ≡ b
        → (Map.contains_key id sessions ≡ true)
          × (starts_with q id ≡ true)
          × ((id ≡ q)
              ⊎ ((j : Text) → Map.contains_key j sessions ≡ true → starts_with q j ≡ true → j ≡ id))
    go true e =
        let same : id ≡ q = ground arith in (rw same e, rw same (starts_with_refl q), inl same)
    go false e =
        let c = chosen q id (matching_ids q sessions) (ground arith) in
        let k = mem-matching_ids q id sessions in
        (
          ground (arith, k, c.0),
          ground (arith, k, c.0),
          inr (λ j f p. c.1 j (ground (arith, mem-matching_ids q j sessions))),
        )
