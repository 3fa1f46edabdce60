-- ===== src/Map/Ordered.antt =====
-- Maps whose keys are in strictly ascending order, as in every `BTreeMap`, and inserting into
-- them.
use launch_code.Prelude.{◌≡◌, refl, Bool, true, false, none, [], ◌∷◌, All, arith, if◌then◌else◌}
use launch_code.Text
use launch_code.Text.{Text}
use launch_code.Map.{Map, get, insert}
use launch_code.Map.Merge.{IsDistinct}

lt_trans : (a b c : Text) → Text.lt a b ≡ true → Text.lt b c ≡ true → Text.lt a c ≡ true
unfolding Text.lt
lt_trans [] [] c h k = cc
lt_trans a (y ∷ b) [] h k = cc
lt_trans [] (y ∷ b) (z ∷ c) h k = refl
lt_trans (x ∷ a) [] c h k = cc
lt_trans (x ∷ a) (y ∷ b) (z ∷ c) h k = ground (arith, lt_trans a b c, h, k)

lt_total : (a b : Text) → Text.eq a b ≡ false → Text.lt a b ≡ false → Text.lt b a ≡ true
unfolding Text.lt Text.eq
lt_total [] [] e h = cc
lt_total [] (y ∷ b) e h = cc
lt_total (x ∷ a) [] e h = refl
lt_total (x ∷ a) (y ∷ b) e h = ground (arith, lt_total a b, e, h)

lt_apart : (a b : Text) → Text.lt a b ≡ true → Text.eq b a ≡ false
unfolding Text.lt Text.eq
lt_apart [] [] h = cc
lt_apart [] (y ∷ b) h = refl
lt_apart (x ∷ a) [] h = cc
lt_apart (x ∷ a) (y ∷ b) h = ground (arith, lt_apart a b, h)

module _ {V : Type 0} where
  abbrev pub IsBelow : Text → Map V → Type 0
  IsBelow k m = All (λ entry. Text.lt k entry.0 ≡ true) m

  abbrev pub IsSorted : Map V → Type 0
  IsSorted [] = Unit
  IsSorted ((k, v) ∷ m) = IsBelow k m × IsSorted m

  IsBelow-IsBelow : (k j : Text) (m : Map V) → Text.lt k j ≡ true → IsBelow j m → IsBelow k m
  IsBelow-IsBelow k j [] h b = tt
  IsBelow-IsBelow k j ((i, v) ∷ m) h b = (lt_trans k j i h b.0, IsBelow-IsBelow k j m h b.1)

  insert-IsBelow :
      (i k : Text) (v : V) (m : Map V) → Text.lt i k ≡ true → IsBelow i m → IsBelow i (insert k v m)
  unfolding insert
  insert-IsBelow i k v [] h b = (h, tt)
  insert-IsBelow i k v ((j, w) ∷ m) h b =
      elim (Text.eq j k)
        as (λ e. IsBelow i (
          if e
          then (k, v) ∷ m
          else if Text.lt k j
          then (k, v) ∷ (j, w) ∷ m
          else (j, w) ∷ insert k v m)) [
            | true ↦ (h, b.1)
            | false ↦
                elim (Text.lt k j)
                  as (λ e. IsBelow i (if e then (k, v) ∷ (j, w) ∷ m else (j, w) ∷ insert k v m)) [
                    | true ↦ (h, b)
                    | false ↦ (b.0, insert-IsBelow i k v m h b.1)
                  ]
          ]

  pub insert-IsSorted : (k : Text) (v : V) (m : Map V) → IsSorted m → IsSorted (insert k v m)
  unfolding insert
  insert-IsSorted k v [] h = (tt, tt)
  insert-IsSorted k v ((j, w) ∷ m) h = at_key (Text.eq j k) refl (insert-IsSorted k v m h.1)
    where
      before :
          (b : Bool)
          → Text.eq j k ≡ false
          → Text.lt k j ≡ b
          → IsSorted (insert k v m)
          → IsSorted (if b then (k, v) ∷ (j, w) ∷ m else (j, w) ∷ insert k v m)
      before true e l rest = ((l, IsBelow-IsBelow k j m l h.0), h)
      before false e l rest =
          let below = lt_total k j (ground (arith, e, Text.eq_iff k j, Text.eq_iff j k)) l in
          (insert-IsBelow j k v m below h.0, rest)

      same : (m₁ : Map V) → j ≡ k → IsBelow j m₁ → IsBelow k m₁
      same m₁ e b = rw e at b

      at_key :
          (b : Bool)
          → Text.eq j k ≡ b
          → IsSorted (insert k v m)
          → IsSorted (
              if b
              then (k, v) ∷ m
              else if Text.lt k j
              then (k, v) ∷ (j, w) ∷ m
              else (j, w) ∷ insert k v m)
      at_key true e rest = (same m ((Text.eq_iff j k).0 e) h.0, h.1)
      at_key false e rest = before (Text.lt k j) e refl rest

  get-IsBelow : (k : Text) (m : Map V) → IsBelow k m → get k m ≡ none
  unfolding get
  get-IsBelow k [] b = refl
  get-IsBelow k ((j, w) ∷ m) b = ground (arith, lt_apart k j b.0, get-IsBelow k m b.1)

  pub IsSorted-IsDistinct : (m : Map V) → IsSorted m → IsDistinct m
  IsSorted-IsDistinct [] h = tt
  IsSorted-IsDistinct ((k, v) ∷ m) h = (get-IsBelow k m h.0, IsSorted-IsDistinct m h.1)
