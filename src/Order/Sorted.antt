-- ===== src/Order/Sorted.antt =====
-- The elements and the order of a sorted list.
use Prim.Native.Nat.{Ordering}
use mathlib.Core.List.{Perm}
use mathlib.Core.List.Perm
use launch_code.Prelude.{
  suc, ◌≡◌, refl, ap, Bool, true, false, some, List, [], ◌∷◌, All, length, arith, if◌then◌else◌,
}
use launch_code.Order.{insert_by, sort_by, is_le}
use launch_code.Order.Lawful.{Lawful, compose}

module _ {A : Type 0} (cmp : A → A → Ordering) where
  abbrev pub IsSorted : List A → Type 0
  IsSorted [] = Unit
  IsSorted (x ∷ xs) = All (λ y. is_le (cmp x y) ≡ true) xs × IsSorted xs

  insert_by-All :
      (P : A → Type 0) (x : A) (xs : List A) → P x → All P xs → All P (insert_by cmp x xs)
  unfolding insert_by
  insert_by-All P x [] p ps = (p, tt)
  insert_by-All P x (y ∷ ys) p ps = by_test (is_le (cmp x y)) (insert_by-All P x ys p ps.1)
    where
      by_test :
          (b : Bool)
          → All P (insert_by cmp x ys)
          → All P (if b then x ∷ y ∷ ys else y ∷ insert_by cmp x ys)
      by_test true rest = (p, ps)
      by_test false rest = (ps.0, rest)

  insert_by-perm : (x : A) (xs : List A) → Perm (insert_by cmp x xs) (x ∷ xs)
  unfolding insert_by
  insert_by-perm x [] = Perm.rfl
  insert_by-perm x (y ∷ ys) = by_test (is_le (cmp x y)) (insert_by-perm x ys)
    where
      by_test :
          (b : Bool)
          → Perm (insert_by cmp x ys) (x ∷ ys)
          → Perm (if b then x ∷ y ∷ ys else y ∷ insert_by cmp x ys) (x ∷ y ∷ ys)
      by_test true rest = Perm.rfl
      by_test false rest = Perm.trans (Perm.cons y rest) (Perm.swap x y ys)

  length-insert_by : (x : A) (xs : List A) → length (insert_by cmp x xs) ≡ suc (length xs)
  unfolding insert_by
  length-insert_by x [] = refl
  length-insert_by x (y ∷ ys) = ground (arith, length-insert_by x ys)

  pub length-sort_by : (xs : List A) → length (sort_by cmp xs) ≡ length xs
  unfolding sort_by
  length-sort_by [] = refl
  length-sort_by (x ∷ xs) = omega (arith, length-insert_by x (sort_by cmp xs), length-sort_by xs)

  pub sort_by-perm : (xs : List A) → Perm (sort_by cmp xs) xs
  unfolding sort_by
  sort_by-perm [] = Perm.rfl
  sort_by-perm (x ∷ xs) =
      Perm.trans (insert_by-perm x (sort_by cmp xs)) (Perm.cons x (sort_by-perm xs))

  module _ (lawful : Lawful cmp) where
    le_trans :
        (a b c : A) → is_le (cmp a b) ≡ true → is_le (cmp b c) ≡ true → is_le (cmp a c) ≡ true
    le_trans a b c h k = go (cmp a b) (cmp b c) refl refl h k
      where
        known : (o : Ordering) → compose (cmp a b) (cmp b c) ≡ some o → cmp a c ≡ o
        known = lawful.composes a b c

        go :
            (p q : Ordering)
            → cmp a b ≡ p
            → cmp b c ≡ q
            → is_le p ≡ true
            → is_le q ≡ true
            → is_le (cmp a c) ≡ true
        go Ordering.gt q e f h' k' = cc
        go p Ordering.gt e f h' k' = cc
        go Ordering.lt q e f h' k' = ap is_le (known Ordering.lt (rw (e, f) refl))
        go Ordering.eq q e f h' k' = rw (known q (rw (e, f) refl)) k'

    All-le :
        (x y : A) (ys : List A)
        → is_le (cmp x y) ≡ true
        → All (λ z. is_le (cmp y z) ≡ true) ys
        → All (λ z. is_le (cmp x z) ≡ true) ys
    All-le x y [] h below = tt
    All-le x y (z ∷ zs) h below = (le_trans x y z h below.0, All-le x y zs h below.1)

    insert_by-IsSorted : (x : A) (xs : List A) → IsSorted xs → IsSorted (insert_by cmp x xs)
    unfolding insert_by
    insert_by-IsSorted x [] s = (tt, tt)
    insert_by-IsSorted x (y ∷ ys) s = by_test (is_le (cmp x y)) refl (insert_by-IsSorted x ys s.1)
      where
        by_test :
            (b : Bool)
            → is_le (cmp x y) ≡ b
            → IsSorted (insert_by cmp x ys)
            → IsSorted (if b then x ∷ y ∷ ys else y ∷ insert_by cmp x ys)
        by_test true h rest = ((h, All-le x y ys h s.0), s)
        by_test false h rest = (
          insert_by-All (λ z. is_le (cmp y z) ≡ true) x ys (ground (arith, h, lawful.flips x y))
              s.0,
          rest,
        )

    pub sort_by-IsSorted : (xs : List A) → IsSorted (sort_by cmp xs)
    unfolding sort_by
    sort_by-IsSorted [] = tt
    sort_by-IsSorted (x ∷ xs) = insert_by-IsSorted x (sort_by cmp xs) (sort_by-IsSorted xs)
