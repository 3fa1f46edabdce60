-- ===== src/Order/Chosen.antt =====
-- The first elements of a list that was sorted, up to a limit.
use Prim.Native.Nat.{Ordering}
use mathlib.Core.List.{Perm}
use mathlib.Core.Path.{subst}
use launch_code.Prelude.{
  ℕ, zero, suc, ◌≤◌, ◌≡◌, refl, sym, true, Option, none, some, List, [], ◌∷◌, ◌++◌, All, append-nil,
  length, length-take, take, drop, arith, ◌⊎◌, inl, inr,
}
use launch_code.Order.{sort_by, is_le, truncate}
use launch_code.Order.Lawful.{Lawful}
use launch_code.Order.Sorted.{IsSorted, sort_by-IsSorted, sort_by-perm}

-- What was cut off.
unfoldable pub left_out : {A : Type 0} → Option ℕ → List A → List A
left_out none xs = []
left_out (some limit) xs = drop limit xs

module _ {A : Type 0} where
  take-append-drop : (n : ℕ) (xs : List A) → take n xs ++ drop n xs ≡ xs
  take-append-drop zero xs = refl
  take-append-drop (suc n) [] = refl
  take-append-drop (suc n) (x ∷ xs) = ground (arith, take-append-drop n xs)

  truncate-append : (limit : Option ℕ) (xs : List A) → truncate limit xs ++ left_out limit xs ≡ xs
  unfolding truncate left_out
  truncate-append none xs = append-nil xs
  truncate-append (some n) xs = take-append-drop n xs

module _ {A : Type 0} (cmp : A → A → Ordering) where
  -- Every one of the first is at most every one of the second.
  abbrev pub Before : List A → List A → Type 0
  Before [] ys = Unit
  Before (x ∷ xs) ys = All (λ y. is_le (cmp x y) ≡ true) ys × Before xs ys

  All-split : (P : A → Type 0) (xs ys : List A) → All P (xs ++ ys) → All P xs × All P ys
  All-split P [] ys h = (tt, h)
  All-split P (x ∷ xs) ys h = let (a, b) = All-split P xs ys h.1 in ((h.0, a), b)

  IsSorted-split : (xs ys : List A) → IsSorted cmp (xs ++ ys) → IsSorted cmp xs × Before xs ys
  IsSorted-split [] ys h = (tt, tt)
  IsSorted-split (x ∷ xs) ys h =
      let (a, b) = All-split (λ y. is_le (cmp x y) ≡ true) xs ys h.0 in
      let (s, t) = IsSorted-split xs ys h.1 in ((a, s), (b, t))

-- As many as the limit allows, and all of them if that is not reached.
abbrev pub Filled : {A : Type 0} → Option ℕ → List A → List A → Type 0
Filled none xs rest = rest ≡ []
Filled (some limit) xs rest = (length xs ≤ limit) × ((rest ≡ []) ⊎ (length xs ≡ limit))

pub record Chosen {A : Type 0} (cmp : A → A → Ordering) (matching : List A) (limit : Option ℕ)
    (selected : List A) : Type 0 where
  pub rest : List A
  pub every : Perm (selected ++ rest) matching
  pub sorted : IsSorted cmp selected
  pub first : Before cmp selected rest
  pub filled : Filled limit selected rest

module _ {A : Type 0} where
  take-Filled :
      (n : ℕ) (xs : List A)
      → (length (take n xs) ≤ n) × ((drop n xs ≡ []) ⊎ (length (take n xs) ≡ n))
  take-Filled zero xs = (omega arith, inr refl)
  take-Filled (suc n) [] = (omega arith, inl refl)
  take-Filled (suc n) (x ∷ xs) = ground (arith, take-Filled n xs)

  truncate-Filled :
      (limit : Option ℕ) (xs : List A) → Filled limit (truncate limit xs) (left_out limit xs)
  unfolding truncate left_out
  truncate-Filled none xs = refl
  truncate-Filled (some n) xs = take-Filled n xs

pub length-truncate :
    {A : Type 0} (limit : Option ℕ) (xs : List A) → length (truncate limit xs) ≤ length xs
unfolding truncate
length-truncate none xs = omega arith
length-truncate (some n) xs = omega (arith, length-take n xs)

pub sort_by-Chosen :
    {A : Type 0} (cmp : A → A → Ordering) (matching : List A) (limit : Option ℕ)
    → Lawful cmp
    → Chosen cmp matching limit (truncate limit (sort_by cmp matching))
sort_by-Chosen {A} cmp matching limit lawful = record {
  rest = left_out limit sorted;
  every = subst (λ xs. Perm xs matching) (sym whole) (sort_by-perm cmp matching);
  sorted = parts.0;
  first = parts.1;
  filled = truncate-Filled limit sorted;
}
  where
    sorted : List A
    sorted = sort_by cmp matching

    whole : truncate limit sorted ++ left_out limit sorted ≡ sorted
    whole = truncate-append limit sorted

    parts :
        IsSorted cmp (truncate limit sorted)
        × Before cmp (truncate limit sorted) (left_out limit sorted)
    parts =
        IsSorted-split cmp (truncate limit sorted) (left_out limit sorted)
          (subst (IsSorted cmp) (sym whole) (sort_by-IsSorted cmp lawful matching))
