-- ===== src/Order.antt =====
-- `Ordering` and `sort_by` of the standard library: the sort is stable. `Order/Lawful` has the laws
-- of comparisons, `Order/Sorted` those of the sort.
pub mod Lawful
pub mod Sorted
pub mod Chosen
use Prim.Native.Nat.{compare, Ordering, lt, eq, gt}
use launch_code.Prelude.{
  ℕ, ◌≡◌, refl, Bool, true, false, Option, none, some, List, [], ◌∷◌, take, if◌then◌else◌,
}
use launch_code.Text.{Text}

-- `then_with`
unfoldable pub then_with : Ordering → Ordering → Ordering
then_with Ordering.eq o = o
then_with o _ = o

-- `str::cmp`
unfoldable pub text_cmp : Text → Text → Ordering
text_cmp [] [] = Ordering.eq
text_cmp [] (y ∷ ys) = Ordering.lt
text_cmp (x ∷ xs) [] = Ordering.gt
text_cmp (x ∷ xs) (y ∷ ys) = then_with (compare x y) (text_cmp xs ys)

-- `cmp` of `Option`: none comes first.
unfoldable pub option_cmp : {A : Type 0} → (A → A → Ordering) → Option A → Option A → Ordering
option_cmp cmp none none = Ordering.eq
option_cmp cmp none (some b) = Ordering.lt
option_cmp cmp (some a) none = Ordering.gt
option_cmp cmp (some a) (some b) = cmp a b

-- `is_le` of an ordering
abbrev pub is_le : Ordering → Bool
is_le Ordering.gt = false
is_le _ = true

module _ {A : Type 0} (cmp : A → A → Ordering) where
  unfoldable pub insert_by : A → List A → List A
  insert_by x [] = x ∷ []
  insert_by x (y ∷ ys) =
      let rest = insert_by x ys in if is_le (cmp x y) then x ∷ y ∷ ys else y ∷ rest

  unfoldable pub sort_by : List A → List A
  sort_by [] = []
  sort_by (x ∷ xs) = insert_by x (sort_by xs)

-- `truncate`
unfoldable pub truncate : {A : Type 0} → Option ℕ → List A → List A
truncate none xs = xs
truncate (some limit) xs = take limit xs
