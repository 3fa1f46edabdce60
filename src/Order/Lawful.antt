-- ===== src/Order/Lawful.antt =====
-- The laws that `sort_by` asks of a comparison.
use Prim.Native.Nat.{compare, Ordering}
use launch_code.Prelude.{◌≡◌, refl, ◌∙◌, Option, none, some, [], ◌∷◌, arith}
use launch_code.Text.{Text}
use launch_code.Order.{then_with, text_cmp, option_cmp}

abbrev pub flip : Ordering → Ordering
flip Ordering.lt = Ordering.gt
flip Ordering.eq = Ordering.eq
flip Ordering.gt = Ordering.lt

-- What is known of the ends when the first is at most the second and that at most the third.
abbrev pub compose : Ordering → Ordering → Option Ordering
compose Ordering.gt _ = none
compose _ Ordering.gt = none
compose Ordering.eq o = some o
compose Ordering.lt o = some Ordering.lt

compose_comm : (p q : Ordering) → compose q p ≡ compose p q
compose_comm Ordering.lt Ordering.lt = refl
compose_comm Ordering.lt Ordering.eq = refl
compose_comm Ordering.lt Ordering.gt = refl
compose_comm Ordering.eq Ordering.lt = refl
compose_comm Ordering.eq Ordering.eq = refl
compose_comm Ordering.eq Ordering.gt = refl
compose_comm Ordering.gt Ordering.lt = refl
compose_comm Ordering.gt Ordering.eq = refl
compose_comm Ordering.gt Ordering.gt = refl

pub record Lawful {A : Type 0} (cmp : A → A → Ordering) : Type 0 where
  pub flips : (a b : A) → cmp b a ≡ flip (cmp a b)
  pub composes : (a b c : A) (o : Ordering) → compose (cmp a b) (cmp b c) ≡ some o → cmp a c ≡ o

pub compare-Lawful : Lawful compare
compare-Lawful = record { flips = λ a b. ground arith; composes = λ a b c o h. ground (arith, h) }

then-composes :
    (p q r p' q' r' o : Ordering)
    → ((o : Ordering) → compose p q ≡ some o → r ≡ o)
    → ((o : Ordering) → compose p' q' ≡ some o → r' ≡ o)
    → compose (then_with p p') (then_with q q') ≡ some o
    → then_with r r' ≡ o
unfolding then_with
then-composes Ordering.lt Ordering.lt r p' q' r' o h k e = ground (arith, h Ordering.lt refl, e)
then-composes Ordering.lt Ordering.eq r p' q' r' o h k e = ground (arith, h Ordering.lt refl, e)
then-composes Ordering.eq Ordering.lt r p' q' r' o h k e = ground (arith, h Ordering.lt refl, e)
then-composes Ordering.eq Ordering.eq r p' q' r' o h k e = ground (arith, h Ordering.eq refl, k o e)
then-composes Ordering.gt q r p' q' r' o h k e = ground (arith, e)
then-composes p Ordering.gt r p' q' r' o h k e = ground (arith, e)

-- By one key, and by another where the first ones are equal.
pub then_with-Lawful :
    {A : Type 0} (f g : A → A → Ordering)
    → Lawful f
    → Lawful g
    → Lawful (λ a b. then_with (f a b) (g a b))
unfolding then_with
then_with-Lawful f g hf hg = record {
  flips = λ a b. ground (arith, hf.flips a b, hg.flips a b);
  composes = λ a b c o h.
      then-composes (f a b) (f b c) (f a c) (g a b) (g b c) (g a c) o (hf.composes a b c)
        (hg.composes a b c) h;
}

text_cmp-flips : (a b : Text) → text_cmp b a ≡ flip (text_cmp a b)
unfolding text_cmp then_with
text_cmp-flips [] [] = refl
text_cmp-flips [] (y ∷ b) = refl
text_cmp-flips (x ∷ a) [] = refl
text_cmp-flips (x ∷ a) (y ∷ b) = ground (arith, text_cmp-flips a b)

text_cmp-composes :
    (a b c : Text) (o : Ordering)
    → compose (text_cmp a b) (text_cmp b c) ≡ some o
    → text_cmp a c ≡ o
unfolding text_cmp then_with
text_cmp-composes [] [] [] o h = ground (arith, h)
text_cmp-composes [] [] (z ∷ c) o h = ground (arith, h)
text_cmp-composes [] (y ∷ b) [] o h = ground (arith, h)
text_cmp-composes [] (y ∷ b) (z ∷ c) o h = ground (arith, h)
text_cmp-composes (x ∷ a) [] c o h = ground (arith, h)
text_cmp-composes (x ∷ a) (y ∷ b) [] o h = ground (arith, h)
text_cmp-composes (x ∷ a) (y ∷ b) (z ∷ c) o h =
    then-composes (compare x y) (compare y z) (compare x z) (text_cmp a b) (text_cmp b c)
      (text_cmp a c) o (compare-Lawful.composes x y z) (text_cmp-composes a b c) h

pub text_cmp-Lawful : Lawful text_cmp
text_cmp-Lawful = record { flips = text_cmp-flips; composes = text_cmp-composes }

pub option_cmp-Lawful : {A : Type 0} (cmp : A → A → Ordering) → Lawful cmp → Lawful (option_cmp cmp)
unfolding option_cmp
option_cmp-Lawful {A} cmp h = record { flips = flips; composes = composes }
  where
    flips : (a b : Option A) → option_cmp cmp b a ≡ flip (option_cmp cmp a b)
    flips none none = refl
    flips none (some b) = refl
    flips (some a) none = refl
    flips (some a) (some b) = h.flips a b

    composes :
        (a b c : Option A) (o : Ordering)
        → compose (option_cmp cmp a b) (option_cmp cmp b c) ≡ some o
        → option_cmp cmp a c ≡ o
    composes none none none o k = ground (arith, k)
    composes none none (some c) o k = ground (arith, k)
    composes none (some b) none o k = ground (arith, k)
    composes none (some b) (some c) o k = ground (arith, k)
    composes (some a) none c o k = ground (arith, k)
    composes (some a) (some b) none o k = ground (arith, k)
    composes (some a) (some b) (some c) o k = h.composes a b c o k

-- By a key.
pub on-Lawful :
    {A B : Type 0} (key : A → B) (cmp : B → B → Ordering)
    → Lawful cmp
    → Lawful (λ a b. cmp (key a) (key b))
on-Lawful key cmp h = record {
  flips = λ a b. h.flips (key a) (key b);
  composes = λ a b c. h.composes (key a) (key b) (key c);
}

-- The other way round.
pub reverse-Lawful : {A : Type 0} (cmp : A → A → Ordering) → Lawful cmp → Lawful (λ a b. cmp b a)
reverse-Lawful {A} cmp h = record { flips = λ a b. h.flips b a; composes = composes }
  where
    composes : (a b c : A) (o : Ordering) → compose (cmp b a) (cmp c b) ≡ some o → cmp c a ≡ o
    composes a b c o k = h.composes c b a o (compose_comm (cmp b a) (cmp c b) ∙ k)
