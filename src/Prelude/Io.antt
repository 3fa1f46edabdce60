-- ===== src/Prelude/Io.antt =====
-- Code that may fail and changes a world: what was done before an error stays done.
use mathlib.Core.Path.{◌≡◌, refl}
use launch_code.Prelude.Fallible.{Result, ok, err}

abbrev pub Io : Type 0 → Type 0 → Type 0 → Type 0
Io S E A = S → Result E A × S

module _ {S E A B : Type 0} where
  abbrev pub continue : Result E A × S → (A → Io S E B) → Result E B × S
  continue (ok a, s) f = f a s
  continue (err e, s) f = (err e, s)

  infixl 5 ◌>>=◌ ◌>>◌
  abbrev pub ◌>>=◌ : Io S E A → (A → Io S E B) → Io S E B
  ◌>>=◌ m f s = continue (m s) f

  abbrev pub ◌>>◌ : Io S E A → Io S E B → Io S E B
  ◌>>◌ m k s = continue (m s) (λ _. k)

  -- A block that returns went through its first step.
  pub bind-eq-ok :
      (m : Io S E A) (f : A → Io S E B) (s : S) {b : B} {t : S}
      → (m >>= f) s ≡ (ok b, t)
      → (a : A) × (u : S) × (m s ≡ (ok a, u)) × (f a u ≡ (ok b, t))
  bind-eq-ok m f s {b} {t} h = go (m s) refl h
    where
      go :
          (r : Result E A × S)
          → m s ≡ r
          → continue r f ≡ (ok b, t)
          → (a : A) × (u : S) × (m s ≡ (ok a, u)) × (f a u ≡ (ok b, t))
      go (ok a, u) e k = (a, u, e, k)
      go (err e', u) e k = cc

-- The same for a proof that goes on with what the first step gave.
pub after_ok :
    {S E A B P : Type 0} (m : Io S E A) (f : A → Io S E B) (s : S) {b : B} {t : S}
    → (m >>= f) s ≡ (ok b, t)
    → ((a : A) (u : S) → m s ≡ (ok a, u) → f a u ≡ (ok b, t) → P)
    → P
after_ok m f s h next = let (a, u, e, k) = bind-eq-ok m f s h in next a u e k

-- A property of every outcome of a block, from its first step.
pub bind_post :
    {S E A B : Type 0} (m : Io S E A) (f : A → Io S E B) (s : S) (P : Result E B × S → Type 0)
    → ((e : E) (u : S) → m s ≡ (err e, u) → P (err e, u))
    → ((a : A) (u : S) → m s ≡ (ok a, u) → P (f a u))
    → P ((m >>= f) s)
bind_post {S} {E} {A} m f s P failed went_on = go (m s) refl
  where
    go : (r : Result E A × S) → m s ≡ r → P (continue r f)
    go (ok a, u) e = went_on a u e
    go (err e', u) e = failed e' u e

abbrev pub pure : {S E A : Type 0} → A → Io S E A
pure a s = (ok a, s)

abbrev pub fail : {S E A : Type 0} → E → Io S E A
fail e s = (err e, s)

abbrev pub lift : {S E A : Type 0} → Result E A → Io S E A
lift r s = (r, s)

-- A step that only computes.
pub after_lift :
    {S E A B P : Type 0} (r : Result E A) (f : A → Io S E B) (s : S) {b : B} {t : S}
    → (lift r >>= f) s ≡ (ok b, t)
    → ((a : A) → r ≡ ok a → f a s ≡ (ok b, t) → P)
    → P
after_lift (ok a) f s h next = next a refl h
after_lift (err e) f s h next = cc

-- The end of a block.
pub pure-eq-ok :
    {S E A : Type 0} {a b : A} {s t : S}
    → ◌≡◌ {A = Result E A × S} (ok a, s) (ok b, t)
    → (a ≡ b) × (s ≡ t)
pure-eq-ok h = (cc, cc)
