-- ===== src/Text/Trim.antt =====
-- Laws of `trim`.
use launch_code.Prelude.{
  ℕ, ◌≡◌, refl, Bool, true, false, [], ◌∷◌, ◌++◌, reverse, ◌∙◌, All, All-append,
}
use mathlib.Core.List.{reverse-append, reverse-cons, reverse-reverse}
use launch_code.Text.{Text, is_whitespace, trim, trim_start, trim_start_by, trim_end_by}

trim_start_by-cons :
    (p : ℕ → Bool) (c : ℕ) (s : Text) → p c ≡ false → trim_start_by p (c ∷ s) ≡ c ∷ s
unfolding trim_start_by
trim_start_by-cons p c s h = rw h

-- What ends in a kept character is kept.
pub trim_end_by-append :
    (p : ℕ → Bool) (s : Text) (d : ℕ) → p d ≡ false → trim_end_by p (s ++ d ∷ []) ≡ s ++ d ∷ []
unfolding trim_end_by
trim_end_by-append p s d h =
    rw reverse-append
      (rw (trim_start_by-cons p d (reverse s) h) (reverse-cons d (reverse s) ∙ rw reverse-reverse))

pub trim_start-cons : (c : ℕ) (s : Text) → is_whitespace c ≡ false → trim_start (c ∷ s) ≡ c ∷ s
unfolding trim_start
trim_start-cons = trim_start_by-cons is_whitespace

-- A text whose first and last characters are no spaces is kept.
pub trim_ends :
    (c : ℕ) (s : Text) (d : ℕ)
    → is_whitespace c ≡ false
    → is_whitespace d ≡ false
    → trim (c ∷ (s ++ d ∷ [])) ≡ c ∷ (s ++ d ∷ [])
unfolding trim
trim_ends c s d h k =
    rw (trim_start-cons c (s ++ d ∷ []) h) (trim_end_by-append is_whitespace (c ∷ s) d k)

pub trim_one : (c : ℕ) → is_whitespace c ≡ false → trim (c ∷ []) ≡ c ∷ []
unfolding trim
trim_one c h = rw (trim_start-cons c [] h) (trim_end_by-append is_whitespace [] c h)

All-reverse :
    (p : ℕ → Bool) (s : Text) → All (λ c. p c ≡ false) s → All (λ c. p c ≡ false) (reverse s)
All-reverse p [] h = tt
All-reverse p (c ∷ s) h =
    rw reverse-cons
      (All-append (λ c. p c ≡ false) (reverse s) (c ∷ []) (All-reverse p s h.1) (h.0, tt))

trim_start_by-All : (p : ℕ → Bool) (s : Text) → All (λ c. p c ≡ false) s → trim_start_by p s ≡ s
unfolding trim_start_by
trim_start_by-All p [] h = refl
trim_start_by-All p (c ∷ s) h = rw h.0

-- A text of kept characters is kept.
pub trim_end_by-All : (p : ℕ → Bool) (s : Text) → All (λ c. p c ≡ false) s → trim_end_by p s ≡ s
unfolding trim_end_by
trim_end_by-All p s h =
    rw (trim_start_by-All p (reverse s) (All-reverse p s h)) (rw reverse-reverse)

-- Two characters at the end that are trimmed.
pub trim_end_by-two :
    (p : ℕ → Bool) (s : Text) (c d : ℕ)
    → p c ≡ true
    → p d ≡ true
    → trim_end_by p (s ++ c ∷ d ∷ []) ≡ trim_end_by p s
unfolding trim_end_by trim_start_by
trim_end_by-two p s c d h k = rw reverse-append (rw (k, h) refl)

abbrev pub NoSpace : Text → Type 0
NoSpace = All (λ c. is_whitespace c ≡ false)

-- A text with no space in it is kept.
pub trim-NoSpace : (s : Text) → NoSpace s → trim s ≡ s
unfolding trim trim_start
trim-NoSpace s h = rw (trim_start_by-All is_whitespace s h) (trim_end_by-All is_whitespace s h)
