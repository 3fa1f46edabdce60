-- ===== src/Map/Free.antt =====
-- Names with a number at the end, and the keys of a map among them.
use launch_code.Prelude.{ℕ, zero, suc, ◌+◌, ◌≤◌, ◌<◌, ◌≡◌, true, [], ◌∷◌, ◌++◌, length, arith}
use launch_code.Text
use launch_code.Text.{Text}
use launch_code.Text.Decimal.{to_string, to_string-injective}
use launch_code.Map
use launch_code.Map.{Map}

-- `format!("{base}-{suffix}")`
abbrev pub suffixed : Text → ℕ → Text
suffixed base suffix = base ++ b'-' ∷ to_string suffix

append-injective : (base s t : Text) → base ++ s ≡ base ++ t → s ≡ t
append-injective [] s t e = e
append-injective (c ∷ base) s t e = append-injective base s t (cc e)

suffixed-injective : (base : Text) (i j : ℕ) → suffixed base i ≡ suffixed base j → i ≡ j
suffixed-injective base i j e =
    let tails = append-injective base (b'-' ∷ to_string i) (b'-' ∷ to_string j) e in
    to_string-injective i j (cc tails)

module _ {V : Type 0} where
  -- The `n` names from `start` on are all keys.
  abbrev pub AllTaken : Text → Map V → ℕ → ℕ → Type 0
  AllTaken base m start zero = Unit {0}
  AllTaken base m start (suc n) =
      (Map.contains_key (suffixed base start) m ≡ true) × AllTaken base m (start + 1) n

  length-remove : (k : Text) (m : Map V) → length (Map.remove k m) ≤ length m
  unfolding Map.remove
  length-remove k [] = omega arith
  length-remove k ((j, v) ∷ m) = ground (arith, length-remove k m)

  length-remove_key :
      (k : Text) (m : Map V) → Map.contains_key k m ≡ true → length (Map.remove k m) < length m
  unfolding Map.remove Map.get
  length-remove_key k [] h = ground arith
  length-remove_key k ((j, v) ∷ m) h = ground (arith, length-remove k m, length-remove_key k m)

  taken-remove :
      (base : Text) (m : Map V) (k start n : ℕ)
      → k < start
      → AllTaken base m start n
      → AllTaken base (Map.remove (suffixed base k) m) start n
  taken-remove base m k start zero h t = tt
  taken-remove base m k start (suc n) h t = (
    ground (
      arith,
      Map.get-remove (suffixed base k) (suffixed base start) m,
      Text.eq_iff (suffixed base k) (suffixed base start),
      suffixed-injective base k start,
    ),
    taken-remove base m k (start + 1) n (omega arith) t.1,
  )

  pub AllTaken-bound :
      (base : Text) (m : Map V) (start n : ℕ) → AllTaken base m start n → n ≤ length m
  AllTaken-bound base m start zero t = omega arith
  AllTaken-bound base m start (suc n) t = omega (
    arith,
    AllTaken-bound base (Map.remove (suffixed base start) m) (start + 1) n
        (taken-remove base m start (start + 1) n (omega arith) t.1),
    length-remove_key (suffixed base start) m t.0,
  )
