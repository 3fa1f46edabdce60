-- ===== src/Text/Lines.antt =====
-- `str::lines`: the lines of a text, without their ends `\n` or `\r\n`.
use launch_code.Prelude.{
  ℕ, ◌≡◌, ◌<◌, length, refl, false, List, [], ◌∷◌, ◌++◌, reverse, arith, ◌==◌, if◌then◌else◌,
  is_empty, All, ap, ◌∙◌,
}
use mathlib.Core.List.{reverse_aux, reverse-cons, reverse-reverse}
use launch_code.Text.{Text}

-- The line read so far, backwards, without a `\r` at its end.
abbrev drop_cr : Text → Text
drop_cr [] = []
drop_cr (c ∷ back) = if c == b'\r' then back else c ∷ back

unfoldable pub lines_from : Text → Text → List Text
lines_from back [] = if is_empty back then [] else reverse back ∷ []
lines_from back (c ∷ s) =
    let ended = reverse (drop_cr back) ∷ lines_from [] s in
    let more = lines_from (c ∷ back) s in if c == b'\n' then ended else more

unfoldable pub lines : Text → List Text
unfolding lines_from
lines = lines_from []

abbrev pub NoNewline : Text → Type 0
NoNewline = All (λ c. (c == b'\n') ≡ false)

lines_from-append :
    (line back rest : Text)
    → NoNewline line
    → lines_from back (line ++ rest) ≡ lines_from (reverse_aux line back) rest
unfolding lines_from
lines_from-append [] back rest h = refl
lines_from-append (c ∷ line) back rest h = ground (arith, lines_from-append line (c ∷ back) rest)

lines_from_end :
    (back : Text) (d : ℕ) (rest : Text)
    → (d == b'\n') ≡ false
    → (d == b'\r') ≡ false
    → lines_from back (d ∷ b'\n' ∷ rest) ≡ (reverse back ++ d ∷ []) ∷ lines_from [] rest
unfolding lines_from
lines_from_end back d rest p q =
    rw (p, q) (ap (λ (t : Text). t ∷ lines_from [] rest) (reverse-cons d back))

-- A line that ends in something other than `\r` is read whole.
pub lines-cons :
    (line : Text) (d : ℕ) (rest : Text)
    → NoNewline line
    → (d == b'\n') ≡ false
    → (d == b'\r') ≡ false
    → lines (line ++ d ∷ b'\n' ∷ rest) ≡ (line ++ d ∷ []) ∷ lines rest
unfolding lines
lines-cons line d rest h p q =
    lines_from-append line [] (d ∷ b'\n' ∷ rest) h
    ∙ lines_from_end (reverse line) d rest p q
    ∙ rw reverse-reverse

-- Lines are read on both sides of a newline.
lines_from-split :
    (back x y : Text)
    → lines_from back (x ++ b'\n' ∷ y) ≡ lines_from back (x ++ b'\n' ∷ []) ++ lines_from [] y
unfolding lines_from
lines_from-split back [] y = refl
lines_from-split back (c ∷ x) y =
    ground (arith, lines_from-split (c ∷ back) x y, lines_from-split [] x y)

pub lines-split : (x y : Text) → lines (x ++ b'\n' ∷ y) ≡ lines (x ++ b'\n' ∷ []) ++ lines y
unfolding lines
lines-split = lines_from-split []

lines_from-some : (back x : Text) → 0 < length (lines_from back (x ++ b'\n' ∷ []))
unfolding lines_from
lines_from-some back [] = omega arith
lines_from-some back (c ∷ x) = ground (arith, lines_from-some (c ∷ back) x)

pub line_count : (x : Text) → 0 < length (lines (x ++ b'\n' ∷ []))
unfolding lines
line_count = lines_from-some []
