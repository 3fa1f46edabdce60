-- ===== src/Text/Decimal.antt =====
-- Decimal numbers: `to_string` of the unsigned integers, and `str::parse` at a type with maximum `max`.
use launch_code.Prelude.{
  ℕ, zero, suc, ◌+◌, ◌-◌, ◌*◌, ◌/◌, ◌%◌, ◌≤◌, ◌≡◌, refl, ap, ◌∙◌, ◌≢◌, true, Option, none, some, [],
  ◌∷◌, arith, leb, ◌==◌, if◌then◌else◌, All, max,
}
use launch_code.Text.{Text, is_digit}

-- The digits of `n` in front of `out`; `n` rounds are enough.
unfoldable pub digits : ℕ → ℕ → Text → Text
digits zero n out = out
digits (suc f) n out =
    let rest = digits f (n / 10) ((b'0' + n % 10) ∷ out) in if n == 0 then out else rest

unfoldable pub to_string : ℕ → Text
unfolding digits
to_string n = if n == 0 then b'0' ∷ [] else digits n n []

-- Every digit is checked against overflow.
unfoldable pub scan : ℕ → ℕ → Text → Option ℕ
scan max acc [] = some acc
scan max acc (c ∷ s) =
    let next = acc * 10 + (c - b'0') in
    let rest = scan max next s in if is_digit c then (if leb next max then rest else none) else none

unfoldable pub parse_digits : ℕ → Text → Option ℕ
unfolding scan
parse_digits max [] = none
parse_digits max (c ∷ s) = scan max 0 (c ∷ s)

-- One leading plus is accepted.
unfoldable pub parse_uint : ℕ → Text → Option ℕ
unfolding parse_digits
parse_uint max [] = none
parse_uint max (c ∷ s) = if c == b'+' then parse_digits max s else parse_digits max (c ∷ s)

abbrev pub u16_max : ℕ
u16_max = 65535

abbrev pub u32_max : ℕ
u32_max = 4294967295

abbrev pub u64_max : ℕ
u64_max = 18446744073709551615

scan_last :
    (max n : ℕ) (out : Text) → n ≤ max → scan max (n / 10) ((b'0' + n % 10) ∷ out) ≡ scan max n out
unfolding scan is_digit
scan_last max n out h =
    let e : n / 10 * 10 + (b'0' + n % 10 - b'0') ≡ n = omega arith in rw e (ground arith)

scan-digits :
    (f n max : ℕ) (out : Text) → n ≤ f → n ≤ max → scan max 0 (digits f n out) ≡ scan max n out
unfolding digits
scan-digits zero n max out h k = let e : n ≡ 0 = omega arith in rw e
scan-digits (suc f) n max out h k =
    ground (arith, scan-digits f (n / 10) max ((b'0' + n % 10) ∷ out), scan_last max n out)

digits-ne-nil : (f n : ℕ) (out : Text) → out ≢ [] → digits f n out ≢ []
unfolding digits
digits-ne-nil zero n out h = h
digits-ne-nil (suc f) n out h =
    ground (arith, digits-ne-nil f (n / 10) ((b'0' + n % 10) ∷ out) (λ e. cc))

digits-IsDigit :
    (f n : ℕ) (out : Text)
    → All (λ c. is_digit c ≡ true) out
    → All (λ c. is_digit c ≡ true) (digits f n out)
unfolding digits is_digit
digits-IsDigit zero n out h = h
digits-IsDigit (suc f) n out h = ground (arith, digits-IsDigit f (n / 10) ((b'0' + n % 10) ∷ out))

pub to_string-digits : (n : ℕ) → All (λ c. is_digit c ≡ true) (to_string n)
unfolding to_string is_digit
to_string-digits n = ground (arith, digits-IsDigit n n [] tt)

digits-pos-ne-nil : (f n : ℕ) → n ≤ f → n ≢ 0 → digits f n [] ≢ []
unfolding digits
digits-pos-ne-nil zero n h z = absurd (omega arith)
digits-pos-ne-nil (suc f) n h z =
    ground (arith, digits-ne-nil f (n / 10) ((b'0' + n % 10) ∷ []) (λ e. cc))

pub to_string-ne-nil : (n : ℕ) → to_string n ≢ []
unfolding to_string
to_string-ne-nil n = ground (arith, digits-pos-ne-nil n n)

-- Printing loses nothing.
scan-to_string : (max n : ℕ) → n ≤ max → scan max 0 (to_string n) ≡ some n
unfolding to_string scan is_digit
scan-to_string max n h = ground (arith, scan-digits n n max [])

parse_uint-scan :
    (max : ℕ) (s : Text) → s ≢ [] → All (λ c. is_digit c ≡ true) s → parse_uint max s ≡ scan max 0 s
unfolding parse_uint is_digit
parse_uint-scan max [] ne ds = absurd (ne refl)
parse_uint-scan max (c ∷ s) ne ds = ground arith

-- Printing and parsing back is the identity, up to the maximum of the type.
pub parse_uint-to_string : (max n : ℕ) → n ≤ max → parse_uint max (to_string n) ≡ some n
parse_uint-to_string max n h =
    parse_uint-scan max (to_string n) (to_string-ne-nil n) (to_string-digits n)
    ∙ scan-to_string max n h

pub to_string-injective : (n m : ℕ) → to_string n ≡ to_string m → n ≡ m
to_string-injective n m e = cc (
  scan-to_string (max n m) n (omega arith),
  scan-to_string (max n m) m (omega arith),
  ap (scan (max n m) 0) e,
)
