-- ===== src/Http/Compare.antt =====
-- The comparison of tokens, which looks at every byte, and equality.
use Prim.Native.Nat.{bit_xor, bit_or, digits, differ, bit_or-bitwise, bit_xor-bitwise}
use launch_code.Prelude.{
  ℕ, zero, suc, ◌/◌, ◌%◌, ◌≤◌, ◌≡◌, refl, ◌↔◌, true, List, [], ◌∷◌, length, max, arith, sym, ◌∙◌,
}
use launch_code.Http.{collect_diff, constant_time_eq}

differ-zero : (x y : ℕ) → differ x y ≡ 0 → x ≡ y
differ-zero zero y h = omega (arith, h)
differ-zero (suc x) zero h = omega (arith, h)
differ-zero (suc x) (suc y) h = omega (arith, differ-zero x y h)

differ-same : (x : ℕ) → differ x x ≡ 0
differ-same zero = refl
differ-same (suc x) = differ-same x

xor_digits-zero : (n a b : ℕ) → a ≤ n → digits (λ b. b) differ n a b ≡ 0 → a ≡ b
xor_digits-zero zero a b h e = omega (arith, e)
xor_digits-zero (suc n) zero b h e = omega (arith, e)
xor_digits-zero (suc n) (suc a) b h e =
    let halves = xor_digits-zero n (suc a / 2) (b / 2) (omega arith) (omega (arith, e)) in
    let lows = differ-zero (suc a % 2) (b % 2) (omega (arith, e)) in omega (arith, halves, lows)

xor_digits-same : (n a : ℕ) → a ≤ n → digits (λ b. b) differ n a a ≡ 0
xor_digits-same zero a h = omega arith
xor_digits-same (suc n) zero h = refl
xor_digits-same (suc n) (suc a) h =
    omega (arith, xor_digits-same n (suc a / 2) (omega arith), differ-same (suc a % 2))

or_digits-zero : (n a b : ℕ) → a ≤ n → digits (λ b. b) max n a b ≡ 0 → (a ≡ 0) × (b ≡ 0)
or_digits-zero zero a b h e = omega (arith, e)
or_digits-zero (suc n) zero b h e = omega (arith, e)
or_digits-zero (suc n) (suc a) b h e =
    let halves = or_digits-zero n (suc a / 2) (b / 2) (omega arith) (omega (arith, e)) in
    omega (arith, halves.0, halves.1, e)

xor-zero : (a b : ℕ) → bit_xor a b ≡ 0 → a ≡ b
xor-zero a b h = xor_digits-zero a a b (omega arith) (sym (bit_xor-bitwise a b) ∙ h)

xor-same : (a : ℕ) → bit_xor a a ≡ 0
xor-same a = bit_xor-bitwise a a ∙ xor_digits-same a a (omega arith)

or-zero : (a b : ℕ) → bit_or a b ≡ 0 → (a ≡ 0) × (b ≡ 0)
or-zero a b h = or_digits-zero a a b (omega arith) (sym (bit_or-bitwise a b) ∙ h)

-- A difference that was seen stays.
collect_diff-zero : (diff : ℕ) (left right : List ℕ) → collect_diff diff left right ≡ 0 → diff ≡ 0
unfolding collect_diff
collect_diff-zero diff [] [] h = h
collect_diff-zero diff (l ∷ left) [] h =
    (or-zero diff (bit_xor l 0) (collect_diff-zero (bit_or diff (bit_xor l 0)) left [] h)).0
collect_diff-zero diff [] (r ∷ right) h =
    (or-zero diff (bit_xor 0 r) (collect_diff-zero (bit_or diff (bit_xor 0 r)) [] right h)).0
collect_diff-zero diff (l ∷ left) (r ∷ right) h =
    (or-zero diff (bit_xor l r) (collect_diff-zero (bit_or diff (bit_xor l r)) left right h)).0

collect_diff-bytes :
    (diff : ℕ) (left right : List ℕ)
    → length left ≡ length right
    → collect_diff diff left right ≡ 0
    → left ≡ right
unfolding collect_diff
collect_diff-bytes diff [] [] e h = refl
collect_diff-bytes diff (l ∷ left) [] e h = absurd (omega (arith, e))
collect_diff-bytes diff [] (r ∷ right) e h = absurd (omega (arith, e))
collect_diff-bytes diff (l ∷ left) (r ∷ right) e h =
    let next = bit_or diff (bit_xor l r) in
    let heads = xor-zero l r (or-zero diff (bit_xor l r) (collect_diff-zero next left right h)).1 in
    cc (heads, collect_diff-bytes next left right (omega (arith, e)) h)

collect_diff-same : (bytes : List ℕ) → collect_diff 0 bytes bytes ≡ 0
unfolding collect_diff
collect_diff-same [] = refl
collect_diff-same (b ∷ bytes) = rw (xor-same b) (collect_diff-same bytes)

-- Two byte strings compare as equal exactly if they are.
pub constant_time_eq_iff :
    (left right : List ℕ) → (constant_time_eq left right ≡ true) ↔ (left ≡ right)
unfolding constant_time_eq
constant_time_eq_iff left right = (to, from)
  where
    to : constant_time_eq left right ≡ true → left ≡ right
    to h =
        let zero_diff : collect_diff (bit_xor (length left) (length right)) left right ≡ 0 =
          ground arith in
        let lengths =
          xor-zero (length left) (length right)
            (collect_diff-zero (bit_xor (length left) (length right)) left right zero_diff) in
        collect_diff-bytes (bit_xor (length left) (length right)) left right lengths zero_diff

    from : left ≡ right → constant_time_eq left right ≡ true
    from e = rw (sym e) (rw (xor-same (length left), collect_diff-same left) refl)
