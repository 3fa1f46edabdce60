-- ===== src/Dap/Codec/Header.antt =====
-- The header of a message: its line as bytes, and what the reader makes of it.
use launch_code.Prelude.{
  ℕ, ◌≤◌, ◌<◌, ◌≡◌, refl, true, false, Option, some, ok, length, arith, ap, ◌∙◌, [], ◌∷◌, ◌++◌,
  ◌==◌, All, All-append, append_assoc, map, is_empty,
}
use launch_code.Text.{
  Text, codes, is_digit, is_whitespace, lower, to_ascii_lowercase, trim, trim_start, trim_start_by,
  trim_end_by, strip_prefix,
}
use launch_code.Text.Decimal.{to_string, to_string-digits, parse_uint-to_string, u64_max}
use launch_code.Text.Trim.{NoSpace, trim-NoSpace, trim_end_by-All, trim_end_by-two}
use launch_code.Dap.Codec.{
  Bytes, Format, max_dap_content_length, header, cut_line, content_length, header_line, is_line_end,
}

abbrev pub Kept : Bytes → Type 0
Kept = All (λ c. (c == b'\n') ≡ false)

pub cut_line-append :
    (line rest : Bytes)
    → Kept line
    → cut_line (line ++ b'\n' ∷ rest) ≡ (line ++ b'\n' ∷ [], some rest)
unfolding cut_line
cut_line-append [] rest h = refl
cut_line-append (c ∷ line) rest h = rw (h.0, cut_line-append line rest h.1)

-- The header line without its end.
abbrev pub name_text : Text
name_text = codes "Content-Length: "

unfoldable pub header_text : ℕ → Text
header_text n = name_text ++ to_string n

digits-Kept : (s : Text) → All (λ c. is_digit c ≡ true) s → Kept s
unfolding is_digit
digits-Kept [] h = tt
digits-Kept (c ∷ s) h = (ground (arith, h.0), digits-Kept s h.1)

digits-ascii : (s : Text) → All (λ c. is_digit c ≡ true) s → All (λ c. c < 128) s
unfolding is_digit
digits-ascii [] h = tt
digits-ascii (c ∷ s) h = (ground (arith, h.0), digits-ascii s h.1)

digits-NoSpace : (s : Text) → All (λ c. is_digit c ≡ true) s → NoSpace s
unfolding is_digit is_whitespace
digits-NoSpace [] h = tt
digits-NoSpace (c ∷ s) h = (ground (arith, h.0), digits-NoSpace s h.1)

digits-lower : (s : Text) → All (λ c. is_digit c ≡ true) s → map lower s ≡ s
unfolding is_digit lower
digits-lower [] h = refl
digits-lower (c ∷ s) h = ground (arith, h.0, digits-lower s h.1)

digits-no_end : (s : Text) → All (λ c. is_digit c ≡ true) s → All (λ c. is_line_end c ≡ false) s
unfolding is_digit
digits-no_end [] h = tt
digits-no_end (c ∷ s) h = (ground (arith, h.0), digits-no_end s h.1)

lower-header :
    (n : ℕ) → to_ascii_lowercase (header_text n) ≡ codes "content-length: " ++ to_string n
unfolding header_text to_ascii_lowercase lower
lower-header n =
    ap (λ (s : Text). codes "content-length: " ++ s)
      (digits-lower (to_string n) (to_string-digits n))

trim-space : (s : Text) → NoSpace s → trim (b' ' ∷ s) ≡ s
unfolding trim trim_start trim_start_by is_whitespace
trim-space s h = trim-NoSpace s h

content_length-to_string :
    (format : Format) (n : ℕ)
    → n ≤ max_dap_content_length
    → content_length format (b' ' ∷ to_string n) ≡ ok n
unfolding content_length
content_length-to_string format n h =
    let e = trim-space (to_string n) (digits-NoSpace (to_string n) (to_string-digits n)) in
    ground (arith, e, parse_uint-to_string u64_max n)

pub header_line-text :
    (format : Format) (n : ℕ) (before : Option ℕ)
    → n ≤ max_dap_content_length
    → header_line format before (header_text n) ≡ ok (some n)
unfolding header_line strip_prefix
header_line-text format n before h =
    rw (header_line, lower-header n) (ground (arith, content_length-to_string format n h))

-- The header on the wire, as its line and the empty one.
pub header-lines :
    (payload rest : Bytes)
    → header payload ++ rest
      ≡ (header_text (length payload) ++ b'\r' ∷ []) ++ (b'\n' ∷ b'\r' ∷ b'\n' ∷ rest)
unfolding header header_text
header-lines payload rest = simp append_assoc

header-no_end : (n : ℕ) → All (λ c. is_line_end c ≡ false) (header_text n)
unfolding header_text
header-no_end n =
    All-append (λ c. is_line_end c ≡ false) name_text (to_string n) (ground arith)
      (digits-no_end (to_string n) (to_string-digits n))

pub trimmed_line :
    (n : ℕ) → trim_end_by is_line_end (header_text n ++ b'\r' ∷ b'\n' ∷ []) ≡ header_text n
trimmed_line n =
    trim_end_by-two is_line_end (header_text n) b'\r' b'\n' refl refl
    ∙ trim_end_by-All is_line_end (header_text n) (header-no_end n)

pub not_blank : (n : ℕ) (s : Bytes) → is_empty (header_text n ++ s) ≡ false
unfolding header_text
not_blank n s = refl

pub not_blank_alone : (n : ℕ) → is_empty (header_text n) ≡ false
unfolding header_text
not_blank_alone n = refl

pub header-ascii : (n : ℕ) → All (λ c. c < 128) (header_text n ++ b'\r' ∷ b'\n' ∷ [])
unfolding header_text
header-ascii n =
    All-append (λ c. c < 128) (header_text n) (b'\r' ∷ b'\n' ∷ [])
      (All-append (λ c. c < 128) name_text (to_string n) (ground arith)
        (digits-ascii (to_string n) (to_string-digits n)))
      (ground arith)

pub header-Kept : (n : ℕ) → Kept (header_text n ++ b'\r' ∷ [])
unfolding header_text
header-Kept n =
    All-append (λ c. (c == b'\n') ≡ false) (header_text n) (b'\r' ∷ [])
      (All-append (λ c. (c == b'\n') ≡ false) name_text (to_string n) (ground arith)
        (digits-Kept (to_string n) (to_string-digits n)))
      (ground arith)
