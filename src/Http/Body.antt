-- ===== src/Http/Body.antt =====
-- The limit on a request's body.
use launch_code.Prelude.{
  ℕ, ◌+◌, ◌≤◌, ◌<◌, ◌≡◌, false, List, [], ◌∷◌, ◌++◌, Result, ok, err, length, length-append,
  is_empty, arith, append_assoc, append-nil, leb, min, if◌then◌else◌, All, sym, Bool-cases, inl,
  inr,
}
use launch_code.Text.{Text}
use launch_code.Text.Decimal.{u64_max}
use launch_code.Http.{too_large, read_chunks}

abbrev pub Chunk : Type 0
Chunk = List ℕ

abbrev pub concat : List Chunk → List ℕ
concat [] = []
concat (c ∷ cs) = c ++ concat cs

abbrev pub handed_out : List Chunk → List (Result Text (List ℕ))
handed_out [] = []
handed_out (c ∷ cs) = ok c ∷ handed_out cs

module _ (limit : ℕ) (bounded : limit < u64_max) where
  read_from :
      (body : List ℕ) (chunks : List Chunk)
      → All (λ c. is_empty c ≡ false) chunks
      → length body ≤ limit
      → read_chunks limit (length body) body (handed_out chunks) ≡ (
          if leb (length (body ++ concat chunks)) limit
          then ok (body ++ concat chunks)
          else err (too_large limit))
  unfolding read_chunks
  read_from body [] ne h = rw append-nil (ground arith)
  read_from body (c ∷ chunks) ne h =
      let a = length-append body c in
      let b = length-append (body ++ c) (concat chunks) in
      let e = append_assoc body c (concat chunks) in
      elim (Bool-cases (leb (length body + length c) limit)) [
        | inl fits ↦
            let m : min u64_max (length body + length c) ≡ length (body ++ c) = ground (arith, a) in
            let rest = read_from (body ++ c) chunks ne.1 (ground (arith, a)) in
            rw (m, sym e) (ground (arith, ne.0, a, rest))
        | inr over ↦ ground (arith, ne.0, a, b, e)
      ]

  -- A body that comes in chunks, none empty, is read whole if it is within the limit, which is below
  -- the maximum of 64 bits, and refused if it is longer.
  pub read_chunks-limit :
      (chunks : List Chunk)
      → All (λ c. is_empty c ≡ false) chunks
      → read_chunks limit 0 [] (handed_out chunks)
        ≡ (if leb (length (concat chunks)) limit then ok (concat chunks) else err (too_large limit))
  read_chunks-limit chunks ne = read_from [] chunks ne (omega arith)
