-- ===== src/Logs/Tail/Last.antt =====
-- Which lines are read of a log.
use mathlib.Core.Path.{subst}
use launch_code.Prelude.{
  ℕ, zero, suc, ◌+◌, ◌-◌, ◌≤◌, ◌<◌, min, ◌≡◌, refl, sym, ap, ◌∙◌, Bool, true, false, ◌&&◌, ◌⊎◌, inl,
  inr, some, List, [], ◌∷◌, ◌++◌, append_assoc, Result, ok, length, length-append, take, drop,
  is_empty, ltb, leb, ◌==◌, arith, if◌then◌else◌,
}
use launch_code.Text.{Text, trim}
use launch_code.Text.Lines.{lines, lines_from, lines-split, line_count}
use launch_code.Error.{IoError}
use launch_code.Logs.Tail.{
  Bytes, max_log_tail_lines, chunk_size_bytes, count_newlines, read_back, split_last, join_lines,
  tail_of, opened, read_log_tail,
}

count_newlines-append :
    (a b : Bytes) → count_newlines (a ++ b) ≡ count_newlines a + count_newlines b
unfolding count_newlines
count_newlines-append [] b = omega arith
count_newlines-append (c ∷ a) b = omega (arith, count_newlines-append a b)

drop-nil : (n : ℕ) → ◌≡◌ {A = Bytes} [] (drop n [])
drop-nil zero = refl
drop-nil (suc n) = refl

drop-drop : (m n : ℕ) (s : Bytes) → drop (m + n) s ≡ drop n (drop m s)
drop-drop zero n s = ap (λ k. drop k s) (omega arith)
drop-drop (suc m) n [] = ap (λ k. drop k []) next ∙ drop-nil n
  where
    next : suc m + n ≡ suc (m + n)
    next = omega arith
drop-drop (suc m) n (c ∷ s) = ap (λ k. drop k (c ∷ s)) next ∙ drop-drop m n s
  where
    next : suc m + n ≡ suc (m + n)
    next = omega arith

take-append-drop : (n : ℕ) (s : Bytes) → take n s ++ drop n s ≡ s
take-append-drop zero s = refl
take-append-drop (suc n) [] = refl
take-append-drop (suc n) (c ∷ s) = ap (◌∷◌ c) (take-append-drop n s)

-- A chunk and what follows it.
chunk-append :
    (position size : ℕ) (file : Bytes)
    → size ≤ position
    → take size (drop (position - size) file) ++ drop position file ≡ drop (position - size) file
chunk-append position size file h =
    ap (λ k. take size (drop start file) ++ drop k file) (omega (arith, h))
    ∙ ap (λ rest. take size (drop start file) ++ rest) (drop-drop start size file)
    ∙ take-append-drop size (drop start file)
  where
    start : ℕ
    start = position - size

-- What was read is the end of the file from some place on; it is the whole file, or has more newlines
-- than lines are asked for.
pub record IsEnd (file : Bytes) (max_lines : ℕ) (payload : Bytes) : Type 0 where
  pub place : ℕ
  pub is_drop : payload ≡ drop place file
  pub enough : (place ≡ 0) ⊎ (max_lines < count_newlines payload)

abbrev read_chunk : ℕ → Bytes → Bytes
read_chunk position file =
    take (min chunk_size_bytes position) (drop (position - min chunk_size_bytes position) file)

read_back-IsEnd :
    (fuel : ℕ) (file : Bytes) (max_lines position count : ℕ) (payload : Bytes)
    → position ≤ fuel
    → count ≡ count_newlines payload
    → payload ≡ drop position file
    → IsEnd file max_lines (read_back fuel file max_lines position count payload)
unfolding read_back
read_back-IsEnd zero file max_lines position count payload h k e = record {
  place = position;
  is_drop = e;
  enough = inl (omega (arith, h));
}
read_back-IsEnd (suc fuel) file max_lines position count payload h k e =
    decided (ltb 0 position && leb count max_lines) refl λ some_left.
      read_back-IsEnd fuel file max_lines (position - min chunk_size_bytes position)
        (count + count_newlines (read_chunk position file)) (read_chunk position file ++ payload)
        (omega (arith, some_left, h))
        (omega (arith, k, count_newlines-append (read_chunk position file) payload))
        (ap (◌++◌ (read_chunk position file)) e
          ∙ chunk-append position (min chunk_size_bytes position) file (omega arith))
  where
    further : Bytes
    further =
        read_back fuel file max_lines (position - min chunk_size_bytes position)
          (count + count_newlines (read_chunk position file)) (read_chunk position file ++ payload)

    decided :
        (b : Bool)
        → (ltb 0 position && leb count max_lines) ≡ b
        → (0 < position → IsEnd file max_lines further)
        → IsEnd file max_lines (if b then further else payload)
    decided true t rest = rest (ground (arith, t))
    decided false t rest = record { place = position; is_drop = e; enough = ground (arith, t, k) }

-- The last lines of a longer list
split_last-drop : (n : ℕ) (ls : List Text) → split_last n ls ≡ drop (length ls - n) ls
unfolding split_last
split_last-drop n ls = decided (ltb n (length ls)) refl
  where
    decided :
        (b : Bool)
        → ltb n (length ls) ≡ b
        → (if b then drop (length ls - n) ls else ls) ≡ drop (length ls - n) ls
    decided true h = refl
    decided false h = ap (λ k. drop k ls) none_over
      where
        none_over : 0 ≡ length ls - n
        none_over = ground (arith, h)

drop-length-plus : (k : ℕ) (xs ys : List Text) → drop (length xs + k) (xs ++ ys) ≡ drop k ys
drop-length-plus k [] ys = ap (λ n. drop n ys) (omega arith)
drop-length-plus k (x ∷ xs) ys = ap (λ n. drop n (x ∷ (xs ++ ys))) next ∙ drop-length-plus k xs ys
  where
    next : suc (length xs) + k ≡ suc (length xs + k)
    next = omega arith

split_last-append :
    (n : ℕ) (xs ys : List Text) → n ≤ length ys → split_last n (xs ++ ys) ≡ split_last n ys
split_last-append n xs ys h =
    split_last-drop n (xs ++ ys)
    ∙ ap (λ k. drop k (xs ++ ys)) (omega (arith, h, length-append xs ys))
    ∙ drop-length-plus (length ys - n) xs ys
    ∙ sym (split_last-drop n ys)

-- The text before the first newline, and what follows it.
record Split (b : Bytes) : Type 0 where
  before : Bytes
  behind : Bytes
  parts : b ≡ before ++ b'\n' ∷ behind
  counts : count_newlines b ≡ suc (count_newlines behind)

first_newline : (b : Bytes) → 0 < count_newlines b → Split b
unfolding count_newlines
first_newline [] h = absurd (omega (arith, h))
first_newline (x ∷ b) h = decided (x == b'\n') refl (λ k. first_newline b k)
  where
    decided : (t : Bool) → (x == b'\n') ≡ t → (0 < count_newlines b → Split b) → Split (x ∷ b)
    decided true e next = record {
      before = [];
      behind = b;
      parts = ap (λ y. y ∷ b) (ground (arith, e));
      counts = ground (arith, e);
    }
    decided false e next =
        let rest = next (ground (arith, e, h)) in
        record {
          before = x ∷ rest.before;
          behind = rest.behind;
          parts = ap (◌∷◌ x) rest.parts;
          counts = ground (arith, e, rest.counts);
        }

-- Decoding keeps newlines: in UTF-8 no part of another character has the value of one.
pub record DecodeLaws (decode : Bytes → Text) : Type 0 where
  pub decode-nil : decode [] ≡ []
  pub decode-newline : (a b : Bytes) → decode (a ++ b'\n' ∷ b) ≡ decode a ++ b'\n' ∷ decode b

drop-length : {A : Type 0} (xs : List A) → drop (length xs) xs ≡ []
drop-length [] = refl
drop-length (x ∷ xs) = drop-length xs

drop_none : (n : ℕ) → ◌≡◌ {A = List Text} (drop n []) []
drop_none zero = refl
drop_none (suc n) = refl

empty_lines : (n : ℕ) → join_lines (split_last n (lines [])) ≡ []
unfolding lines lines_from join_lines
empty_lines n = ap join_lines (split_last-drop n [] ∙ drop_none (0 - n))

no_lines : (ls : List Text) → join_lines (split_last 0 ls) ≡ []
unfolding join_lines
no_lines ls =
    ap join_lines (split_last-drop 0 ls ∙ ap (λ k. drop k ls) (omega arith) ∙ drop-length ls)

module _ (decode : Bytes → Text) (laws : DecodeLaws decode) where
  lines-decode :
      (a b : Bytes)
      → lines (decode (a ++ b'\n' ∷ b)) ≡ lines (decode a ++ b'\n' ∷ []) ++ lines (decode b)
  lines-decode a b = ap lines (laws.decode-newline a b) ∙ lines-split (decode a) (decode b)

  many_lines : (k : ℕ) (b : Bytes) → k ≤ count_newlines b → k ≤ length (lines (decode b))
  many_lines zero b h = omega arith
  many_lines (suc k) b h =
      let split = first_newline b (omega (arith, h)) in
      let rest = many_lines k split.behind (omega (arith, h, split.counts)) in
      subst (λ c. suc k ≤ length (lines (decode c))) (sym split.parts)
        (omega (
          arith,
          rest,
          line_count (decode split.before),
          length-append (lines (decode split.before ++ b'\n' ∷ [])) (lines (decode split.behind)),
          ap length (lines-decode split.before split.behind),
        ))

  last_lines :
      (n : ℕ) (a b : Bytes)
      → n ≤ count_newlines b
      → split_last n (lines (decode (a ++ b'\n' ∷ b))) ≡ split_last n (lines (decode b))
  last_lines n a b h =
      ap (split_last n) (lines-decode a b)
      ∙ split_last-append n (lines (decode a ++ b'\n' ∷ [])) (lines (decode b)) (many_lines n b h)

  -- The end of a file has its last lines.
  end_lines :
      (n : ℕ) (start payload : Bytes)
      → n < count_newlines payload
      → split_last n (lines (decode (start ++ payload))) ≡ split_last n (lines (decode payload))
  end_lines n start payload h =
      let split = first_newline payload (omega (arith, h)) in
      ap (λ p. split_last n (lines (decode (start ++ p)))) split.parts
      ∙ ap (λ p. split_last n (lines (decode p)))
          (sym (append_assoc start split.before (b'\n' ∷ split.behind)))
      ∙ last_lines n (start ++ split.before) split.behind (omega (arith, h, split.counts))
      ∙ sym (last_lines n split.before split.behind (omega (arith, h, split.counts)))
      ∙ ap (λ p. split_last n (lines (decode p))) (sym split.parts)

  IsEnd-last :
      (n : ℕ) (file payload : Bytes)
      → IsEnd file n payload
      → split_last n (lines (decode payload)) ≡ split_last n (lines (decode file))
  IsEnd-last n file payload h = go h.enough
    where
      go :
          (h.place ≡ 0) ⊎ (n < count_newlines payload)
          → split_last n (lines (decode payload)) ≡ split_last n (lines (decode file))
      go (inl e) = ap (λ p. split_last n (lines (decode p))) (h.is_drop ∙ ap (λ k. drop k file) e)
      go (inr more) =
          sym (end_lines n (take h.place file) payload more)
          ∙ ap (λ p. split_last n (lines (decode p)))
              (ap (◌++◌ (take h.place file)) h.is_drop ∙ take-append-drop h.place file)

  tail_of-last :
      (n : ℕ) (file : Bytes)
      → tail_of decode n file ≡ join_lines (split_last n (lines (decode file)))
  unfolding tail_of count_newlines
  tail_of-last n [] =
      sym (ap (λ s. join_lines (split_last n (lines s))) laws.decode-nil ∙ empty_lines n)
  tail_of-last n (c ∷ file) = ap join_lines (
      IsEnd-last n (c ∷ file) (read_back (length (c ∷ file)) (c ∷ file) n (length (c ∷ file)) 0 [])
        (read_back-IsEnd (length (c ∷ file)) (c ∷ file) n (length (c ∷ file)) 0 [] (omega arith)
          refl (sym (drop-length (c ∷ file)))))

  -- A log that can be read is given by its last lines, as many as are asked for and five thousand at
  -- most, as if all of it had been read.
  pub read_log_tail-last :
      (open_file : Text → Result IoError Bytes) (path : Text) (max_lines : ℕ) (file : Bytes)
      → is_empty (trim path) ≡ false
      → open_file path ≡ ok file
      → read_log_tail decode open_file (some path) max_lines
        ≡ ok (join_lines (split_last (min max_lines max_log_tail_lines) (lines (decode file))))
  unfolding read_log_tail
  read_log_tail-last open_file path max_lines file named e = decided (asked == 0) refl
    where
      asked : ℕ
      asked = min max_lines max_log_tail_lines

      decided :
          (b : Bool)
          → (asked == 0) ≡ b
          → (if b
              then ok []
              else if is_empty (trim path)
              then ok []
              else opened decode asked (open_file path))
            ≡ ok (join_lines (split_last asked (lines (decode file))))
      decided true z = sym (
          ap (λ k. ok (join_lines (split_last k (lines (decode file))))) (ground (arith, z))
          ∙ ap (λ t. ok t) (no_lines (lines (decode file))))
      decided false z = rw (named, e) (ap (λ t. ok t) (tail_of-last asked file))
