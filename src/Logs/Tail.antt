-- ===== src/Logs/Tail.antt =====
-- `read_log_tail`: the file is read backwards in chunks until it has enough newlines. A file is the
-- list of its bytes that does not change while it is read, `decode` is `String::from_utf8_lossy`; the
-- errors of its metadata, of seeking and of reading are those of opening it.
pub mod Last
use launch_code.Prelude.{
  ℕ, zero, suc, ◌+◌, ◌-◌, min, Bool, true, false, ◌&&◌, Option, none, some, List, [], ◌∷◌, ◌++◌,
  Result, ok, err, length, take, drop, is_empty, ltb, leb, ◌==◌, if◌then◌else◌,
}
use launch_code.Text.{Text, trim}
use launch_code.Text.Lines.{lines}
use launch_code.Error.{IoError, AppError, io}

abbrev pub max_log_tail_lines : ℕ
max_log_tail_lines = 5000

abbrev pub chunk_size_bytes : ℕ
chunk_size_bytes = 8192

abbrev pub Bytes : Type 0
Bytes = List ℕ

unfoldable pub count_newlines : Bytes → ℕ
count_newlines [] = 0
count_newlines (b ∷ bs) = (if b == b'\n' then 1 else 0) + count_newlines bs

-- The loop, with what was read so far; `fuel` is at least the position.
unfoldable pub read_back : ℕ → Bytes → ℕ → ℕ → ℕ → Bytes → Bytes
read_back zero file max_lines position newline_count payload = payload
read_back (suc fuel) file max_lines position newline_count payload =
    let read_size = min chunk_size_bytes position in
    let start = position - read_size in
    let chunk = take read_size (drop start file) in
    let rest =
      read_back fuel file max_lines start (newline_count + count_newlines chunk)
        (chunk ++ payload) in
    if ltb 0 position && leb newline_count max_lines then rest else payload

unfoldable pub split_last : ℕ → List Text → List Text
split_last max_lines ls = if ltb max_lines (length ls) then drop (length ls - max_lines) ls else ls

unfoldable pub join_lines : List Text → Text
join_lines [] = []
join_lines (l ∷ []) = l
join_lines (l ∷ m ∷ ls) = l ++ b'\n' ∷ join_lines (m ∷ ls)

module _ (decode : Bytes → Text) where
  unfoldable pub tail_of : ℕ → Bytes → Text
  unfolding read_back split_last join_lines
  tail_of max_lines file =
      if is_empty file
      then []
      else join_lines (
          split_last max_lines
            (lines (decode (read_back (length file) file max_lines (length file) 0 []))))

  abbrev pub opened : ℕ → Result IoError Bytes → Result AppError Text
  opened max_lines (err e) = err (AppError.io e)
  opened max_lines (ok file) = ok (tail_of max_lines file)

  -- `open` is `fs::File::open` with what the file holds.
  unfoldable pub read_log_tail :
      (Text → Result IoError Bytes) → Option Text → ℕ → Result AppError Text
  read_log_tail open_file none max_lines = ok []
  read_log_tail open_file (some path) max_lines =
      let n = min max_lines max_log_tail_lines in
      if n == 0 then ok [] else if is_empty (trim path) then ok [] else opened n (open_file path)
