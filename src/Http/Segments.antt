-- ===== src/Http/Segments.antt =====
-- The segments of a path, and the path that is built of segments.
use launch_code.Prelude.{
  ◌≡◌, refl, false, not, List, [], ◌∷◌, ◌++◌, is_empty, keep, append-nil, All, ◌==◌, ◌∙◌, ap,
}
use launch_code.Text.{Text}
use launch_code.Http.{split, http_path_segments}

abbrev pub NoSlash : Text → Type 0
NoSlash = All (λ c. (c == b'/') ≡ false)

-- A slash before every segment.
abbrev pub join_path : List Text → Text
join_path [] = []
join_path (segment ∷ segments) = b'/' ∷ (segment ++ join_path segments)

split-end : (s : Text) → NoSlash s → split b'/' s ≡ s ∷ []
unfolding split
split-end [] h = refl
split-end (c ∷ s) h = rw (h.0, split-end s h.1) refl

split-slash : (s rest : Text) → NoSlash s → split b'/' (s ++ b'/' ∷ rest) ≡ s ∷ split b'/' rest
unfolding split
split-slash [] rest h = refl
split-slash (c ∷ s) rest h = rw (h.0, split-slash s rest h.1) refl

split-join_path :
    (s : Text) (segments : List Text)
    → NoSlash s
    → All NoSlash segments
    → split b'/' (s ++ join_path segments) ≡ s ∷ segments
split-join_path s [] h k = rw append-nil (split-end s h)
split-join_path s (t ∷ segments) h k =
    split-slash s (t ++ join_path segments) h ∙ ap (◌∷◌ s) (split-join_path t segments k.0 k.1)

keep-nonempty :
    (segments : List Text)
    → All (λ s. is_empty s ≡ false) segments
    → keep (λ s. not (is_empty s)) segments ≡ segments
unfolding keep
keep-nonempty [] h = refl
keep-nonempty (s ∷ segments) h = rw (h.0, keep-nonempty segments h.1) refl

-- Segments that are not empty and have no slash in them are read back from the path that they make.
pub http_path_segments-join_path :
    (segments : List Text)
    → All NoSlash segments
    → All (λ s. is_empty s ≡ false) segments
    → http_path_segments (join_path segments) ≡ segments
unfolding http_path_segments split keep
http_path_segments-join_path [] h k = refl
http_path_segments-join_path (s ∷ segments) h k =
    let e = split-join_path s segments h.0 h.1 in rw (e, k.0, keep-nonempty segments k.1) refl
