-- ===== src/LaunchConfig/Template/Tokens.antt =====
-- Templates, what they look like and what they stand for.
use launch_code.Prelude.{
  ℕ, zero, suc, ◌≡◌, refl, ap, ◌∙◌, sym, Bool, true, false, Option, none, some, [], ◌∷◌, ◌++◌,
  append-nil, append_assoc, length, drop, drop-length-append, All, ◌==◌, arith, unwrap_or,
  if◌then◌else◌,
}
use launch_code.Text.{Text, codes, strip_prefix, split_once}
use launch_code.LaunchConfig.Template.{token_tail, after_token, expand_from, expand_env_tokens}

-- A template: text without `$`; a `$` that opens no token; a token, the name of a variable without
-- `}`; and a token that is opened and never closed.
pub data Template : Type 0 where
  end_of unclosed : Text → Template
  text_then : Text → Template → Template
  dollar : Template → Template
  token : Text → Template → Template

abbrev pub Without : ℕ → Text → Type 0
Without d s = All (λ c. (c == d) ≡ false) s

unfoldable pub render : Template → Text
render (end_of text) = text
render (unclosed text) = codes "${env:" ++ text
render (text_then text rest) = text ++ render rest
render (dollar rest) = b'$' ∷ render rest
render (token key rest) = b'$' ∷ (token_tail key ++ render rest)

abbrev pub IsPlain : Template → Type 0
IsPlain (end_of text) = Without b'$' text
IsPlain (unclosed text) = Without b'}' text
IsPlain (text_then text rest) = Without b'$' text × IsPlain rest
IsPlain (dollar rest) = (strip_prefix (codes "{env:") (render rest) ≡ none) × IsPlain rest
IsPlain (token key rest) = Without b'}' key × IsPlain rest

unfoldable pub value : (Text → Option Text) → Template → Text
value variable (end_of text) = text
value variable (unclosed text) = codes "${env:" ++ text
value variable (text_then text rest) = text ++ value variable rest
value variable (dollar rest) = b'$' ∷ value variable rest
value variable (token key rest) = unwrap_or (variable key) [] ++ value variable rest

split_once-none : (d : ℕ) (s : Text) → Without d s → split_once d s ≡ none
unfolding split_once
split_once-none d [] h = refl
split_once-none d (c ∷ s) h = ground (arith, split_once-none d s h.1, h.0)

split_once-Without : (d : ℕ) (k s : Text) → Without d k → split_once d (k ++ d ∷ s) ≡ some (k, s)
unfolding split_once
split_once-Without d [] s h = ground arith
split_once-Without d (c ∷ k) s h = ground (arith, split_once-Without d k s h.1, h.0)

module _ (variable : Text → Option Text) where
  expand-skip : (n : ℕ) (s : Text) → expand_from variable n s ≡ expand_from variable zero (drop n s)
  unfolding expand_from
  expand-skip zero s = refl
  expand-skip (suc n) [] = refl
  expand-skip (suc n) (c ∷ s) = expand-skip n s

  expand-plain :
      (c : ℕ) (s : Text)
      → (c == b'$') ≡ false
      → expand_from variable zero (c ∷ s) ≡ c ∷ expand_from variable zero s
  unfolding expand_from strip_prefix
  expand-plain c s h = go (b'$' == c) (ground (arith, h))
    where
      go :
          (b : Bool)
          → b ≡ false
          → (elim (if b then strip_prefix (codes "{env:") s else none) [
            | none ↦ c ∷ expand_from variable zero s
            | some opened ↦
                after_token variable
                  (λ key. expand_from variable (length (token_tail key)) s)
                  (c ∷ s)
                  (split_once b'}' opened)
          ])
            ≡ c ∷ expand_from variable zero s
      go true e = cc
      go false e = refl

  expand-text :
      (text s : Text)
      → Without b'$' text
      → expand_from variable zero (text ++ s) ≡ text ++ expand_from variable zero s
  expand-text [] s h = refl
  expand-text (c ∷ text) s h = expand-plain c (text ++ s) h.0 ∙ ap (◌∷◌ c) (expand-text text s h.1)

  opened :
      (key s : Text)
      → expand_from variable zero (b'$' ∷ (token_tail key ++ s))
        ≡ after_token variable
            (λ k. expand_from variable (length (token_tail k)) (token_tail key ++ s))
            (b'$' ∷ (token_tail key ++ s))
            (split_once b'}' ((key ++ b'}' ∷ []) ++ s))
  unfolding expand_from strip_prefix
  opened key s = refl

  expand-token :
      (key s : Text)
      → Without b'}' key
      → expand_from variable zero (b'$' ∷ (token_tail key ++ s))
        ≡ unwrap_or (variable key) [] ++ expand_from variable zero s
  unfolding after_token
  expand-token key s h =
      opened key s
      ∙ ap
          (after_token variable
            (λ k. expand_from variable (length (token_tail k)) (token_tail key ++ s))
            (b'$' ∷ (token_tail key ++ s)))
          (ap (split_once b'}') (append_assoc key (b'}' ∷ []) s) ∙ split_once-Without b'}' key s h)
      ∙ ap (◌++◌ (unwrap_or (variable key) [])) (
          expand-skip (length (token_tail key)) (token_tail key ++ s)
          ∙ ap (expand_from variable zero) (drop-length-append (token_tail key) s))

  expand-dollar :
      (s : Text)
      → strip_prefix (codes "{env:") s ≡ none
      → expand_from variable zero (b'$' ∷ s) ≡ b'$' ∷ expand_from variable zero s
  unfolding expand_from strip_prefix
  expand-dollar s h = ground (arith, h)

  expand-unclosed :
      (s : Text)
      → Without b'}' s
      → expand_from variable zero (codes "${env:" ++ s) ≡ codes "${env:" ++ s
  unfolding expand_from strip_prefix after_token
  expand-unclosed s h = ground (arith, split_once-none b'}' s h)

  -- The tokens of a template are replaced by the values of their variables, nothing where a variable
  -- is not set, and its other text is kept, with every `$` that opens no token and a token that is
  -- not closed. A name has no `}`, and the rest of an unclosed token has none.
  pub expand_env_tokens-render :
      (t : Template) → IsPlain t → expand_env_tokens variable (render t) ≡ value variable t
  unfolding expand_env_tokens expand_from render value
  expand_env_tokens-render (end_of text) h =
      sym (ap (expand_from variable zero) (append-nil text))
      ∙ (expand-text text [] h ∙ append-nil text)
  expand_env_tokens-render (unclosed text) h = expand-unclosed text h
  expand_env_tokens-render (text_then text rest) h =
      expand-text text (render rest) h.0 ∙ ap (◌++◌ text) (expand_env_tokens-render rest h.1)
  expand_env_tokens-render (dollar rest) h =
      expand-dollar (render rest) h.0 ∙ ap (◌∷◌ b'$') (expand_env_tokens-render rest h.1)
  expand_env_tokens-render (token key rest) h =
      expand-token key (render rest) h.0
      ∙ ap (◌++◌ (unwrap_or (variable key) [])) (expand_env_tokens-render rest h.1)
