-- ===== src/Parser/Matching.antt =====
-- What a match of a blacklist pattern means.
use datafusion_postgres.Prelude.{
  ◌<◌, true, false, some, List, [], ◌∷◌, ◌++◌, ◌≡◌, ◌↔◌, refl, ap, inl, inr, arith, eq_iff,
  Bool-cases,
}
use datafusion_postgres.Prelude.Lists.{length, length-append}
use datafusion_postgres.Parser.{
  Token, whitespace, placeholder, other_token, semi_colon, word, token_eq, is_semi_colon,
  is_placeholder, match_pattern,
}

pub token_eq_iff : (s t : Token) → (token_eq s t ≡ true) ↔ (s ≡ t)
unfolding token_eq
token_eq_iff (whitespace s) (whitespace t) = ground (arith, eq_iff s t)
token_eq_iff (placeholder s) (placeholder t) = ground (arith, eq_iff s t)
token_eq_iff (other_token s) (other_token t) = ground (arith, eq_iff s t)
token_eq_iff (word s q k) (word t r l) = ground (arith, eq_iff s t, eq_iff q r, eq_iff k l)
token_eq_iff _ _ = ground arith

-- Tokens that fit a pattern one by one: a placeholder fits any token but a semicolon, and any other
-- token of the pattern only itself. Semicolons stand anywhere before the tokens that fit.
pub data Fits : List Token → List Token → Type 0 where
  end : Fits [] []
  skip :
      {pattern tokens : List Token} {p : Token}
      → Fits (p ∷ pattern) tokens
      → Fits (p ∷ pattern) (semi_colon ∷ tokens)
  wild :
      {pattern tokens : List Token} {p t : Token}
      → is_placeholder p ≡ true
      → is_semi_colon t ≡ false
      → Fits pattern tokens
      → Fits (p ∷ pattern) (t ∷ tokens)
  same :
      {pattern tokens : List Token} {p t : Token}
      → t ≡ p
      → is_semi_colon t ≡ false
      → Fits pattern tokens
      → Fits (p ∷ pattern) (t ∷ tokens)

match_pattern_sound :
    (pattern input rest : List Token)
    → match_pattern pattern input ≡ some rest
    → (tokens : List Token) × (input ≡ tokens ++ rest) × Fits pattern tokens
unfolding match_pattern
match_pattern_sound [] input rest e = ([], cc, end)
match_pattern_sound (p ∷ pattern) [] rest e = cc
match_pattern_sound (p ∷ pattern) (semi_colon ∷ input) rest e =
    let (tokens, split, fits) = match_pattern_sound (p ∷ pattern) input rest e in
    (semi_colon ∷ tokens, ap (λ (l : List Token). semi_colon ∷ l) split, skip fits)
match_pattern_sound (p ∷ pattern) (t ∷ input) rest e = elim (Bool-cases (is_placeholder p)) [
  | inl any_token ↦
      let (tokens, split, fits) =
        match_pattern_sound pattern input rest (ground (arith, any_token, e)) in
      (t ∷ tokens, ap (λ (l : List Token). t ∷ l) split, wild any_token refl fits)
  | inr literal ↦ elim (Bool-cases (token_eq t p)) [
    | inl equal ↦
        let (tokens, split, fits) =
          match_pattern_sound pattern input rest (ground (arith, literal, equal, e)) in
        (
          t ∷ tokens,
          ap (λ (l : List Token). t ∷ l) split,
          same ((token_eq_iff t p).0 equal) refl fits,
        )
    | inr other ↦ absurd (ground (arith, literal, other, e))
  ]
]

match_pattern_complete :
    {pattern tokens : List Token} (rest : List Token)
    → Fits pattern tokens
    → match_pattern pattern (tokens ++ rest) ≡ some rest
unfolding match_pattern
match_pattern_complete rest end = refl
match_pattern_complete rest (skip f) = match_pattern_complete rest f
match_pattern_complete rest (wild {p = p} {t = t} w n f) = rw (n, w) (match_pattern_complete rest f)
match_pattern_complete rest (same {p = p} {t = t} e n f) =
    ground (arith, n, (token_eq_iff t p).1 e, match_pattern_complete rest f)

-- A pattern matches at the start of the input, with `rest` left over, exactly if the input is some
-- tokens that fit the pattern, and `rest` after them.
pub match_pattern_iff :
    (pattern input rest : List Token)
    → (match_pattern pattern input ≡ some rest)
      ↔ ((tokens : List Token) × (input ≡ tokens ++ rest) × Fits pattern tokens)
match_pattern_iff pattern input rest = (
  match_pattern_sound pattern input rest,
  λ (tokens, split, fits). rw split (match_pattern_complete rest fits),
)

-- A match of a pattern that is not empty takes at least one token.
pub match_pattern-shorter :
    (p : Token) (pattern input rest : List Token)
    → match_pattern (p ∷ pattern) input ≡ some rest
    → length rest < length input
match_pattern-shorter p pattern input rest e =
    let (tokens, split, fits) = match_pattern_sound (p ∷ pattern) input rest e in
    rw split (omega (arith, length-append {0} tokens rest, nonempty fits))
  where
    nonempty : {q : Token} {ps ts : List Token} → Fits (q ∷ ps) ts → 0 < length ts
    nonempty (skip f) = omega arith
    nonempty (wild w n f) = omega arith
    nonempty (same w n f) = omega arith
