-- ===== src/Parser/Replacement.antt =====
-- The replacement loop: its end, inputs without a match, and ABORT.
use mathlib.Core.Option
use datafusion_postgres.Prelude.{
  ℕ, zero, suc, ◌≤◌, ◌<◌, Bool, true, false, not, Option, none, some, List, [], ◌∷◌, ◌++◌, map, ◌≡◌,
  ◌⊎◌, refl, sym, ap, ◌∙◌, inl, inr, arith, Bool-cases, Option-cases,
}
use datafusion_postgres.Prelude.Lists.{All, retain, length}
use datafusion_postgres.Parser.{
  Token, is_whitespace, is_semi_colon, is_abort, to_rollback, rewrite_abort_to_rollback, Blacklist,
  match_pattern, first_match, replace_from, maybe_replace_tokens,
}
use datafusion_postgres.Parser.Matching.{match_pattern-shorter, match_pattern_iff}

first_match-shorter :
    (blacklist : Blacklist) (input replacement rest : List Token)
    → first_match blacklist input ≡ some (replacement, rest)
    → length rest < length input
unfolding first_match
first_match-shorter [] input replacement rest e = cc
first_match-shorter (([], r) ∷ blacklist) input replacement rest e =
    first_match-shorter blacklist input replacement rest e
first_match-shorter ((p ∷ pattern, r) ∷ blacklist) input replacement rest e =
    elim (Option-cases (match_pattern (p ∷ pattern) input)) [
      | inl miss ↦
          first_match-shorter blacklist input replacement rest (rw (miss, first_match) at e)
      | inr (left, hit) ↦ match_pattern-shorter p pattern input rest (ground (arith, hit, e))
    ]

length-retain : (test : Token → Bool) (ts : List Token) → length (retain test ts) ≤ length ts
unfolding retain
length-retain test [] = omega arith
length-retain test (t ∷ ts) = ground (arith, length-retain test ts)

length-map : (f : Token → Token) (ts : List Token) → length (map f ts) ≡ length ts
length-map f [] = refl
length-map f (t ∷ ts) = ap suc (length-map f ts)

map-some :
    (f : List Token → List Token) {o : Option (List Token)}
    → (out : List Token) × (o ≡ some out)
    → (out : List Token) × (Option.map f o ≡ some out)
map-some f (out, e) = (f out, rw e)

loop_done : (fuel : ℕ) (blacklist : Blacklist) → replace_from fuel blacklist [] ≡ some []
unfolding replace_from
loop_done fuel blacklist = refl

out_of_fuel :
    (blacklist : Blacklist) (t : Token) (input : List Token)
    → replace_from zero blacklist (t ∷ input) ≡ none
unfolding replace_from
out_of_fuel blacklist t input = refl

-- The two ways that a round of the loop can go.
module _ (fuel : ℕ) (blacklist : Blacklist) (t : Token) (input : List Token) where
  round_keeps :
      is_semi_colon t ≡ true ⊎ first_match blacklist (t ∷ input) ≡ none
      → replace_from (suc fuel) blacklist (t ∷ input)
        ≡ Option.map (λ out. t ∷ out) (replace_from fuel blacklist input)
  unfolding replace_from
  round_keeps (inl semi) = rw semi
  round_keeps (inr miss) = elim (Bool-cases (is_semi_colon t)) [
    | inl semi ↦ rw semi
    | inr other ↦ rw other (rw miss)
  ]

  round_replaces :
      (replacement rest : List Token)
      → is_semi_colon t ≡ false
      → first_match blacklist (t ∷ input) ≡ some (replacement, rest)
      → replace_from (suc fuel) blacklist (t ∷ input)
        ≡ Option.map (λ out. replacement ++ out) (replace_from fuel blacklist rest)
  unfolding replace_from
  round_replaces replacement rest other hit = rw other (rw hit)

  round_cases :
      (is_semi_colon t ≡ true ⊎ first_match blacklist (t ∷ input) ≡ none)
      ⊎ ((replacement rest : List Token) × (is_semi_colon t ≡ false)
          × (first_match blacklist (t ∷ input) ≡ some (replacement, rest)))
  round_cases = elim (Bool-cases (is_semi_colon t)) [
    | inl semi ↦ inl (inl semi)
    | inr other ↦ elim (Option-cases (first_match blacklist (t ∷ input))) [
      | inl miss ↦ inl (inr miss)
      | inr ((replacement, rest), hit) ↦ inr (replacement, rest, other, hit)
    ]
  ]

replace_from_ends :
    (fuel : ℕ) (blacklist : Blacklist) (input : List Token)
    → length input ≤ fuel
    → (out : List Token) × (replace_from fuel blacklist input ≡ some out)
replace_from_ends fuel blacklist [] h = ([], unfold replace_from in refl)
replace_from_ends zero blacklist (t ∷ input) h = absurd (omega arith)
replace_from_ends (suc fuel) blacklist (t ∷ input) h = elim (round_cases fuel blacklist t input) [
  | inl kept ↦
      rw (round_keeps fuel blacklist t input kept)
        (map-some _ (replace_from_ends fuel blacklist input (omega arith)))
  | inr (replacement, rest, other, hit) ↦
      rw (round_replaces fuel blacklist t input replacement rest other hit) (
        map-some _ (
          replace_from_ends fuel blacklist rest
            (omega (arith, first_match-shorter blacklist (t ∷ input) replacement rest hit))))
]

-- The token replacement ends on every input: one unit of fuel for each token is enough.
pub maybe_replace_tokens_ends :
    (blacklist : Blacklist) (tokens : List Token)
    → (out : List Token) × (maybe_replace_tokens (length tokens) blacklist tokens ≡ some out)
unfolding maybe_replace_tokens rewrite_abort_to_rollback
maybe_replace_tokens_ends blacklist tokens =
    let visible = retain (λ t. not (is_whitespace t)) tokens in
    replace_from_ends (length tokens) blacklist (map to_rollback visible) (
      omega
        (arith, length-map to_rollback visible, length-retain (λ t. not (is_whitespace t)) tokens))

-- No pattern matches at any token but a semicolon.
abbrev pub Untouched : Blacklist → List Token → Type 0
Untouched blacklist [] = Unit
Untouched blacklist (t ∷ input) =
    (is_semi_colon t ≡ true ⊎ first_match blacklist (t ∷ input) ≡ none) × Untouched blacklist input

replace_from-Untouched :
    (fuel : ℕ) (blacklist : Blacklist) (input out : List Token)
    → Untouched blacklist input
    → replace_from fuel blacklist input ≡ some out
    → out ≡ input
replace_from-Untouched fuel blacklist [] out u e = cc (loop_done fuel blacklist)
replace_from-Untouched zero blacklist (t ∷ input) out u e = cc (out_of_fuel blacklist t input)
replace_from-Untouched (suc fuel) blacklist (t ∷ input) out (kept, u) e =
    let (rest, ended, same) =
      (Option.map-eq-some_iff _ _).0 (rw (round_keeps fuel blacklist t input kept) at e) in
    sym same
    ∙ ap (λ (l : List Token). t ∷ l) (replace_from-Untouched fuel blacklist input rest u ended)

NotAbort : Token → Type 0
NotAbort t = is_abort t ≡ false

All-append : (xs ys : List Token) → All NotAbort xs → All NotAbort ys → All NotAbort (xs ++ ys)
All-append [] ys h k = k
All-append (x ∷ xs) ys (p, h) k = (p, All-append xs ys h k)

All-drop : (xs ys : List Token) → All NotAbort (xs ++ ys) → All NotAbort ys
All-drop [] ys h = h
All-drop (x ∷ xs) ys (p, h) = All-drop xs ys h

to_rollback-NotAbort : (t : Token) → NotAbort (to_rollback t)
unfolding NotAbort
to_rollback-NotAbort t = elim (Bool-cases (is_abort t)) [
  | inl abort ↦ rw abort
  | inr other ↦ rw other other
]

rewrite_abort-NotAbort : (ts : List Token) → All NotAbort (map to_rollback ts)
rewrite_abort-NotAbort [] = tt
rewrite_abort-NotAbort (t ∷ ts) = (to_rollback-NotAbort t, rewrite_abort-NotAbort ts)

-- What a match leaves is the end of the input.
first_match-split :
    (blacklist : Blacklist) (input replacement rest : List Token)
    → All (λ entry. All NotAbort entry.1) blacklist
    → All NotAbort input
    → first_match blacklist input ≡ some (replacement, rest)
    → All NotAbort replacement × All NotAbort rest
unfolding first_match
first_match-split [] input replacement rest clean h e = cc
first_match-split (([], r) ∷ blacklist) input replacement rest (c, clean) h e =
    first_match-split blacklist input replacement rest clean h e
first_match-split ((p ∷ pattern, r) ∷ blacklist) input replacement rest (c, clean) h e =
    elim (Option-cases (match_pattern (p ∷ pattern) input)) [
      | inl miss ↦
          first_match-split blacklist input replacement rest clean h (rw (miss, first_match) at e)
      | inr (left, hit) ↦
          let taken : ◌≡◌ {A = Option (List Token × List Token)} (some (r, left))
              (some (replacement, rest)) =
            rw (hit, first_match) at e in
          let (tokens, split, _) = (match_pattern_iff (p ∷ pattern) input left).0 hit in
          let same_r : r ≡ replacement = cc in
          let same_rest : left ≡ rest = cc in
          (rw same_r at c, rw same_rest at (All-drop tokens left (rw split at h)))
    ]

replace_from-NotAbort :
    (fuel : ℕ) (blacklist : Blacklist) (input out : List Token)
    → All (λ entry. All NotAbort entry.1) blacklist
    → All NotAbort input
    → replace_from fuel blacklist input ≡ some out
    → All NotAbort out
replace_from-NotAbort fuel blacklist [] out clean h e =
    let empty : [] ≡ out = cc (loop_done fuel blacklist) in rw (← empty) tt
replace_from-NotAbort zero blacklist (t ∷ input) out clean h e = cc (out_of_fuel blacklist t input)
replace_from-NotAbort (suc fuel) blacklist (t ∷ input) out clean (p, h) e =
    elim (round_cases fuel blacklist t input) [
      | inl kept ↦
          let (rest, ended, same) =
            (Option.map-eq-some_iff _ _).0 (rw (round_keeps fuel blacklist t input kept) at e) in
          rw (← same) (p, replace_from-NotAbort fuel blacklist input rest clean h ended)
      | inr (replacement, left, other, hit) ↦
          let (rest, ended, same) =
            (Option.map-eq-some_iff _ _).0
              (rw (round_replaces fuel blacklist t input replacement left other hit) at e) in
          let (new, old) =
            first_match-split blacklist (t ∷ input) replacement left clean (p, h) hit in
          rw (← same) (
            All-append replacement rest new
              (replace_from-NotAbort fuel blacklist left rest clean old ended))
    ]

-- With replacements that hold no ABORT, no ABORT reaches the SQL parser, wherever the input had it.
pub maybe_replace_tokens-NotAbort :
    (fuel : ℕ) (blacklist : Blacklist) (tokens out : List Token)
    → All (λ entry. All (λ t. is_abort t ≡ false) entry.1) blacklist
    → maybe_replace_tokens fuel blacklist tokens ≡ some out
    → All (λ t. is_abort t ≡ false) out
unfolding maybe_replace_tokens rewrite_abort_to_rollback NotAbort
maybe_replace_tokens-NotAbort fuel blacklist tokens out clean e =
    replace_from-NotAbort fuel blacklist _ out clean (rewrite_abort-NotAbort _) e

-- Where no pattern matches, the tokens come out as they went in, less the whitespace and with
-- ROLLBACK for ABORT.
pub maybe_replace_tokens_unmatched :
    (fuel : ℕ) (blacklist : Blacklist) (tokens out : List Token)
    → Untouched blacklist (rewrite_abort_to_rollback (retain (λ t. not (is_whitespace t)) tokens))
    → maybe_replace_tokens fuel blacklist tokens ≡ some out
    → out ≡ rewrite_abort_to_rollback (retain (λ t. not (is_whitespace t)) tokens)
unfolding maybe_replace_tokens
maybe_replace_tokens_unmatched fuel blacklist tokens out u e =
    replace_from-Untouched fuel blacklist _ out u e
