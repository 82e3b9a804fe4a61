-- ===== src/Parser.antt =====
-- datafusion-pg-catalog/src/sql/parser.rs: the token replacement of `PostgresCompatibilityParser`,
-- over the tokens that sqlparser makes. The blacklist is a parameter: pairs of token lists, without
-- whitespace and semicolons, as `new` makes them.
pub mod Matching
pub mod Replacement
mod Tests
use datafusion_postgres.Prelude.{
  ℕ, zero, suc, String, Bool, true, false, not, ◌&&◌, ◌||◌, Option, none, some, List, [], ◌∷◌, ◌++◌,
  map, str_eq, if◌then◌else◌,
}
use datafusion_postgres.Prelude.Lists.{retain, length}
use mathlib.Core.Option

-- `sqlparser::tokenizer::Token`: the kinds that the code tells apart, and all others by their text.
-- A word has its text, its quote if it is quoted, and its keyword, which is "" for none.
pub data Token : Type 0 where
  whitespace placeholder other_token : String → Token
  semi_colon : Token
  word : String → String → String → Token

-- `#[derive(PartialEq)]`
unfoldable pub token_eq : Token → Token → Bool
token_eq (whitespace s) (whitespace t) = str_eq s t
token_eq (placeholder s) (placeholder t) = str_eq s t
token_eq (other_token s) (other_token t) = str_eq s t
token_eq semi_colon semi_colon = true
token_eq (word s q k) (word t r l) = str_eq s t && (str_eq q r && str_eq k l)
token_eq _ _ = false

abbrev pub is_whitespace : Token → Bool
is_whitespace (whitespace _) = true
is_whitespace _ = false

abbrev pub is_semi_colon : Token → Bool
is_semi_colon semi_colon = true
is_semi_colon _ = false

abbrev pub is_placeholder : Token → Bool
is_placeholder (placeholder _) = true
is_placeholder _ = false

abbrev pub is_abort : Token → Bool
is_abort (word _ _ keyword) = str_eq keyword "ABORT"
is_abort _ = false

abbrev rollback_token : Token
rollback_token = word "ROLLBACK" "" "ROLLBACK"

abbrev pub to_rollback : Token → Token
to_rollback t = if is_abort t then rollback_token else t

unfoldable pub rewrite_abort_to_rollback : List Token → List Token
rewrite_abort_to_rollback = map to_rollback

-- The scan of one pattern from one position: what is left of the input after the pattern. A
-- placeholder fits any token, and semicolons of the input are passed over.
unfoldable pub match_pattern : List Token → List Token → Option (List Token)
match_pattern [] input = some input
match_pattern (p ∷ pattern) [] = none
match_pattern (p ∷ pattern) (t ∷ input) =
    let skipped = match_pattern (p ∷ pattern) input in
    let matched = match_pattern pattern input in
    if is_semi_colon t then skipped else if is_placeholder p || token_eq t p then matched else none

abbrev pub Blacklist : Type 0
Blacklist = List (List Token × List Token)

-- The first entry whose pattern is not empty and matches: its replacement, and what is left.
unfoldable pub first_match : Blacklist → List Token → Option (List Token × List Token)
first_match [] input = none
first_match (([], replacement) ∷ blacklist) input = first_match blacklist input
first_match ((p ∷ pattern, replacement) ∷ blacklist) input =
    elim (match_pattern (p ∷ pattern) input) [
      | some rest ↦ some (replacement, rest)
      | none ↦ first_match blacklist input
    ]

-- The `while` loop over the input, on fuel: `none` is a loop that has not ended.
unfoldable pub replace_from : ℕ → Blacklist → List Token → Option (List Token)
replace_from fuel blacklist [] = some []
replace_from zero blacklist (t ∷ input) = none
replace_from (suc fuel) blacklist (t ∷ input) =
    let kept = Option.map (λ out. t ∷ out) (replace_from fuel blacklist input) in
    if is_semi_colon t then kept else elim (first_match blacklist (t ∷ input)) [
      | none ↦ kept
      | some (replacement, rest) ↦
          Option.map (λ out. replacement ++ out) (replace_from fuel blacklist rest)
    ]

-- `maybe_replace_tokens` after the tokenizer.
unfoldable pub maybe_replace_tokens : ℕ → Blacklist → List Token → Option (List Token)
unfolding replace_from rewrite_abort_to_rollback
maybe_replace_tokens fuel blacklist tokens =
    replace_from fuel blacklist
      (rewrite_abort_to_rollback (retain (λ t. not (is_whitespace t)) tokens))
