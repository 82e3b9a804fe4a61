-- ===== src/Parser/Tests.antt =====
-- The matching and the replacement on short token lists.
use datafusion_postgres.Prelude.{not, some, List, [], ◌∷◌, ◌++◌, ◌≡◌, ◌↔◌, refl, inl, inr}
use datafusion_postgres.Prelude.Lists.{retain, length}
use datafusion_postgres.Parser.{
  Token, whitespace, placeholder, other_token, semi_colon, word, is_whitespace, token_eq,
  match_pattern, first_match, replace_from, rewrite_abort_to_rollback, maybe_replace_tokens,
  Blacklist,
}
use datafusion_postgres.Parser.Matching.{Fits, match_pattern_iff}
use datafusion_postgres.Parser.Replacement.{Untouched, maybe_replace_tokens_ends}

abbrev select_token : Token
select_token = word "SELECT" "" "SELECT"

abbrev one : Token
one = other_token "1"

-- `SELECT $1`, which stands for `SELECT`.
abbrev pattern : List Token
pattern = select_token ∷ placeholder "$1" ∷ []

abbrev list_of_one : Blacklist
list_of_one = (pattern, select_token ∷ []) ∷ []

abbrev input : List Token
input = semi_colon ∷ select_token ∷ one ∷ one ∷ []

match_pattern_iff_example :
    (match_pattern pattern input ≡ some (one ∷ []))
    ↔ ((tokens : List Token) × (input ≡ tokens ++ one ∷ []) × Fits pattern tokens)
match_pattern_iff_example = match_pattern_iff pattern input (one ∷ [])

maybe_replace_tokens_ends_example :
    (out : List Token) × (maybe_replace_tokens (length {0} input) list_of_one input ≡ some out)
maybe_replace_tokens_ends_example = maybe_replace_tokens_ends list_of_one input

abbrev abort : List Token
abort = word "abort" "" "ABORT" ∷ whitespace " " ∷ semi_colon ∷ []

abbrev rolled_back : List Token
rolled_back = word "ROLLBACK" "" "ROLLBACK" ∷ semi_colon ∷ []

abort_rolls_back : maybe_replace_tokens 3 list_of_one abort ≡ some rolled_back
unfolding maybe_replace_tokens replace_from rewrite_abort_to_rollback retain first_match
    match_pattern token_eq
abort_rolls_back = refl

abort-Untouched :
    Untouched list_of_one (rewrite_abort_to_rollback (retain (λ t. not (is_whitespace t)) abort))
unfolding rewrite_abort_to_rollback retain first_match match_pattern token_eq
abort-Untouched = (inr refl, (inl refl, tt))
