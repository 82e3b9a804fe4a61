-- ===== src/Ident/Tests.antt =====
-- Identifiers in ASCII.
use Prim.Native.Char.{Char, code}
use Prim.Native.String
use Prim.Native.String.{◌∷◌}
use datafusion_postgres.Prelude.{Bool, true, false, ◌&&◌, ◌||◌, ◌==◌, leb, ◌≡◌, refl, arith}
use mathlib.Core.List.{[], ◌∷◌}
use datafusion_postgres.Ident.{
  Unicode, ends_with, starts_with, parse_ident_string, parts, invalid, quote_ident,
}
use datafusion_postgres.Ident.RoundTrip.{parse_ident-quote_ident, quoted, full_stop, quoted_pair}

abbrev letter : Char → Bool
letter c = (leb b'a' (code c) && leb (code c) b'z') || (leb b'A' (code c) && leb (code c) b'Z')

abbrev letter_or_digit : Char → Bool
letter_or_digit c = letter c || (leb b'0' (code c) && leb (code c) b'9')

letter-plain : (c : Char) → letter c ≡ true → (code c == b'"') || (code c == b'.') ≡ false
letter-plain c e = ground arith

letter_or_digit-plain :
    (c : Char) → letter_or_digit c ≡ true → (code c == b'"') || (code c == b'.') ≡ false
letter_or_digit-plain c e = ground arith

ascii : Unicode
ascii = record {
  is_alphabetic = letter;
  is_alphanumeric = letter_or_digit;
  to_uppercase = λ s. s;
  plain_alphabetic = letter-plain;
  plain_alphanumeric = letter_or_digit-plain;
}

parse_ident-quote_ident_example :
    parse_ident_string (quote_ident ascii "my \"odd\" table") true ≡ parts ("my \"odd\" table" ∷ [])
parse_ident-quote_ident_example =
    parse_ident-quote_ident ascii "my \"odd\" table" true (λ e. cc)
      (unfold starts_with ends_with in refl)

quoted_pair_example :
    (parse_ident_string (String.◌++◌ (quoted "a b") (full_stop ∷ quoted "c")) true
      ≡ invalid "empty identifier part")
    × (parse_ident_string (String.◌++◌ (quoted "a b") (full_stop ∷ quoted "c")) false
        ≡ parts ("a b" ∷ "c" ∷ []))
quoted_pair_example = quoted_pair "a b" "c" (quoted "c") (λ e. cc) (λ e. cc)
