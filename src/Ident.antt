-- ===== src/Ident.antt =====
-- datafusion-pg-catalog/src/pg_catalog/quote_ident_udf.rs: `quote_ident` on one identifier,
-- `parse_ident_string`, `needs_quoting` and the reserved words. What Unicode says of characters is a
-- parameter.
pub mod Scan
pub mod RoundTrip
mod Tests
use Prim.Native.Char.{Char, code}
use Prim.Native.String
use Prim.Native.String.{[], ◌∷◌}
use datafusion_postgres.Prelude.{
  ℕ, String, Bool, true, false, not, ◌&&◌, ◌||◌, ◌==◌, ◌≡◌, str_eq, if◌then◌else◌,
}
use datafusion_postgres.Prelude.Lists.{any}
use mathlib.Core.List.{List, [], ◌∷◌, ◌++◌}

-- Rust's `char::is_alphabetic`, `char::is_alphanumeric` and `str::to_uppercase` by the Unicode
-- tables: the quote and the dot are neither letters nor digits.
pub record Unicode : Type 0 where
  pub is_alphabetic : Char → Bool
  pub is_alphanumeric : Char → Bool
  pub to_uppercase : String → String
  pub plain_alphabetic :
      (c : Char) → is_alphabetic c ≡ true → (code c == b'"') || (code c == b'.') ≡ false
  pub plain_alphanumeric :
      (c : Char) → is_alphanumeric c ≡ true → (code c == b'"') || (code c == b'.') ≡ false

abbrev pub quote : Char
quote = "\""

abbrev pub is_quote : Char → Bool
is_quote c = code c == b'"'

abbrev pub is_dot : Char → Bool
is_dot c = code c == b'.'

abbrev pub push : String → Char → String
push s c = String.◌++◌ s (c ∷ [])

-- `Result<Vec<String>, &'static str>`
pub data Parsed : Type 0 where
  parts : List String → Parsed
  invalid : String → Parsed

-- `ident.replace('"', "\"\"")`
unfoldable pub escape : String → String
escape [] = ""
escape (c ∷ rest) = if is_quote c then c ∷ c ∷ escape rest else c ∷ escape rest

-- `ident.ends_with(c)` for the character of a test
unfoldable pub ends_with : (Char → Bool) → String → Bool
ends_with test [] = false
ends_with test (c ∷ []) = test c
ends_with test (c ∷ d ∷ rest) = ends_with test (d ∷ rest)

unfoldable pub starts_with : (Char → Bool) → String → Bool
starts_with test [] = false
starts_with test (c ∷ rest) = test c

-- A part that is pushed when it is not empty.
unfoldable pub close : List String → String → List String
close found current = if str_eq current "" then found else found ++ current ∷ []

abbrev pub or_empty : List String → Parsed
or_empty [] = invalid "no valid identifier parts"
or_empty (p ∷ ps) = parts (p ∷ ps)

-- After the last character.
unfoldable pub finish : Bool → Bool → List String → String → Bool → Parsed
finish strict trailing_dot found current in_quotes =
    if in_quotes
    then invalid "unterminated quoted identifier"
    else if not (str_eq current "")
    then parts (found ++ current ∷ [])
    else if trailing_dot && strict
    then invalid "empty identifier part"
    else or_empty found

-- The loop over the characters. Inside quotes the character after a quote is looked at; where it is
-- a quote too both stand for one.
unfoldable pub scan : Bool → Bool → List String → String → Bool → String → Parsed
unfolding close finish
scan strict trailing_dot found current in_quotes [] =
    finish strict trailing_dot found current in_quotes
scan strict trailing_dot found current false (c ∷ rest) =
    let opened = scan strict trailing_dot found current true rest in
    let separated = scan strict trailing_dot (close found current) "" false rest in
    let pushed = scan strict trailing_dot found (push current c) false rest in
    if is_quote c
    then opened
    else if is_dot c
    then (if str_eq current "" && strict then invalid "empty identifier part" else separated)
    else pushed
scan strict trailing_dot found current true (c ∷ []) =
    if is_quote c
    then finish strict trailing_dot (close found current) "" false
    else finish strict trailing_dot found (push current c) true
scan strict trailing_dot found current true (c ∷ d ∷ rest) =
    let escaped = scan strict trailing_dot found (push current c) true rest in
    let closed = scan strict trailing_dot (close found current) "" false (d ∷ rest) in
    let pushed = scan strict trailing_dot found (push current c) true (d ∷ rest) in
    if is_quote c then (if is_quote d then escaped else closed) else pushed

unfoldable pub parse_ident_string : String → Bool → Parsed
parse_ident_string ident strict =
    if str_eq ident ""
    then invalid "empty identifier"
    else scan strict (ends_with is_dot ident) [] "" false ident

abbrev reserved_words : List String
reserved_words =
    "ALL" ∷ "ANALYSE" ∷ "ANALYZE" ∷ "AND" ∷ "ANY" ∷ "ARRAY" ∷ "AS" ∷ "ASC" ∷ "ASYMMETRIC"
    ∷ "AUTHORIZATION" ∷ "BETWEEN" ∷ "BINARY" ∷ "BOTH" ∷ "CASE" ∷ "CAST" ∷ "CHECK" ∷ "COLLATE"
    ∷ "COLUMN" ∷ "CONCURRENTLY" ∷ "CONSTRAINT" ∷ "CREATE" ∷ "CROSS" ∷ "CURRENT_CATALOG"
    ∷ "CURRENT_DATE" ∷ "CURRENT_ROLE" ∷ "CURRENT_SCHEMA" ∷ "CURRENT_TIME" ∷ "CURRENT_TIMESTAMP"
    ∷ "CURRENT_USER" ∷ "DEFAULT" ∷ "DEFERRABLE" ∷ "DESC" ∷ "DISTINCT" ∷ "DO" ∷ "ELSE" ∷ "END"
    ∷ "EXCEPT" ∷ "FALSE" ∷ "FETCH" ∷ "FOR" ∷ "FOREIGN" ∷ "FROM" ∷ "FULL" ∷ "GRANT" ∷ "GROUP"
    ∷ "HAVING" ∷ "ILIKE" ∷ "IN" ∷ "INITIALLY" ∷ "INNER" ∷ "INTERSECT" ∷ "INTO" ∷ "IS" ∷ "ISNULL"
    ∷ "JOIN" ∷ "LATERAL" ∷ "LEADING" ∷ "LEFT" ∷ "LIKE" ∷ "LIMIT" ∷ "LOCALTIME" ∷ "LOCALTIMESTAMP"
    ∷ "NATURAL" ∷ "NOT" ∷ "NOTNULL" ∷ "NULL" ∷ "OFFSET" ∷ "ON" ∷ "ONLY" ∷ "OR" ∷ "ORDER" ∷ "OUTER"
    ∷ "OVERLAPS" ∷ "PLACING" ∷ "PRIMARY" ∷ "REFERENCES" ∷ "RETURNING" ∷ "RIGHT" ∷ "SELECT"
    ∷ "SESSION_USER" ∷ "SIMILAR" ∷ "SOME" ∷ "SYMMETRIC" ∷ "TABLE" ∷ "TABLESAMPLE" ∷ "THEN" ∷ "TO"
    ∷ "TRAILING" ∷ "TRUE" ∷ "UNION" ∷ "UNIQUE" ∷ "USER" ∷ "USING" ∷ "VARIADIC" ∷ "VERBOSE" ∷ "WHEN"
    ∷ "WHERE" ∷ "WINDOW" ∷ "WITH" ∷ []

module _ (unicode : Unicode) where
  unfoldable pub is_reserved_word : String → Bool
  unfolding any
  is_reserved_word word = any (λ w. str_eq w (unicode.to_uppercase word)) reserved_words

  abbrev pub word_start : Char → Bool
  word_start c = unicode.is_alphabetic c || code c == b'_'

  abbrev pub word_part : Char → Bool
  word_part c = unicode.is_alphanumeric c || code c == b'_'

  abbrev pub all_word_parts : String → Bool
  all_word_parts [] = true
  all_word_parts (c ∷ rest) = word_part c && all_word_parts rest

  unfoldable pub needs_quoting : String → Bool
  needs_quoting [] = true
  needs_quoting (c ∷ rest) =
      not (word_start c) || (not (all_word_parts rest) || is_reserved_word (c ∷ rest))

  -- The body of the loop of `create_quote_ident_udf`, for a value that is not null.
  unfoldable pub quote_ident : String → String
  unfolding escape starts_with ends_with
  quote_ident ident =
      if starts_with is_quote ident && ends_with is_quote ident
      then escape ident
      else if needs_quoting ident
      then quote ∷ String.◌++◌ (escape ident) (quote ∷ [])
      else ident
