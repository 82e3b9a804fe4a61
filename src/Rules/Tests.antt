-- ===== src/Rules/Tests.antt =====
-- The rewrite rules at concrete statements, with a walk that comes to a query, its unnamed
-- expressions and its WHERE clause.
use datafusion_postgres.Prelude.{
  String, Option, none, some, List, [], ◌∷◌, ◌≡◌, ◌⊎◌, refl, inl, inr,
}
use datafusion_postgres.Prelude.Lists.{All, retain}
use datafusion_postgres.Ast.{
  Ident, ident_new, ident, eq, single_quoted_string, table, TableWithJoins, Expr, OptExpr, no_expr,
  some_expr, OrderBy, no_order, order_expressions, no_order_exprs, order_exprs, no_limit,
  SelectItems, no_items, items, unnamed_expr, expr_with_alias, qualified_wildcard, wildcard,
  a_select, select, Query, a_query, Statement, query,
}
use datafusion_postgres.Ast.Expr.{identifier, compound_identifier, value, binary_op}
use datafusion_postgres.Prelude.Dict
use datafusion_postgres.Parser.{Token, word, whitespace, rewrite_abort_to_rollback, first_match}
use datafusion_postgres.Parser.Replacement.{Untouched}
use datafusion_postgres.Rules.Pipeline.{parse}
use datafusion_postgres.Rules.Pipeline.Plain.{IsPlain}
use datafusion_postgres.Rules.Pipeline.Untouched.{IsPlainStatement, IsNative, prepared, parse_plain}
use datafusion_postgres.Rules.Names.{object_name_text}
use datafusion_postgres.Rules.Samples.{sqlparser, lower_case}
use datafusion_postgres.Rules.Aliases.{
  has_simple_wildcard, rewrite_select_with_alias, alias_duplicated_projection,
}

abbrev name : String → Expr Unit
name text = identifier (ident_new text)

abbrev column : String → String → Expr Unit
column qualifier text = compound_identifier (ident_new qualifier ∷ ident_new text ∷ [])

abbrev one_table : Option Ident → List (TableWithJoins Unit)
one_table alias =
    record { relation = table (ident (ident_new "pg_namespace") ∷ []) alias none tt; joins = [] }
    ∷ []

abbrev selected : SelectItems Unit → Option Ident → OptExpr Unit → OrderBy Unit → Query Unit
selected projection alias filter order =
    a_query (select (a_select projection (one_table alias) filter tt)) order no_limit none tt

-- `SELECT n.oid, oid AS o, n.* FROM pg_namespace n`
abbrev named_twice : Statement Unit
named_twice = query (
    selected
      (items (unnamed_expr (column "n" "oid")) (
        items (expr_with_alias (name "oid") (ident_new "o"))
          (items (qualified_wildcard (ident (ident_new "n") ∷ []) tt) no_items)))
      (some (ident_new "n")) no_expr no_order)

abbrev named_once : Statement Unit
named_once = query (
    selected
      (items (expr_with_alias (column "n" "oid") (ident_new "__alias_oid")) (
        items (expr_with_alias (name "oid") (ident_new "o"))
          (items (qualified_wildcard (ident (ident_new "n") ∷ []) tt) no_items)))
      (some (ident_new "n")) no_expr no_order)

-- `SELECT n.*, 'x' AS kind FROM pg_namespace n WHERE n = kind ORDER BY oid`
abbrev kinds : SelectItems Unit
kinds =
    items (qualified_wildcard (ident (ident_new "n") ∷ []) tt)
      (items (expr_with_alias (value (single_quoted_string "x")) (ident_new "kind")) no_items)

abbrev bare_order : Query Unit
bare_order =
    selected kinds (some (ident_new "n")) (some_expr (binary_op (name "owner") eq (name "kind")))
      (order_expressions (order_exprs (name "oid") tt no_order_exprs) tt)

abbrev qualified_order : Query Unit
qualified_order =
    selected kinds (some (ident_new "n"))
      (some_expr (binary_op (column "n" "owner") eq (name "kind")))
      (order_expressions (order_exprs (column "n" "oid") tt no_order_exprs) tt)

-- `SELECT relname FROM pg_namespace n WHERE id = kind`, but for the table a statement of DataFusion
abbrev own_terms : Statement Unit
own_terms = query (
    selected (items (unnamed_expr (name "relname")) no_items) (some (ident_new "n"))
      (some_expr (binary_op (name "id") eq (name "kind"))) no_order)

abbrev own_tokens : List Token
own_tokens =
    word "SELECT" "" "SELECT" ∷ whitespace " " ∷ word "relname" "" "" ∷ word "ABORT" "" "ABORT" ∷ []

abbrev tokenize : String → String ⊎ List Token
tokenize _ = inr own_tokens

abbrev parse_tokens : List Token → String ⊎ List (Statement Unit)
parse_tokens _ = inr (own_terms ∷ [])

own_tokens-Untouched :
    Untouched [] (prepared sqlparser lower_case [] tokenize parse_tokens own_tokens)
unfolding first_match rewrite_abort_to_rollback retain
own_tokens-Untouched = (inr refl, (inr refl, (inr refl, tt)))

own_terms-IsNative : All (IsNative sqlparser lower_case []) (own_terms ∷ [])
unfolding IsPlainStatement IsPlain has_simple_wildcard Dict.get
own_terms-IsNative = ((((tt, tt), inl refl), (((tt, tt), tt), tt, (refl, (tt, tt)))), tt)

parse_plain_example :
    parse sqlparser lower_case [] tokenize parse_tokens [] "SELECT relname"
    ≡ some (inr (own_terms ∷ []))
parse_plain_example =
    parse_plain sqlparser lower_case [] tokenize parse_tokens [] "SELECT relname" own_tokens refl
      own_tokens-Untouched (own_terms ∷ []) refl own_terms-IsNative

-- `SELECT a.oid, b.oid, a.*, b.* FROM ...`
abbrev wildcards : SelectItems Unit
wildcards =
    items (qualified_wildcard (ident (ident_new "a") ∷ []) tt)
      (items (qualified_wildcard (ident (ident_new "b") ∷ []) tt) no_items)

same_alias :
    alias_duplicated_projection sqlparser (
      query (
        selected
          (items
            (unnamed_expr (column "a" "oid"))
            (items (unnamed_expr (column "b" "oid")) wildcards))
          none
          no_expr
          no_order))
    ≡ some (
        query (
          selected
            (items
              (expr_with_alias (column "a" "oid") (ident_new "__alias_oid"))
              (items (expr_with_alias (column "b" "oid") (ident_new "__alias_oid")) wildcards))
            none
            no_expr
            no_order))
unfolding alias_duplicated_projection rewrite_select_with_alias object_name_text
same_alias = refl

-- `SELECT n.oid, * FROM pg_namespace n`
abbrev with_star : Statement Unit
with_star = query (
    selected (items (unnamed_expr (column "n" "oid")) (items (wildcard tt) no_items))
      (some (ident_new "n")) no_expr no_order)

star_only : alias_duplicated_projection sqlparser with_star ≡ some with_star
unfolding alias_duplicated_projection
star_only = refl
