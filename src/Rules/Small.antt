-- ===== src/Rules/Small.antt =====
-- datafusion-pg-catalog/src/sql/rules.rs: `StripCollate`, `RewritePgCatalogOperator` and
-- `FixVersionColumnName`.
use datafusion_postgres.Prelude.{String, Option, none, some, List, [], ◌∷◌, str_eq, if◌then◌else◌}
use datafusion_postgres.Prelude.Dict
use datafusion_postgres.Prelude.Dict.{Dict}
use datafusion_postgres.Ast.{
  ident_new, ident, BinaryOperator, pg_regex_match, pg_regex_imatch, pg_regex_not_match,
  pg_regex_not_imatch, pg_custom, Expr, argument_list, no_args, SelectItem, unnamed_expr,
  expr_with_alias, a_select, select, Query, a_query, map_items,
}
use datafusion_postgres.Ast.Expr.{binary_op, function, collate}

abbrev last_name : String → List String → String
last_name name [] = name
last_name name (next ∷ names) = last_name next names

module _ {X : Type 0} where
  -- `StripCollateVisitor::pre_visit_expr`
  unfoldable pub strip_collate : Expr X → Expr X
  strip_collate (collate inner _) = inner
  strip_collate expr = expr

  -- The operators without their schema
  abbrev pub builtin_operators : List (String × BinaryOperator X)
  builtin_operators =
      ("~", pg_regex_match)
      ∷ ("~*", pg_regex_imatch)
      ∷ ("!~", pg_regex_not_match)
      ∷ ("!~*", pg_regex_not_imatch)
      ∷ []

  abbrev operator_or : Option (BinaryOperator X) → BinaryOperator X → BinaryOperator X
  operator_or none op = op
  operator_or (some builtin) op = builtin

  abbrev pub builtin_operator : BinaryOperator X → BinaryOperator X
  builtin_operator (pg_custom (schema ∷ names)) =
      if str_eq schema "pg_catalog"
      then operator_or (Dict.get (last_name schema names) builtin_operators)
          (pg_custom (schema ∷ names))
      else pg_custom (schema ∷ names)
  builtin_operator op = op

  -- `RewritePgCatalogOperatorVisitor::pre_visit_expr`
  unfoldable pub rewrite_operator : Expr X → Expr X
  unfolding Dict.get
  rewrite_operator (binary_op left op right) = binary_op left (builtin_operator op) right
  rewrite_operator expr = expr

  abbrev pub name_version : SelectItem X → SelectItem X
  name_version (unnamed_expr (function (ident i ∷ []) (argument_list no_args x clauses) rest)) =
      let call = function (ident i ∷ []) (argument_list no_args x clauses) rest in
      if str_eq i.text "version"
      then expr_with_alias call (ident_new "version")
      else unnamed_expr call
  name_version item = item

  -- `FixVersionColumnNameVisitor::pre_visit_query`
  unfoldable pub fix_version_column_name : Query X → Query X
  unfolding map_items
  fix_version_column_name
        (a_query (select (a_select projection from filter rest)) order limit fetch more) =
      a_query (select (a_select (map_items name_version projection) from filter rest)) order limit
        fetch more
  fix_version_column_name q = q
