-- ===== src/Rules/NodeTests.antt =====
-- The rewrite rules at concrete nodes: array literals, names, special registers and subqueries.
use datafusion_postgres.Prelude.{String, true, false, none, List, [], ◌∷◌, map, ◌≡◌, refl}
use datafusion_postgres.Prelude.Lists.{All}
use datafusion_postgres.Prelude.Text.{reverse}
use datafusion_postgres.Ast.{
  ident_new, ident, BinaryOperator, eq, not_eq, number, single_quoted_string, placeholder, null,
  not_operator, double_colon, text_type, array_type, square_bracket, TableFactor, table,
  TableWithJoins, Expr, no_expr, some_expr, no_arguments, argument_list, no_args, expr_arg,
  no_order, no_limit, SelectItems, no_items, items, unnamed_expr, Query, a_query, a_select, select,
}
use datafusion_postgres.Ast.Expr.{
  identifier, compound_identifier, value, binary_op, unary_op, any_op, all_op, cast, array,
  function, subquery, collate,
}
use datafusion_postgres.Rules.{plain_function}
use datafusion_postgres.Rules.Samples.{sqlparser, lower_case}
use datafusion_postgres.Rules.Arrays.{
  literal_items, expr_list, text_value, rewrite_any_all, fix_array_literal,
}
use datafusion_postgres.Rules.Arrays.Literals.{IsItem, braced}
use datafusion_postgres.Rules.Arrays.Lowered.{
  rewrite_any_all-braced, fix_array_literal-braced, element_value,
}
use datafusion_postgres.Rules.Small.{strip_collate, rewrite_operator}
use datafusion_postgres.Rules.RegCast.{rewrite_reg_cast}
use datafusion_postgres.Rules.Scalars.{remove_subqueries, scalar_expr}
use datafusion_postgres.Rules.Scalars.Single.{IsScalarised, remove_subqueries-IsScalarised}

abbrev kinds : List String
kinds = "r" ∷ "p q" ∷ []

kinds-IsItem : All IsItem kinds
unfolding IsItem reverse
kinds-IsItem = ((refl, refl, refl), ((refl, refl, refl), tt))

abbrev kind : Expr Unit
kind = identifier (ident_new "relkind")

abbrev kinds_call : Expr Unit
kinds_call =
    function (ident (ident_new "array_contains") ∷ [])
      (argument_list
        (expr_arg (array (expr_list (map text_value kinds)) true) (expr_arg kind no_args)) none [])
      plain_function

-- `'{r,p q}'`
abbrev kinds_literal : Expr Unit
kinds_literal = value (single_quoted_string "{r,p q}")

rewrite_any_all-braced_example :
    (rewrite_any_all (any_op kind eq kinds_literal tt) ≡ kinds_call)
    × (rewrite_any_all (all_op kind not_eq kinds_literal) ≡ unary_op not_operator kinds_call)
    × (rewrite_any_all (any_op kind not_eq kinds_literal tt) ≡ any_op kind not_eq kinds_literal tt)
    × (rewrite_any_all (all_op kind eq kinds_literal) ≡ all_op kind eq kinds_literal)
unfolding braced
rewrite_any_all-braced_example = rewrite_any_all-braced kinds kinds-IsItem kind tt

fix_array_literal-braced_example :
    fix_array_literal
      (cast double_colon kinds_literal (array_type (square_bracket text_type tt)) tt)
    ≡ cast double_colon
        (array (expr_list (map text_value kinds)) true)
        (array_type (square_bracket text_type tt))
        tt
unfolding braced element_value
fix_array_literal-braced_example =
    fix_array_literal-braced kinds kinds-IsItem (square_bracket text_type tt) tt

abbrev pg_class : TableFactor Unit
pg_class = table (ident (ident_new "PG_CLASS") ∷ []) none none tt

-- `pg_catalog.version()`
abbrev version : Expr Unit
version =
    function (ident (ident_new "pg_catalog") ∷ ident (ident_new "version") ∷ [])
      (argument_list no_args none []) plain_function

abbrev current_catalog : Expr Unit
current_catalog = function (ident (ident_new "CURRENT_CATALOG") ∷ []) no_arguments plain_function

abbrev classes : List (TableWithJoins Unit)
classes = record { relation = pg_class; joins = [] } ∷ []

abbrev class_oid : SelectItems Unit
class_oid =
    items (unnamed_expr (compound_identifier (ident_new "PG_CLASS" ∷ ident_new "oid" ∷ [])))
      no_items

-- `SELECT (SELECT "PG_CLASS".oid FROM "PG_CLASS")`
abbrev of_class : Query Unit
of_class = a_query (select (a_select class_oid classes no_expr tt)) no_order no_limit none tt

abbrev scalar_query : Query Unit
scalar_query =
    a_query (select (a_select (items (unnamed_expr (subquery of_class)) no_items) [] no_expr tt))
      no_order no_limit none tt

remove_subqueries-IsScalarised_example :
    IsScalarised sqlparser scalar_query (remove_subqueries sqlparser scalar_query)
remove_subqueries-IsScalarised_example = remove_subqueries-IsScalarised sqlparser scalar_query

-- `(relkind COLLATE a) COLLATE b`
nested_collate :
    strip_collate (collate (collate kind (ident (ident_new "a") ∷ [])) (ident (ident_new "b") ∷ []))
    ≡ collate kind (ident (ident_new "a") ∷ [])
unfolding strip_collate
nested_collate = refl

nested_braces : literal_items "{{1,2},{3,4}}" ≡ "1" ∷ "2}" ∷ "{3" ∷ "4" ∷ []
unfolding literal_items
nested_braces = refl

-- `$1::regclass`, with a template whose WHERE clause is its parameter
abbrev by_name : Query Unit
by_name =
    a_query (select (a_select class_oid classes (some_expr (value (placeholder "$1"))) tt)) no_order
      no_limit none tt

parameter_is_null :
    scalar_expr sqlparser (
      rewrite_reg_cast sqlparser lower_case
        (("text", by_name) ∷ [])
        (cast double_colon (value (placeholder "$2")) text_type tt))
    ≡ value null
unfolding scalar_expr rewrite_reg_cast
parameter_is_null = refl

-- `'16417'::regclass`
number_is_literal :
    rewrite_reg_cast sqlparser lower_case
      (("text", by_name) ∷ [])
      (cast double_colon (value (single_quoted_string "16417")) text_type tt)
    ≡ value (number "16417" false)
unfolding rewrite_reg_cast
number_is_literal = refl

matches_regex :
    rewrite_operator (binary_op kind (BinaryOperator.pg_custom ("pg_catalog" ∷ "!~*" ∷ [])) kind)
    ≡ binary_op kind BinaryOperator.pg_regex_not_imatch kind
unfolding rewrite_operator
matches_regex = refl
