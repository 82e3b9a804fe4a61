-- ===== src/Rules/Scalars.antt =====
-- datafusion-pg-catalog/src/sql/rules.rs: `RemoveSubqueryFromProjection`. A set of names is the list
-- of them.
pub mod Limited
pub mod Single
use datafusion_postgres.Prelude.{
  String, Bool, true, false, not, ◌||◌, Option, none, some, List, [], ◌∷◌, ◌++◌, if◌then◌else◌,
}
use datafusion_postgres.Prelude.Lists.{any}
use datafusion_postgres.Ast.{
  Ident, Value, placeholder, null, number, TableFactor, table, Join, TableWithJoins, Expr,
  some_expr, LimitClause, no_limit, limit_offset, SelectItem, SelectItems, unnamed_expr,
  expr_with_alias, Select, a_select, SetExpr, select, Query, a_query, map_items,
}
use datafusion_postgres.Ast.Expr.{value, compound_identifier, subquery}
use datafusion_postgres.Rules.{SqlParser}
use datafusion_postgres.Rules.Unqualified.{contains}

module _ {X : Type 0} where
  -- What the factor adds to the set of aliases
  unfoldable pub collect_table_aliases_from_table_factor : TableFactor X → List String
  collect_table_aliases_from_table_factor (table _ (some alias) _ _) = alias.text ∷ []
  collect_table_aliases_from_table_factor _ = []

  abbrev pub joined_aliases : List (Join X) → List String
  joined_aliases [] = []
  joined_aliases (join ∷ joins) =
      collect_table_aliases_from_table_factor join.joined ++ joined_aliases joins

  -- `table_aliases` of `has_correlation`
  unfoldable pub table_aliases : List (TableWithJoins X) → List String
  unfolding collect_table_aliases_from_table_factor
  table_aliases [] = []
  table_aliases (t ∷ tables) =
      collect_table_aliases_from_table_factor t.relation
      ++ (joined_aliases t.joins ++ table_aliases tables)

  -- `CorrelationCheckVisitor::pre_visit_expr`: does it set the flag?
  unfoldable pub sets_correlation : List String → Expr X → Bool
  unfolding contains
  sets_correlation aliases (value (placeholder _)) = true
  sets_correlation aliases (compound_identifier (i ∷ _)) = not (contains aliases i.text)
  sets_correlation aliases _ = false

  abbrev is_limit : LimitClause X → Bool
  is_limit no_limit = false
  is_limit _ = true

  abbrev is_there : Option X → Bool
  is_there none = false
  is_there (some _) = true

  unfoldable pub has_limit : Query X → Bool
  has_limit (a_query body order limit fetch more) = is_limit limit || is_there fetch

  abbrev pub limited : Query X → Query X
  limited (a_query body order limit fetch more) =
      a_query body order (limit_offset (some_expr (value (number "1" false))) none []) fetch more

module _ {X : Type 0} (sqlparser : SqlParser X) where
  unfoldable pub has_correlation : Query X → Bool
  unfolding table_aliases sets_correlation any
  has_correlation (a_query (select (a_select projection from filter rest)) order limit fetch more) =
      any (sets_correlation (table_aliases from)) (
        sqlparser.visited
          (a_query (select (a_select projection from filter rest)) order limit fetch more))
  has_correlation _ = false

  unfoldable pub scalar_expr : Expr X → Expr X
  unfolding has_correlation has_limit
  scalar_expr (subquery q) =
      if has_correlation q
      then value null
      else if has_limit q
      then subquery q
      else subquery (limited q)
  scalar_expr expr = expr

  abbrev pub scalar_item : SelectItem X → SelectItem X
  scalar_item (unnamed_expr expr) = unnamed_expr (scalar_expr expr)
  scalar_item (expr_with_alias expr alias) = expr_with_alias (scalar_expr expr) alias
  scalar_item item = item

  -- `RemoveSubqueryFromProjectionVisitor::pre_visit_query`
  unfoldable pub remove_subqueries : Query X → Query X
  unfolding scalar_expr map_items
  remove_subqueries
        (a_query (select (a_select projection from filter rest)) order limit fetch more) =
      a_query (select (a_select (map_items scalar_item projection) from filter rest)) order limit
        fetch more
  remove_subqueries q = q
