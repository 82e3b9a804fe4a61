-- ===== src/Rules/Scalars/Limited.antt =====
-- Which projected subqueries `RemoveSubqueryFromProjection` replaces.
use datafusion_postgres.Prelude.{String, true, false, Option, List, [], ◌∷◌, ◌≡◌, ◌↔◌, arith}
use datafusion_postgres.Prelude.Lists.{Any, any_iff, Any-iff}
use datafusion_postgres.Ast.{
  placeholder, Expr, LimitClause, OrderBy, OptExpr, TableWithJoins, SelectItems, a_select, select,
  Query, a_query,
}
use datafusion_postgres.Ast.Expr.{value, compound_identifier}
use datafusion_postgres.Rules.{SqlParser}
use datafusion_postgres.Rules.Unqualified.{contains}
use datafusion_postgres.Rules.Scalars.{table_aliases, sets_correlation, has_correlation}

module _ {X : Type 0} where
  -- A parameter of the statement, or a column with a qualifier that is no alias in the FROM clause
  abbrev pub IsForeign : List String → Expr X → Type 0
  IsForeign aliases (value (placeholder _)) = Unit
  IsForeign aliases (compound_identifier (i ∷ _)) = contains aliases i.text ≡ false
  IsForeign aliases _ = ⊥

module _ {X : Type 0} (sqlparser : SqlParser X) where
  sets_correlation_iff :
      (aliases : List String) (expr : Expr X)
      → (sets_correlation aliases expr ≡ true) ↔ IsForeign aliases expr
  unfolding sets_correlation
  sets_correlation_iff aliases (compound_identifier []) = ground arith
  sets_correlation_iff aliases (compound_identifier (i ∷ rest)) = ground arith
  sets_correlation_iff aliases _ = ground arith

  module _ (projection : SelectItems X) (from : List (TableWithJoins X)) (filter : OptExpr X)
      (rest : X) (order : OrderBy X) (limit : LimitClause X) (fetch : Option X) (more : X) where
    abbrev pub subselect : Query X
    subselect = a_query (select (a_select projection from filter rest)) order limit fetch more

    pub has_correlation_iff :
        (has_correlation sqlparser subselect ≡ true)
        ↔ Any (IsForeign (table_aliases from)) (sqlparser.visited subselect)
    unfolding has_correlation
    has_correlation_iff =
        let found = any_iff (sets_correlation (table_aliases from)) (sqlparser.visited subselect) in
        let each =
          Any-iff (sets_correlation_iff (table_aliases from)) (sqlparser.visited subselect) in
        (λ h. each.0 (found.0 h), λ h. found.1 (each.1 h))
