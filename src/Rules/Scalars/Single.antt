-- ===== src/Rules/Scalars/Single.antt =====
-- The items that `RemoveSubqueryFromProjection` leaves in a projection.
use datafusion_postgres.Prelude.{
  Bool, true, false, ◌↔◌, sym, ◌∙◌, arith, Option, none, some, [], ◌≡◌, refl, inl, inr, Bool-cases,
}
use datafusion_postgres.Ast.{
  Ident, number, null, Expr, some_expr, LimitClause, no_limit, limit_offset, other_limit, OrderBy,
  SelectItem, SelectItems, no_items, items, unnamed_expr, expr_with_alias, a_select, select,
  SetExpr, other_body, Query, a_query, map_items,
}
use datafusion_postgres.Ast.Expr.{value, subquery}
use mathlib.Core.Bool.{true≢false}
use datafusion_postgres.Prelude.Lists.{Any}
use datafusion_postgres.Rules.Scalars.Limited.{IsForeign, has_correlation_iff}
use datafusion_postgres.Rules.{SqlParser}
use datafusion_postgres.Rules.Scalars.{
  table_aliases, has_limit, has_correlation, scalar_expr, scalar_item, remove_subqueries,
}

module _ {X : Type 0} where
  abbrev pub is_wildcard : SelectItem X → Bool
  is_wildcard (unnamed_expr _) = false
  is_wildcard (expr_with_alias _ _) = false
  is_wildcard _ = true

  abbrev pub is_subquery : Expr X → Bool
  is_subquery (subquery _) = true
  is_subquery _ = false

  -- A LIMIT, OFFSET or FETCH clause, or several of them
  abbrev pub IsLimited : LimitClause X → Option X → Type 0
  IsLimited no_limit none = ⊥
  IsLimited _ _ = Unit

  abbrev pub limit_one : LimitClause X
  limit_one = limit_offset (some_expr (value (number "1" false))) none []

  module _ (sqlparser : SqlParser X) where
    -- The subquery is a SELECT whose walk comes to a parameter of the statement, or to a column whose
    -- qualifier is no alias in its FROM clause.
    abbrev pub Correlated : Query X → Type 0
    Correlated (a_query (select (a_select p from filter rest)) order limit fetch more) =
        Any (IsForeign (table_aliases from)) (
          sqlparser.visited (a_query (select (a_select p from filter rest)) order limit fetch more))
    Correlated _ = ⊥

    has_correlation-Correlated : (q : Query X) → (has_correlation sqlparser q ≡ true) ↔ Correlated q
    unfolding has_correlation
    has_correlation-Correlated
          (a_query (select (a_select p from filter rest)) order limit fetch more) =
        has_correlation_iff sqlparser p from filter rest order limit fetch more
    has_correlation-Correlated (a_query (other_body x) order limit fetch more) = ground arith

    not-Correlated : (q : Query X) → has_correlation sqlparser q ≡ false → ¬ Correlated q
    not-Correlated q free h = true≢false (sym ((has_correlation-Correlated q).1 h) ∙ free)

    pub data Scalar : Expr X → Expr X → Type 0 where
      nulled : (q : Query X) → Correlated q → Scalar (subquery q) (value null)
      kept :
          (body : SetExpr X) (order : OrderBy X) (limit : LimitClause X) (fetch : Option X)
          (more : X)
          → ¬ Correlated (a_query body order limit fetch more)
          → IsLimited limit fetch
          → Scalar
              (subquery (a_query body order limit fetch more))
              (subquery (a_query body order limit fetch more))
      limited_to_one :
          (body : SetExpr X) (order : OrderBy X) (more : X)
          → ¬ Correlated (a_query body order no_limit none more)
          → Scalar
              (subquery (a_query body order no_limit none more))
              (subquery (a_query body order limit_one none more))
      other : (expr : Expr X) → is_subquery expr ≡ false → Scalar expr expr

    -- Each item, with the alias that it has
    pub data ScalarItems : SelectItems X → SelectItems X → Type 0 where
      nothing : ScalarItems no_items no_items
      plain :
          (expr new : Expr X) (rest new_rest : SelectItems X)
          → Scalar expr new
          → ScalarItems rest new_rest
          → ScalarItems (items (unnamed_expr expr) rest) (items (unnamed_expr new) new_rest)
      named :
          (expr new : Expr X) (alias : Ident) (rest new_rest : SelectItems X)
          → Scalar expr new
          → ScalarItems rest new_rest
          → ScalarItems
              (items (expr_with_alias expr alias) rest)
              (items (expr_with_alias new alias) new_rest)
      a_wildcard :
          (item : SelectItem X) (rest new_rest : SelectItems X)
          → is_wildcard item ≡ true
          → ScalarItems rest new_rest
          → ScalarItems (items item rest) (items item new_rest)

    unfoldable pub IsScalarised : Query X → Query X → Type 0
    IsScalarised (a_query (select (a_select p from filter rest)) order limit fetch more) t =
        (new : SelectItems X) × (t
          ≡ a_query (select (a_select new from filter rest)) order limit fetch more)
        × ScalarItems p new
    IsScalarised q t = t ≡ q

    scalar_expr-clauses :
        (body : SetExpr X) (order : OrderBy X) (limit : LimitClause X) (fetch : Option X) (more : X)
        → has_correlation sqlparser (a_query body order limit fetch more) ≡ false
        → ¬ Correlated (a_query body order limit fetch more)
        → Scalar
            (subquery (a_query body order limit fetch more))
            (scalar_expr sqlparser (subquery (a_query body order limit fetch more)))
    unfolding scalar_expr has_limit
    scalar_expr-clauses body order no_limit none more free own =
        rw free (limited_to_one body order more own)
    scalar_expr-clauses body order no_limit (some x) more free own =
        rw free (kept body order no_limit (some x) more own tt)
    scalar_expr-clauses body order (limit_offset l o b) fetch more free own =
        rw free (kept body order (limit_offset l o b) fetch more own tt)
    scalar_expr-clauses body order (other_limit x) fetch more free own =
        rw free (kept body order (other_limit x) fetch more own tt)

    scalar_expr-Scalar : (expr : Expr X) → Scalar expr (scalar_expr sqlparser expr)
    unfolding scalar_expr
    scalar_expr-Scalar (subquery (a_query body order limit fetch more)) =
        let q = a_query body order limit fetch more in
        elim (Bool-cases (has_correlation sqlparser q)) [
          | inl correlated ↦ rw correlated (nulled q ((has_correlation-Correlated q).0 correlated))
          | inr free ↦ scalar_expr-clauses body order limit fetch more free (not-Correlated q free)
        ]
    scalar_expr-Scalar expr = other expr refl

    map_items-ScalarItems :
        (p : SelectItems X) → ScalarItems p (map_items (scalar_item sqlparser) p)
    unfolding map_items
    map_items-ScalarItems no_items = nothing
    map_items-ScalarItems (items (unnamed_expr expr) rest) =
        plain expr _ rest _ (scalar_expr-Scalar expr) (map_items-ScalarItems rest)
    map_items-ScalarItems (items (expr_with_alias expr alias) rest) =
        named expr _ alias rest _ (scalar_expr-Scalar expr) (map_items-ScalarItems rest)
    map_items-ScalarItems (items item rest) =
        a_wildcard item rest _ refl (map_items-ScalarItems rest)

    -- A query that is a SELECT stays but for the subqueries that stand as items of its projection, with
    -- or without an alias: one that is a SELECT whose walk comes to a parameter of the statement, or to
    -- a column whose qualifier is no table alias of its own FROM clause, becomes NULL; another one
    -- that has a LIMIT, OFFSET or FETCH clause stays, and any other gets exactly `LIMIT 1`. Every
    -- other query stays.
    pub remove_subqueries-IsScalarised :
        (q : Query X) → IsScalarised q (remove_subqueries sqlparser q)
    unfolding remove_subqueries IsScalarised
    remove_subqueries-IsScalarised
          (a_query (select (a_select p from filter rest)) order limit fetch more) =
        (map_items (scalar_item sqlparser) p, refl, map_items-ScalarItems p)
    remove_subqueries-IsScalarised (a_query (other_body x) order limit fetch more) = refl
