-- ===== src/Rules/Unqualified/Resolved.antt =====
-- What `ResolveUnqualifiedIdentifier` leaves in the WHERE and ORDER BY clauses.
use datafusion_postgres.Prelude.{String, Option, some, List, ◌≡◌}
use datafusion_postgres.Ast.{
  Expr, OptExpr, OrderBy, SelectItems, TableWithJoins, LimitClause, a_select, select, Query,
  a_query,
}
use datafusion_postgres.Rules.Unqualified.{
  get_table_aliases, get_qualified_wildcard_alias, rewrite_unqualified_identifiers,
}
use datafusion_postgres.Rules.Unqualified.Qualified.{QualifiedBy, OfSelection, OfOrder}

module _ {X : Type 0} where
  -- The second query is the first one, but for its WHERE and ORDER BY clauses, whose expressions are
  -- qualified by the only qualified wildcard.
  unfoldable pub IsResolvedQuery : Query X → Query X → Type 0
  IsResolvedQuery (a_query (select (a_select projection from filter rest)) order limit fetch more)
        t =
      (wild : Option String) × (get_qualified_wildcard_alias projection ≡ some wild)
      × (new : OptExpr X) × (new_order : OrderBy X) × (t
          ≡ a_query (select (a_select projection from new rest)) new_order limit fetch more)
      × (OfSelection (QualifiedBy (get_table_aliases from) wild projection) filter new)
      × (OfOrder (QualifiedBy (get_table_aliases from) wild projection) order new_order)
  IsResolvedQuery q t = t ≡ q

  abbrev IsSettled : Query X → Query X → Type 0
  IsSettled q t = ((rewrite_unqualified_identifiers t ≡ some t) × IsResolvedQuery q t)

  module _ (projection : SelectItems X) (from : List (TableWithJoins X)) (rest : X)
      (limit : LimitClause X) (fetch : Option X) (more : X) where
    abbrev of_clauses : OptExpr X → OrderBy X → Query X
    of_clauses filter order =
        a_query (select (a_select projection from filter rest)) order limit fetch more
