-- ===== src/Rules/Aliases/Once.antt =====
-- A first and a second run of `AliasDuplicatedProjectionRewrite`.
use datafusion_postgres.Prelude.{String, Option, some, List, ◌≡◌}
use datafusion_postgres.Ast.{
  SelectItems, a_select, select, a_query, Statement, query, TableWithJoins, OptExpr, OrderBy,
  LimitClause,
}
use datafusion_postgres.Rules.{SqlParser}
use datafusion_postgres.Rules.Aliases.{
  wildcard_tables, alias_projection, alias_duplicated_projection,
}
use datafusion_postgres.Rules.Aliases.Items.{IsAliased}

module _ {X : Type 0} (sqlparser : SqlParser X) where
  -- What the rewriting of a projection keeps: the wildcards' tables and itself.
  module _ (projection : SelectItems X) where
    IsKept : List String → SelectItems X → Type 0
    IsKept found new =
        ((wildcard_tables new ≡ wildcard_tables projection)
          × (alias_projection sqlparser found new ≡ new))

  abbrev IsOnce : Statement X → Statement X → Type 0
  IsOnce s t =
      ((alias_duplicated_projection sqlparser t ≡ some t) × IsAliased sqlparser.print_ident s t)

  module _ (from : List (TableWithJoins X)) (filter : OptExpr X) (rest : X) (order : OrderBy X)
      (limit : LimitClause X) (fetch : Option X) (more : X) where
    abbrev of_items : SelectItems X → Statement X
    of_items p = query (a_query (select (a_select p from filter rest)) order limit fetch more)
