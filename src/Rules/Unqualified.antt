-- ===== src/Rules/Unqualified.antt =====
-- datafusion-pg-catalog/src/sql/rules.rs: `ResolveUnqualifiedIdentifier`. A set of names is the list
-- of them.
pub mod Qualified
pub mod Resolved
use mathlib.Core.Option
use datafusion_postgres.Prelude.{
  String, Bool, true, false, not, ◌&&◌, Option, none, some, List, [], ◌∷◌, ◌++◌, str_eq,
  if◌then◌else◌,
}
use datafusion_postgres.Prelude.Lists.{any}
use datafusion_postgres.Ast.{
  Ident, ident_new, Expr, OptExpr, no_expr, some_expr, TableFactor, table, other_factor, Join,
  TableWithJoins, SelectItem, SelectItems, no_items, items, unnamed_expr, expr_with_alias,
  qualified_wildcard, OrderBy, order_expressions, OrderByExprs, no_order_exprs, order_exprs, Select,
  a_select, SetExpr, select, Query, a_query, Statement, query,
}
use datafusion_postgres.Ast.Expr.{identifier, compound_identifier, binary_op}
use datafusion_postgres.Rules.Names.{object_name_text, push_name}

-- `HashSet::contains`
unfoldable pub contains : List String → String → Bool
unfolding any
contains names name = any (λ n. str_eq n name) names

abbrev single : List String → Option String
single (name ∷ []) = some name
single _ = none

module _ {X : Type 0} where
  abbrev pub factor_alias : TableFactor X → List String
  factor_alias (table _ (some alias) _ _) = alias.text ∷ []
  factor_alias _ = []

  abbrev pub join_aliases : List (Join X) → List String
  join_aliases [] = []
  join_aliases (join ∷ joins) = factor_alias join.joined ++ join_aliases joins

  unfoldable pub get_table_aliases : List (TableWithJoins X) → List String
  get_table_aliases [] = []
  get_table_aliases (t ∷ tables) =
      factor_alias t.relation ++ (join_aliases t.joins ++ get_table_aliases tables)

  -- The qualified wildcards of a projection: `none` is the panic of `unwrap`
  abbrev pub qualified_wildcards : SelectItems X → Option (List String)
  qualified_wildcards no_items = some []
  qualified_wildcards (items (qualified_wildcard name _) rest) =
      push_name (object_name_text name) (qualified_wildcards rest)
  qualified_wildcards (items _ rest) = qualified_wildcards rest

  unfoldable pub get_qualified_wildcard_alias : SelectItems X → Option (Option String)
  unfolding object_name_text
  get_qualified_wildcard_alias projection = Option.map single (qualified_wildcards projection)

  unfoldable pub get_projection_aliases : SelectItems X → List String
  get_projection_aliases no_items = []
  get_projection_aliases (items (expr_with_alias _ alias) rest) =
      alias.text ∷ get_projection_aliases rest
  get_projection_aliases (items (unnamed_expr (identifier i)) rest) =
      i.text ∷ get_projection_aliases rest
  get_projection_aliases (items _ rest) = get_projection_aliases rest

  -- The last two arguments are the table aliases and the projection aliases.
  unfoldable pub rewrite_expr : String → List String → List String → Expr X → Expr X
  unfolding contains
  rewrite_expr wild tables names (identifier i) =
      if not (contains tables i.text) && not (contains names i.text)
      then compound_identifier (ident_new wild ∷ i ∷ [])
      else identifier i
  rewrite_expr wild tables names (binary_op left op right) =
      binary_op (rewrite_expr wild tables names left) op (rewrite_expr wild tables names right)
  rewrite_expr wild tables names expr = expr

  abbrev pub rewrite_selection : (Expr X → Expr X) → OptExpr X → OptExpr X
  rewrite_selection f no_expr = no_expr
  rewrite_selection f (some_expr expr) = some_expr (f expr)

  abbrev pub rewrite_order_exprs : (Expr X → Expr X) → OrderByExprs X → OrderByExprs X
  rewrite_order_exprs f no_order_exprs = no_order_exprs
  rewrite_order_exprs f (order_exprs expr options rest) =
      order_exprs (f expr) options (rewrite_order_exprs f rest)

  abbrev pub rewrite_order : (Expr X → Expr X) → OrderBy X → OrderBy X
  rewrite_order f (order_expressions order rest) =
      order_expressions (rewrite_order_exprs f order) rest
  rewrite_order f order = order

  -- What happens to the WHERE and ORDER BY clauses, by the alias of the wildcard and the tables'.
  abbrev pub resolve : List String → Option String → SelectItems X → Expr X → Expr X
  resolve tables none projection expr = expr
  resolve [] (some wild) projection expr = expr
  resolve (t ∷ tables) (some wild) projection expr =
      rewrite_expr wild (t ∷ tables) (get_projection_aliases projection) expr

  unfoldable pub rewrite_unqualified_identifiers : Query X → Option (Query X)
  unfolding get_table_aliases get_qualified_wildcard_alias get_projection_aliases rewrite_expr
  rewrite_unqualified_identifiers
        (a_query (select (a_select projection from selection rest)) order limit fetch more) =
      Option.map
        (λ wild.
          let f = resolve (get_table_aliases from) wild projection in
          a_query (select (a_select projection from (rewrite_selection f selection) rest))
            (rewrite_order f order) limit fetch more)
        (get_qualified_wildcard_alias projection)
  rewrite_unqualified_identifiers q = some q

  -- `ResolveUnqualifiedIdentifier::rewrite`
  unfoldable pub resolve_unqualified_identifier : Statement X → Option (Statement X)
  unfolding rewrite_unqualified_identifiers
  resolve_unqualified_identifier (query q) = Option.map query (rewrite_unqualified_identifiers q)
  resolve_unqualified_identifier s = some s
