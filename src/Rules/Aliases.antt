-- ===== src/Rules/Aliases.antt =====
-- datafusion-pg-catalog/src/sql/rules.rs: `AliasDuplicatedProjectionRewrite`.
pub mod Once
pub mod Items
use Prim.Native.String
use mathlib.Core.Option
use datafusion_postgres.Prelude.{
  String, Bool, true, false, Option, none, some, List, [], ◌∷◌, map, ◌≡◌, refl, ap, ◌∙◌, str_eq,
  if◌then◌else◌,
}
use datafusion_postgres.Prelude.Lists.{any}
use datafusion_postgres.Ast.{
  Ident, ident_new, Expr, SelectItem, SelectItems, no_items, items, unnamed_expr, expr_with_alias,
  qualified_wildcard, wildcard, Select, a_select, SetExpr, select, Query, a_query, Statement, query,
  map_items,
}
use datafusion_postgres.Ast.Expr.{identifier, compound_identifier}
use datafusion_postgres.Rules.{SqlParser}
use datafusion_postgres.Rules.Names.{dotted, object_name_text, push_name, ident_text}

-- `idents[..idents.len() - 1]` and the last one, of two identifiers or more
unfoldable pub qualified : List Ident → Option (List Ident × Ident)
qualified [] = none
qualified (i ∷ []) = none
qualified (i ∷ j ∷ []) = some (i ∷ [], j)
qualified (i ∷ j ∷ k ∷ rest) = Option.map (λ ends. (i ∷ ends.0, ends.1)) (qualified (j ∷ k ∷ rest))

-- The column, if its qualifier is that of a wildcard
abbrev pub matched : List String → Option (List Ident × Ident) → Option Ident
matched tables none = none
matched tables (some (qualifier, column)) =
    if any (λ table. str_eq table (dotted (map ident_text qualifier))) tables
    then some column
    else none

module _ {X : Type 0} where
  -- `wildcard_tables`: `none` is a panic
  unfoldable pub wildcard_tables : SelectItems X → Option (List String)
  wildcard_tables no_items = some []
  wildcard_tables (items (qualified_wildcard name _) rest) =
      push_name (object_name_text name) (wildcard_tables rest)
  wildcard_tables (items _ rest) = wildcard_tables rest

  unfoldable pub has_simple_wildcard : SelectItems X → Bool
  has_simple_wildcard no_items = false
  has_simple_wildcard (items (wildcard _) rest) = true
  has_simple_wildcard (items _ rest) = has_simple_wildcard rest

  abbrev pub alias_partial : List String → Expr X → Option Ident
  alias_partial tables (identifier i) = some i
  alias_partial tables (compound_identifier idents) = matched tables (qualified idents)
  alias_partial tables _ = none

module _ {X : Type 0} (sqlparser : SqlParser X) where
  abbrev pub aliased : Expr X → Option Ident → SelectItem X
  aliased expr none = unnamed_expr expr
  aliased expr (some name) =
      expr_with_alias expr (ident_new (String.◌++◌ "__alias_" (sqlparser.print_ident name)))

  unfoldable pub alias_item : List String → SelectItem X → SelectItem X
  unfolding any dotted qualified
  alias_item tables (unnamed_expr expr) = aliased expr (alias_partial tables expr)
  alias_item tables item = item

  abbrev pub alias_projection : List String → SelectItems X → SelectItems X
  alias_projection [] projection =
      if has_simple_wildcard projection then map_items (alias_item []) projection else projection
  alias_projection (table ∷ tables) projection = map_items (alias_item (table ∷ tables)) projection

  unfoldable pub rewrite_select_with_alias : Select X → Option (Select X)
  unfolding map_items alias_item wildcard_tables has_simple_wildcard
  rewrite_select_with_alias (a_select projection tables selection rest) =
      Option.map (λ found. a_select (alias_projection found projection) tables selection rest)
        (wildcard_tables projection)

  -- `AliasDuplicatedProjectionRewrite::rewrite`
  unfoldable pub alias_duplicated_projection : Statement X → Option (Statement X)
  unfolding rewrite_select_with_alias
  alias_duplicated_projection (query (a_query (select body) order limit fetch rest)) =
      Option.map (λ new. query (a_query (select new) order limit fetch rest))
        (rewrite_select_with_alias body)
  alias_duplicated_projection s = some s
