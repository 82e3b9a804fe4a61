-- ===== src/Rules/Aliases/Items.antt =====
-- The items of a projection, and what `AliasDuplicatedProjectionRewrite` is to make of each.
use Prim.Native.String
use mathlib.Core.Bool.{true≢false}
use datafusion_postgres.Prelude.{
  ◌≤◌, String, Bool, true, false, Option, some, List, [], ◌∷◌, ◌++◌, map, ◌≡◌, ◌⊎◌, refl, sym, ap,
  ◌∙◌, arith, inl, inr, Bool-cases, str_eq,
}
use datafusion_postgres.Prelude.Lists.{Any, any, any_iff, length}
use datafusion_postgres.Ast.{
  Ident, ident_new, Expr, SelectItem, SelectItems, no_items, items, unnamed_expr, expr_with_alias,
  a_select, select, a_query, Statement, query, map_items,
}
use datafusion_postgres.Ast.Expr.{identifier, compound_identifier}
use datafusion_postgres.Rules.{SqlParser}
use datafusion_postgres.Rules.Names.{dotted, ident_text}
use datafusion_postgres.Rules.Aliases.{
  qualified, matched, wildcard_tables, has_simple_wildcard, aliased, alias_item, alias_projection,
}

-- The qualifier is the name of one of the tables.
abbrev pub Qualifies : List String → List Ident → Type 0
Qualifies tables qualifier =
    Any (λ table. str_eq table (dotted (map ident_text qualifier)) ≡ true) tables

module _ {X : Type 0} where
  -- Not an item without an alias
  abbrev pub is_settled : SelectItem X → Bool
  is_settled (unnamed_expr _) = false
  is_settled _ = true

  -- Not an identifier, bare or qualified
  abbrev pub is_opaque : Expr X → Bool
  is_opaque (identifier _) = false
  is_opaque (compound_identifier _) = false
  is_opaque _ = true

  module _ (print_ident : Ident → String) where
    abbrev pub with_alias : Expr X → Ident → SelectItem X
    with_alias expr name =
        expr_with_alias expr (ident_new (String.◌++◌ "__alias_" (print_ident name)))

    pub data Aliased (tables : List String) : SelectItem X → SelectItem X → Type 0 where
      settled : (item : SelectItem X) → is_settled item ≡ true → Aliased tables item item
      bare :
          (i : Ident) → Aliased tables (unnamed_expr (identifier i)) (with_alias (identifier i) i)
      of_wildcard :
          (i : Ident) (more : List Ident) (column : Ident)
          → Qualifies tables (i ∷ more)
          → Aliased tables
              (unnamed_expr (compound_identifier (i ∷ (more ++ column ∷ []))))
              (with_alias (compound_identifier (i ∷ (more ++ column ∷ []))) column)
      of_other :
          (i : Ident) (more : List Ident) (column : Ident)
          → ¬ Qualifies tables (i ∷ more)
          → Aliased tables
              (unnamed_expr (compound_identifier (i ∷ (more ++ column ∷ []))))
              (unnamed_expr (compound_identifier (i ∷ (more ++ column ∷ []))))
      unqualified :
          (idents : List Ident)
          → length idents ≤ 1
          → Aliased tables
              (unnamed_expr (compound_identifier idents))
              (unnamed_expr (compound_identifier idents))
      opaque :
          (expr : Expr X)
          → is_opaque expr ≡ true
          → Aliased tables (unnamed_expr expr) (unnamed_expr expr)

    pub data EachAliased (tables : List String) : SelectItems X → SelectItems X → Type 0 where
      nothing : EachAliased tables no_items no_items
      one_more :
          (item new : SelectItem X) (rest new_rest : SelectItems X)
          → Aliased tables item new
          → EachAliased tables rest new_rest
          → EachAliased tables (items item rest) (items new new_rest)

    -- Without any wildcard nothing changes.
    abbrev pub AliasedBy : List String → SelectItems X → SelectItems X → Type 0
    AliasedBy [] projection new =
        ((has_simple_wildcard projection ≡ true) × EachAliased [] projection new)
        ⊎ ((has_simple_wildcard projection ≡ false) × (new ≡ projection))
    AliasedBy (table ∷ tables) projection new = EachAliased (table ∷ tables) projection new

    -- The second statement is the first one but for its projection.
    unfoldable pub IsAliased : Statement X → Statement X → Type 0
    IsAliased (query (a_query (select (a_select p from filter rest)) order limit fetch more)) t =
        (found : List String) × (wildcard_tables p ≡ some found)
        × (new : SelectItems X) × (t
            ≡ query (a_query (select (a_select new from filter rest)) order limit fetch more))
        × AliasedBy found p new
    IsAliased s t = t ≡ s

qualified_parts :
    (i j : Ident) (rest : List Ident)
    → (first : Ident) × (more : List Ident) × (column : Ident) × (qualified (i ∷ j ∷ rest)
        ≡ some (first ∷ more, column))
      × (i ∷ j ∷ rest ≡ first ∷ (more ++ column ∷ []))
unfolding qualified
qualified_parts i j [] = (i, [], j, refl, refl)
qualified_parts i j (k ∷ rest) =
    let (first, more, column, found, whole) = qualified_parts j k rest in
    (i, first ∷ more, column, rw found refl, ap (λ l. i ∷ l) whole)

module _ {X : Type 0} (sqlparser : SqlParser X) (tables : List String) where
  abbrev Becomes : Expr X → Option Ident → Type 0
  Becomes expr found =
      Aliased sqlparser.print_ident tables (unnamed_expr expr) (aliased sqlparser expr found)

  column-Becomes :
      (i : Ident) (more : List Ident) (column : Ident)
      → Becomes
          (compound_identifier (i ∷ (more ++ column ∷ [])))
          (matched tables (some (i ∷ more, column)))
  unfolding any
  column-Becomes i more column =
      let test : String → Bool = λ table. str_eq table (dotted (map ident_text (i ∷ more))) in
      elim (Bool-cases (any test tables)) [
        | inl known ↦ rw known (of_wildcard i more column ((any_iff test tables).0 known))
        | inr unknown ↦
            rw unknown
              (of_other i more column (λ h. true≢false (sym ((any_iff test tables).1 h) ∙ unknown)))
      ]

  parts_become :
      (idents : List Ident) (i : Ident) (more : List Ident) (column : Ident)
      → qualified idents ≡ some (i ∷ more, column)
      → idents ≡ i ∷ (more ++ column ∷ [])
      → Becomes (compound_identifier idents) (matched tables (qualified idents))
  parts_become idents i more column found whole = rw found (rw whole (column-Becomes i more column))

  compound-Becomes :
      (idents : List Ident)
      → Becomes (compound_identifier idents) (matched tables (qualified idents))
  unfolding qualified
  compound-Becomes [] = unqualified [] (omega arith)
  compound-Becomes (i ∷ []) = unqualified (i ∷ []) (omega arith)
  compound-Becomes (i ∷ j ∷ rest) =
      let (first, more, column, found, whole) = qualified_parts i j rest in
      parts_become (i ∷ j ∷ rest) first more column found whole

  alias_item-Aliased :
      (item : SelectItem X)
      → Aliased sqlparser.print_ident tables item (alias_item sqlparser tables item)
  unfolding alias_item
  alias_item-Aliased (unnamed_expr (identifier i)) = bare i
  alias_item-Aliased (unnamed_expr (compound_identifier idents)) = compound-Becomes idents
  alias_item-Aliased (unnamed_expr expr) = opaque expr refl
  alias_item-Aliased item = settled item refl

  each-Aliased :
      (projection : SelectItems X)
      → EachAliased sqlparser.print_ident tables projection
          (map_items (alias_item sqlparser tables) projection)
  unfolding map_items
  each-Aliased no_items = nothing
  each-Aliased (items item rest) =
      one_more item _ rest _ (alias_item-Aliased item) (each-Aliased rest)

module _ {X : Type 0} (sqlparser : SqlParser X) where
  pub alias_projection-AliasedBy :
      (tables : List String) (projection : SelectItems X)
      → AliasedBy sqlparser.print_ident tables projection
          (alias_projection sqlparser tables projection)
  alias_projection-AliasedBy [] projection = elim (Bool-cases (has_simple_wildcard projection)) [
    | inl wild ↦ rw wild (inl (refl, each-Aliased sqlparser [] projection))
    | inr tame ↦ rw tame (inr (refl, refl))
  ]
  alias_projection-AliasedBy (table ∷ tables) projection =
      each-Aliased sqlparser (table ∷ tables) projection
