-- ===== src/Rules/Pipeline/Untouched.antt =====
-- Statements in DataFusion's own terms, through the rules and through `parse`.
use mathlib.Core.Option
use datafusion_postgres.Prelude.{
  String, false, not, Option, none, some, List, [], ◌∷◌, ◌≡◌, ◌⊎◌, refl, ap, ◌∙◌, inl, inr,
  Bool-cases,
}
use datafusion_postgres.Prelude.Lists.{All, any, retain, length}
use datafusion_postgres.Prelude.Dict.{Dict}
use datafusion_postgres.Ast.{
  Ident, SelectItem, SelectItems, no_items, items, unnamed_expr, qualified_wildcard, a_select,
  OptExpr, no_expr, some_expr, OrderBy, no_order, order_expressions, other_order, OrderByExprs,
  no_order_exprs, order_exprs, select, other_body, Query, a_query, Statement, query,
  other_statement, map_items,
}
use datafusion_postgres.Ast.Expr.{identifier, compound_identifier}
use datafusion_postgres.Parser.{Token, is_whitespace, rewrite_abort_to_rollback, Blacklist}
use datafusion_postgres.Parser.Replacement.{
  maybe_replace_tokens_ends, Untouched, maybe_replace_tokens_unmatched,
}
use datafusion_postgres.Rules.{Visitor, IsUntouched, SqlParser}
use datafusion_postgres.Rules.Aliases.{
  wildcard_tables, has_simple_wildcard, qualified, matched, aliased, alias_item, alias_projection,
  rewrite_select_with_alias, alias_duplicated_projection,
}
use datafusion_postgres.Rules.Unqualified.{
  get_table_aliases, get_qualified_wildcard_alias, qualified_wildcards, resolve, rewrite_selection,
  rewrite_order_exprs, rewrite_order, rewrite_unqualified_identifiers,
  resolve_unqualified_identifier,
}
use datafusion_postgres.Rules.Registers.{LowerCase}
use datafusion_postgres.Rules.Pipeline.{visitors, visit_all, rewrite, rewrite_each, parse}
use datafusion_postgres.Rules.Pipeline.Plain.{IsPlain}
use datafusion_postgres.Rules.Pipeline.Visitors.{visitors-IsUntouched}

matched-none : (ends : Option (List Ident × Ident)) → matched [] ends ≡ none
unfolding any
matched-none none = refl
matched-none (some (qualifier, column)) = refl

module _ {X : Type 0} where
  -- A projection without qualified wildcards, and without `*` next to identifiers that have no alias
  abbrev IsUnqualifiedItem : SelectItem X → Type 0
  IsUnqualifiedItem (qualified_wildcard _ _) = ⊥
  IsUnqualifiedItem _ = Unit

  abbrev IsOtherItem : SelectItem X → Type 0
  IsOtherItem (unnamed_expr (identifier _)) = ⊥
  IsOtherItem _ = Unit

  abbrev OfItems : (SelectItem X → Type 0) → SelectItems X → Type 0
  OfItems P no_items = Unit
  OfItems P (items item rest) = P item × OfItems P rest

  unfoldable pub IsPlainStatement : Statement X → Type 0
  IsPlainStatement (query (a_query (select (a_select projection _ _ _)) _ _ _ _)) =
      OfItems IsUnqualifiedItem projection
      × (has_simple_wildcard projection ≡ false ⊎ OfItems IsOtherItem projection)
  IsPlainStatement _ = Unit

  wildcard_tables_none :
      (projection : SelectItems X)
      → OfItems IsUnqualifiedItem projection
      → (wildcard_tables projection ≡ some []) × (qualified_wildcards projection ≡ some [])
  unfolding wildcard_tables
  wildcard_tables_none no_items h = (refl, refl)
  wildcard_tables_none (items (qualified_wildcard name x) rest) h = absurd h.0
  wildcard_tables_none (items _ rest) h = wildcard_tables_none rest h.1

  module _ (sqlparser : SqlParser X) where
    alias_item_kept : (item : SelectItem X) → IsOtherItem item → alias_item sqlparser [] item ≡ item
    unfolding alias_item
    alias_item_kept (unnamed_expr (identifier i)) h = absurd h
    alias_item_kept (unnamed_expr (compound_identifier idents)) h =
        ap (aliased sqlparser (compound_identifier idents)) (matched-none (qualified idents))
    alias_item_kept _ h = refl

    map_items_kept :
        (projection : SelectItems X)
        → OfItems IsOtherItem projection
        → map_items (alias_item sqlparser []) projection ≡ projection
    unfolding map_items
    map_items_kept no_items h = refl
    map_items_kept (items item rest) h = rw (alias_item_kept item h.0, map_items_kept rest h.1) refl

    alias_projection_kept :
        (projection : SelectItems X)
        → has_simple_wildcard projection ≡ false ⊎ OfItems IsOtherItem projection
        → alias_projection sqlparser [] projection ≡ projection
    alias_projection_kept projection (inl tame) = rw tame refl
    alias_projection_kept projection (inr other) =
        elim (Bool-cases (has_simple_wildcard projection)) [
          | inl wild ↦ rw wild (map_items_kept projection other)
          | inr tame ↦ rw tame refl
        ]

    alias_plain :
        (s : Statement X) → IsPlainStatement s → alias_duplicated_projection sqlparser s ≡ some s
    unfolding alias_duplicated_projection rewrite_select_with_alias IsPlainStatement
    alias_plain (query (a_query (select (a_select p from filter rest)) order limit fetch more)) h =
        rw ((wildcard_tables_none p h.0).0, alias_projection_kept p h.1) refl
    alias_plain _ h = refl

  resolve-none :
      (tables : List String) (projection : SelectItems X) (filter : OptExpr X)
      → rewrite_selection (resolve tables none projection) filter ≡ filter
  resolve-none tables projection no_expr = refl
  resolve-none tables projection (some_expr expr) = refl

  order_exprs_none :
      (tables : List String) (projection : SelectItems X) (order : OrderByExprs X)
      → rewrite_order_exprs (resolve tables none projection) order ≡ order
  order_exprs_none tables projection no_order_exprs = refl
  order_exprs_none tables projection (order_exprs expr options rest) =
      ap (order_exprs expr options) (order_exprs_none tables projection rest)

  order_none :
      (tables : List String) (projection : SelectItems X) (order : OrderBy X)
      → rewrite_order (resolve tables none projection) order ≡ order
  order_none tables projection (order_expressions order rest) =
      ap (λ o. order_expressions o rest) (order_exprs_none tables projection order)
  order_none tables projection no_order = refl
  order_none tables projection (other_order x) = refl

  resolve_plain : (s : Statement X) → IsPlainStatement s → resolve_unqualified_identifier s ≡ some s
  unfolding resolve_unqualified_identifier rewrite_unqualified_identifiers
      get_qualified_wildcard_alias IsPlainStatement
  resolve_plain (query (a_query (select (a_select p from filter rest)) order limit fetch more)) h =
      rw
        (
          (wildcard_tables_none p h.0).1,
          resolve-none (get_table_aliases from) p filter,
          order_none (get_table_aliases from) p order,
        )
        refl
  resolve_plain (query (a_query (other_body x) order limit fetch more)) h = refl
  resolve_plain (other_statement x) h = refl

module _ {X : Type 0} (sqlparser : SqlParser X) (unicode : LowerCase)
    (templates : Dict (Query X)) where
  visit_all_untouched :
      (s : Statement X) (vs : List (Visitor X))
      → All (λ visitor. IsUntouched visitor (sqlparser.nodes s)) vs
      → visit_all sqlparser unicode templates vs s ≡ s
  visit_all_untouched s [] h = refl
  visit_all_untouched s (visitor ∷ vs) h =
      rw (sqlparser.visit_untouched visitor s h.0) (visit_all_untouched s vs h.1)

  abbrev pub IsNative : Statement X → Type 0
  IsNative s = IsPlainStatement s × IsPlain unicode (sqlparser.nodes s)

  pub rewrite_plain :
      (s : Statement X) → IsNative s → rewrite sqlparser unicode templates s ≡ some s
  unfolding rewrite Option.bind
  rewrite_plain s (top, plain) =
      rw
        (
          alias_plain sqlparser s top,
          resolve_plain s top,
          visit_all_untouched s (visitors sqlparser unicode templates)
              (visitors-IsUntouched unicode (sqlparser.nodes s) plain sqlparser templates),
        )
        refl

  rewrite_each_plain :
      (statements : List (Statement X))
      → All IsNative statements
      → rewrite_each sqlparser unicode templates statements ≡ some statements
  unfolding Option.bind
  rewrite_each_plain [] h = refl
  rewrite_each_plain (s ∷ statements) h =
      rw (rewrite_plain s h.0, rewrite_each_plain statements h.1) refl

  module _ {E : Type 0} (tokenize : String → E ⊎ List Token)
      (parse_tokens : List Token → E ⊎ List (Statement X)) where
    abbrev pub prepared : List Token → List Token
    prepared tokens = rewrite_abort_to_rollback (retain (λ t. not (is_whitespace t)) tokens)

    -- `PostgresCompatibilityParser::parse` gives the statements that sqlparser reads in the tokens, with
    -- ROLLBACK for ABORT and without whitespace, and panics on none of them, if no pattern of the
    -- blacklist matches and every statement is in DataFusion's own terms: its projection has no qualified
    -- wildcard and no bare identifier next to `*`, and no node of it has what the visitors look for, which
    -- are quantified comparisons that they lower, COLLATE, operators and functions with a schema, special
    -- registers, casts of literals and parameters, bare relations of pg_catalog, projected subqueries and
    -- `version()` without an alias.
    pub parse_plain :
        (blacklist : Blacklist) (input : String) (tokens : List Token)
        → tokenize input ≡ inr tokens
        → Untouched blacklist (prepared tokens)
        → (statements : List (Statement X)) → parse_tokens (prepared tokens) ≡ inr statements
        → All IsNative statements
        → parse sqlparser unicode templates tokenize parse_tokens blacklist input
          ≡ some (inr statements)
    unfolding parse Option.bind
    parse_plain blacklist input tokens e untouched statements parsed native =
        let (out, ended) = maybe_replace_tokens_ends blacklist tokens in
        let same =
          maybe_replace_tokens_unmatched (length tokens) blacklist tokens out untouched ended in
        rw (e, ended ∙ ap some same, parsed, rewrite_each_plain statements native) refl
