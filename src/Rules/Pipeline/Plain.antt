-- ===== src/Rules/Pipeline/Plain.antt =====
-- The nodes of a statement in DataFusion's own terms, rule by rule.
use mathlib.Core.Bool.{true≢false}
use Prim.Native.Char.{Char}
use datafusion_postgres.Prelude.{
  String, Bool, false, Option, none, some, List, [], ◌∷◌, ◌≡◌, refl, ap, str_eq,
}
use datafusion_postgres.Prelude.Lists.{All, any}
use datafusion_postgres.Prelude.Dict
use datafusion_postgres.Prelude.Dict.{Dict}
use datafusion_postgres.Ast.{
  ObjectName, ident, function_part, argument_list, no_args, single_quoted_string, placeholder, eq,
  not_eq, pg_custom, CastKind, DataType, TableFactor, table, Expr, SelectItem, SelectItems,
  no_items, items, unnamed_expr, expr_with_alias, a_select, select, Query, a_query, map_items,
}
use datafusion_postgres.Ast.Expr.{
  identifier, value, binary_op, any_op, all_op, cast, function, collate, subquery,
}
use datafusion_postgres.Rules.{Nodes, SqlParser}
use datafusion_postgres.Rules.Arrays.{rewrite_any_all, fixed_operand, fix_array_literal}
use datafusion_postgres.Rules.Tables.{
  pg_catalog_tables, eq_ignore_ascii_case, is_pg_catalog_table, qualify_pg_table,
  prepend_pg_catalog, strip_name, strip_table_function, strip_function,
}
use datafusion_postgres.Rules.Registers.{
  rename_target, unquoted_target, LowerCase, last_ident_lower, rewrite_register,
}
use datafusion_postgres.Rules.Small.{
  strip_collate, rewrite_operator, name_version, fix_version_column_name,
}
use datafusion_postgres.Rules.RegCast.{is_name_operand, rewrite_reg_cast}
use datafusion_postgres.Rules.Scalars.{scalar_expr, scalar_item, remove_subqueries}

-- A bare name, by its quotes and its text in lower case, that is no special register
abbrev pub IsColumn : Option Char → String → Type 0
IsColumn (some _) lower = Unit
IsColumn none lower = str_eq "current_schema" lower ≡ false

column_lem :
    (quotes : Option Char) (lower : String)
    → IsColumn quotes lower
    → unquoted_target quotes lower ≡ none
unfolding Dict.get
column_lem (some c) lower h = refl
column_lem none lower h = rw h refl

any-none :
    (test : String → Bool) (names : List String)
    → All (λ n. test n ≡ false) names
    → any test names ≡ false
unfolding any
any-none test [] h = refl
any-none test (n ∷ names) h = rw h.0 (any-none test names h.1)

module _ {X : Type 0} (unicode : LowerCase) where
  -- Neither a string literal nor a parameter
  abbrev pub IsComputed : Expr X → Type 0
  IsComputed (value (single_quoted_string _)) = ⊥
  IsComputed (value (placeholder _)) = ⊥
  IsComputed _ = Unit

  -- A function's name without a schema, that is no special register
  abbrev pub IsCallable : ObjectName X → Type 0
  IsCallable (ident i ∷ []) =
      (str_eq "current_user" (unicode.to_lowercase i.text) ≡ false)
      × (str_eq "current_catalog" (unicode.to_lowercase i.text) ≡ false)
  IsCallable [] = Unit
  IsCallable (function_part _ ∷ []) = Unit
  IsCallable _ = ⊥

  computed_lem : (operand : Expr X) → IsComputed operand → is_name_operand operand ≡ false
  unfolding is_name_operand
  computed_lem (value (single_quoted_string s)) h = absurd h
  computed_lem (value (placeholder s)) h = absurd h
  computed_lem _ h = refl

  callable_lem :
      (name : ObjectName X)
      → IsCallable name
      → (strip_name name ≡ name) × (rename_target (last_ident_lower unicode name) ≡ none)
  unfolding strip_name last_ident_lower Dict.get
  callable_lem [] h = (refl, refl)
  callable_lem (ident i ∷ []) (no_user, no_catalog) = (refl, rw (no_user, no_catalog) refl)
  callable_lem (function_part x ∷ []) h = (refl, refl)
  callable_lem (ident i ∷ next ∷ parts) h = absurd h
  callable_lem (function_part x ∷ next ∷ parts) h = absurd h

  -- An expression without what only PostgreSQL has: quantified comparisons that can be lowered, COLLATE,
  -- operators with a schema, functions with a schema, the special registers, casts of literals
  unfoldable pub IsPlainExpr : Expr X → Type 0
  IsPlainExpr (any_op _ eq _ _) = ⊥
  IsPlainExpr (all_op _ not_eq _) = ⊥
  IsPlainExpr (collate _ _) = ⊥
  IsPlainExpr (binary_op _ (pg_custom _) _) = ⊥
  IsPlainExpr (cast _ operand _ _) = IsComputed operand
  IsPlainExpr (identifier i) = IsColumn i.quote_style (unicode.to_lowercase i.text)
  IsPlainExpr (function name _ _) = IsCallable name
  IsPlainExpr _ = Unit

  pub any_all_plain : (expr : Expr X) → IsPlainExpr expr → rewrite_any_all expr ≡ expr
  unfolding rewrite_any_all IsPlainExpr
  any_all_plain (any_op l eq r x) h = absurd h
  any_all_plain (all_op l not_eq r) h = absurd h
  any_all_plain _ h = refl

  fixed_operand_plain :
      (operand : Expr X) (kind : CastKind X) (type : DataType X)
      → is_name_operand operand ≡ false
      → fixed_operand operand kind type ≡ operand
  unfolding fixed_operand is_name_operand
  fixed_operand_plain (value (single_quoted_string s)) kind type h = absurd (true≢false h)
  fixed_operand_plain _ kind type h = refl

  pub fix_array_plain : (expr : Expr X) → IsPlainExpr expr → fix_array_literal expr ≡ expr
  unfolding fix_array_literal IsPlainExpr
  fix_array_plain (cast kind operand type format) h =
      ap (λ o. cast kind o type format)
        (fixed_operand_plain operand kind type (computed_lem operand h))
  fix_array_plain _ h = refl

  pub strip_function_plain : (expr : Expr X) → IsPlainExpr expr → strip_function expr ≡ expr
  unfolding strip_function IsPlainExpr
  strip_function_plain (function name args rest) h =
      ap (λ n. function n args rest) (callable_lem name h).0
  strip_function_plain _ h = refl

  pub register_plain : (expr : Expr X) → IsPlainExpr expr → rewrite_register unicode expr ≡ expr
  unfolding rewrite_register IsPlainExpr
  register_plain (identifier i) h =
      rw (column_lem i.quote_style (unicode.to_lowercase i.text) h) refl
  register_plain (function name args rest) h = rw (callable_lem name h).1 refl
  register_plain _ h = refl

  pub collate_plain : (expr : Expr X) → IsPlainExpr expr → strip_collate expr ≡ expr
  unfolding strip_collate IsPlainExpr
  collate_plain (collate inner name) h = absurd h
  collate_plain _ h = refl

  pub operator_plain : (expr : Expr X) → IsPlainExpr expr → rewrite_operator expr ≡ expr
  unfolding rewrite_operator IsPlainExpr
  operator_plain (binary_op l (pg_custom names) r) h = absurd h
  operator_plain _ h = refl

  pub reg_cast_plain :
      (sqlparser : SqlParser X) (templates : Dict (Query X)) (expr : Expr X)
      → IsPlainExpr expr
      → rewrite_reg_cast sqlparser unicode templates expr ≡ expr
  unfolding rewrite_reg_cast IsPlainExpr
  reg_cast_plain sqlparser templates (cast kind operand type format) h =
      rw (computed_lem operand h) refl
  reg_cast_plain sqlparser templates _ h = refl

module _ {X : Type 0} where
  -- A name that is no bare relation of pg_catalog
  unfoldable pub IsRelation : ObjectName X → Type 0
  IsRelation (ident i ∷ []) =
      All (λ relation. eq_ignore_ascii_case relation i.text ≡ false) pg_catalog_tables
  IsRelation _ = Unit

  abbrev pub IsSingle : ObjectName X → Type 0
  IsSingle (_ ∷ _ ∷ _) = ⊥
  IsSingle _ = Unit

  relation_lem : (name : ObjectName X) → IsRelation name → qualify_pg_table name ≡ name
  unfolding qualify_pg_table is_pg_catalog_table IsRelation
  relation_lem (ident i ∷ []) h =
      rw (any-none (λ relation. eq_ignore_ascii_case relation i.text) pg_catalog_tables h) refl
  relation_lem _ h = refl

  single_lem : (name : ObjectName X) → IsSingle name → strip_name name ≡ name
  unfolding strip_name
  single_lem [] h = refl
  single_lem (part ∷ []) h = refl
  single_lem (part ∷ next ∷ parts) h = absurd h

  -- A table that is no bare relation of pg_catalog, or a table function without schema
  unfoldable pub IsPlainFactor : TableFactor X → Type 0
  IsPlainFactor (table name _ none _) = IsRelation name
  IsPlainFactor (table name _ (some _) _) = IsSingle name
  IsPlainFactor _ = Unit

  pub prepend_plain :
      (factor : TableFactor X) → IsPlainFactor factor → prepend_pg_catalog factor ≡ factor
  unfolding prepend_pg_catalog IsPlainFactor
  prepend_plain (table name alias none rest) h =
      ap (λ n. table n alias none rest) (relation_lem name h)
  prepend_plain _ h = refl

  pub strip_table_plain :
      (factor : TableFactor X) → IsPlainFactor factor → strip_table_function factor ≡ factor
  unfolding strip_table_function IsPlainFactor
  strip_table_plain (table name alias (some args) rest) h =
      ap (λ n. table n alias (some args) rest) (single_lem name h)
  strip_table_plain _ h = refl

  -- An item of a projection that is neither a subquery nor a call `version()` without an alias
  abbrev pub IsPlainItem : SelectItem X → Type 0
  IsPlainItem (unnamed_expr (subquery _)) = ⊥
  IsPlainItem (expr_with_alias (subquery _) _) = ⊥
  IsPlainItem (unnamed_expr (function (ident i ∷ []) (argument_list no_args _ _) _)) =
      str_eq i.text "version" ≡ false
  IsPlainItem _ = Unit

  abbrev pub IsPlainItems : SelectItems X → Type 0
  IsPlainItems no_items = Unit
  IsPlainItems (items item rest) = IsPlainItem item × IsPlainItems rest

  unfoldable pub IsPlainQuery : Query X → Type 0
  IsPlainQuery (a_query (select (a_select projection _ _ _)) _ _ _ _) = IsPlainItems projection
  IsPlainQuery _ = Unit

  name_version_plain : (item : SelectItem X) → IsPlainItem item → name_version item ≡ item
  name_version_plain (unnamed_expr (function (ident i ∷ []) (argument_list no_args x clauses) rest))
        h =
      rw h refl
  name_version_plain _ h = refl

  map_items_plain :
      (f : SelectItem X → SelectItem X)
      → ((item : SelectItem X) → IsPlainItem item → f item ≡ item)
      → (projection : SelectItems X) → IsPlainItems projection
      → map_items f projection ≡ projection
  unfolding map_items
  map_items_plain f each no_items h = refl
  map_items_plain f each (items item rest) h =
      rw (each item h.0, map_items_plain f each rest h.1) refl

  pub version_plain : (q : Query X) → IsPlainQuery q → fix_version_column_name q ≡ q
  unfolding fix_version_column_name IsPlainQuery
  version_plain (a_query (select (a_select p from filter rest)) order limit fetch more) h =
      rw (map_items_plain name_version name_version_plain p h) refl
  version_plain _ h = refl

  module _ (sqlparser : SqlParser X) where
    scalar_item_plain : (item : SelectItem X) → IsPlainItem item → scalar_item sqlparser item ≡ item
    unfolding scalar_expr
    scalar_item_plain (unnamed_expr (subquery q)) h = absurd h
    scalar_item_plain (expr_with_alias (subquery q) alias) h = absurd h
    scalar_item_plain _ h = refl

    pub subqueries_plain : (q : Query X) → IsPlainQuery q → remove_subqueries sqlparser q ≡ q
    unfolding remove_subqueries IsPlainQuery
    subqueries_plain (a_query (select (a_select p from filter rest)) order limit fetch more) h =
        rw (map_items_plain (scalar_item sqlparser) scalar_item_plain p h) refl
    subqueries_plain _ h = refl

-- The nodes of a statement that no rule changes
unfoldable pub IsPlain : {X : Type 0} → LowerCase → Nodes X → Type 0
unfolding IsPlainExpr IsPlainFactor IsPlainQuery
IsPlain unicode nodes =
    (All IsPlainQuery nodes.queries
      × All IsPlainFactor nodes.table_factors
      × All (IsPlainExpr unicode) nodes.expressions)
