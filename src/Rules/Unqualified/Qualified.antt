-- ===== src/Rules/Unqualified/Qualified.antt =====
-- An expression and what `ResolveUnqualifiedIdentifier` is to make of it.
use datafusion_postgres.Prelude.{
  String, Bool, true, false, Option, none, some, List, [], ◌∷◌, ◌≡◌, refl, sym, ◌∙◌, inl, inr,
  Bool-cases, str_eq,
}
use mathlib.Core.Bool.{true≢false}
use datafusion_postgres.Prelude.Lists.{Any, any_iff}
use datafusion_postgres.Ast.{
  Ident, ident_new, Expr, OptExpr, no_expr, some_expr, OrderBy, no_order, order_expressions,
  other_order, OrderByExprs, no_order_exprs, order_exprs, SelectItems, BinaryOperator,
}
use datafusion_postgres.Ast.Expr.{identifier, compound_identifier, binary_op}
use datafusion_postgres.Rules.Unqualified.{
  contains, get_projection_aliases, rewrite_expr, rewrite_selection, rewrite_order_exprs,
  rewrite_order, resolve,
}

-- One of the names
abbrev pub Named : List String → Ident → Type 0
Named names i = Any (λ n. str_eq n i.text ≡ true) names

contains-Named : (names : List String) (i : Ident) → contains names i.text ≡ true → Named names i
unfolding contains
contains-Named names i h = (any_iff (λ n. str_eq n i.text) names).0 h

free_not-Named : (names : List String) (i : Ident) → contains names i.text ≡ false → ¬ Named names i
unfolding contains
free_not-Named names i h named =
    true≢false (sym ((any_iff (λ n. str_eq n i.text) names).1 named) ∙ h)

module _ {X : Type 0} where
  -- Neither an identifier nor a binary operator
  abbrev pub is_opaque : Expr X → Bool
  is_opaque (identifier _) = false
  is_opaque (binary_op _ _ _) = false
  is_opaque _ = true

  pub data Qualified (wild : String) (tables names : List String) : Expr X → Expr X → Type 0 where
    of_table :
        (i : Ident) → Named tables i → Qualified wild tables names (identifier i) (identifier i)
    of_column :
        (i : Ident) → Named names i → Qualified wild tables names (identifier i) (identifier i)
    bare :
        (i : Ident)
        → ¬ Named tables i
        → ¬ Named names i
        → Qualified wild tables names (identifier i) (compound_identifier (ident_new wild ∷ i ∷ []))
    both :
        (left right new_left new_right : Expr X) (op : BinaryOperator X)
        → Qualified wild tables names left new_left
        → Qualified wild tables names right new_right
        → Qualified wild tables names (binary_op left op right) (binary_op new_left op new_right)
    kept : (expr : Expr X) → is_opaque expr ≡ true → Qualified wild tables names expr expr

  rewrite_expr-Qualified :
      (wild : String) (tables names : List String) (expr : Expr X)
      → Qualified wild tables names expr (rewrite_expr wild tables names expr)
  unfolding rewrite_expr
  rewrite_expr-Qualified wild tables names (identifier i) =
      elim (Bool-cases (contains tables i.text)) [
        | inl is_table ↦ rw is_table (of_table i (contains-Named tables i is_table))
        | inr no_table ↦ elim (Bool-cases (contains names i.text)) [
          | inl is_name ↦ rw (no_table, is_name) (of_column i (contains-Named names i is_name))
          | inr no_name ↦
              rw (no_table, no_name)
                (bare i (free_not-Named tables i no_table) (free_not-Named names i no_name))
        ]
      ]
  rewrite_expr-Qualified wild tables names (binary_op left op right) =
      both left right _ _ op (rewrite_expr-Qualified wild tables names left)
        (rewrite_expr-Qualified wild tables names right)
  rewrite_expr-Qualified wild tables names expr = kept expr refl

  -- Without one wildcard, or without an alias of a table, nothing changes.
  abbrev pub QualifiedBy : List String → Option String → SelectItems X → Expr X → Expr X → Type 0
  QualifiedBy tables none projection expr new = new ≡ expr
  QualifiedBy [] (some wild) projection expr new = new ≡ expr
  QualifiedBy (t ∷ tables) (some wild) projection expr new =
      Qualified wild (t ∷ tables) (get_projection_aliases projection) expr new

  pub resolve-QualifiedBy :
      (tables : List String) (wild : Option String) (projection : SelectItems X) (expr : Expr X)
      → QualifiedBy tables wild projection expr (resolve tables wild projection expr)
  resolve-QualifiedBy tables none projection expr = refl
  resolve-QualifiedBy [] (some wild) projection expr = refl
  resolve-QualifiedBy (t ∷ tables) (some wild) projection expr =
      rewrite_expr-Qualified wild (t ∷ tables) (get_projection_aliases projection) expr

-- The expressions of the WHERE and ORDER BY clauses one by one, and the rest as it was.
module _ {X : Type 0} (P : Expr X → Expr X → Type 0) where
  abbrev pub OfSelection : OptExpr X → OptExpr X → Type 0
  OfSelection no_expr new = new ≡ no_expr
  OfSelection (some_expr expr) new =
      (new_expr : Expr X) × (new ≡ some_expr new_expr) × P expr new_expr

  abbrev OfOrderExprs : OrderByExprs X → OrderByExprs X → Type 0
  OfOrderExprs no_order_exprs new = new ≡ no_order_exprs
  OfOrderExprs (order_exprs expr options rest) new =
      (new_expr : Expr X) × (new_rest : OrderByExprs X) × (new
        ≡ order_exprs new_expr options new_rest)
      × P expr new_expr
      × OfOrderExprs rest new_rest

  abbrev pub OfOrder : OrderBy X → OrderBy X → Type 0
  OfOrder (order_expressions order rest) new =
      (new_order : OrderByExprs X) × (new ≡ order_expressions new_order rest)
      × OfOrderExprs order new_order
  OfOrder order new = new ≡ order

  module _ (f : Expr X → Expr X) (made : (expr : Expr X) → P expr (f expr)) where
    pub selection_made : (filter : OptExpr X) → OfSelection filter (rewrite_selection f filter)
    selection_made no_expr = refl
    selection_made (some_expr expr) = (f expr, refl, made expr)

    order_exprs_made : (order : OrderByExprs X) → OfOrderExprs order (rewrite_order_exprs f order)
    order_exprs_made no_order_exprs = refl
    order_exprs_made (order_exprs expr options rest) =
        (f expr, rewrite_order_exprs f rest, refl, made expr, order_exprs_made rest)

    pub order_made : (order : OrderBy X) → OfOrder order (rewrite_order f order)
    order_made (order_expressions order rest) =
        (rewrite_order_exprs f order, refl, order_exprs_made order)
    order_made no_order = refl
    order_made (other_order x) = refl
