-- ===== src/Rules/Arrays.antt =====
-- datafusion-pg-catalog/src/sql/rules.rs: `RewriteArrayAnyAllOperation` and `FixArrayLiteral`.
pub mod Literals
pub mod Lowered
use mathlib.Core.Option
use datafusion_postgres.Prelude.{
  String, Bool, true, false, not, ◌&&◌, ◌||◌, Option, none, some, List, [], ◌∷◌, map, str_eq,
  if◌then◌else◌,
}
use datafusion_postgres.Prelude.Lists.{retain}
use datafusion_postgres.Prelude.Text.{begins, ends_with}
use datafusion_postgres.Prelude.Trim.{trim_by, is_brace_or_space, trim_whitespace, split_commas}
use datafusion_postgres.Ast.{
  ident_new, ObjectNamePart, ident, Value, single_quoted_string, number, BinaryOperator, eq, not_eq,
  other_operator, not_operator, CastKind, double_colon, DataType, text_type, varchar, char_type,
  string_type, array_type, ArrayElemTypeDef, no_element_type, angle_bracket, square_bracket,
  parenthesis, FunctionRest, Expr, Exprs, no_exprs, exprs, FunctionArguments, argument_list,
  FunctionArgs, no_args, expr_arg,
}
use datafusion_postgres.Ast.Expr.{value, unary_op, any_op, all_op, cast, array, function}
use datafusion_postgres.Rules.{plain_function}

-- The elements of a literal: `trim_matches`, `split`, `trim` and `filter`
unfoldable pub literal_items : String → List String
unfolding split_commas trim_by trim_whitespace retain
literal_items literal =
    retain (λ s. not (str_eq s ""))
      (map trim_whitespace (split_commas (trim_by is_brace_or_space literal)))

module _ {X : Type 0} where
  abbrev pub expr_list : List (Expr X) → Exprs X
  expr_list [] = no_exprs
  expr_list (e ∷ es) = exprs e (expr_list es)

  abbrev pub text_value : String → Expr X
  text_value s = value (single_quoted_string s)

  abbrev pub number_value : String → Expr X
  number_value s = value (number s false)

  unfoldable pub array_of_literal : String → Expr X → Expr X
  unfolding literal_items trim_whitespace begins ends_with
  array_of_literal literal expr =
      let trimmed = trim_whitespace literal in
      if begins "{" trimmed && ends_with trimmed "}"
      then array (expr_list (map text_value (literal_items trimmed))) true
      else expr

  abbrev any_array : Expr X → Expr X
  any_array (value (single_quoted_string literal)) =
      array_of_literal literal (value (single_quoted_string literal))
  any_array right = right

  unfoldable pub any_to_array_contains : Expr X → Expr X → Expr X
  unfolding array_of_literal
  any_to_array_contains left right =
      function (ident (ident_new "array_contains") ∷ [])
        (argument_list (expr_arg (any_array right) (expr_arg left no_args)) none []) plain_function

  -- `RewriteArrayAnyAllOperationVisitor::pre_visit_expr`
  unfoldable pub rewrite_any_all : Expr X → Expr X
  unfolding any_to_array_contains
  rewrite_any_all (any_op left eq right is_some) = any_to_array_contains left right
  rewrite_any_all (all_op left not_eq right) =
      unary_op not_operator (any_to_array_contains left right)
  rewrite_any_all expr = expr

  unfoldable pub is_string_type : DataType X → Bool
  is_string_type text_type = true
  is_string_type (varchar _) = true
  is_string_type (char_type _) = true
  is_string_type (string_type _) = true
  is_string_type _ = false

  abbrev pub is_text_array : ArrayElemTypeDef X → Bool
  is_text_array (angle_bracket type) = is_string_type type
  is_text_array (square_bracket type _) = is_string_type type
  is_text_array (parenthesis type) = is_string_type type
  is_text_array no_element_type = false

  abbrev pub literal_value : Bool → String → Expr X
  literal_value is_text s = if is_text then text_value s else number_value s

  -- The operand of a cast, by the cast's kind and type
  unfoldable pub fixed_operand : Expr X → CastKind X → DataType X → Expr X
  unfolding literal_items is_string_type
  fixed_operand (value (single_quoted_string literal)) double_colon (array_type element) =
      array (expr_list (map (literal_value (is_text_array element)) (literal_items literal))) true
  fixed_operand operand kind type = operand

  -- `FixArrayLiteralVisitor::pre_visit_expr`
  unfoldable pub fix_array_literal : Expr X → Expr X
  unfolding fixed_operand
  fix_array_literal (cast kind operand type format) =
      cast kind (fixed_operand operand kind type) type format
  fix_array_literal expr = expr
