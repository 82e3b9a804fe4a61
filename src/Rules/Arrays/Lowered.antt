-- ===== src/Rules/Arrays/Lowered.antt =====
-- What the two rules for arrays make of a literal in braces.
use Prim.Native.String.{[], ◌∷◌}
use mathlib.Core.List.{[], ◌∷◌}
use text.Mathlib.TextLemmas.{cons-append}
use datafusion_postgres.Prelude.{
  String, true, false, none, fun_ext, List, map, ◌≡◌, refl, sym, ap, ◌∙◌,
}
use datafusion_postgres.Prelude.Lists.{All}
use datafusion_postgres.Prelude.Text.{reverse, begins, ends_with}
use datafusion_postgres.Prelude.Trim.{is_whitespace, trim_whitespace}
use datafusion_postgres.Prelude.Trim.Kept.{starts_kept, reverse-ends, trim_by-kept}
use datafusion_postgres.Ast.{
  ident_new, ident, eq, not_eq, not_operator, double_colon, array_type, text_type, varchar,
  char_type, string_type, DataType, ArrayElemTypeDef, angle_bracket, square_bracket, parenthesis,
  no_element_type, single_quoted_string, number, Expr, argument_list, no_args, expr_arg,
}
use datafusion_postgres.Ast.Expr.{unary_op, any_op, all_op, cast, array, function, value}
use datafusion_postgres.Rules.{plain_function}
use datafusion_postgres.Rules.Arrays.{
  expr_list, text_value, array_of_literal, any_to_array_contains, rewrite_any_all, is_string_type,
  is_text_array, literal_value, fix_array_literal,
}
use datafusion_postgres.Rules.Arrays.Literals.{IsItem, joined, braced, literal_items-braced}

module _ (parts : List String) where
  reverse-braced : reverse (braced parts) ≡ "}" ∷ reverse ("{" ∷ joined parts)
  unfolding braced
  reverse-braced =
      ap reverse (sym (cons-append "{" (joined parts) ("}" ∷ [])))
      ∙ reverse-ends "}" ("{" ∷ joined parts)

  trim_whitespace-braced : trim_whitespace (braced parts) ≡ braced parts
  unfolding trim_whitespace braced
  trim_whitespace-braced =
      trim_by-kept is_whitespace (braced parts) refl (ap (starts_kept is_whitespace) reverse-braced)

  begins-braced : begins "{" (braced parts) ≡ true
  unfolding begins braced
  begins-braced = refl

  ends_with-braced : ends_with (braced parts) "}" ≡ true
  unfolding ends_with begins
  ends_with-braced = ap (begins "}") reverse-braced

module _ {X : Type 0} where
  -- The element of an array whose elements are of the type, and of an array of the array type
  unfoldable pub element_value : DataType X → String → Expr X
  element_value text_type s = value (single_quoted_string s)
  element_value (varchar _) s = value (single_quoted_string s)
  element_value (char_type _) s = value (single_quoted_string s)
  element_value (string_type _) s = value (single_quoted_string s)
  element_value _ s = value (number s false)

  abbrev pub array_value : ArrayElemTypeDef X → String → Expr X
  array_value (angle_bracket type) = element_value type
  array_value (square_bracket type _) = element_value type
  array_value (parenthesis type) = element_value type
  array_value no_element_type = λ s. value (number s false)

module _ {X : Type 0} (parts : List String) (items : All IsItem parts) where
  array_of_literal-braced :
      (expr : Expr X)
      → array_of_literal (braced parts) expr ≡ array (expr_list (map text_value parts)) true
  unfolding array_of_literal
  array_of_literal-braced expr =
      rw
        (
          trim_whitespace-braced parts,
          begins-braced parts,
          ends_with-braced parts,
          literal_items-braced parts items,
        )
        refl

  -- A comparison of `left` with a literal in braces, for elements without commas that have neither
  -- braces nor blanks at their ends: `= ANY` becomes `array_contains` of the array of these elements
  -- and `left`, `<> ALL` its negation, and `<> ANY` and `= ALL` stay as they are.
  pub rewrite_any_all-braced :
      (left : Expr X) (is_some : X)
      → (let literal = text_value (braced parts) in
          let call =
            function
              (ident (ident_new "array_contains") ∷ [])
              (argument_list
                (expr_arg (array (expr_list (map text_value parts)) true) (expr_arg left no_args))
                none
                [])
              plain_function in
          (rewrite_any_all (any_op left eq literal is_some) ≡ call)
          × (rewrite_any_all (all_op left not_eq literal) ≡ unary_op not_operator call)
          × (rewrite_any_all (any_op left not_eq literal is_some)
              ≡ any_op left not_eq literal is_some)
          × (rewrite_any_all (all_op left eq literal) ≡ all_op left eq literal))
  unfolding rewrite_any_all any_to_array_contains
  rewrite_any_all-braced left is_some =
      let whole = text_value (braced parts) in
      (rw (array_of_literal-braced whole) refl, rw (array_of_literal-braced whole) refl, refl, refl)

  element_value_lem :
      (type : DataType X) (s : String)
      → literal_value (is_string_type type) s ≡ element_value type s
  unfolding is_string_type element_value
  element_value_lem text_type s = refl
  element_value_lem (varchar x) s = refl
  element_value_lem (char_type x) s = refl
  element_value_lem (string_type x) s = refl
  element_value_lem type s = refl

  array_value_lem :
      (element : ArrayElemTypeDef X) (s : String)
      → literal_value (is_text_array element) s ≡ array_value element s
  array_value_lem (angle_bracket type) s = element_value_lem type s
  array_value_lem (square_bracket type size) s = element_value_lem type s
  array_value_lem (parenthesis type) s = element_value_lem type s
  array_value_lem no_element_type s = refl

  -- A literal in braces that is cast to an array type by `::`, for elements without commas that have
  -- neither braces nor blanks at their ends, becomes the array of these elements: quoted strings if
  -- the type's elements are TEXT, VARCHAR, CHAR or STRING, and numbers otherwise; the cast stays.
  pub fix_array_literal-braced :
      (element : ArrayElemTypeDef X) (format : X)
      → fix_array_literal
          (cast double_colon (text_value (braced parts)) (array_type element) format)
        ≡ cast double_colon
            (array (expr_list (map (array_value element) parts)) true)
            (array_type element)
            format
  unfolding fix_array_literal
  fix_array_literal-braced element format =
      rw (literal_items-braced parts items, fun_ext (array_value_lem element)) refl
