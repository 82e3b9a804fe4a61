-- ===== src/Ast.antt =====
-- The syntax trees of sqlparser, `sqlparser::ast`, as far as the rewrite rules of
-- datafusion-pg-catalog/src/sql/rules.rs name their variants and fields. `X` stands for the parts
-- that the rules carry along and never read; a variant or a field that no rule names is in an `X`.
use Prim.Native.Char.{Char}
use datafusion_postgres.Prelude.{String, Bool, Option, List, none, some}

pub record Ident : Type 0 where
  pub text : String
  pub quote_style : Option Char

-- `Ident::new`
abbrev pub ident_new : String → Ident
ident_new name = record { text = name; quote_style = none }

pub data ObjectNamePart (X : Type 0) : Type 0 where
  ident : Ident → ObjectNamePart X
  function_part : X → ObjectNamePart X

abbrev pub ObjectName : Type 0 → Type 0
ObjectName X = List (ObjectNamePart X)

-- `ObjectNamePart::as_ident`
abbrev pub as_ident : {X : Type 0} → ObjectNamePart X → Option Ident
as_ident (ident i) = some i
as_ident (function_part _) = none

-- `Value`, without its span
pub data Value (X : Type 0) : Type 0 where
  single_quoted_string : String → Value X
  number : String → Bool → Value X
  placeholder : String → Value X
  null : Value X
  other_value : X → Value X

pub data BinaryOperator (X : Type 0) : Type 0 where
  eq not_eq : BinaryOperator X
  pg_regex_match pg_regex_imatch pg_regex_not_match pg_regex_not_imatch : BinaryOperator X
  pg_custom : List String → BinaryOperator X
  other_operator : X → BinaryOperator X

pub data UnaryOperator (X : Type 0) : Type 0 where
  not_operator : UnaryOperator X
  other_unary : X → UnaryOperator X

pub data CastKind (X : Type 0) : Type 0 where
  double_colon : CastKind X
  other_kind : X → CastKind X

mutual
  pub data DataType (X : Type 0) : Type 0 where
    text_type : DataType X
    varchar char_type string_type : X → DataType X
    array_type : ArrayElemTypeDef X → DataType X
    other_type : X → DataType X

  pub data ArrayElemTypeDef (X : Type 0) : Type 0 where
    no_element_type : ArrayElemTypeDef X
    angle_bracket : DataType X → ArrayElemTypeDef X
    square_bracket : DataType X → X → ArrayElemTypeDef X
    parenthesis : DataType X → ArrayElemTypeDef X

-- The fields of `Function` other than its name and arguments. `parameters` is `none` for
-- `FunctionArguments::None`.
pub record FunctionRest (X : Type 0) : Type 0 where
  pub uses_odbc_syntax : Bool
  pub parameters : Option X
  pub filter : Option X
  pub null_treatment : Option X
  pub over : Option X
  pub within_group : List X

-- `TableFactor::Table` with its name, alias and arguments, or another variant. A table's alias is
-- known by its name.
pub data TableFactor (X : Type 0) : Type 0 where
  table : ObjectName X → Option Ident → Option X → X → TableFactor X
  other_factor : X → TableFactor X

pub record Join (X : Type 0) : Type 0 where
  pub joined : TableFactor X
  pub join_rest : X

pub record TableWithJoins (X : Type 0) : Type 0 where
  pub relation : TableFactor X
  pub joins : List (Join X)

-- Expressions and queries hold one another. An option or a list of them is a type of the block.
mutual
  pub data Expr (X : Type 0) : Type 0 where
    identifier : Ident → Expr X
    compound_identifier : List Ident → Expr X
    value : Value X → Expr X
    binary_op : Expr X → BinaryOperator X → Expr X → Expr X
    unary_op : UnaryOperator X → Expr X → Expr X
    any_op : Expr X → BinaryOperator X → Expr X → X → Expr X
    all_op : Expr X → BinaryOperator X → Expr X → Expr X
    cast : CastKind X → Expr X → DataType X → X → Expr X
    array : Exprs X → Bool → Expr X
    function : ObjectName X → FunctionArguments X → FunctionRest X → Expr X
    collate : Expr X → ObjectName X → Expr X
    subquery : Query X → Expr X
    other_expr : X → Expr X

  pub data Exprs (X : Type 0) : Type 0 where
    no_exprs : Exprs X
    exprs : Expr X → Exprs X → Exprs X

  pub data OptExpr (X : Type 0) : Type 0 where
    no_expr : OptExpr X
    some_expr : Expr X → OptExpr X

  -- The list variant has the fields `args`, `duplicate_treatment` and `clauses`.
  pub data FunctionArguments (X : Type 0) : Type 0 where
    no_arguments : FunctionArguments X
    subquery_argument : Query X → FunctionArguments X
    argument_list : FunctionArgs X → Option X → List X → FunctionArguments X

  -- `FunctionArg::Unnamed(FunctionArgExpr::Expr(e))`, or another argument
  pub data FunctionArgs (X : Type 0) : Type 0 where
    no_args : FunctionArgs X
    expr_arg : Expr X → FunctionArgs X → FunctionArgs X
    other_arg : X → FunctionArgs X → FunctionArgs X

  -- `body`, `order_by`, `limit_clause`, `fetch` and the rest
  pub data Query (X : Type 0) : Type 0 where
    a_query : SetExpr X → OrderBy X → LimitClause X → Option X → X → Query X

  pub data SetExpr (X : Type 0) : Type 0 where
    select : Select X → SetExpr X
    other_body : X → SetExpr X

  -- `projection`, `from`, `selection` and the rest
  pub data Select (X : Type 0) : Type 0 where
    a_select : SelectItems X → List (TableWithJoins X) → OptExpr X → X → Select X

  pub data SelectItem (X : Type 0) : Type 0 where
    unnamed_expr : Expr X → SelectItem X
    expr_with_alias : Expr X → Ident → SelectItem X
    qualified_wildcard : ObjectName X → X → SelectItem X
    expr_wildcard : Expr X → X → SelectItem X
    wildcard : X → SelectItem X

  pub data SelectItems (X : Type 0) : Type 0 where
    no_items : SelectItems X
    items : SelectItem X → SelectItems X → SelectItems X

  pub data OrderBy (X : Type 0) : Type 0 where
    no_order : OrderBy X
    order_expressions : OrderByExprs X → X → OrderBy X
    other_order : X → OrderBy X

  pub data OrderByExprs (X : Type 0) : Type 0 where
    no_order_exprs : OrderByExprs X
    order_exprs : Expr X → X → OrderByExprs X → OrderByExprs X

  -- `LimitClause::LimitOffset` has the fields `limit`, `offset` and `limit_by`.
  pub data LimitClause (X : Type 0) : Type 0 where
    no_limit : LimitClause X
    limit_offset : OptExpr X → Option X → List X → LimitClause X
    other_limit : X → LimitClause X

pub data Statement (X : Type 0) : Type 0 where
  query : Query X → Statement X
  other_statement : X → Statement X

-- The rewriting of each item of a projection.
unfoldable pub map_items :
    {X : Type 0} → (SelectItem X → SelectItem X) → SelectItems X → SelectItems X
map_items f no_items = no_items
map_items f (items i is) = items (f i) (map_items f is)

-- A statement rewritten in its projection, where it is a query whose body is a SELECT.
abbrev pub with_body : {X : Type 0} → (SetExpr X → SetExpr X) → Query X → Query X
with_body f (a_query body order limit fetch rest) = a_query (f body) order limit fetch rest
