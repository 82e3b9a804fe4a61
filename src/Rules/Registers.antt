-- ===== src/Rules/Registers.antt =====
-- datafusion-pg-catalog/src/sql/rules.rs: `CurrentUserVariableToSessionUserFunctionCall`. The
-- lower case of Unicode is a parameter.
pub mod Parenthesis
use Prim.Native.Char.{Char}
use mathlib.Core.Option
use datafusion_postgres.Prelude.{
  String, Bool, true, false, Option, none, some, List, [], ◌∷◌, ◌≡◌, str_eq, if◌then◌else◌,
}
use datafusion_postgres.Prelude.Lists.{any}
use datafusion_postgres.Prelude.Dict
use datafusion_postgres.Prelude.Dict.{Dict}
use datafusion_postgres.Ast.{
  Ident, ident_new, ObjectNamePart, ObjectName, ident, as_ident, FunctionRest, Expr,
  FunctionArguments, no_arguments, argument_list, FunctionArgs, no_args,
}
use datafusion_postgres.Ast.Expr.{identifier, function}
use datafusion_postgres.Rules.{plain_function}

abbrev pub builtin_function_rename : Dict String
builtin_function_rename =
    ("current_user", "session_user") ∷ ("current_catalog", "current_database") ∷ []

abbrev pub parenthesis_less_keywords : List String
parenthesis_less_keywords = "current_catalog" ∷ "current_user" ∷ "session_user" ∷ "user" ∷ []

abbrev pub bare_identifier_to_function : Dict String
bare_identifier_to_function = ("current_schema", "current_schema") ∷ []

-- `to_lowercase`, which keeps the texts that have no capital letters, like the two names here.
pub record LowerCase : Type 0 where
  pub to_lowercase : String → String
  pub session_user_kept : to_lowercase "session_user" ≡ "session_user"
  pub current_database_kept : to_lowercase "current_database" ≡ "current_database"
  pub current_schema_kept : to_lowercase "current_schema" ≡ "current_schema"

module _ {X : Type 0} where
  abbrev pub no_argument_list : FunctionArguments X
  no_argument_list = argument_list no_args none []

  unfoldable pub empty_function_call : String → Expr X
  empty_function_call name = function (ident (ident_new name) ∷ []) no_argument_list plain_function

  abbrev pub last_part : ObjectName X → Option (ObjectNamePart X)
  last_part [] = none
  last_part (part ∷ []) = some part
  last_part (part ∷ next ∷ parts) = last_part (next ∷ parts)

abbrev pub rename_target : Option String → Option String
rename_target none = none
rename_target (some name) = Dict.get name builtin_function_rename

-- An identifier by its quotes and its text in lower case
abbrev pub unquoted_target : Option Char → String → Option String
unquoted_target none lower = Dict.get lower bare_identifier_to_function
unquoted_target (some _) lower = none

module _ (unicode : LowerCase) {X : Type 0} where
  abbrev part_lower : Option (ObjectNamePart X) → Option String
  part_lower none = none
  part_lower (some part) = Option.map (λ i. unicode.to_lowercase i.text) (as_ident part)

  unfoldable pub last_ident_lower : ObjectName X → Option String
  last_ident_lower name = part_lower (last_part name)

  -- The first half of `pre_visit_expr`, on a bare identifier
  abbrev pub wrapped : Option String → Ident → Expr X
  wrapped none i = identifier i
  wrapped (some target) i = empty_function_call target

  abbrev pub wrap_identifier : Expr X → Expr X
  wrap_identifier (identifier i) =
      wrapped (unquoted_target i.quote_style (unicode.to_lowercase i.text)) i
  wrap_identifier expr = expr

  -- The second half, on a function
  abbrev pub normal_args : String → FunctionArguments X → FunctionArguments X
  normal_args target no_arguments =
      if any (str_eq target) parenthesis_less_keywords then no_arguments else no_argument_list
  normal_args target args = args

  abbrev pub renamed : Option String → ObjectName X → FunctionArguments X → FunctionRest X → Expr X
  renamed none name args rest = function name args rest
  renamed (some target) name args rest =
      function (ident (ident_new target) ∷ []) (normal_args target args) rest

  abbrev pub rename_function : Expr X → Expr X
  rename_function (function name args rest) =
      renamed (rename_target (last_ident_lower name)) name args rest
  rename_function expr = expr

  -- `CurrentUserVariableToSessionUserFunctionCallVisitor::pre_visit_expr`
  unfoldable pub rewrite_register : Expr X → Expr X
  unfolding last_ident_lower empty_function_call Dict.get any
  rewrite_register expr = rename_function (wrap_identifier expr)
