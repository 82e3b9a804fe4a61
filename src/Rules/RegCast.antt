-- ===== src/Rules/RegCast.antt =====
-- datafusion-pg-catalog/src/sql/rules.rs: `RewriteRegCastToSubquery`. The queries that sqlparser
-- makes of the templates are a parameter, by the name of the type.
use Prim.Native.Char.{code}
use datafusion_postgres.Prelude.{
  String, Bool, true, false, not, ◌&&◌, Option, none, some, leb, ◌==◌, str_eq, if◌then◌else◌,
}
use datafusion_postgres.Prelude.Dict
use datafusion_postgres.Prelude.Dict.{Dict}
use datafusion_postgres.Ast.{single_quoted_string, number, placeholder, DataType, Expr, Query}
use datafusion_postgres.Ast.Expr.{value, cast, subquery}
use datafusion_postgres.Rules.{Visitor, SqlParser}
use datafusion_postgres.Rules.Registers.{LowerCase}

-- `strip_prefix`
unfoldable pub strip_prefix : String → String → Option String
strip_prefix String.[] s = some s
strip_prefix (String.◌∷◌ d prefix) String.[] = none
strip_prefix (String.◌∷◌ d prefix) (String.◌∷◌ c s) =
    let rest = strip_prefix prefix s in if code c == code d then rest else none

abbrev unwrap_or : String → Option String → String
unwrap_or other none = other
unwrap_or other (some s) = s

-- `bytes().all(|b| b.is_ascii_digit())`
unfoldable pub all_digits : String → Bool
all_digits String.[] = true
all_digits (String.◌∷◌ c s) = (leb 48 (code c) && leb (code c) 57) && all_digits s

module _ {X : Type 0} where
  unfoldable pub is_name_operand : Expr X → Bool
  is_name_operand (value (single_quoted_string _)) = true
  is_name_operand (value (placeholder _)) = true
  is_name_operand _ = false

  unfoldable pub numeric_string_to_literal : Expr X → Option (Expr X)
  unfolding all_digits
  numeric_string_to_literal (value (single_quoted_string s)) =
      if not (str_eq s "") && all_digits s then some (value (number s false)) else none
  numeric_string_to_literal _ = none

  unfoldable pub replace_placeholder : Expr X → Expr X → Expr X
  replace_placeholder operand (value (placeholder _)) = operand
  replace_placeholder operand expr = expr

  -- `PlaceholderReplacer`
  abbrev pub placeholder_replacer : Expr X → Visitor X
  placeholder_replacer operand = record {
    pre_visit_query = λ q. q;
    pre_visit_table_factor = λ t. t;
    pre_visit_expr = replace_placeholder operand;
  }

module _ {X : Type 0} (sqlparser : SqlParser X) (unicode : LowerCase) where
  unfoldable pub normalize_type_name : DataType X → String
  unfolding strip_prefix
  normalize_type_name type =
      let lower = unicode.to_lowercase (sqlparser.print_type type) in
      unwrap_or lower (strip_prefix "pg_catalog." lower)

  unfoldable pub create_subquery : Query X → Expr X → Expr X
  unfolding replace_placeholder
  create_subquery template operand =
      subquery (sqlparser.visit_query (placeholder_replacer operand) template)

  abbrev pub literal_or : Option (Expr X) → Expr X → Expr X
  literal_or none other = other
  literal_or (some literal) other = literal

  abbrev pub resolved_by : Option (Query X) → Expr X → Expr X → Expr X
  resolved_by none operand kept = kept
  resolved_by (some template) operand kept =
      literal_or (numeric_string_to_literal operand) (create_subquery template operand)

  -- `RewriteRegCastToSubqueryVisitor::pre_visit_expr`
  unfoldable pub rewrite_reg_cast : Dict (Query X) → Expr X → Expr X
  unfolding is_name_operand Dict.get normalize_type_name numeric_string_to_literal create_subquery
  rewrite_reg_cast templates (cast kind operand type format) =
      let kept = cast kind operand type format in
      let found = Dict.get (normalize_type_name type) templates in
      if is_name_operand operand then resolved_by found operand kept else kept
  rewrite_reg_cast templates expr = expr
