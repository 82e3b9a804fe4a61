-- ===== src/Rules/Registers/Parenthesis.antt =====
-- What the rule for special registers makes of calls without parentheses.
use Prim.Native.Char.{Char}
use datafusion_postgres.Prelude.{String, Bool, true, false, Option, none, some, ◌≡◌, str_eq}
use datafusion_postgres.Prelude.Lists.{any}
use datafusion_postgres.Prelude.Dict
use datafusion_postgres.Ast.{Expr, no_arguments}
use datafusion_postgres.Ast.Expr.{function}
use datafusion_postgres.Rules.Registers.{
  parenthesis_less_keywords, LowerCase, last_ident_lower, rewrite_register,
}

abbrev is_keyword : Option String → Bool
is_keyword none = false
is_keyword (some name) = any (str_eq name) parenthesis_less_keywords

module _ (unicode : LowerCase) {X : Type 0} where
  -- A call without parentheses has a name that sqlparser reads without them.
  unfoldable pub IsReadable : Expr X → Type 0
  unfolding last_ident_lower any
  IsReadable (function name no_arguments rest) = is_keyword (last_ident_lower unicode name) ≡ true
  IsReadable _ = Unit

  abbrev IsDone : Expr X → Type 0
  IsDone expr = (rewrite_register unicode expr ≡ expr) × IsReadable expr
