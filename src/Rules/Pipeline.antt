-- ===== src/Rules/Pipeline.antt =====
-- datafusion-pg-catalog/src/sql/rules.rs: the visitors of the rules; datafusion-pg-catalog/src/sql/
-- parser.rs: the list of rules of `PostgresCompatibilityParser`, `rewrite` and `parse`.
pub mod Plain
pub mod Visitors
pub mod Untouched
use mathlib.Core.Option
use datafusion_postgres.Prelude.{String, Option, none, some, List, [], ◌∷◌, ◌⊎◌, inl, inr}
use datafusion_postgres.Prelude.Lists.{length}
use datafusion_postgres.Prelude.Dict.{Dict}
use datafusion_postgres.Ast.{TableFactor, Expr, Query, Statement}
use datafusion_postgres.Parser.{Token, Blacklist, maybe_replace_tokens}
use datafusion_postgres.Rules.{Visitor, SqlParser}
use datafusion_postgres.Rules.Aliases.{alias_duplicated_projection}
use datafusion_postgres.Rules.Unqualified.{resolve_unqualified_identifier}
use datafusion_postgres.Rules.Arrays.{rewrite_any_all, fix_array_literal}
use datafusion_postgres.Rules.Tables.{prepend_pg_catalog, strip_table_function, strip_function}
use datafusion_postgres.Rules.Registers.{LowerCase, rewrite_register}
use datafusion_postgres.Rules.Small.{strip_collate, rewrite_operator, fix_version_column_name}
use datafusion_postgres.Rules.RegCast.{rewrite_reg_cast}
use datafusion_postgres.Rules.Scalars.{remove_subqueries}

module _ {X : Type 0} where
  -- A visitor that defines one method
  abbrev pub on_expr : (Expr X → Expr X) → Visitor X
  on_expr f = record {
    pre_visit_query = λ q. q;
    pre_visit_table_factor = λ t. t;
    pre_visit_expr = f;
  }

  abbrev pub on_table_factor : (TableFactor X → TableFactor X) → Visitor X
  on_table_factor f = record {
    pre_visit_query = λ q. q;
    pre_visit_table_factor = f;
    pre_visit_expr = λ e. e;
  }

  abbrev pub on_query : (Query X → Query X) → Visitor X
  on_query f = record {
    pre_visit_query = f;
    pre_visit_table_factor = λ t. t;
    pre_visit_expr = λ e. e;
  }

  -- `StripCallableQualifierVisitor`, which defines two
  abbrev pub strip_callable_qualifier : Visitor X
  strip_callable_qualifier = record {
    pre_visit_query = λ q. q;
    pre_visit_table_factor = strip_table_function;
    pre_visit_expr = strip_function;
  }

module _ {X : Type 0} (sqlparser : SqlParser X) (unicode : LowerCase)
    (templates : Dict (Query X)) where
  -- The rules of `new` that are visitors, in its order
  unfoldable pub visitors : List (Visitor X)
  unfolding rewrite_any_all prepend_pg_catalog strip_table_function strip_function fix_array_literal
      rewrite_register strip_collate rewrite_operator rewrite_reg_cast remove_subqueries
      fix_version_column_name
  visitors =
      on_expr rewrite_any_all
      ∷ on_table_factor prepend_pg_catalog
      ∷ strip_callable_qualifier
      ∷ on_expr fix_array_literal
      ∷ on_expr (rewrite_register unicode)
      ∷ on_expr strip_collate
      ∷ on_expr rewrite_operator
      ∷ on_expr (rewrite_reg_cast sqlparser unicode templates)
      ∷ on_query (remove_subqueries sqlparser)
      ∷ on_query fix_version_column_name
      ∷ []

  abbrev pub visit_all : List (Visitor X) → Statement X → Statement X
  visit_all [] s = s
  visit_all (visitor ∷ visitors) s = visit_all visitors (sqlparser.visit visitor s)

  -- `PostgresCompatibilityParser::rewrite`: `none` is a panic of one of the first two rules
  unfoldable pub rewrite : Statement X → Option (Statement X)
  unfolding visitors alias_duplicated_projection resolve_unqualified_identifier Option.bind
  rewrite s =
      Option.map (visit_all visitors)
        (Option.bind (alias_duplicated_projection sqlparser s) resolve_unqualified_identifier)

  abbrev pub rewrite_each : List (Statement X) → Option (List (Statement X))
  rewrite_each [] = some []
  rewrite_each (s ∷ statements) =
      let rest = rewrite_each statements in
      Option.bind (rewrite s) (λ new. Option.map (λ out. new ∷ out) rest)

  -- `PostgresCompatibilityParser::parse`, with the tokenizer and the parser of sqlparser, whose errors
  -- it returns. `none` is a panic of a rule: the replacement ends on fuel for each token.
  module _ {E : Type 0} (tokenize : String → E ⊎ List Token)
      (parse_tokens : List Token → E ⊎ List (Statement X)) where
    abbrev pub parse_replaced : E ⊎ List (Statement X) → Option (E ⊎ List (Statement X))
    parse_replaced (inl e) = some (inl e)
    parse_replaced (inr statements) = Option.map inr (rewrite_each statements)

    abbrev pub parse_input : Blacklist → E ⊎ List Token → Option (E ⊎ List (Statement X))
    parse_input blacklist (inl e) = some (inl e)
    parse_input blacklist (inr tokens) =
        Option.bind (maybe_replace_tokens (length tokens) blacklist tokens)
          (λ replaced. parse_replaced (parse_tokens replaced))

    unfoldable pub parse : Blacklist → String → Option (E ⊎ List (Statement X))
    unfolding rewrite maybe_replace_tokens Option.bind
    parse blacklist input = parse_input blacklist (tokenize input)
