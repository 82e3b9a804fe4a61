-- ===== src/Rules/Pipeline/Visitors.antt =====
-- The visitors of the rules at nodes in DataFusion's own terms.
use datafusion_postgres.Prelude.{◌≡◌, refl}
use datafusion_postgres.Prelude.Lists.{All, All-imp, All-always}
use datafusion_postgres.Prelude.Dict.{Dict}
use datafusion_postgres.Ast.{TableFactor, Expr, Query}
use datafusion_postgres.Rules.{Nodes, IsUntouched, SqlParser}
use datafusion_postgres.Rules.Arrays.{rewrite_any_all, fix_array_literal}
use datafusion_postgres.Rules.Tables.{prepend_pg_catalog}
use datafusion_postgres.Rules.Registers.{LowerCase, rewrite_register}
use datafusion_postgres.Rules.Small.{strip_collate, rewrite_operator, fix_version_column_name}
use datafusion_postgres.Rules.RegCast.{rewrite_reg_cast}
use datafusion_postgres.Rules.Scalars.{remove_subqueries}
use datafusion_postgres.Rules.Pipeline.{
  on_expr, on_table_factor, on_query, strip_callable_qualifier, visitors,
}
use datafusion_postgres.Rules.Pipeline.Plain.{
  IsPlainExpr, IsPlainFactor, IsPlainQuery, IsPlain, any_all_plain, fix_array_plain,
  strip_function_plain, register_plain, collate_plain, operator_plain, reg_cast_plain,
  prepend_plain, strip_table_plain, version_plain, subqueries_plain,
}

module _ {X : Type 0} (unicode : LowerCase) (nodes : Nodes X) (plain : IsPlain unicode nodes) where
  on_expr-IsUntouched :
      (f : Expr X → Expr X)
      → ((expr : Expr X) → IsPlainExpr unicode expr → f expr ≡ expr)
      → IsUntouched (on_expr f) nodes
  unfolding IsUntouched IsPlain
  on_expr-IsUntouched f each = (
    All-always (λ q. refl) nodes.queries,
    All-always (λ t. refl) nodes.table_factors,
    All-imp each nodes.expressions plain.2,
  )

  on_query-IsUntouched :
      (f : Query X → Query X)
      → ((q : Query X) → IsPlainQuery q → f q ≡ q)
      → IsUntouched (on_query f) nodes
  unfolding IsUntouched IsPlain
  on_query-IsUntouched f each = (
    All-imp each nodes.queries plain.0,
    All-always (λ t. refl) nodes.table_factors,
    All-always (λ e. refl) nodes.expressions,
  )

  on_table_factor-IsUntouched :
      (f : TableFactor X → TableFactor X)
      → ((t : TableFactor X) → IsPlainFactor t → f t ≡ t)
      → IsUntouched (on_table_factor f) nodes
  unfolding IsUntouched IsPlain
  on_table_factor-IsUntouched f each = (
    All-always (λ q. refl) nodes.queries,
    All-imp each nodes.table_factors plain.1,
    All-always (λ e. refl) nodes.expressions,
  )

  strip_callable-IsUntouched : IsUntouched strip_callable_qualifier nodes
  unfolding IsUntouched IsPlain
  strip_callable-IsUntouched = (
    All-always (λ q. refl) nodes.queries,
    All-imp strip_table_plain nodes.table_factors plain.1,
    All-imp (strip_function_plain unicode) nodes.expressions plain.2,
  )

  pub visitors-IsUntouched :
      (sqlparser : SqlParser X) (templates : Dict (Query X))
      → All (λ visitor. IsUntouched visitor nodes) (visitors sqlparser unicode templates)
  unfolding visitors
  visitors-IsUntouched sqlparser templates = (
    on_expr-IsUntouched rewrite_any_all (any_all_plain unicode),
    (
      on_table_factor-IsUntouched prepend_pg_catalog prepend_plain,
      (
        strip_callable-IsUntouched,
        (
          on_expr-IsUntouched fix_array_literal (fix_array_plain unicode),
          (
            on_expr-IsUntouched (rewrite_register unicode) (register_plain unicode),
            (
              on_expr-IsUntouched strip_collate (collate_plain unicode),
              (
                on_expr-IsUntouched rewrite_operator (operator_plain unicode),
                (
                  on_expr-IsUntouched (rewrite_reg_cast sqlparser unicode templates)
                      (reg_cast_plain unicode sqlparser templates),
                  (
                    on_query-IsUntouched (remove_subqueries sqlparser) (subqueries_plain sqlparser),
                    (on_query-IsUntouched fix_version_column_name version_plain, tt),
                  ),
                ),
              ),
            ),
          ),
        ),
      ),
    ),
  )
