-- ===== src/Rules.antt =====
-- datafusion-pg-catalog/src/sql/rules.rs: the rewrite rules of `PostgresCompatibilityParser`. Most
-- of them are visitors of sqlparser: a visitor's `pre_visit_*` is a function here, on one node, and
-- the walk that calls it is a parameter, as is every other function of sqlparser that the rules call.
pub mod Names
pub mod Aliases
pub mod Unqualified
pub mod Arrays
pub mod Tables
pub mod Registers
pub mod Small
pub mod RegCast
pub mod Scalars
pub mod Pipeline
mod Samples
mod Tests
mod NodeTests
use datafusion_postgres.Prelude.{String, false, none, List, [], ◌≡◌}
use datafusion_postgres.Prelude.Lists.{All}
use datafusion_postgres.Ast.{Ident, DataType, FunctionRest, TableFactor, Expr, Query, Statement}

-- `VisitorMut`, with the three methods that the rules define. None of them breaks off the walk.
pub record Visitor (X : Type 0) : Type 0 where
  pub pre_visit_query : Query X → Query X
  pub pre_visit_table_factor : TableFactor X → TableFactor X
  pub pre_visit_expr : Expr X → Expr X

-- The methods that `VisitorMut` has by default
abbrev pub idle : {X : Type 0} → Visitor X
idle = record { pre_visit_query = λ q. q; pre_visit_table_factor = λ t. t; pre_visit_expr = λ e. e }

-- The fields that the rules give a function that they make
abbrev pub plain_function : {X : Type 0} → FunctionRest X
plain_function = record {
  uses_odbc_syntax = false;
  parameters = none;
  filter = none;
  null_treatment = none;
  over = none;
  within_group = [];
}

-- The nodes that a walk comes to, in a statement that the visitor does not change.
pub record Nodes (X : Type 0) : Type 0 where
  pub queries : List (Query X)
  pub table_factors : List (TableFactor X)
  pub expressions : List (Expr X)

unfoldable pub IsUntouched : {X : Type 0} → Visitor X → Nodes X → Type 0
IsUntouched visitor nodes =
    (All (λ q. visitor.pre_visit_query q ≡ q) nodes.queries
      × All (λ t. visitor.pre_visit_table_factor t ≡ t) nodes.table_factors
      × All (λ e. visitor.pre_visit_expr e ≡ e) nodes.expressions)

-- sqlparser: `VisitMut::visit` of a statement and of a query, the expressions that `Visit::visit` of
-- a query comes to, and how identifiers and types are printed. A walk replaces each node by what the
-- visitor makes of it, so that it leaves a statement as it is when the visitor leaves its nodes so.
pub record SqlParser (X : Type 0) : Type 0 where
  pub visit : Visitor X → Statement X → Statement X
  pub visit_query : Visitor X → Query X → Query X
  pub visited : Query X → List (Expr X)
  pub nodes : Statement X → Nodes X
  pub visit_untouched :
      (visitor : Visitor X) (s : Statement X) → IsUntouched visitor (nodes s) → visit visitor s ≡ s
  pub print_ident : Ident → String
  pub print_type : DataType X → String
