-- ===== src/Rules/Samples.antt =====
-- A walk for the tests of the rewrite rules, and a lower case for ASCII names.
use datafusion_postgres.Prelude.{List, [], ◌∷◌, ◌++◌, ◌≡◌, refl, str_eq, ap, if◌then◌else◌}
use datafusion_postgres.Ast.{
  Expr, OptExpr, no_expr, some_expr, SelectItems, no_items, items, unnamed_expr, a_select, select,
  other_body, Query, a_query, Statement, query, other_statement,
}
use datafusion_postgres.Prelude.Lists.{All}
use datafusion_postgres.Rules.{Visitor, Nodes, IsUntouched, SqlParser}
use datafusion_postgres.Rules.Registers.{LowerCase}

-- The parts that the rules carry along are empty here.
abbrev pub filter_nodes : OptExpr Unit → List (Expr Unit)
filter_nodes no_expr = []
filter_nodes (some_expr expr) = expr ∷ []

abbrev pub item_nodes : SelectItems Unit → List (Expr Unit)
item_nodes no_items = []
item_nodes (items (unnamed_expr expr) rest) = expr ∷ item_nodes rest
item_nodes (items _ rest) = item_nodes rest

abbrev pub query_nodes : Query Unit → List (Expr Unit)
query_nodes (a_query (select (a_select projection from filter rest)) order limit fetch more) =
    item_nodes projection ++ filter_nodes filter
query_nodes _ = []

abbrev pub visit_items : (Expr Unit → Expr Unit) → SelectItems Unit → SelectItems Unit
visit_items f no_items = no_items
visit_items f (items (unnamed_expr expr) rest) = items (unnamed_expr (f expr)) (visit_items f rest)
visit_items f (items item rest) = items item (visit_items f rest)

abbrev pub visit_filter : (Expr Unit → Expr Unit) → OptExpr Unit → OptExpr Unit
visit_filter f no_expr = no_expr
visit_filter f (some_expr expr) = some_expr (f expr)

abbrev pub visit_exprs : (Expr Unit → Expr Unit) → Query Unit → Query Unit
visit_exprs f (a_query (select (a_select projection from filter rest)) order limit fetch more) =
    a_query (select (a_select (visit_items f projection) from (visit_filter f filter) rest)) order
      limit fetch more
visit_exprs f q = q

abbrev pub walk : Visitor Unit → Statement Unit → Statement Unit
walk visitor (query q) = query (visit_exprs visitor.pre_visit_expr (visitor.pre_visit_query q))
walk visitor (other_statement x) = other_statement x

abbrev pub no_nodes : Nodes Unit
no_nodes = record { queries = []; table_factors = []; expressions = [] }

abbrev pub all_nodes : Statement Unit → Nodes Unit
all_nodes (query q) = record { queries = q ∷ []; table_factors = []; expressions = query_nodes q }
all_nodes (other_statement x) = no_nodes

visit_filter_same :
    (f : Expr Unit → Expr Unit) (filter : OptExpr Unit)
    → All (λ e. f e ≡ e) (filter_nodes filter)
    → visit_filter f filter ≡ filter
visit_filter_same f no_expr h = refl
visit_filter_same f (some_expr expr) h = ap some_expr h.0

-- The nodes of a projection and of the clause after it
visit_items_same :
    (f : Expr Unit → Expr Unit) (projection : SelectItems Unit) (filter : OptExpr Unit)
    → All (λ e. f e ≡ e) (item_nodes projection ++ filter_nodes filter)
    → (visit_items f projection ≡ projection) × (visit_filter f filter ≡ filter)
visit_items_same f no_items filter h = (refl, visit_filter_same f filter h)
visit_items_same f (items (unnamed_expr expr) rest) filter h =
    let same = visit_items_same f rest filter h.1 in (rw (h.0, same.0) refl, same.1)
visit_items_same f (items item rest) filter h =
    let same = visit_items_same f rest filter h in (ap (items item) same.0, same.1)

pub walk_untouched :
    (visitor : Visitor Unit) (s : Statement Unit)
    → IsUntouched visitor (all_nodes s)
    → walk visitor s ≡ s
unfolding IsUntouched
walk_untouched visitor
      (query (a_query (select (a_select p from filter rest)) order limit fetch more)) h =
    let same = visit_items_same visitor.pre_visit_expr p filter h.2 in
    rw (h.0.0, same.0, same.1) refl
walk_untouched visitor (query (a_query (other_body x) order limit fetch more)) h = rw h.0.0 refl
walk_untouched visitor (other_statement x) h = refl

abbrev pub sqlparser : SqlParser Unit
sqlparser = record {
  visit = walk;
  visit_query = λ visitor q. visit_exprs visitor.pre_visit_expr (visitor.pre_visit_query q);
  visited = query_nodes;
  nodes = all_nodes;
  visit_untouched = walk_untouched;
  print_ident = λ i. i.text;
  print_type = λ type. "TEXT";
}

-- The names that the rules ask for, in lower case already, and two in capitals
abbrev pub lower_case : LowerCase
lower_case = record {
  to_lowercase = λ s.
      if str_eq s "CURRENT_CATALOG"
      then "current_catalog"
      else if str_eq s "TEXT"
      then "text"
      else s;
  session_user_kept = refl;
  current_database_kept = refl;
  current_schema_kept = refl;
}
