-- ===== src/Handlers/PortalTests.antt =====
-- A portal with two parameters over an engine that adds them up.
use mathlib.Core.List.{Permᴰ}
use datafusion_postgres.Prelude.{ℕ, ◌+◌, String, Option, none, some, List, [], ◌∷◌, map, ◌≡◌, arith}
use datafusion_postgres.Wire.{ok, execution, tag, idle}
use datafusion_postgres.Statement.{query, commit}
use datafusion_postgres.Planner.{cast_of, placeholder}
use datafusion_postgres.Handlers.{Session, elapsed}
use datafusion_postgres.Handlers.Parameters.{
  ordered_param_types, placeholders, IsOrdered, ordered_param_types_lem,
}
use datafusion_postgres.Handlers.Extended.{Portal, PlanEngine, PlanHook, do_query_portal}
use datafusion_postgres.Handlers.Extended.Outcome.{PortalOutcome, do_query_portal-PortalOutcome}

-- `$10` would stand before `$2` by its text.
abbrev unordered : List (ℕ × Option String)
unordered = (10, some "text") ∷ (2, some "int8") ∷ (1, none) ∷ []

ordered_param_types_lem_example :
    (entries : List (ℕ × Option String)) × Permᴰ entries unordered
    × IsOrdered entries
    × (ordered_param_types (placeholders unordered) ≡ map (λ entry. entry.1) entries)
ordered_param_types_lem_example =
    ordered_param_types_lem unordered (omega arith, (omega arith, (omega arith, tt)))

abbrev adding : PlanEngine ℕ ℕ String ℕ (List ℕ) ℕ ℕ
adding = record {
  get_parameter_types = λ plan. ok (("$1", none) ∷ []);
  visited = λ plan. cast_of "$1" "int8" ∷ placeholder "$1" ∷ [];
  deserialize_parameters = λ bound types. ok 5;
  replace_params = λ plan values. ok (plan + values);
  optimize = λ plan w. (w, ok plan);
  execute_logical_plan = λ plan w. (w + 1, ok plan);
  execute_within = λ timeout plan w. (w, elapsed);
  first_count = λ df w. (w, ok none);
  encode = λ df bound client w. (w, ok df);
}

abbrev commits : PlanHook ℕ ℕ ℕ ℕ
commits commit plan values s = (s, some (ok (execution (tag "COMMIT"))))
commits _ plan values s = (s, none)

abbrev portal : Portal ℕ (List ℕ)
portal = record { statement = some (query "SELECT 2 + $1::int8", 2); bound = 5 ∷ [] }

abbrev opened : Session ℕ
opened = record { client = record { metadata = []; status = idle }; world = 0 }

do_query_portal-PortalOutcome_example :
    PortalOutcome adding
      (commits ∷ [])
      portal
      opened
      (do_query_portal adding (commits ∷ []) portal opened).0
      (do_query_portal adding (commits ∷ []) portal opened).1
do_query_portal-PortalOutcome_example =
    do_query_portal-PortalOutcome adding (commits ∷ []) portal opened
