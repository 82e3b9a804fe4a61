-- ===== src/Handlers/Parsing/Tests.antt =====
-- The parse step on `SELECT $2::int8, $1`.
use datafusion_postgres.Prelude.{ℕ, false, none, some, [], ◌∷◌, ◌≡◌, refl}
use datafusion_postgres.Prelude.Number.{parse_below}
use datafusion_postgres.Prelude.Dict
use datafusion_postgres.Prelude.Dict.{Dict}
use datafusion_postgres.Wire.{ok, idle}
use datafusion_postgres.Statement.{Statement, query}
use datafusion_postgres.Arrow.{DataType, Fields, PgType}
use datafusion_postgres.Arrow.Types.{into_pg_type}
use datafusion_postgres.Arrow.Samples.{debug, libraries}
use datafusion_postgres.Planner.{cast_of, placeholder, visit, merge, get_inferred_parameter_types}
use datafusion_postgres.Handlers.Parameters.{number, ordered_param_types}
use datafusion_postgres.Handlers.Parsing.{Planning, Prepared, get_parameter_types, parse_sql}
use datafusion_postgres.Handlers.Parsing.Advertised.{IsTold, get_parameter_types-IsTold}

abbrev selected : Statement
selected = query "SELECT $2::int8, $1"

planning : Planning ℕ ℕ ℕ
planning = record {
  parse = λ sql. ok (selected ∷ query "SELECT 2" ∷ []);
  print = λ statement. "SELECT $2::int8, $1";
  statement_to_plan = λ statement w. ok 1;
  plan_types = λ plan. ok (("$1", some DataType.utf8) ∷ ("$2", none) ∷ []);
  visited = λ plan. cast_of "$2" DataType.int64 ∷ placeholder "$2" ∷ placeholder "$1" ∷ [];
  schema = λ plan. Fields.no_fields;
  is_ddl_or_dml = λ plan. false;
  display = debug;
  unified_text = λ i. 0;
}

abbrev prepared : Prepared ℕ
prepared = ("SELECT $2::int8, $1", some (selected, 1))

first_statement :
    parse_sql planning [] "SELECT $2::int8, $1; SELECT 2" 0
      (record { metadata = []; status = idle })
    ≡ ok (some prepared)
unfolding planning parse_sql
first_statement = refl

told_types : get_parameter_types planning prepared ≡ ok (PgType.text ∷ PgType.int8 ∷ [])
unfolding planning get_parameter_types into_pg_type get_inferred_parameter_types ordered_param_types
    merge visit number parse_below Dict.get Dict.insert Dict.update
told_types = refl

get_parameter_types-IsTold_example :
    IsTold planning libraries
      (PgType.text ∷ PgType.int8 ∷ [])
      (ordered_param_types (("$1", some DataType.utf8) ∷ ("$2", some DataType.int64) ∷ []))
unfolding planning get_inferred_parameter_types merge visit Dict.get Dict.insert Dict.update
get_parameter_types-IsTold_example =
    get_parameter_types-IsTold planning libraries "SELECT $2::int8, $1" selected 1
      (("$1", some DataType.utf8) ∷ ("$2", some DataType.int64) ∷ [])
      (PgType.text ∷ PgType.int8 ∷ []) refl refl told_types
