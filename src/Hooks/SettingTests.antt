-- ===== src/Hooks/SettingTests.antt =====
-- The hooks of SET, SHOW and cursors on concrete statements.
use datafusion_postgres.Prelude.{
  arith, true, ℕ, String, false, Option, none, some, List, [], ◌∷◌, ◌≡◌, refl, str_eq,
  if◌then◌else◌,
}
use datafusion_postgres.Prelude.Dict
use datafusion_postgres.Prelude.Dict.{Dict}
use datafusion_postgres.Prelude.Number.{parse_below, print}
use datafusion_postgres.Prelude.Text
use datafusion_postgres.Wire.{
  PgWireResult, ok, err, api_error, execution, tag, TransactionStatus, idle, error,
}
use datafusion_postgres.Client.{get_statement_timeout, get_timezone}
use datafusion_postgres.Statement.{
  SqlExpr, single_assignment, set, show_variable, query, Declare, DeclareType,
}
use datafusion_postgres.Handlers.{Session, run_hooks}
use datafusion_postgres.Hooks.SetShow
use datafusion_postgres.Hooks.SetShow.{
  ShowEngine, is_stored, parse_amount, parse_timeout, print_timeout, show,
}
use datafusion_postgres.Hooks.SetShow.Units.{timeout_of, minutes}
use datafusion_postgres.Hooks.SetShow.Timeout.{set_timeout_lem}
use datafusion_postgres.Hooks.SetShow.Settings.{set_then_show}
use datafusion_postgres.Hooks.SetShow.Always.{IsAnswered}
use datafusion_postgres.Hooks.Cursor
use datafusion_postgres.Hooks.Cursor.{Portals, parse_value_as_usize, max_rows, no_cursor}
use datafusion_postgres.Hooks.Default.{answering, default_hooks, failed_answer, failed_transaction}

-- A store of portals, whose cursors hold the rows that are left.
abbrev Store : Type 0
Store = Dict (Option (List ℕ))

abbrev run_sql : String → Store → Store × PgWireResult (List ℕ)
run_sql text w = (w, if str_eq text "SELECT 1" then ok (1 ∷ 2 ∷ []) else err (api_error "no table"))

portals : Portals Store (List ℕ) (List ℕ) (List ℕ) (String × String)
portals = record {
  get_portal = λ m w. Dict.get m w;
  put_portal = λ m portal w. Dict.insert m (some portal) w;
  rm_portal = λ m w. Dict.remove m w;
  clear_portals = λ w. [];
  sql = run_sql;
  encode = λ df w. (w, ok df);
  start = λ m text response w. (w, response);
  fetch_rows = λ portal limit w. (w, ok ("rows", print limit));
}

-- A connection that keeps what it is told, and a DataFusion that knows no variable.
engine : ShowEngine Store (String × String)
engine = record {
  send_parameter_status = λ m value w. (w, ok tt);
  execute_set_statement = λ statement w. (w, err (api_error "unknown variable"));
  catalog_names = λ w. "datafusion" ∷ [];
  show_response = λ m value. ok (m, value);
  to_lowercase = λ m. if str_eq m "DateStyle" then "datestyle" else m;
  server_version = "16.6";
  default_bytea_output = "hex";
  default_datestyle = "ISO, MDY";
  default_intervalstyle = "postgres";
  default_extra_float_digits = "1";
  default_application_name = none;
  default_search_path = "public";
}

abbrev session : TransactionStatus → Session Store
session status = record { client = record { metadata = []; status = status }; world = [] }

abbrev german : SqlExpr
german = record { printed = "'German'"; literal = some (some "German") }

abbrev two_minutes : SqlExpr
two_minutes = record { printed = "'2min'"; literal = some (some "2min") }

parsed_units :
    (parse_timeout "'2min'" ≡ some 120000)
    × (parse_timeout "5000ms" ≡ some 5000)
    × (parse_timeout "30s" ≡ some 30000)
    × (parse_timeout "soon" ≡ none)
    × (parse_timeout "0" ≡ none)
unfolding parse_timeout parse_amount Text.trim Text.trim_start Text.reverse Text.ends_with
    Text.begins Text.drop_triples Text.drop_pairs parse_below
parsed_units = (refl, refl, refl, refl, refl)

set_then_show_example :
    (SetShow.handle_simple_query engine
      (show_variable ("DateStyle" ∷ []))
      (SetShow.handle_simple_query engine
        (set (single_assignment none false "datestyle" (german ∷ [])))
        (session idle)).0).1
    ≡ show engine "datestyle" "German"
unfolding engine is_stored
set_then_show_example =
    set_then_show engine "datestyle" "DateStyle" "datestyle" (some "German") german []
      (session idle) refl refl refl refl

set_timeout_lem_example :
    (s' : Session Store) × (SetShow.handle_simple_query engine
        (set (single_assignment none false "statement_timeout" (two_minutes ∷ [])))
        (session idle)
      ≡ (s', some (ok (execution (tag "SET")))))
    × (get_statement_timeout s'.client ≡ timeout_of 120000)
    × (get_timezone s'.client ≡ get_timezone (session idle).client)
    × (s'.world ≡ [])
    × (SetShow.handle_simple_query engine (show_variable ("statement_timeout" ∷ [])) s'
        ≡ (s', show engine "statement_timeout" "120000ms"))
unfolding engine print
set_timeout_lem_example =
    set_timeout_lem engine "statement_timeout" "statement_timeout" true 2 minutes two_minutes []
      (session idle) refl refl refl (omega arith)

abbrev two_cursors : List Declare
two_cursors =
    record { names = "a" ∷ []; declare_type = some DeclareType.cursor; for_query = some "SELECT 1" }
    ∷ record {
      names = "b" ∷ [];
      declare_type = some DeclareType.cursor;
      for_query = some "SELECT x";
    }
    ∷ []

failed_transaction_example :
    (run_hooks (default_hooks engine portals) (query "SELECT 1") (session error)
      ≡ failed_answer engine portals
          (answering (query "SELECT 1"))
          (query "SELECT 1")
          (session error))
    × IsAnswered (run_hooks (default_hooks engine portals) (query "SELECT 1") (session error)).1
failed_transaction_example =
    failed_transaction engine portals (query "SELECT 1") (session error) refl
