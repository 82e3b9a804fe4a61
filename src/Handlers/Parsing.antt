-- ===== src/Handlers/Parsing.antt =====
-- datafusion-postgres/src/handlers.rs: `Parser`, the parse step of the extended protocol. The SQL parser,
-- the planner and what a plan says are a parameter, `Planning`; pgwire is told of the first statement
-- of a text only.
pub mod Advertised
mod Tests
use datafusion_postgres.Prelude.{ℕ, String, Bool, Option, none, some, List, [], ◌∷◌, if◌then◌else◌}
use datafusion_postgres.Prelude.Dict.{Dict}
use datafusion_postgres.Wire.{PgWireResult, ok, err, ◌>>=◌}
use datafusion_postgres.Client.{Client}
use datafusion_postgres.Statement.{Statement}
use datafusion_postgres.Planner.{Visited, get_inferred_parameter_types}
use datafusion_postgres.Handlers.Parameters.{ordered_param_types}
use datafusion_postgres.Arrow.{DataType, Fields, PgType}
use datafusion_postgres.Arrow.Types.{FieldInfo, into_pg_type, arrow_schema_to_pg_fields}

-- L is a logical plan, and F the format of a column. DataFusion's errors arrive as `ApiError`.
pub record Planning (W L F : Type 0) : Type 0 where
  -- `PostgresCompatibilityParser::parse`
  pub parse : String → PgWireResult (List Statement)
  pub print : Statement → String
  pub statement_to_plan : Statement → W → PgWireResult L
  -- `LogicalPlan::get_parameter_types`, and what the walk of planner.rs over the plan meets
  pub plan_types : L → PgWireResult (Dict (Option DataType))
  pub visited : L → List (Visited DataType)
  pub schema : L → Fields
  -- `LogicalPlan::Ddl` or `LogicalPlan::Dml`
  pub is_ddl_or_dml : L → Bool
  pub display : DataType → String
  -- the format of a column, where the client asks for none
  pub unified_text : ℕ → F

-- A hook's `handle_extended_parse_query`.
abbrev pub ParseHook : Type 0 → Type 0 → Type 0
ParseHook W L = Statement → W → Client → Option (PgWireResult L)

-- The text of a statement, with the statement and its plan.
abbrev pub Prepared : Type 0 → Type 0
Prepared L = String × Option (Statement × L)

module _ {W L F : Type 0} (planning : Planning W L F) where
  abbrev pub planned : String → Statement → PgWireResult L → PgWireResult (Option (Prepared L))
  planned text statement result = result >>= λ plan. ok (some (text, some (statement, plan)))

  abbrev pub or_later : Option (PgWireResult L) → PgWireResult L → PgWireResult L
  or_later (some result) rest = result
  or_later none rest = rest

  -- The hooks in order, and the planner where none of them answers.
  unfoldable pub plan_by : List (ParseHook W L) → Statement → W → Client → PgWireResult L
  plan_by [] statement w client = planning.statement_to_plan statement w
  plan_by (hook ∷ hooks) statement w client =
      or_later (hook statement w client) (plan_by hooks statement w client)

  abbrev pub prepare :
      List (ParseHook W L) → W → Client → List Statement → PgWireResult (Option (Prepared L))
  prepare hooks w client [] = ok none
  prepare hooks w client (statement ∷ _) =
      planned (planning.print statement) statement (plan_by hooks statement w client)

  unfoldable pub parse_sql :
      List (ParseHook W L) → String → W → Client → PgWireResult (Option (Prepared L))
  unfolding plan_by
  parse_sql hooks sql w client = planning.parse sql >>= prepare hooks w client

  unfoldable pub param_types : List (Option DataType) → PgWireResult (List PgType)
  param_types [] = ok []
  param_types (none ∷ types) = param_types types >>= λ rest. ok (PgType.unknown ∷ rest)
  param_types (some type ∷ types) = into_pg_type planning.display type >>= λ pg_type.
      param_types types >>= λ rest. ok (pg_type ∷ rest)

  abbrev pub inferred : L → PgWireResult (Dict (Option DataType))
  inferred plan = planning.plan_types plan >>= λ found.
      ok (get_inferred_parameter_types found (planning.visited plan))

  unfoldable pub get_parameter_types : Prepared L → PgWireResult (List PgType)
  unfolding param_types
  get_parameter_types (text, none) = ok []
  get_parameter_types (text, some (statement, plan)) =
      inferred plan >>= λ params. param_types (ordered_param_types params)

  abbrev pub or_unified : Option (ℕ → F) → ℕ → F
  or_unified (some format) = format
  or_unified none = planning.unified_text

  unfoldable pub get_result_schema : Prepared L → Option (ℕ → F) → PgWireResult (List (FieldInfo F))
  get_result_schema (text, none) format = ok []
  get_result_schema (text, some (statement, plan)) format =
      if planning.is_ddl_or_dml plan
      then ok []
      else arrow_schema_to_pg_fields planning.display (or_unified format) (planning.schema plan)
