-- ===== src/Handlers/Extended.antt =====
-- handlers.rs: `do_query` of the extended protocol, on one portal.
pub mod Outcome
use datafusion_postgres.Prelude.{
  ℕ, Bool, true, false, Option, none, some, List, [], ◌∷◌, map, if◌then◌else◌,
}
use datafusion_postgres.Prelude.Dict.{Dict}
use datafusion_postgres.Wire.{
  PgWireResult, PgWireError, ok, err, Response, empty_query, query, execution,
}
use datafusion_postgres.Wire
use datafusion_postgres.Client.{Client, get_statement_timeout}
use datafusion_postgres.Statement.{Statement, insert}
use datafusion_postgres.Planner.{Visited, get_inferred_parameter_types}
use datafusion_postgres.Handlers.{
  Session, Timed, elapsed, finished, Step, Hook, timed_out, ◌>>=◌, pure, call, run_hooks, answer_or,
}
use datafusion_postgres.Handlers.Parameters.{ordered_param_types}

-- A portal: the statement with its plan, if the query was not empty, and what the client has bound,
-- the parameters and the formats of the result.
pub record Portal (P B : Type 0) : Type 0 where
  pub statement : Option (Statement × P)
  pub bound : B

-- DataFusion, its errors arriving as `PgWireError::ApiError`, the timer, and the decoder of the
-- parameters and the encoder of the results. `first_count` is as in `Engine`.
pub record PlanEngine (W P T V B D R : Type 0) : Type 0 where
  pub get_parameter_types : P → PgWireResult (Dict (Option T))
  pub visited : P → List (Visited T)
  pub deserialize_parameters : B → List (Option T) → PgWireResult V
  pub replace_params : P → V → PgWireResult P
  pub optimize : P → W → W × PgWireResult P
  pub execute_logical_plan : P → W → W × PgWireResult D
  pub execute_within : ℕ → P → W → W × Timed (PgWireResult D)
  pub first_count : D → W → W × PgWireResult (Option ℕ)
  pub encode : D → B → Client → W → W × PgWireResult R

-- A hook's `handle_extended_query`.
abbrev pub PlanHook : Type 0 → Type 0 → Type 0 → Type 0 → Type 0
PlanHook W P V R = Statement → P → V → Session W → Session W × Option (PgWireResult (Response R))

module _ {W P T V B D R : Type 0} (engine : PlanEngine W P T V B D R) where
  abbrev decode : B → List (Visited T) → PgWireResult (Dict (Option T)) → PgWireResult V
  decode bound visited (err e) = err e
  decode bound visited (ok types) =
      engine.deserialize_parameters bound
        (ordered_param_types (get_inferred_parameter_types types visited))

  unfoldable pub parameters : B → P → PgWireResult V
  parameters bound plan = decode bound (engine.visited plan) (engine.get_parameter_types plan)

  abbrev or_timed_out : Timed (PgWireResult D) → PgWireResult D
  or_timed_out elapsed = err timed_out
  or_timed_out (finished result) = result

  abbrev execute_plan : Option ℕ → P → W → W × PgWireResult D
  execute_plan none plan w = engine.execute_logical_plan plan w
  execute_plan (some timeout) plan w =
      let (w', result) = engine.execute_within timeout plan w in (w', or_timed_out result)

  abbrev or_zero : Option ℕ → ℕ
  or_zero none = 0
  or_zero (some n) = n

  abbrev is_insert : Statement → Bool
  is_insert (insert _) = true
  is_insert _ = false

  abbrev count_rows : D → Step W (Response R)
  count_rows df = do
    count ← call (engine.first_count df)
    pure (execution (record { command = "INSERT"; oid = some 0; rows = some (or_zero count) }))

  abbrev encode_rows : B → Client → D → Step W (Response R)
  encode_rows bound client df = do rows ← call (engine.encode df bound client); pure (query rows)

  -- From the parameters on: the plan with them in place is optimised and run.
  unfoldable pub run_plan : B → Statement → P → V → Step W (Response R)
  run_plan bound statement plan values s =
      (do
        filled ← call (λ w. (w, engine.replace_params plan values))
        optimised ← call (engine.optimize filled)
        df ← call (execute_plan (get_statement_timeout s.client) optimised)
        if is_insert statement then count_rows df else encode_rows bound s.client df)
        s

  abbrev pub with_parameters : PgWireResult V → (V → Step W (Response R)) → Step W (Response R)
  with_parameters (err e) k s = (s, err e)
  with_parameters (ok values) k s = k values s

  -- The hooks are asked only if there are any; the parameters are decoded for them, and again for
  -- the plan.
  abbrev pub ask_hooks :
      List (PlanHook W P V R)
      → B
      → Statement
      → P
      → Session W
      → Session W × Option (PgWireResult (Response R))
  ask_hooks [] bound statement plan s = (s, none)
  ask_hooks (hook ∷ hooks) bound statement plan s = elim (parameters bound plan) [
    | err e ↦ (s, some (err e))
    | ok values ↦ run_hooks (map (λ h st. h st plan values) (hook ∷ hooks)) statement s
  ]

  abbrev pub query_portal :
      List (PlanHook W P V R) → B → Option (Statement × P) → Step W (Response R)
  query_portal hooks bound none s = (s, ok empty_query)
  query_portal hooks bound (some (statement, plan)) s =
      let (s', answer) = ask_hooks hooks bound statement plan s in
      answer_or s' answer (with_parameters (parameters bound plan) (run_plan bound statement plan))

  unfoldable pub do_query_portal : List (PlanHook W P V R) → Portal P B → Step W (Response R)
  unfolding parameters run_plan
  do_query_portal hooks portal s = query_portal hooks portal.bound portal.statement s
