-- ===== src/Handlers.antt =====
-- datafusion-postgres/src/handlers.rs: `DfSessionService`, the loop of the simple query protocol
-- over the statements of one message. DataFusion, the timer and the encoder are a parameter.
pub mod Loop
pub mod Routing
pub mod Parameters
pub mod Extended
pub mod Parsing
mod Tests
mod PortalTests
use datafusion_postgres.Prelude.{
  ℕ, String, Bool, true, false, Option, none, some, List, [], ◌∷◌, ◌++◌, if◌then◌else◌,
}
use datafusion_postgres.Wire.{
  PgWireResult, PgWireError, ok, err, report, Response, empty_query, query, execution, tag, Tag,
}
use datafusion_postgres.Client.{Client, get_statement_timeout}
use datafusion_postgres.Statement.{Statement, insert}

-- What a call under `tokio::time::timeout` comes to.
pub data Timed (A : Type 0) : Type 0 where
  elapsed : Timed A
  finished : A → Timed A

-- The client, and the DataFusion session with its data.
pub record Session (W : Type 0) : Type 0 where
  pub client : Client
  pub world : W

-- DataFusion's errors arrive as `PgWireError::ApiError`. `first_count` is the value of the column
-- `count` in the first batch, where there is one.
pub record Engine (W D R : Type 0) : Type 0 where
  pub sql : Statement → W → W × PgWireResult D
  pub sql_within : ℕ → Statement → W → W × Timed (PgWireResult D)
  pub first_count : D → W → W × PgWireResult (Option ℕ)
  pub encode : D → Client → W → W × PgWireResult R

-- A step that may fail, and changes the session whether it fails or not.
abbrev pub Step : Type 0 → Type 0 → Type 0
Step W A = Session W → Session W × PgWireResult A

-- A hook's `handle_simple_query`.
abbrev pub Hook : Type 0 → Type 0 → Type 0
Hook W R = Statement → Session W → Session W × Option (PgWireResult (Response R))

abbrev pub timed_out : PgWireError
timed_out = report "ERROR" "57014" "canceling statement due to statement timeout"

module _ {W A B : Type 0} where
  abbrev pub next : Session W → PgWireResult A → (A → Step W B) → Session W × PgWireResult B
  next s (ok a) k = k a s
  next s (err e) k = (s, err e)

  infixl 5 ◌>>=◌
  abbrev pub ◌>>=◌ : Step W A → (A → Step W B) → Step W B
  ◌>>=◌ m k s = let (s', result) = m s in next s' result k

module _ {W A : Type 0} where
  abbrev pub pure : A → Step W A
  pure a s = (s, ok a)

  -- A call into the DataFusion session.
  abbrev pub call : (W → W × PgWireResult A) → Step W A
  call f s = let (world, result) = f s.world in (record s { world = world }, result)

module _ {W R : Type 0} where
  abbrev pub stop_or :
      Session W
      → Option (PgWireResult (Response R))
      → (Session W → Session W × Option (PgWireResult (Response R)))
      → Session W × Option (PgWireResult (Response R))
  stop_or s (some result) rest = (s, some result)
  stop_or s none rest = rest s

  -- The hooks in order, up to the first that answers.
  unfoldable pub run_hooks : List (Hook W R) → Hook W R
  run_hooks [] statement s = (s, none)
  run_hooks (hook ∷ hooks) statement s =
      let (s', answer) = hook statement s in stop_or s' answer (run_hooks hooks statement)

  abbrev pub answer_or :
      Session W
      → Option (PgWireResult (Response R))
      → Step W (Response R)
      → Session W × PgWireResult (Response R)
  answer_or s (some result) rest = (s, result)
  answer_or s none rest = rest s

module _ {W D R : Type 0} (engine : Engine W D R) where
  abbrev pub or_timed_out : Timed (PgWireResult D) → PgWireResult D
  or_timed_out elapsed = err timed_out
  or_timed_out (finished result) = result

  abbrev pub run_sql : Option ℕ → Statement → W → W × PgWireResult D
  run_sql none statement w = engine.sql statement w
  run_sql (some timeout) statement w =
      let (w', result) = engine.sql_within timeout statement w in (w', or_timed_out result)

  abbrev pub or_zero : Option ℕ → ℕ
  or_zero none = 0
  or_zero (some n) = n

  unfoldable pub map_rows_affected_for_insert : D → Step W (Response R)
  map_rows_affected_for_insert df = do
    count ← call (engine.first_count df)
    pure (execution (record { command = "INSERT"; oid = some 0; rows = some (or_zero count) }))

  abbrev pub is_insert : Statement → Bool
  is_insert (insert _) = true
  is_insert _ = false

  abbrev pub encode_rows : Client → D → Step W (Response R)
  encode_rows client df = do rows ← call (engine.encode df client); pure (query rows)

  unfoldable pub execute : Statement → Step W (Response R)
  unfolding map_rows_affected_for_insert
  execute statement s =
      (do
        df ← call (run_sql (get_statement_timeout s.client) statement)
        if is_insert statement then map_rows_affected_for_insert df else encode_rows s.client df)
        s

  unfoldable pub respond : List (Hook W R) → Statement → Step W (Response R)
  respond hooks statement s =
      let (s', answer) = run_hooks hooks statement s in answer_or s' answer (execute statement)

  -- The loop over the statements, with the responses so far. An error ends it.
  unfoldable pub run_statements :
      List (Hook W R) → List (Response R) → List Statement → Step W (List (Response R))
  run_statements hooks results [] = pure results
  run_statements hooks results (statement ∷ statements) = do
    response ← respond hooks statement
    run_statements hooks (results ++ response ∷ []) statements

  -- `do_query` on what the parser made of the message.
  unfoldable pub do_query :
      List (Hook W R) → PgWireResult (List Statement) → Step W (List (Response R))
  do_query hooks (err e) s = (s, err e)
  do_query hooks (ok []) s = (s, ok (empty_query ∷ []))
  do_query hooks (ok (statement ∷ statements)) s =
      run_statements hooks [] (statement ∷ statements) s
