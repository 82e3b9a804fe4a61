-- ===== src/Handlers/Tests.antt =====
-- The statement loop over an engine that counts its calls and fails on one text.
use datafusion_postgres.Prelude.{
  ℕ, ◌+◌, none, some, List, [], ◌∷◌, ◌≡◌, refl, if◌then◌else◌, str_eq,
}
use datafusion_postgres.Prelude.Dict
use datafusion_postgres.Wire.{PgWireResult, ok, err, api_error, Response, execution, tag, idle}
use datafusion_postgres.Client.{get_statement_timeout}
use datafusion_postgres.Statement.{Statement, query, insert, commit}
use datafusion_postgres.Handlers.{
  Session, Engine, elapsed, Hook, do_query, respond, run_hooks, run_statements, execute,
}
use datafusion_postgres.Handlers.Loop.{Outcome, do_query-Outcome}

abbrev run_text : Statement → ℕ → ℕ × PgWireResult ℕ
run_text (query text) w =
    if str_eq text "SELECT broken" then (w, err (api_error "no such column")) else (w + 1, ok w)
run_text _ w = (w + 1, ok w)

abbrev counting : Engine ℕ ℕ ℕ
counting = record {
  sql = run_text;
  sql_within = λ timeout statement w. (w, elapsed);
  first_count = λ df w. (w, ok (some df));
  encode = λ df client w. (w, ok df);
}

-- A hook that answers COMMIT.
abbrev commit_hook : Hook ℕ ℕ
commit_hook commit s = (s, some (ok (execution (tag "COMMIT"))))
commit_hook _ s = (s, none)

abbrev opened : Session ℕ
opened = record { client = record { metadata = []; status = idle }; world = 0 }

abbrev message : List Statement
message = query "SELECT broken" ∷ commit ∷ []

do_query-Outcome_example :
    Outcome counting
      (commit_hook ∷ [])
      opened
      (insert "INSERT INTO t SELECT 1" ∷ message)
      (do_query counting
        (commit_hook ∷ [])
        (ok (insert "INSERT INTO t SELECT 1" ∷ message))
        opened).0
      (do_query counting
        (commit_hook ∷ [])
        (ok (insert "INSERT INTO t SELECT 1" ∷ message))
        opened).1
do_query-Outcome_example =
    do_query-Outcome counting (commit_hook ∷ []) (insert "INSERT INTO t SELECT 1") message opened

abbrev two_responses : List (Response ℕ)
two_responses = Response.query 0 ∷ execution (tag "COMMIT") ∷ []

two_answered :
    (do_query counting (commit_hook ∷ []) (ok (query "SELECT 1" ∷ commit ∷ [])) opened).1
    ≡ ok two_responses
unfolding do_query respond run_hooks run_statements execute get_statement_timeout Dict.get
two_answered = refl
