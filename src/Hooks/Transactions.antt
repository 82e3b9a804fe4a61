-- ===== src/Hooks/Transactions.antt =====
-- datafusion-postgres/src/hooks/transactions.rs: `TransactionStatementHook`. It reads the client's
-- transaction status; pgwire sets the status from the responses.
use datafusion_postgres.Prelude.{Option, none, some, Bool, true, false}
use datafusion_postgres.Wire.{
  PgWireResult, PgWireError, ok, err, report, Response, execution, transaction_start,
  transaction_end, tag, TransactionStatus, idle, transaction, error,
}
use datafusion_postgres.Statement.{Statement, start_transaction, commit, rollback}

abbrev pub aborted : PgWireError
aborted =
    report "ERROR" "25P01"
      "current transaction is aborted, commands ignored until end of transaction block"

module _ {R : Type 0} where
  unfoldable pub try_respond_transaction_statements :
      TransactionStatus → Statement → PgWireResult (Option (Response R))
  try_respond_transaction_statements idle start_transaction =
      ok (some (transaction_start (tag "BEGIN")))
  try_respond_transaction_statements transaction start_transaction =
      ok (some (execution (tag "BEGIN")))
  try_respond_transaction_statements error start_transaction = err aborted
  try_respond_transaction_statements error commit = ok (some (transaction_end (tag "ROLLBACK")))
  try_respond_transaction_statements _ commit = ok (some (transaction_end (tag "COMMIT")))
  try_respond_transaction_statements _ rollback = ok (some (transaction_end (tag "ROLLBACK")))
  try_respond_transaction_statements _ _ = ok none

  -- `Result::transpose`
  abbrev pub transpose : PgWireResult (Option (Response R)) → Option (PgWireResult (Response R))
  transpose (ok none) = none
  transpose (ok (some response)) = some (ok response)
  transpose (err e) = some (err e)

  block_if_failed : TransactionStatus → Option (PgWireResult (Response R))
  block_if_failed error = some (err aborted)
  block_if_failed _ = none

  -- `handle_simple_query`, which `handle_extended_query` calls too
  unfoldable pub handle_simple_query :
      TransactionStatus → Statement → Option (PgWireResult (Response R))
  unfolding try_respond_transaction_statements block_if_failed
  handle_simple_query status statement =
      elim (transpose (try_respond_transaction_statements status statement)) [
        | some result ↦ some result
        | none ↦ block_if_failed status
      ]

-- `handle_extended_parse_query` answers with an empty plan for these, and leaves the others.
unfoldable pub handles_parse : Statement → Bool
handles_parse start_transaction = true
handles_parse commit = true
handles_parse rollback = true
handles_parse _ = false
