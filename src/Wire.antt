-- ===== src/Wire.antt =====
-- The values of pgwire that the sources build and read: error reports, command tags, responses and
-- the transaction status. Rows are not read by the modelled code: a query's response holds a value
-- of any type `R`.
use datafusion_postgres.Prelude.{ℕ, String, Option, none}

-- `pgwire::error::ErrorInfo`
pub record ErrorInfo : Type 0 where
  pub severity : String
  pub code : String
  pub message : String

-- `PgWireError::UserError`, `PgWireError::ApiError` around the text of another error, and a panic of
-- the code, which ends the connection.
pub data PgWireError : Type 0 where
  user_error : ErrorInfo → PgWireError
  api_error : String → PgWireError
  panicked : PgWireError

pub data PgWireResult {ℓ} (A : Type ℓ) : Type ℓ where
  ok : A → PgWireResult A
  err : PgWireError → PgWireResult A

infixl 5 ◌>>=◌
abbrev pub ◌>>=◌ {ℓ κ} :
    {A : Type ℓ} {B : Type κ} → PgWireResult A → (A → PgWireResult B) → PgWireResult B
ok a >>= f = f a
err e >>= f = err e

abbrev pub report : String → String → String → PgWireError
report severity code message =
    user_error (record { severity = severity; code = code; message = message })

-- `pgwire::api::results::Tag`
pub record Tag : Type 0 where
  pub command : String
  pub oid : Option ℕ
  pub rows : Option ℕ

abbrev pub tag : String → Tag
tag command = record { command = command; oid = none; rows = none }

-- `pgwire::api::results::Response`, the variants that the sources build
pub data Response (R : Type 0) : Type 0 where
  empty_query : Response R
  query : R → Response R
  execution : Tag → Response R
  transaction_start : Tag → Response R
  transaction_end : Tag → Response R

-- `pgwire::messages::response::TransactionStatus`
pub data TransactionStatus : Type 0 where
  idle transaction error : TransactionStatus
