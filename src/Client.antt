-- ===== src/Client.antt =====
-- datafusion-postgres/src/client.rs over the part of pgwire's `ClientInfo` that the sources read: the
-- metadata map and the transaction status. A `Duration` is the number of its whole milliseconds.
pub mod Settings
mod Tests
use datafusion_postgres.Prelude.{ℕ, String, ◌^◌, Option, none, some}
use datafusion_postgres.Prelude.Dict
use datafusion_postgres.Prelude.Dict.{Dict}
use datafusion_postgres.Prelude.Number.{parse_below, print}
use datafusion_postgres.Wire.{TransactionStatus}

pub record Client : Type 0 where
  pub metadata : Dict String
  pub status : TransactionStatus

parse_if_set : Option String → Option ℕ
parse_if_set none = none
parse_if_set (some s) = parse_below (2 ^ 64) s

-- In milliseconds.
unfoldable pub get_statement_timeout : Client → Option ℕ
unfolding parse_if_set
get_statement_timeout client = parse_if_set (Dict.get "statement_timeout_ms" client.metadata)

unfoldable pub set_statement_timeout : Client → Option ℕ → Client
unfolding print
set_statement_timeout client none = record client {
  metadata = Dict.remove "statement_timeout_ms" client.metadata;
}
set_statement_timeout client (some timeout) = record client {
  metadata = Dict.insert "statement_timeout_ms" (print timeout) client.metadata;
}

unfoldable pub get_timezone : Client → Option String
get_timezone client = Dict.get "timezone" client.metadata

unfoldable pub set_timezone : Client → Option String → Client
set_timezone client none = record client { metadata = Dict.remove "timezone" client.metadata }
set_timezone client (some timezone) = record client {
  metadata = Dict.insert "timezone" timezone client.metadata;
}
