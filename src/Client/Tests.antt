-- ===== src/Client/Tests.antt =====
-- A client with a time zone.
use datafusion_postgres.Prelude.{none, some, [], ◌∷◌, ◌≡◌, arith}
use datafusion_postgres.Wire.{idle}
use datafusion_postgres.Client.{
  Client, get_statement_timeout, set_statement_timeout, get_timezone, set_timezone,
}
use datafusion_postgres.Client.Settings.{settings_read_back}

abbrev client : Client
client = record { metadata = ("timezone", "UTC") ∷ ("user", "alice") ∷ []; status = idle }

settings_read_back_example :
    (get_statement_timeout (set_statement_timeout client (some 5000)) ≡ some 5000)
    × (get_statement_timeout (set_statement_timeout client none) ≡ none)
    × (get_timezone (set_timezone client (some "CET")) ≡ some "CET")
    × (get_timezone (set_statement_timeout client (some 5000)) ≡ get_timezone client)
    × (get_timezone (set_statement_timeout client none) ≡ get_timezone client)
    × (get_statement_timeout (set_timezone client (some "CET")) ≡ get_statement_timeout client)
settings_read_back_example = settings_read_back client 5000 (some "CET") (omega arith)
