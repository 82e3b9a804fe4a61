-- ===== src/Client/Settings.antt =====
-- What is read after a setting was written.
use datafusion_postgres.Prelude.{ℕ, ◌^◌, ◌<◌, String, Option, none, some, ◌≡◌, refl}
use datafusion_postgres.Prelude.Dict.{get-insert, get-remove}
use datafusion_postgres.Prelude.Number.{print, parse_below-print}
use datafusion_postgres.Client.{
  Client, get_statement_timeout, set_statement_timeout, get_timezone, set_timezone,
}

pub timeout_written :
    (client : Client) (timeout : ℕ)
    → timeout < 2 ^ 64
    → get_statement_timeout (set_statement_timeout client (some timeout)) ≡ some timeout
unfolding get_statement_timeout set_statement_timeout
timeout_written client timeout h =
    rw (get-insert "statement_timeout_ms" "statement_timeout_ms" (print timeout) client.metadata)
      (parse_below-print (2 ^ 64) timeout h)

pub timeout_removed :
    (client : Client) → get_statement_timeout (set_statement_timeout client none) ≡ none
unfolding get_statement_timeout set_statement_timeout
timeout_removed client =
    rw (get-remove "statement_timeout_ms" "statement_timeout_ms" client.metadata) refl

timezone_written :
    (client : Client) (timezone : Option String)
    → get_timezone (set_timezone client timezone) ≡ timezone
unfolding get_timezone set_timezone
timezone_written client none = rw (get-remove "timezone" "timezone" client.metadata) refl
timezone_written client (some tz) = rw (get-insert "timezone" "timezone" tz client.metadata) refl

pub timezone_kept :
    (client : Client) (timeout : Option ℕ)
    → get_timezone (set_statement_timeout client timeout) ≡ get_timezone client
unfolding get_timezone set_statement_timeout
timezone_kept client none = rw (get-remove "statement_timeout_ms" "timezone" client.metadata) refl
timezone_kept client (some ms) =
    rw (get-insert "statement_timeout_ms" "timezone" (print ms) client.metadata) refl

timeout_kept :
    (client : Client) (timezone : Option String)
    → get_statement_timeout (set_timezone client timezone) ≡ get_statement_timeout client
unfolding get_statement_timeout set_timezone
timeout_kept client none = rw (get-remove "timezone" "statement_timeout_ms" client.metadata) refl
timeout_kept client (some tz) =
    rw (get-insert "timezone" "statement_timeout_ms" tz client.metadata) refl

-- A timeout of fewer than 2 ^ 64 milliseconds is read back as it was set, through its decimal print
-- in the metadata, and a timeout that was reset is not there; so is the time zone. Neither setting
-- changes the other.
pub settings_read_back :
    (client : Client) (timeout : ℕ) (timezone : Option String)
    → timeout < 2 ^ 64
    → (get_statement_timeout (set_statement_timeout client (some timeout)) ≡ some timeout)
      × (get_statement_timeout (set_statement_timeout client none) ≡ none)
      × (get_timezone (set_timezone client timezone) ≡ timezone)
      × (get_timezone (set_statement_timeout client (some timeout)) ≡ get_timezone client)
      × (get_timezone (set_statement_timeout client none) ≡ get_timezone client)
      × (get_statement_timeout (set_timezone client timezone) ≡ get_statement_timeout client)
settings_read_back client timeout timezone h = (
  timeout_written client timeout h,
  timeout_removed client,
  timezone_written client timezone,
  timezone_kept client (some timeout),
  timezone_kept client none,
  timeout_kept client timezone,
)
