-- ===== src/Hooks/SetShow.antt =====
-- datafusion-postgres/src/hooks/set_show.rs: `SetShowHook`. The connection to the client, DataFusion
-- and the defaults of pgwire are a parameter. Arithmetic on `u64` wraps around, as it does in a
-- release build.
pub mod Timeout
pub mod Units
pub mod Settings
pub mod Always
use Prim.Native.String
use datafusion_postgres.Prelude.{
  ℕ, String, ◌*◌, ◌%◌, ◌^◌, ◌<◌, Bool, true, false, ◌&&◌, Option, none, some, List, [], ◌∷◌, map,
  ltb, str_eq, if◌then◌else◌,
}
use datafusion_postgres.Prelude.Dict
use datafusion_postgres.Prelude.Lists.{any}
use datafusion_postgres.Prelude.Number.{parse_below, print}
use datafusion_postgres.Prelude.Text
use datafusion_postgres.Wire.{PgWireResult, ok, err, panicked, Response, execution, tag, ◌>>=◌}
use datafusion_postgres.Client.{
  Client, get_statement_timeout, set_statement_timeout, get_timezone, set_timezone,
}
use datafusion_postgres.Statement.{
  SqlExpr, SetStatement, single_assignment, set_time_zone, Statement, set, show_variable,
  show_status, show_catalogs,
}
use datafusion_postgres.Handlers.{Session, Hook}

pub record ShowEngine (W R : Type 0) : Type 0 where
  -- `send_message` of a `ParameterStatus`
  pub send_parameter_status : String → String → W → W × PgWireResult (Unit {0})
  -- `execute_set_statement`: DataFusion plans, optimises and runs the statement.
  pub execute_set_statement : Statement → W → W × PgWireResult (Unit {0})
  pub catalog_names : W → List String
  -- `mock_show_response`: one row with one column of that name.
  pub show_response : String → String → PgWireResult R
  pub to_lowercase : String → String
  pub server_version : String
  -- `FormatOptions::default` and `DefaultServerParameterProvider::default`
  pub default_bytea_output : String
  pub default_datestyle : String
  pub default_intervalstyle : String
  pub default_extra_float_digits : String
  pub default_application_name : Option String
  pub default_search_path : String

-- The unit of a timeout: `ms`, `s`, `min` or none, tried in this order.
abbrev scaled : ℕ → Option ℕ → Option ℕ
scaled unit none = none
scaled unit (some n) = some ((n * unit) % 2 ^ 64)

unfoldable pub parse_amount : String → Option ℕ
unfolding Text.drop_pairs Text.trim_start Text.drop_triples Text.reverse
parse_amount text =
    if Text.ends_with text "ms"
    then parse_below (2 ^ 64) (Text.reverse (Text.drop_pairs "s" "m" (Text.reverse text)))
    else if Text.ends_with text "s"
    then scaled 1000 (parse_below (2 ^ 64) (Text.reverse (Text.trim_start "s" (Text.reverse text))))
    else if Text.ends_with text "min"
    then scaled (60 * 1000)
        (parse_below (2 ^ 64) (Text.reverse (Text.drop_triples "n" "i" "m" (Text.reverse text))))
    else parse_below (2 ^ 64) text

abbrev positive : Option ℕ → Option ℕ
positive none = none
positive (some ms) = if ltb 0 ms then some ms else none

-- The timeout in milliseconds, from the printed value of the SET statement; `none` switches it off.
unfoldable pub parse_timeout : String → Option ℕ
unfolding Text.trim parse_amount
parse_timeout value =
    let text = Text.trim "'" (Text.trim "\"" value) in
    if str_eq text "0" then none else if str_eq text "" then none else positive (parse_amount text)

-- The name of a variable as a `ParameterStatus` carries it.
unfoldable pub display_name : String → Option String
display_name var =
    if str_eq var "datestyle"
    then some "DateStyle"
    else if str_eq var "intervalstyle"
    then some "IntervalStyle"
    else if str_eq var "bytea_output"
    then some "bytea_output"
    else if str_eq var "application_name"
    then some "application_name"
    else if str_eq var "extra_float_digits"
    then some "extra_float_digits"
    else if str_eq var "search_path"
    then some "search_path"
    else none

abbrev pub status_of : Option String → Option String → Option (String × String)
status_of none value = none
status_of (some name) none = none
status_of (some name) (some value) = some (name, value)

unfoldable pub parameter_status_for_var : String → Client → Option (String × String)
unfolding display_name
parameter_status_for_var var client = status_of (display_name var) (Dict.get var client.metadata)

-- The variables that are kept in the metadata.
abbrev stored_variables : List String
stored_variables =
    "datestyle" ∷ "bytea_output" ∷ "intervalstyle" ∷ "application_name" ∷ "extra_float_digits"
    ∷ "search_path" ∷ []

unfoldable pub is_stored : String → Bool
unfolding any
is_stored var = any (λ v. str_eq v var) stored_variables

abbrev pub insert_metadata : String → String → Client → Client
insert_metadata var value client = record client {
  metadata = Dict.insert var value client.metadata;
}

abbrev pub or_empty : Option String → String
or_empty none = ""
or_empty (some text) = text

abbrev or_utc : Option String → String
or_utc none = "UTC"
or_utc (some timezone) = timezone

unfoldable pub timezone_of : Client → String
timezone_of client = or_utc (get_timezone client)

abbrev pub join_after : String → List String → String
join_after sep [] = ""
join_after sep (x ∷ xs) = String.◌++◌ sep (String.◌++◌ x (join_after sep xs))

abbrev pub join : String → List String → String
join sep [] = ""
join sep (x ∷ xs) = String.◌++◌ x (join_after sep xs)

-- `{}ms` of a timeout, or `0`.
abbrev pub print_timeout : Option ℕ → String
print_timeout none = "0"
print_timeout (some ms) = String.◌++◌ (print ms) "ms"

module _ {W R : Type 0} (engine : ShowEngine W R) where
  abbrev pub Reply : Type 0
  Reply = Session W × Option (PgWireResult (Response R))

  abbrev pub done : PgWireResult (Response R)
  done = ok (execution (tag "SET"))

  abbrev pub sent : Client → W × PgWireResult (Unit {0}) → Reply
  sent client (w, ok _) = (record { client = client; world = w }, some done)
  sent client (w, err e) = (record { client = client; world = w }, some (err e))

  abbrev pub report_status : Option (String × String) → Session W → Reply
  report_status none s = (s, some done)
  report_status (some (name, value)) s =
      sent s.client (engine.send_parameter_status name value s.world)

  -- Whatever DataFusion says, the answer is SET.
  abbrev pub fallback : Statement → Session W → Reply
  fallback statement s =
      let (w, _) = engine.execute_set_statement statement s.world in
      (record s { world = w }, some done)

  -- `values[0]` panics where there is no value.
  abbrev pub assign_timeout : List SqlExpr → Session W → Reply
  assign_timeout [] s = (s, some (err panicked))
  assign_timeout (value ∷ _) s = (
    record s { client = set_statement_timeout s.client (parse_timeout value.printed) },
    some done,
  )

  abbrev store_literal : Statement → String → Option (Option String) → Session W → Reply
  store_literal statement var none s = fallback statement s
  store_literal statement var (some text) s =
      let client = insert_metadata var (or_empty text) s.client in
      report_status (parameter_status_for_var var client) (record s { client = client })

  abbrev store : Statement → String → List SqlExpr → Session W → Reply
  store statement var [] s = fallback statement s
  store statement var (value ∷ _) s = store_literal statement var value.literal s

  unfoldable pub assign : Statement → String → List SqlExpr → Session W → Reply
  unfolding is_stored parse_timeout parameter_status_for_var
  assign statement var values s =
      if str_eq var "statement_timeout"
      then assign_timeout values s
      else if is_stored var
      then store statement var values s
      else fallback statement s

  -- The time zone is also assigned to the options of `session_context.state()`, which is a copy.
  unfoldable pub assign_timezone : String → Session W → Reply
  unfolding Text.trim timezone_of
  assign_timezone value s =
      let timezone = Text.trim "'" (Text.trim "\"" value) in
      let client = set_timezone s.client (some timezone) in
      sent client (engine.send_parameter_status "TimeZone" (timezone_of client) s.world)

  unfoldable pub try_respond_set_statements : SetStatement → Session W → Reply
  unfolding assign assign_timezone
  try_respond_set_statements (single_assignment none false variable values) s =
      assign (set (single_assignment none false variable values)) (engine.to_lowercase variable)
        values s
  try_respond_set_statements (set_time_zone false value) s = assign_timezone value s
  try_respond_set_statements statement s = fallback (set statement) s

  abbrev pub show : String → String → Option (PgWireResult (Response R))
  show name value = some (engine.show_response name value >>= λ row. ok (Response.query row))

  -- What a variable is where the client has not set it.
  unfoldable pub default_value : String → Option String
  default_value var =
      if str_eq var "bytea_output"
      then some engine.default_bytea_output
      else if str_eq var "datestyle"
      then some engine.default_datestyle
      else if str_eq var "intervalstyle"
      then some engine.default_intervalstyle
      else if str_eq var "extra_float_digits"
      then some engine.default_extra_float_digits
      else if str_eq var "application_name"
      then some (or_empty engine.default_application_name)
      else if str_eq var "search_path"
      then some engine.default_search_path
      else none

  abbrev or_else : Option String → Option String → Option String
  or_else (some value) other = some value
  or_else none other = other

  abbrev show_or_unsupported : String → Option String → Option (PgWireResult (Response R))
  show_or_unsupported var (some value) = show var value
  show_or_unsupported var none = show "unsupported_show_statement" ""

  abbrev show_metadata : Client → String → Option (PgWireResult (Response R))
  show_metadata client var =
      show_or_unsupported var (or_else (Dict.get var client.metadata) (default_value var))

  abbrev show_catalog_names : W → Option (PgWireResult (Response R))
  show_catalog_names w = show "Catalogs" (join ", " (engine.catalog_names w))

  -- A variable of one word.
  unfoldable pub show_word : Session W → String → Option (PgWireResult (Response R))
  unfolding default_value
  show_word s var =
      if str_eq var "server_version"
      then show "server_version" engine.server_version
      else if str_eq var "transaction_isolation"
      then show "transaction_isolation" "read uncommitted"
      else if str_eq var "catalogs"
      then show_catalog_names s.world
      else if str_eq var "statement_timeout"
      then show "statement_timeout" (print_timeout (get_statement_timeout s.client))
      else show_metadata s.client var

  -- The match on the words, which panics in its last arm where there is none.
  unfoldable pub show_words : Session W → List String → Option (PgWireResult (Response R))
  unfolding show_word timezone_of
  show_words s [] = some (err panicked)
  show_words s (var ∷ []) = show_word s var
  show_words s (a ∷ b ∷ []) =
      if str_eq a "time" && str_eq b "zone"
      then show "TimeZone" (timezone_of s.client)
      else show_metadata s.client a
  show_words s (a ∷ b ∷ c ∷ []) =
      if str_eq a "transaction" && (str_eq b "isolation" && str_eq c "level")
      then show "transaction_isolation" "read_committed"
      else show_metadata s.client a
  show_words s (a ∷ _) = show_metadata s.client a

  unfoldable pub try_respond_show_statements :
      Statement → Session W → Option (PgWireResult (Response R))
  unfolding show_words
  try_respond_show_statements show_catalogs s = show_catalog_names s.world
  try_respond_show_statements (show_variable variable) s =
      show_words s (map engine.to_lowercase variable)
  try_respond_show_statements _ s = none

  -- `handle_simple_query`; `handle_extended_query` has the same body
  unfoldable pub handle_simple_query : Hook W R
  unfolding try_respond_set_statements try_respond_show_statements
  handle_simple_query (set statement) s = try_respond_set_statements statement s
  handle_simple_query statement s = (s, try_respond_show_statements statement s)
