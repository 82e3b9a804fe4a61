-- ===== src/Hooks/Cursor.antt =====
-- datafusion-postgres/src/hooks/cursor.rs: `CursorStatementHook`. The portals of pgwire and DataFusion
-- are a parameter: `Portals`, with what they promise.
pub mod Opening
pub mod View
pub mod Fetching
use Prim.Native.String
use datafusion_postgres.Prelude.{
  ℕ, String, ◌^◌, Option, none, some, List, [], ◌∷◌, ◌≡◌, str_eq, if◌then◌else◌,
}
use datafusion_postgres.Prelude.Number.{parse_below}
use datafusion_postgres.Wire.{PgWireResult, PgWireError, ok, err, report, Response, execution, tag}
use datafusion_postgres.Statement.{
  Value, number, other_value, FetchDirection, CloseCursor, close_all, close_specific, DeclareType,
  cursor, result_set, exception, Declare, Statement, declare_cursors, fetch, close,
}
use datafusion_postgres.Handlers.{Session, Hook}

-- `MemPortalStore` and the portals in it, `SessionContext::sql` and the encoder. A stored portal of an
-- empty query is `none`.
pub record Portals (W P D Q R : Type 0) : Type 0 where
  pub get_portal : String → W → Option (Option P)
  pub put_portal : String → P → W → W
  pub rm_portal : String → W → W
  pub clear_portals : W → W
  pub sql : String → W → W × PgWireResult D
  pub encode : D → W → W × PgWireResult Q
  -- `Portal::new_cursor` for a query, and `start`
  pub start : String → String → Q → W → W × P
  pub fetch_rows : P → ℕ → W → W × PgWireResult R

-- The store is a map by name, and nothing else changes it.
pub record IsStore {W P D Q R : Type 0} (p : Portals W P D Q R) : Type 0 where
  pub put_lem :
      (n m : String) (portal : P) (w : W)
      → p.get_portal m (p.put_portal n portal w)
        ≡ (if str_eq n m then some (some portal) else p.get_portal m w)
  pub rm_lem :
      (n m : String) (w : W)
      → p.get_portal m (p.rm_portal n w) ≡ (if str_eq n m then none else p.get_portal m w)
  pub clear_lem : (m : String) (w : W) → p.get_portal m (p.clear_portals w) ≡ none
  pub sql_lem : (m q : String) (w : W) → p.get_portal m (p.sql q w).0 ≡ p.get_portal m w
  pub encode_lem : (m : String) (d : D) (w : W) → p.get_portal m (p.encode d w).0 ≡ p.get_portal m w
  pub start_lem :
      (m n q : String) (r : Q) (w : W) → p.get_portal m (p.start n q r w).0 ≡ p.get_portal m w
  pub fetch_lem :
      (m : String) (portal : P) (k : ℕ) (w : W)
      → p.get_portal m (p.fetch_rows portal k w).0 ≡ p.get_portal m w

-- `{:?}` of the type of a DECLARE
debug_type : Option DeclareType → String
debug_type none = "None"
debug_type (some cursor) = "Some(Cursor)"
debug_type (some result_set) = "Some(ResultSet)"
debug_type (some exception) = "Some(Exception)"

unfoldable pub parse_value_as_usize : Value → Option ℕ
parse_value_as_usize (number digits) = parse_below (2 ^ 64) digits
parse_value_as_usize (other_value _) = none

abbrev pub only_forward : PgWireError
only_forward = report "ERROR" "42000" "cursor can only scan forward"

-- How many rows a direction asks for; `none` for all of them.
unfoldable pub max_rows : FetchDirection → PgWireResult (Option ℕ)
max_rows FetchDirection.next = ok (some 1)
max_rows (FetchDirection.forward none) = ok (some 1)
max_rows (FetchDirection.forward (some v)) = ok (parse_value_as_usize v)
max_rows (FetchDirection.count v) = ok (parse_value_as_usize v)
max_rows FetchDirection.forward_all = ok none
max_rows FetchDirection.fetch_all = ok none
max_rows _ = err only_forward

abbrev pub or_zero : Option ℕ → ℕ
or_zero none = 0
or_zero (some n) = n

abbrev pub unsupported_portal : PgWireError
unsupported_portal = report "ERROR" "XX000" "unsupported portal strategy"

abbrev pub no_cursor : String → PgWireError
no_cursor name =
    report "ERROR" "34000" (String.◌++◌ "cursor \"" (String.◌++◌ name "\" does not exist"))

-- What a DECLARE says, or the error of its first part that is not supported.
abbrev named : List String → Option String → PgWireResult (String × String)
named [] for_query = err (report "ERROR" "42601" "cursor name is required")
named (name ∷ _) none = err (report "ERROR" "42601" "DECLARE CURSOR requires a FOR query")
named (name ∷ _) (some query) = ok (name, query)

abbrev declared : Option DeclareType → Declare → PgWireResult (String × String)
declared (some cursor) declare = named declare.names declare.for_query
declared other declare =
    err (report "ERROR" "42601" (String.◌++◌ "unsupported DECLARE type: " (debug_type other)))

unfoldable pub read_declare : Declare → PgWireResult (String × String)
unfolding debug_type
read_declare declare = declared declare.declare_type declare

module _ {W P D Q R : Type 0} (p : Portals W P D Q R) where
  abbrev pub encoded : String → String → W × PgWireResult Q → W × PgWireResult (Unit {0})
  encoded name query (w, err e) = (w, err e)
  encoded name query (w, ok response) =
      let (w', portal) = p.start name query response w in (p.put_portal name portal w', ok tt)

  abbrev pub planned : String → String → W × PgWireResult D → W × PgWireResult (Unit {0})
  planned name query (w, err e) = (w, err e)
  planned name query (w, ok df) = encoded name query (p.encode df w)

  abbrev pub open_cursor : PgWireResult (String × String) → W → W × PgWireResult (Unit {0})
  open_cursor (err e) w = (w, err e)
  open_cursor (ok (name, query)) w = planned name query (p.sql query w)

  abbrev pub go_on :
      W × PgWireResult (Unit {0})
      → (W → W × PgWireResult (Response R))
      → W × PgWireResult (Response R)
  go_on (w, err e) next = (w, err e)
  go_on (w, ok _) next = next w

  -- The loop over the cursors of one DECLARE, which ends at the first error.
  unfoldable pub handle_declare : List Declare → W → W × PgWireResult (Response R)
  unfolding read_declare
  handle_declare [] w = (w, ok (execution (tag "DECLARE CURSOR")))
  handle_declare (declare ∷ declares) w =
      go_on (open_cursor (read_declare declare) w) (handle_declare declares)

  abbrev pub rows_of : W × PgWireResult R → W × PgWireResult (Response R)
  rows_of (w, err e) = (w, err e)
  rows_of (w, ok rows) = (w, ok (Response.query rows))

  abbrev pub fetch_from : String → Option ℕ → Option (Option P) → W → W × PgWireResult (Response R)
  fetch_from name limit none w = (w, err (no_cursor name))
  fetch_from name limit (some none) w = (w, err unsupported_portal)
  fetch_from name limit (some (some portal)) w = rows_of (p.fetch_rows portal (or_zero limit) w)

  abbrev pub fetch_limit : String → PgWireResult (Option ℕ) → W → W × PgWireResult (Response R)
  fetch_limit name (err e) w = (w, err e)
  fetch_limit name (ok limit) w = fetch_from name limit (p.get_portal name w) w

  unfoldable pub handle_fetch : String → FetchDirection → W → W × PgWireResult (Response R)
  unfolding max_rows
  handle_fetch name direction w = fetch_limit name (max_rows direction) w

  unfoldable pub handle_close : CloseCursor → W → W × PgWireResult (Response R)
  handle_close close_all w = (p.clear_portals w, ok (execution (tag "CLOSE CURSOR")))
  handle_close (close_specific name) w = (p.rm_portal name w, ok (execution (tag "CLOSE CURSOR")))

  abbrev pub answer :
      Session W → W × PgWireResult (Response R) → Session W × Option (PgWireResult (Response R))
  answer s (w, result) = (record s { world = w }, some result)

  -- `handle_simple_query`; `handle_extended_query` has the same body
  unfoldable pub handle_simple_query : Hook W R
  unfolding handle_declare handle_fetch handle_close
  handle_simple_query (declare_cursors declares) s = answer s (handle_declare declares s.world)
  handle_simple_query (fetch name direction) s = answer s (handle_fetch name direction s.world)
  handle_simple_query (close which) s = answer s (handle_close which s.world)
  handle_simple_query _ s = (s, none)
