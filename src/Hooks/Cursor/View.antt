-- ===== src/Hooks/Cursor/View.antt =====
-- What DECLARE, FETCH and CLOSE do to the map of cursors.
use datafusion_postgres.Prelude.{ℕ, String, Option, none, some, List, ◌≡◌}
use datafusion_postgres.Wire.{PgWireResult, PgWireError, ok, err, Response, execution, tag}
use datafusion_postgres.Statement.{
  FetchDirection, close_all, close_specific, Statement, declare_cursors, fetch, close,
}
use datafusion_postgres.Handlers.{Session}
use datafusion_postgres.Hooks.Cursor.{
  Portals, IsStore, max_rows, no_cursor, unsupported_portal, or_zero, answer,
}
use datafusion_postgres.Hooks.Cursor.Opening.{unbind, bind_all, view, Opens}

module _ {W P D Q R : Type 0} (p : Portals W P D Q R) where
  -- The answer to a FETCH: the rows of the portal of that name, by the limit of the direction, where 0
  -- is all of them, or an error.
  pub data Fetches (name : String) (direction : FetchDirection) (w : W)
      : W → PgWireResult (Response R) → Type 0 where
    not_forward :
        (e : PgWireError) → max_rows direction ≡ err e → Fetches name direction w w (err e)
    unknown :
        (limit : Option ℕ)
        → max_rows direction ≡ ok limit
        → view p w name ≡ none
        → Fetches name direction w w (err (no_cursor name))
    unstarted :
        (limit : Option ℕ)
        → max_rows direction ≡ ok limit
        → view p w name ≡ some none
        → Fetches name direction w w (err unsupported_portal)
    failed :
        (limit : Option ℕ) (portal : P) (e : PgWireError) (w₁ : W)
        → max_rows direction ≡ ok limit
        → view p w name ≡ some (some portal)
        → p.fetch_rows portal (or_zero limit) w ≡ (w₁, err e)
        → Fetches name direction w w₁ (err e)
    fetched :
        (limit : Option ℕ) (portal : P) (rows : R) (w₁ : W)
        → max_rows direction ≡ ok limit
        → view p w name ≡ some (some portal)
        → p.fetch_rows portal (or_zero limit) w ≡ (w₁, ok rows)
        → Fetches name direction w w₁ (ok (Response.query rows))

  module _ (laws : IsStore p) where
    -- The effect of a cursor statement on the map, with its answer.
    pub Refines : Statement → Session W → Session W × Option (PgWireResult (Response R)) → Type 0
    Refines (declare_cursors declares) s (s', answer) =
        (opened : List (String × P)) × (result : PgWireResult (Response R)) × (answer ≡ some result)
        × Opens p s.world declares s'.world opened result
        × (view p s'.world ≡ bind_all opened (view p s.world))
    Refines (fetch name direction) s (s', answer) =
        (result : PgWireResult (Response R)) × (answer ≡ some result)
        × Fetches name direction s.world s'.world result
        × (view p s'.world ≡ view p s.world)
    Refines (close (close_specific name)) s (s', answer) =
        (view p s'.world ≡ unbind name (view p s.world))
        × (answer ≡ some (ok (execution (tag "CLOSE CURSOR"))))
    Refines (close close_all) s (s', answer) =
        (view p s'.world ≡ (λ name. none)) × (answer ≡ some (ok (execution (tag "CLOSE CURSOR"))))
    Refines _ s (s', answer) = (s' ≡ s) × (answer ≡ none)
