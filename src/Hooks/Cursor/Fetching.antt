-- ===== src/Hooks/Cursor/Fetching.antt =====
-- Which rows FETCH asks for, and FETCH after CLOSE.
use datafusion_postgres.Prelude.{ℕ, String, Option, none, some, ◌≡◌, ◌⊎◌, refl, inl, inr, eq_iff}
use datafusion_postgres.Wire.{ok, err}
use datafusion_postgres.Statement.{FetchDirection, Value, CloseCursor, close_all, close_specific}
use datafusion_postgres.Hooks.Cursor.{
  Portals, IsStore, parse_value_as_usize, max_rows, no_cursor, fetch_from, handle_fetch,
  handle_close,
}

-- The statement removes the name.
abbrev pub Closes : CloseCursor → String → Type 0
Closes close_all name = Unit
Closes (close_specific closed) name = closed ≡ name

module _ {W P D Q R : Type 0} (p : Portals W P D Q R) where
  -- A limit that is zero, or that is no number below 2 ^ 64, fetches all rows that are left.
  pub fetch_zero_all :
      (name : String) (v : Value) (w : W)
      → (parse_value_as_usize v ≡ some 0) ⊎ (parse_value_as_usize v ≡ none)
      → (handle_fetch p name (FetchDirection.count v) w
          ≡ handle_fetch p name FetchDirection.fetch_all w)
        × (handle_fetch p name (FetchDirection.forward (some v)) w
            ≡ handle_fetch p name FetchDirection.fetch_all w)
  unfolding handle_fetch
  fetch_zero_all name v w h = elim h [
    | inl is_zero ↦
        let same = all_or_zero (p.get_portal name w) in (rw is_zero same, rw is_zero same)
    | inr unread ↦ (rw unread refl, rw unread refl)
  ]
    where
      all_or_zero :
          (o : Option (Option P)) → fetch_from p name (some 0) o w ≡ fetch_from p name none o w
      all_or_zero none = refl
      all_or_zero (some none) = refl
      all_or_zero (some (some portal)) = refl

  -- After CLOSE of a cursor, or of all, a FETCH that scans forward is refused: there is no such
  -- cursor, whatever it was before.
  pub fetch-close :
      (which : CloseCursor) (name : String) (direction : FetchDirection) (limit : Option ℕ) (w : W)
      → IsStore p
      → Closes which name
      → max_rows direction ≡ ok limit
      → (handle_fetch p name direction (handle_close p which w).0).1 ≡ err (no_cursor name)
  unfolding handle_fetch handle_close
  fetch-close close_all name direction limit w laws closed forward =
      rw forward (rw (laws.clear_lem name w) refl)
  fetch-close (close_specific closed) name direction limit w laws same forward =
      rw forward (rw (laws.rm_lem closed name w) (rw ((eq_iff closed name).1 same) refl))
