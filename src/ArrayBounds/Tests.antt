-- ===== src/ArrayBounds/Tests.antt =====
-- The bounds of concrete arrays.
use mathlib.Core.Option
use datafusion_postgres.Prelude.{true, false, none, some, [], ◌∷◌, ◌≡◌, refl, arith, inr}
use datafusion_postgres.Prelude.Int.{pos}
use datafusion_postgres.ArrayBounds.{
  leaf, no_rows, rows, lists, int32, bound_row, array_bounds_impl,
}
use datafusion_postgres.ArrayBounds.Extents.{rectangular, extent, bound_row-rectangular}

-- Three rows of two elements
bound_row-rectangular_example :
    (bound_row true (some (rectangular 2 (1 ∷ []))) (some (pos 2))
      ≡ Option.map (λ k. pos k) (extent 2 (1 ∷ []) 1))
    × (bound_row false (some (rectangular 2 (1 ∷ []))) (some (pos 2))
        ≡ Option.map (λ k. pos 1) (extent 2 (1 ∷ []) 1))
bound_row-rectangular_example = bound_row-rectangular 2 (1 ∷ []) 1 (omega arith) (omega arith, tt)

-- An array of three, NULL, an empty array, and a dimension too many
some_rows :
    array_bounds_impl true (
      lists
        (rows true (leaf 3) (rows false (leaf 0) (rows true (leaf 0) (rows true (leaf 2) no_rows))))
      ∷ int32 (some (pos 1) ∷ some (pos 1) ∷ some (pos 1) ∷ some (pos 2) ∷ [])
      ∷ [])
    ≡ inr (some (pos 3) ∷ none ∷ none ∷ none ∷ [])
unfolding array_bounds_impl
some_rows = refl
