-- ===== src/ArrayBounds/Extents.antt =====
-- The bounds of rectangular arrays, and their extents.
use mathlib.Core.Option
use datafusion_postgres.Prelude.{
  ℕ, zero, suc, ◌+◌, ◌^◌, ◌<◌, true, false, Option, none, some, List, [], ◌∷◌, ◌≡◌, refl, ap, arith,
  lt→ltb,
}
use datafusion_postgres.Prelude.Int.{pos, fits_signed, as_i32-fits}
use datafusion_postgres.Prelude.Lists.{All}
use datafusion_postgres.ArrayBounds.{
  ArrowArray, leaf, list, ListRows, no_rows, rows, rows_length, descend, length_at_dim, bound_of,
  bound_row,
}

abbrev repeated : ℕ → ArrowArray → ListRows
repeated zero array = no_rows
repeated (suc n) array = rows true array (repeated n array)

-- The array with so many rows in its first dimension, and so on; each extent is one more than the
-- number in the list.
unfoldable pub rectangular : ℕ → List ℕ → ArrowArray
rectangular n [] = leaf (suc n)
rectangular n (m ∷ extents) = list (repeated (suc n) (rectangular m extents))

abbrev pub extent : ℕ → List ℕ → ℕ → Option ℕ
extent n extents zero = some (suc n)
extent n [] (suc d) = none
extent n (m ∷ extents) (suc d) = extent m extents d

rows_length-repeated : (n : ℕ) (array : ArrowArray) → rows_length (repeated n array) ≡ n
unfolding rows_length
rows_length-repeated zero array = refl
rows_length-repeated (suc n) array = ap suc (rows_length-repeated n array)

descend-rectangular :
    (n : ℕ) (extents : List ℕ) (d : ℕ) → descend (rectangular n extents) d ≡ extent n extents d
unfolding descend rectangular rows_length
descend-rectangular n [] zero = refl
descend-rectangular n [] (suc d) = refl
descend-rectangular n (m ∷ extents) zero =
    ap (λ k. some (suc k)) (rows_length-repeated n (rectangular m extents))
descend-rectangular n (m ∷ extents) (suc d) = descend-rectangular m extents d

bound_of-extent :
    (n : ℕ) (extents : List ℕ) (d : ℕ)
    → n + 1 < 2 ^ 31
    → All (λ m. m + 1 < 2 ^ 31) extents
    → bound_of true (extent n extents d) ≡ Option.map (λ k. pos k) (extent n extents d)
unfolding fits_signed
bound_of-extent n extents zero small all_small =
    ap some (as_i32-fits (pos (suc n)) (lt→ltb (suc n) (2 ^ 31) (omega arith)))
bound_of-extent n [] (suc d) small all_small = refl
bound_of-extent n (m ∷ extents) (suc d) small all_small =
    bound_of-extent m extents d all_small.0 all_small.1

bound_of-one : (o : Option ℕ) → bound_of false o ≡ Option.map (λ k. pos 1) o
bound_of-one none = refl
bound_of-one (some k) = refl

-- For a rectangular array without empty dimensions whose extents fit into 32 bits and a dimension
-- counted from 1: `array_upper` is the extent of the dimension and `array_lower` is 1, and both are
-- NULL for a dimension beyond the last.
pub bound_row-rectangular :
    (n : ℕ) (extents : List ℕ) (d : ℕ)
    → n + 1 < 2 ^ 31
    → All (λ m. m + 1 < 2 ^ 31) extents
    → (bound_row true (some (rectangular n extents)) (some (pos (suc d)))
        ≡ Option.map (λ k. pos k) (extent n extents d))
      × (bound_row false (some (rectangular n extents)) (some (pos (suc d)))
          ≡ Option.map (λ k. pos 1) (extent n extents d))
unfolding bound_row length_at_dim
bound_row-rectangular n extents d small all_small =
    rw (descend-rectangular n extents d)
      (bound_of-extent n extents d small all_small, bound_of-one (extent n extents d))
