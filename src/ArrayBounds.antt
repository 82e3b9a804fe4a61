-- ===== src/ArrayBounds.antt =====
-- datafusion-pg-catalog/src/pg_catalog/array_bounds_udf.rs: `array_upper` and `array_lower`, on the
-- arrays that DataFusion makes of the two arguments.
pub mod Extents
mod Tests
use datafusion_postgres.Prelude.{
  ℕ, zero, suc, ◌+◌, String, Bool, true, false, Option, none, some, List, [], ◌∷◌, ◌⊎◌, inl, inr,
  if◌then◌else◌,
}
use datafusion_postgres.Prelude.Int.{ℤ, pos, negsuc, as_i32}

-- Arrow's arrays: of lists, whose rows have a mark of validity and a value that `value(i)` gives
-- whatever the mark is, or of anything else, by their length.
mutual
  pub data ArrowArray : Type 0 where
    leaf : ℕ → ArrowArray
    list : ListRows → ArrowArray

  pub data ListRows : Type 0 where
    no_rows : ListRows
    rows : Bool → ArrowArray → ListRows → ListRows

-- The arguments: the dimensions are of one of two types of integers.
pub data Argument : Type 0 where
  lists : ListRows → Argument
  int32 int64 : List (Option ℤ) → Argument
  other_argument : Argument

unfoldable pub rows_length : ListRows → ℕ
rows_length no_rows = 0
rows_length (rows valid first rest) = suc (rows_length rest)

abbrev pub present : ℕ → Option ℕ
present zero = none
present (suc n) = some (suc n)

-- The loop of `length_at_dim`, by the number of dimensions that are left to descend
unfoldable pub descend : ArrowArray → ℕ → Option ℕ
unfolding rows_length
descend (leaf n) zero = present n
descend (leaf n) (suc d) = none
descend (list rs) zero = present (rows_length rs)
descend (list no_rows) (suc d) = none
descend (list (rows valid first rest)) (suc d) = descend first d

unfoldable pub length_at_dim : Option ArrowArray → ℤ → Option ℕ
unfolding descend
length_at_dim (some array) (pos (suc d)) = descend array d
length_at_dim _ _ = none

unfoldable pub extract_dims : Argument → String ⊎ List (Option ℤ)
extract_dims (int32 dims) = inr dims
extract_dims (int64 dims) = inr dims
extract_dims _ = inl "array dimension must be an integer"

abbrev bound_of : Bool → Option ℕ → Option ℤ
bound_of upper none = none
bound_of true (some length) = some (as_i32 (pos length))
bound_of false (some length) = some (pos 1)

-- `build`
unfoldable pub bound_row : Bool → Option ArrowArray → Option ℤ → Option ℤ
unfolding length_at_dim as_i32
bound_row upper row none = none
bound_row upper row (some dim) = bound_of upper (length_at_dim row dim)

abbrev value_of : Bool → ArrowArray → Option ArrowArray
value_of true array = some array
value_of false array = none

-- The loop over the rows and the dimensions, which ends with the shorter of the two
unfoldable pub bound_rows : Bool → ListRows → List (Option ℤ) → List (Option ℤ)
unfolding bound_row
bound_rows upper (rows valid array rest) (dim ∷ dims) =
    bound_row upper (value_of valid array) dim ∷ bound_rows upper rest dims
bound_rows upper _ _ = []

abbrev bounds_of : Bool → Argument → String ⊎ List (Option ℤ) → String ⊎ List (Option ℤ)
bounds_of upper array (inl e) = inl e
bounds_of upper (lists rs) (inr dims) = inr (bound_rows upper rs dims)
bounds_of upper _ (inr dims) = inl "array_upper/array_lower expect a list argument"

unfoldable pub array_bounds_impl : Bool → List Argument → String ⊎ List (Option ℤ)
unfolding bound_rows extract_dims
array_bounds_impl upper (array ∷ dims ∷ []) = bounds_of upper array (extract_dims dims)
array_bounds_impl upper _ = inl "array_upper/array_lower expect exactly 2 arguments"
