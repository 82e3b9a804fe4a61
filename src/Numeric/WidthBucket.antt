-- ===== src/Numeric/WidthBucket.antt =====
-- datafusion-pg-functions/src/numeric/width_bucket.rs: both forms of `width_bucket`, on the arrays that
-- DataFusion makes of the arguments. The floating-point numbers are a parameter; a row of an array is
-- `none` for NULL. A count or a bucket that is cast to a machine integer wraps around.
pub mod Buckets
use mathlib.Core.Option
use datafusion_postgres.Prelude.{
  ℕ, zero, suc, ◌+◌, String, Bool, true, false, not, Option, none, some, List, [], ◌∷◌, map, ◌≡◌,
  ◌⊎◌, inl, inr, ltb, ◌==◌, ◌&&◌, if◌then◌else◌,
}
use datafusion_postgres.Prelude.Int.{ℤ, pos, negsuc, as_i32, as_i64}
use datafusion_postgres.Prelude.Lists.{length, retain}

-- `f64`: the comparisons, which are false for NaN, the arithmetic, and the casts. `floor` is
-- `floor() as i64`.
pub record Floats (F F32 : Type 0) : Type 0 where
  pub less : F → F → Bool
  pub at_least : F → F → Bool
  pub at_least-trans : (a b c : F) → at_least a b ≡ true → at_least b c ≡ true → at_least a c ≡ true
  pub is_nan : F → Bool
  pub nan : F
  pub sub : F → F → F
  pub div : F → F → F
  pub of_int : ℤ → F
  pub of_f32 : F32 → F
  pub floor : F → ℤ

-- The arrays that the two forms read, by type, and the others.
pub data NumericArray (F F32 : Type 0) : Type 0 where
  float64 : List (Option F) → NumericArray F F32
  float32 : List (Option F32) → NumericArray F F32
  int64 int32 int16 int8 : List (Option ℤ) → NumericArray F F32
  other_array : List Bool → NumericArray F F32

-- The type of an array: `data_type`
abbrev type_number : {F F32 : Type 0} → NumericArray F F32 → ℕ
type_number (float64 _) = 0
type_number (float32 _) = 1
type_number (int64 _) = 2
type_number (int32 _) = 3
type_number (int16 _) = 4
type_number (int8 _) = 5
type_number (other_array _) = 6

abbrev pub same_type : {F F32 : Type 0} → NumericArray F F32 → NumericArray F F32 → Bool
same_type a b = type_number a == type_number b

abbrev first : {A : Type 0} → List (Option A) → Option A
first [] = none
first (row ∷ rows) = row

-- The rows of a count: an error for any other type than two.
abbrev count_rows : {F F32 : Type 0} → NumericArray F F32 → String ⊎ Option ℤ
count_rows (int32 rows) = inr (first rows)
count_rows (int64 rows) = inr (first rows)
count_rows _ = inl "width_bucket count must be int4/int8"

-- A positive count, or the error
abbrev pub positive_count : String ⊎ Option ℤ → String ⊎ ℕ
positive_count (inl e) = inl e
positive_count (inr (some (pos (suc n)))) = inr (suc n)
positive_count (inr _) = inl "width_bucket count must be a positive integer"

abbrev plus_one : ℤ → ℤ
plus_one (pos n) = pos (suc n)
plus_one (negsuc zero) = pos 0
plus_one (negsuc (suc n)) = negsuc n

-- `b.clamp(1, count)`, for a positive count
unfoldable pub clamp : ℤ → ℕ → ℕ
clamp (pos zero) count = 1
clamp (pos (suc b)) count = if ltb count (suc b) then count else suc b
clamp (negsuc _) count = 1

module _ {F F32 : Type 0} (floats : Floats F F32) where
  unfoldable pub equal_width_bucket_f64 : F → F → F → ℕ → ℤ
  unfolding clamp as_i64
  equal_width_bucket_f64 op low high count =
      if floats.is_nan op
      then pos 0
      else if floats.less op low
      then pos 0
      else if floats.at_least op high
      then as_i64 (pos (count + 1))
      else pos (
          clamp
            (as_i64 (
              plus_one (
                floats.floor (
                  floats.div (floats.sub op low)
                    (floats.div (floats.sub high low) (floats.of_int (pos count)))))))
            count)

  -- `scalar_f64`, for every row of an array
  unfoldable pub rows_f64 : NumericArray F F32 → List (Option F)
  rows_f64 (float64 rows) = rows
  rows_f64 (float32 rows) = map (λ r. Option.map floats.of_f32 r) rows
  rows_f64 (int64 rows) = map (λ r. Option.map floats.of_int r) rows
  rows_f64 (int32 rows) = map (λ r. Option.map floats.of_int r) rows
  rows_f64 (int16 rows) = map (λ r. Option.map floats.of_int r) rows
  rows_f64 (int8 rows) = map (λ r. Option.map floats.of_int r) rows
  rows_f64 (other_array rows) = map (λ r. none) rows

  abbrev push_row : Option ℤ → String ⊎ List (Option ℤ) → String ⊎ List (Option ℤ)
  push_row row (inl e) = inl e
  push_row row (inr rows) = inr (row ∷ rows)

  -- The loop over the rows of the operand, with the first rows of the bounds
  unfoldable pub equal_width_rows :
      Option F → Option F → ℕ → List (Option F) → String ⊎ List (Option ℤ)
  unfolding equal_width_bucket_f64 as_i32
  equal_width_rows low high count [] = inr []
  equal_width_rows (some low) (some high) count (some op ∷ rows) =
      let rest = equal_width_rows (some low) (some high) count rows in
      if floats.at_least low high
      then inl "width_bucket requires low < high"
      else push_row (some (as_i32 (equal_width_bucket_f64 op low high count))) rest
  equal_width_rows low high count (op ∷ rows) = push_row none (equal_width_rows low high count rows)

  abbrev with_count :
      NumericArray F F32
      → NumericArray F F32
      → NumericArray F F32
      → String ⊎ ℕ
      → String ⊎ List (Option ℤ)
  with_count operand low high (inl e) = inl e
  with_count operand low high (inr count) =
      equal_width_rows (first (rows_f64 low)) (first (rows_f64 high)) count (rows_f64 operand)

  unfoldable pub equal_width_form :
      NumericArray F F32
      → NumericArray F F32
      → NumericArray F F32
      → NumericArray F F32
      → String ⊎ List (Option ℤ)
  unfolding equal_width_rows rows_f64
  equal_width_form operand low high count =
      if same_type operand low && same_type operand high
      then with_count operand low high (positive_count (count_rows count))
      else inl "width_bucket requires operand/low/high to share a type"

  -- `as_f64_list`, on the rows of the array of lists
  unfoldable pub as_f64_list : List (Option (List (Option F))) → Option (List F)
  as_f64_list (some row ∷ []) = some (map (λ v. elim v [ none ↦ floats.nan | some t ↦ t ]) row)
  as_f64_list _ = none

  unfoldable pub threshold_bucket : F → List F → ℕ
  unfolding retain
  threshold_bucket op thresholds =
      if floats.is_nan op then 0 else length (retain (λ t. floats.at_least op t) thresholds)

  abbrev threshold_row : List F → Option F → Option ℤ
  threshold_row thresholds none = none
  threshold_row thresholds (some op) = some (as_i32 (pos (threshold_bucket op thresholds)))

  abbrev with_thresholds : NumericArray F F32 → Option (List F) → String ⊎ List (Option ℤ)
  with_thresholds operand none = inl "width_bucket thresholds must be a sorted list of f64"
  with_thresholds operand (some thresholds) =
      inr (map (threshold_row thresholds) (rows_f64 operand))

  unfoldable pub thresholds_form :
      NumericArray F F32 → List (Option (List (Option F))) → String ⊎ List (Option ℤ)
  unfolding as_f64_list threshold_bucket rows_f64 as_i32
  thresholds_form operand thresholds = with_thresholds operand (as_f64_list thresholds)
