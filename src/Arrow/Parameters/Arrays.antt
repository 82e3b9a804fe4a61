-- ===== src/Arrow/Parameters/Arrays.antt =====
-- arrow-pg/src/datatypes/df.rs: the arms of `deserialize_parameters` that read an array, and the last
-- one, which reads a text.
use datafusion_postgres.Prelude.{String, ◌&&◌, Option, none, some, List, map, if◌then◌else◌}
use datafusion_postgres.Prelude.Int.{pos}
use datafusion_postgres.Prelude.Text
use datafusion_postgres.Prelude.Trim
use datafusion_postgres.Wire.{PgWireResult, ok, ◌>>=◌}
use datafusion_postgres.Arrow.{IntervalUnit, DataType, Field}
use datafusion_postgres.Arrow.Scalar.{Scalar, ScalarValue, Interval}
use datafusion_postgres.Arrow.Coerce.{map_opt, then_opt, month_day_nano}
use datafusion_postgres.Arrow.Portal.{Libraries}
use datafusion_postgres.Arrow.Parameters.Single.{rescaled, decimal_scalar}

module _ {F32 F64 B : Type 0} where
  abbrev listed :
      {A : Type 0}
      → (Option A → Scalar F32 F64 B)
      → DataType
      → Option (List (Option A))
      → ScalarValue F32 F64 B
  listed constructed type (some values) = ScalarValue.list (map constructed values) type
  listed constructed type none = ScalarValue.null_list type

  -- The arms of the arrays whose elements are one variant of `ScalarValue`.
  unfoldable pub array_param :
      {A : Type 0}
      → (Option A → Scalar F32 F64 B)
      → DataType
      → PgWireResult (Option (List (Option A)))
      → PgWireResult (ScalarValue F32 F64 B)
  array_param constructed type read = read >>= λ values. ok (listed constructed type values)

  unfoldable pub interval_array_param :
      PgWireResult (Option (List (Option Interval))) → PgWireResult (ScalarValue F32 F64 B)
  unfolding array_param
  interval_array_param read =
      array_param month_day_nano (DataType.interval IntervalUnit.month_day_nano) read

module _ {F32 F64 B D N Z Y : Type 0} (lib : Libraries F32 F64 B D N Z Y) where
  -- The elements of an array of decimals, for the element type that DataFusion infers.
  abbrev decimals_as : DataType → List (Option D) → ScalarValue F32 F64 B
  decimals_as (DataType.decimal128 precision scale) values =
      ScalarValue.list
        (map (λ n. Scalar.decimal128 (map_opt (rescaled lib scale) n) precision scale) values)
        (DataType.decimal128 precision scale)
  decimals_as DataType.uint64 values =
      ScalarValue.list (map (λ n. Scalar.uint64 (then_opt lib.decimals.to_u64 n)) values)
        DataType.uint64
  decimals_as DataType.float64 values =
      ScalarValue.list (map (λ n. Scalar.float64 (then_opt lib.decimals.to_f64 n)) values)
        DataType.float64
  decimals_as DataType.float32 values =
      ScalarValue.list (map (λ n. Scalar.float32 (then_opt lib.decimals.to_f32 n)) values)
        DataType.float32
  decimals_as type values =
      ScalarValue.list
        (map (λ n. Scalar.decimal128 (map_opt (rescaled lib (pos 0)) n) 38 (pos 0)) values) type

  abbrev decimal_list : Option DataType → Option (List (Option D)) → ScalarValue F32 F64 B
  decimal_list inferred none = ScalarValue.null_list (DataType.decimal128 38 (pos 0))
  decimal_list (some (DataType.list (Field.field name metadata type))) (some values) =
      decimals_as type values
  decimal_list inferred (some values) =
      ScalarValue.list (map (decimal_scalar lib) values) (DataType.decimal128 38 (pos 0))

  unfoldable pub numeric_array_param :
      Option DataType
      → PgWireResult (Option (List (Option D)))
      → PgWireResult (ScalarValue F32 F64 B)
  numeric_array_param inferred read = read >>= λ values. ok (decimal_list inferred values)

  abbrev text_or_array : String → ScalarValue F32 F64 B
  text_or_array value =
      if Text.begins "{" value && Text.ends_with value "}"
      then ScalarValue.list
          (map (λ part. Scalar.utf8 (some (lib.trim part)))
            (Trim.split_commas (Trim.trim_by Trim.is_brace_or_space value)))
          DataType.utf8
      else ScalarValue.scalar (Scalar.utf8 (some value))

  -- The last arm: a text, or a list where the text is in braces. NULL is no value at all.
  unfoldable pub other_param :
      PgWireResult (Option String) → PgWireResult (Option (ScalarValue F32 F64 B))
  unfolding Trim.split_commas Trim.trim_by Text.begins Text.ends_with
  other_param read = read >>= λ value. ok (map_opt text_or_array value)
