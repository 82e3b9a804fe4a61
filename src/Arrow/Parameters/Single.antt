-- ===== src/Arrow/Parameters/Single.antt =====
-- arrow-pg/src/datatypes/df.rs: the arms of `deserialize_parameters` that read a single value, given
-- what the portal holds and the type that DataFusion infers.
use datafusion_postgres.Prelude.{ℕ, String, ◌+◌, ◌*◌, ◌%◌, ◌^◌, Option, none, some, if◌then◌else◌}
use datafusion_postgres.Prelude.Int.{ℤ, pos, quot, signed, residue, as_i32}
use datafusion_postgres.Wire.{PgWireResult, ok, ◌>>=◌}
use datafusion_postgres.Arrow.{TimeUnit, DataType}
use datafusion_postgres.Arrow.Scalar.{Scalar, Interval}
use datafusion_postgres.Arrow.Coerce.{
  map_opt, then_opt, is_zero, month_day_nano, cannot_coerce, coerce_int_value, coerce_float_value,
  coerce_timestamp_value, coerce_timestamptz_value, coerce_interval_value,
}
use datafusion_postgres.Arrow.Portal.{NaiveTime, Libraries}

abbrev seconds_and_nanos : NaiveTime → ℤ
seconds_and_nanos t = pos (t.num_seconds_from_midnight * 1000000000 + t.nanosecond)

module _ {F32 F64 B : Type 0} where
  unfoldable pub text_param :
      Option DataType → PgWireResult (Option String) → PgWireResult (Scalar F32 F64 B)
  text_param (some DataType.large_utf8) read = read >>= λ value. ok (Scalar.large_utf8 value)
  text_param _ read = read >>= λ value. ok (Scalar.utf8 value)

  abbrev time_scalar : Option DataType → Option ℤ → Scalar F32 F64 B
  time_scalar (some (DataType.time64 TimeUnit.microsecond)) ns =
      Scalar.time64_microsecond (map_opt (λ n. quot n 1000) ns)
  time_scalar (some (DataType.time32 TimeUnit.millisecond)) ns =
      Scalar.time32_millisecond (map_opt (λ n. as_i32 (quot n 1000000)) ns)
  time_scalar (some (DataType.time32 TimeUnit.second)) ns =
      Scalar.time32_second (map_opt (λ n. as_i32 (quot n 1000000000)) ns)
  time_scalar _ ns = Scalar.time64_nanosecond ns

  unfoldable pub time_param :
      Option DataType → PgWireResult (Option NaiveTime) → PgWireResult (Scalar F32 F64 B)
  unfolding quot as_i32
  time_param inferred read =
      read >>= λ value. ok (time_scalar inferred (map_opt seconds_and_nanos value))

module _ {F32 F64 B D N Z Y : Type 0} (lib : Libraries F32 F64 B D N Z Y) where
  -- The arms of INT2, INT4 and INT8, by the variant for a parameter of no inferred type.
  unfoldable pub int_param :
      (Option ℤ → Scalar F32 F64 B)
      → Option DataType
      → PgWireResult (Option ℤ)
      → PgWireResult (Scalar F32 F64 B)
  unfolding coerce_int_value
  int_param constructed (some target) read =
      read >>= λ value. coerce_int_value lib.debug lib.floats value target
  int_param constructed none read = read >>= λ value. ok (constructed value)

  unfoldable pub float4_param :
      Option DataType → PgWireResult (Option F32) → PgWireResult (Scalar F32 F64 B)
  unfolding coerce_float_value
  float4_param (some target) read = read >>= λ value.
      coerce_float_value lib.debug lib.floats (map_opt lib.floats.f64_of_f32 value) target
  float4_param none read = read >>= λ value. ok (Scalar.float32 value)

  unfoldable pub float8_param :
      Option DataType → PgWireResult (Option F64) → PgWireResult (Scalar F32 F64 B)
  unfolding coerce_float_value
  float8_param (some target) read =
      read >>= λ value. coerce_float_value lib.debug lib.floats value target
  float8_param none read = read >>= λ value. ok (Scalar.float64 value)

  -- `n.rescale(s as u32)`, and the mantissa then
  abbrev pub rescaled : ℤ → D → ℤ
  rescaled scale n = lib.decimals.mantissa (lib.decimals.rescale (residue (2 ^ 32) scale) n)

  -- The precision of a decimal, by the digits of its mantissa.
  abbrev precision_of : ℤ → ℕ
  precision_of m = if is_zero m then 1 else lib.decimals.log10_floor m + 1

  abbrev pub decimal_scalar : Option D → Scalar F32 F64 B
  decimal_scalar none = Scalar.decimal128 none 0 (pos 0)
  decimal_scalar (some v) =
      Scalar.decimal128 (some (lib.decimals.mantissa v)) (precision_of (lib.decimals.mantissa v))
        (signed (2 ^ 7) (lib.decimals.scale v % 2 ^ 8))

  abbrev numeric_scalar : Option DataType → Option D → PgWireResult (Scalar F32 F64 B)
  numeric_scalar (some (DataType.decimal128 precision scale)) value =
      ok (Scalar.decimal128 (map_opt (rescaled scale) value) precision scale)
  numeric_scalar (some DataType.uint64) value =
      ok (Scalar.uint64 (then_opt lib.decimals.to_u64 value))
  numeric_scalar (some DataType.uint32) value =
      ok (Scalar.uint32 (then_opt lib.decimals.to_u32 value))
  numeric_scalar (some DataType.int64) value =
      ok (Scalar.int64 (then_opt lib.decimals.to_i64 value))
  numeric_scalar (some DataType.int32) value =
      ok (Scalar.int32 (then_opt lib.decimals.to_i32 value))
  numeric_scalar (some DataType.float64) value =
      ok (Scalar.float64 (then_opt lib.decimals.to_f64 value))
  numeric_scalar (some DataType.float32) value =
      ok (Scalar.float32 (then_opt lib.decimals.to_f32 value))
  numeric_scalar (some target) value = cannot_coerce lib.debug "NUMERIC" target
  numeric_scalar none value = ok (decimal_scalar value)

  unfoldable pub numeric_param :
      Option DataType → PgWireResult (Option D) → PgWireResult (Scalar F32 F64 B)
  numeric_param inferred read = read >>= numeric_scalar inferred

  unfoldable pub timestamp_param :
      Option DataType → PgWireResult (Option N) → PgWireResult (Scalar F32 F64 B)
  unfolding coerce_timestamp_value
  timestamp_param (some target) read =
      read >>= λ value. coerce_timestamp_value lib.debug lib.naive value target
  timestamp_param none read = read >>= λ value.
      ok (Scalar.timestamp_microsecond (map_opt lib.naive.timestamp_micros value) none)

  unfoldable pub timestamptz_param :
      Option DataType → PgWireResult (Option Z) → PgWireResult (Scalar F32 F64 B)
  unfolding coerce_timestamptz_value
  timestamptz_param (some target) read =
      read >>= λ value. coerce_timestamptz_value lib.debug lib.zoned value target
  timestamptz_param none read = read >>= λ value.
      ok (Scalar.timestamp_microsecond (map_opt lib.zoned.timestamp_micros value) none)

  unfoldable pub interval_param :
      Option DataType → PgWireResult (Option Interval) → PgWireResult (Scalar F32 F64 B)
  unfolding coerce_interval_value
  interval_param (some target) read = read >>= λ value. coerce_interval_value lib.debug value target
  interval_param none read = read >>= λ value. ok (month_day_nano value)
