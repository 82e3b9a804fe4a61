-- ===== src/Arrow/Coerce.antt =====
-- arrow-pg/src/datatypes/df.rs: a parameter of a statement as a value of the type that DataFusion
-- infers for it. `i64` wraps around, as it does in a release build. How Rust prints a type and a float
-- is a parameter.

pub mod Intervals
use Prim.Native.String
use datafusion_postgres.Prelude.{
  ℕ, suc, String, ◌*◌, ◌^◌, Bool, true, false, ◌&&◌, Option, none, some, ◌==◌, if◌then◌else◌,
}
use datafusion_postgres.Prelude.Int.{
  ℤ, pos, negsuc, times, quot, rem, fits_signed, fits_unsigned, as_i32, as_i64,
}
use datafusion_postgres.Prelude.Number
use datafusion_postgres.Wire.{PgWireResult, PgWireError, ok, err, report, ◌>>=◌}
use datafusion_postgres.Arrow.{TimeUnit, IntervalUnit, DataType}
use datafusion_postgres.Arrow.Scalar.{Scalar, Interval, Floats, Clock}

abbrev pub map_opt : {A B : Type 0} → (A → B) → Option A → Option B
map_opt f none = none
map_opt f (some a) = some (f a)

abbrev pub then_opt : {A B : Type 0} → (A → Option B) → Option A → Option B
then_opt f none = none
then_opt f (some a) = f a

abbrev pub print_int : ℤ → String
print_int (pos n) = Number.print n
print_int (negsuc n) = String.◌++◌ "-" (Number.print (suc n))

abbrev pub is_zero : ℤ → Bool
is_zero (pos n) = n == 0
is_zero (negsuc n) = false

unfoldable pub invalid_parameter_error : String → PgWireError
invalid_parameter_error message = report "ERROR" "22023" message

abbrev pub nanoseconds : Interval → ℤ
nanoseconds i = as_i64 (times i.microseconds 1000)

abbrev pub month_day_nano : {F32 F64 B : Type 0} → Option Interval → Scalar F32 F64 B
month_day_nano value =
    Scalar.interval_month_day_nano (map_opt (λ i. (i.months, i.days, nanoseconds i)) value)

module _ (debug : DataType → String) where
  unfoldable pub out_of_range_error : String → ℤ → DataType → PgWireError
  unfolding invalid_parameter_error
  out_of_range_error source value target = invalid_parameter_error (
      String.◌++◌ source (
        String.◌++◌ " value "
          (String.◌++◌ (print_int value) (String.◌++◌ " is out of range for " (debug target)))))

  -- `T::try_from(value)`, by the test of what fits into `T`
  unfoldable pub checked_int_cast : (ℤ → Bool) → ℤ → DataType → PgWireResult ℤ
  unfolding out_of_range_error
  checked_int_cast fits value target =
      if fits value then ok value else err (out_of_range_error "INT" value target)

  abbrev pub cannot_coerce : {A : Type 0} → String → DataType → PgWireResult A
  cannot_coerce what target = err (
      invalid_parameter_error
        (String.◌++◌ "Cannot coerce " (String.◌++◌ what (String.◌++◌ " to " (debug target)))))

  -- `value.map(…).transpose()?`
  abbrev pub each : {A : Type 0} → (A → PgWireResult ℤ) → Option A → PgWireResult (Option ℤ)
  each cast none = ok none
  each cast (some a) = cast a >>= λ n. ok (some n)

  module _ {F32 F64 : Type 0} (floats : Floats F32 F64) where
    abbrev not_finite : F64 → DataType → PgWireError
    not_finite value target = invalid_parameter_error (
        String.◌++◌ "FLOAT value "
          (String.◌++◌ (floats.print value) (String.◌++◌ " is out of range for " (debug target))))

    unfoldable pub checked_float_cast : (ℤ → Bool) → F64 → DataType → PgWireResult ℤ
    unfolding out_of_range_error
    checked_float_cast fits value target =
        let n = floats.i64_of_f64 value in
        if floats.is_finite value
        then (if floats.differ (floats.f64_of_int n) value
            then err (out_of_range_error "FLOAT" n target)
            else if fits n
            then ok n
            else err (out_of_range_error "FLOAT" n target))
        else err (not_finite value target)

  module _ {F32 F64 B : Type 0} (floats : Floats F32 F64) where
    abbrev pub int_into :
        (Option ℤ → Scalar F32 F64 B)
        → (ℤ → Bool)
        → DataType
        → Option ℤ
        → PgWireResult (Scalar F32 F64 B)
    int_into constructed fits target value =
        each (λ n. checked_int_cast fits n target) value >>= λ checked. ok (constructed checked)

    unfoldable pub coerce_int_value : Option ℤ → DataType → PgWireResult (Scalar F32 F64 B)
    unfolding checked_int_cast
    coerce_int_value value DataType.int8 =
        int_into Scalar.int8 (fits_signed (2 ^ 7)) DataType.int8 value
    coerce_int_value value DataType.int16 =
        int_into Scalar.int16 (fits_signed (2 ^ 15)) DataType.int16 value
    coerce_int_value value DataType.int32 =
        int_into Scalar.int32 (fits_signed (2 ^ 31)) DataType.int32 value
    coerce_int_value value DataType.int64 = ok (Scalar.int64 value)
    coerce_int_value value DataType.uint8 =
        int_into Scalar.uint8 (fits_unsigned (2 ^ 8)) DataType.uint8 value
    coerce_int_value value DataType.uint16 =
        int_into Scalar.uint16 (fits_unsigned (2 ^ 16)) DataType.uint16 value
    coerce_int_value value DataType.uint32 =
        int_into Scalar.uint32 (fits_unsigned (2 ^ 32)) DataType.uint32 value
    coerce_int_value value DataType.uint64 =
        int_into Scalar.uint64 (fits_unsigned (2 ^ 64)) DataType.uint64 value
    coerce_int_value value DataType.float32 = ok (Scalar.float32 (map_opt floats.f32_of_int value))
    coerce_int_value value DataType.float64 = ok (Scalar.float64 (map_opt floats.f64_of_int value))
    coerce_int_value value (DataType.timestamp TimeUnit.second tz) =
        ok (Scalar.timestamp_second value none)
    coerce_int_value value (DataType.timestamp TimeUnit.millisecond tz) =
        ok (Scalar.timestamp_millisecond (map_opt (λ n. as_i64 (times n 1000)) value) none)
    coerce_int_value value (DataType.timestamp TimeUnit.microsecond tz) =
        ok (Scalar.timestamp_microsecond (map_opt (λ n. as_i64 (times n 1000000)) value) none)
    coerce_int_value value (DataType.timestamp TimeUnit.nanosecond tz) =
        ok (Scalar.timestamp_nanosecond (map_opt (λ n. as_i64 (times n 1000000000)) value) none)
    coerce_int_value value target = cannot_coerce "integer value" target

    abbrev pub float_into :
        (Option ℤ → Scalar F32 F64 B)
        → (ℤ → Bool)
        → DataType
        → Option F64
        → PgWireResult (Scalar F32 F64 B)
    float_into constructed fits target value =
        each (λ n. checked_float_cast floats fits n target) value >>= λ checked.
        ok (constructed checked)

    unfoldable pub coerce_float_value : Option F64 → DataType → PgWireResult (Scalar F32 F64 B)
    unfolding checked_float_cast
    coerce_float_value value DataType.int8 =
        float_into Scalar.int8 (fits_signed (2 ^ 7)) DataType.int8 value
    coerce_float_value value DataType.int16 =
        float_into Scalar.int16 (fits_signed (2 ^ 15)) DataType.int16 value
    coerce_float_value value DataType.int32 =
        float_into Scalar.int32 (fits_signed (2 ^ 31)) DataType.int32 value
    coerce_float_value value DataType.int64 =
        float_into Scalar.int64 (fits_signed (2 ^ 63)) DataType.int64 value
    coerce_float_value value DataType.uint8 =
        float_into Scalar.uint8 (fits_unsigned (2 ^ 8)) DataType.uint8 value
    coerce_float_value value DataType.uint16 =
        float_into Scalar.uint16 (fits_unsigned (2 ^ 16)) DataType.uint16 value
    coerce_float_value value DataType.uint32 =
        float_into Scalar.uint32 (fits_unsigned (2 ^ 32)) DataType.uint32 value
    coerce_float_value value DataType.uint64 =
        float_into Scalar.uint64 (fits_unsigned (2 ^ 64)) DataType.uint64 value
    coerce_float_value value DataType.float32 =
        ok (Scalar.float32 (map_opt floats.f32_of_f64 value))
    coerce_float_value value DataType.float64 = ok (Scalar.float64 value)
    coerce_float_value value target = cannot_coerce "float value" target

  module _ {F32 F64 B T : Type 0} (clock : Clock T) where
    -- A time outside the range of nanoseconds becomes NULL.
    unfoldable pub coerce_timestamp_value : Option T → DataType → PgWireResult (Scalar F32 F64 B)
    coerce_timestamp_value value (DataType.timestamp TimeUnit.second tz) =
        ok (Scalar.timestamp_second (map_opt clock.timestamp value) none)
    coerce_timestamp_value value (DataType.timestamp TimeUnit.millisecond tz) =
        ok (Scalar.timestamp_millisecond (map_opt clock.timestamp_millis value) none)
    coerce_timestamp_value value (DataType.timestamp TimeUnit.microsecond tz) =
        ok (Scalar.timestamp_microsecond (map_opt clock.timestamp_micros value) none)
    coerce_timestamp_value value (DataType.timestamp TimeUnit.nanosecond tz) =
        ok (Scalar.timestamp_nanosecond (then_opt clock.timestamp_nanos_opt value) none)
    coerce_timestamp_value value target = cannot_coerce "TIMESTAMP" target

    unfoldable pub coerce_timestamptz_value : Option T → DataType → PgWireResult (Scalar F32 F64 B)
    coerce_timestamptz_value value (DataType.timestamp TimeUnit.second tz) =
        ok (Scalar.timestamp_second (map_opt clock.timestamp value) tz)
    coerce_timestamptz_value value (DataType.timestamp TimeUnit.millisecond tz) =
        ok (Scalar.timestamp_millisecond (map_opt clock.timestamp_millis value) tz)
    coerce_timestamptz_value value (DataType.timestamp TimeUnit.microsecond tz) =
        ok (Scalar.timestamp_microsecond (map_opt clock.timestamp_micros value) tz)
    coerce_timestamptz_value value (DataType.timestamp TimeUnit.nanosecond tz) =
        ok (Scalar.timestamp_nanosecond (then_opt clock.timestamp_nanos_opt value) tz)
    coerce_timestamptz_value value target = cannot_coerce "TIMESTAMPTZ" target

  module _ {F32 F64 B : Type 0} where
    abbrev pub year_month : Option Interval → PgWireResult (Scalar F32 F64 B)
    year_month none = ok (Scalar.interval_year_month none)
    year_month (some i) =
        if is_zero i.days && is_zero i.microseconds
        then ok (Scalar.interval_year_month (some i.months))
        else err (
            invalid_parameter_error
              "Cannot coerce INTERVAL with days or time components to YearMonth interval")

    abbrev pub day_time : Option Interval → PgWireResult (Scalar F32 F64 B)
    day_time none = ok (Scalar.interval_day_time none)
    day_time (some i) =
        if is_zero i.months
        then (if is_zero (rem i.microseconds 1000)
            then ok (Scalar.interval_day_time (some (i.days, as_i32 (quot i.microseconds 1000))))
            else err (
                invalid_parameter_error
                  "Cannot coerce INTERVAL with sub-millisecond precision to DayTime interval"))
        else err (
            invalid_parameter_error
              "Cannot coerce INTERVAL with months component to DayTime interval")

    unfoldable pub coerce_interval_value :
        Option Interval → DataType → PgWireResult (Scalar F32 F64 B)
    unfolding rem quot
    coerce_interval_value value (DataType.interval IntervalUnit.year_month) = year_month value
    coerce_interval_value value (DataType.interval IntervalUnit.day_time) = day_time value
    coerce_interval_value value (DataType.interval IntervalUnit.month_day_nano) =
        ok (month_day_nano value)
    coerce_interval_value value (DataType.duration unit) = ok (month_day_nano value)
    coerce_interval_value value target = cannot_coerce "INTERVAL" target
