-- ===== src/Arrow/Inferred.antt =====
-- The parameters for which the client gives no type, and the types that DataFusion infers.
use datafusion_postgres.Prelude.{
  ℕ, ◌^◌, String, Bool, Option, none, some, List, ◌≡◌, inl, inr, Bool-cases, ◌&&◌, refl,
}
use datafusion_postgres.Prelude.Int.{ℤ, rem, fits_signed, fits_unsigned}
use datafusion_postgres.Wire.{PgWireResult, ok, err, ◌>>=◌}
use datafusion_postgres.Arrow.{TimeUnit, IntervalUnit, DataType, PgType}
use datafusion_postgres.Arrow.Types.{into_pg_type}
use datafusion_postgres.Arrow.Scalar.{Scalar, ScalarValue, Interval}
use datafusion_postgres.Arrow.Coerce.{
  is_zero, int_into, each, checked_int_cast, coerce_int_value, coerce_float_value, year_month,
  day_time, coerce_interval_value,
}
use datafusion_postgres.Arrow.Portal.{Libraries, Portal}
use datafusion_postgres.Arrow.Parameters.{entry, get_pg_type, read_parameter, parameter_at}

-- `ScalarValue::data_type`
unfoldable pub scalar_type : {F32 F64 B : Type 0} → Scalar F32 F64 B → DataType
scalar_type (Scalar.boolean v) = DataType.boolean
scalar_type (Scalar.int8 v) = DataType.int8
scalar_type (Scalar.int16 v) = DataType.int16
scalar_type (Scalar.int32 v) = DataType.int32
scalar_type (Scalar.int64 v) = DataType.int64
scalar_type (Scalar.uint8 v) = DataType.uint8
scalar_type (Scalar.uint16 v) = DataType.uint16
scalar_type (Scalar.uint32 v) = DataType.uint32
scalar_type (Scalar.uint64 v) = DataType.uint64
scalar_type (Scalar.float32 v) = DataType.float32
scalar_type (Scalar.float64 v) = DataType.float64
scalar_type (Scalar.utf8 v) = DataType.utf8
scalar_type (Scalar.large_utf8 v) = DataType.large_utf8
scalar_type (Scalar.binary v) = DataType.binary
scalar_type (Scalar.decimal128 v precision scale) = DataType.decimal128 precision scale
scalar_type (Scalar.timestamp_second v tz) = DataType.timestamp TimeUnit.second tz
scalar_type (Scalar.timestamp_millisecond v tz) = DataType.timestamp TimeUnit.millisecond tz
scalar_type (Scalar.timestamp_microsecond v tz) = DataType.timestamp TimeUnit.microsecond tz
scalar_type (Scalar.timestamp_nanosecond v tz) = DataType.timestamp TimeUnit.nanosecond tz
scalar_type (Scalar.date32 v) = DataType.date32
scalar_type (Scalar.time32_second v) = DataType.time32 TimeUnit.second
scalar_type (Scalar.time32_millisecond v) = DataType.time32 TimeUnit.millisecond
scalar_type (Scalar.time64_microsecond v) = DataType.time64 TimeUnit.microsecond
scalar_type (Scalar.time64_nanosecond v) = DataType.time64 TimeUnit.nanosecond
scalar_type (Scalar.interval_year_month v) = DataType.interval IntervalUnit.year_month
scalar_type (Scalar.interval_day_time v) = DataType.interval IntervalUnit.day_time
scalar_type (Scalar.interval_month_day_nano v) = DataType.interval IntervalUnit.month_day_nano

-- The type of the values as which a parameter of the type is read, for the types of a single value
-- of which one can be read. Some are read as another type.
unfoldable pub read_as : DataType → Option DataType
read_as DataType.boolean = some DataType.boolean
read_as DataType.int8 = some DataType.int8
read_as DataType.int16 = some DataType.int16
read_as DataType.int32 = some DataType.int32
read_as DataType.int64 = some DataType.int64
read_as DataType.uint8 = some DataType.uint8
read_as DataType.uint16 = some DataType.uint16
read_as DataType.uint32 = some DataType.uint32
read_as DataType.uint64 = some DataType.uint64
read_as DataType.float32 = some DataType.float32
read_as DataType.float64 = some DataType.float64
read_as (DataType.timestamp unit tz) = some (DataType.timestamp unit tz)
read_as DataType.date32 = some DataType.date32
read_as (DataType.time32 TimeUnit.second) = some (DataType.time32 TimeUnit.second)
read_as (DataType.time32 TimeUnit.millisecond) = some (DataType.time32 TimeUnit.millisecond)
read_as (DataType.time64 TimeUnit.microsecond) = some (DataType.time64 TimeUnit.microsecond)
read_as (DataType.time64 TimeUnit.nanosecond) = some (DataType.time64 TimeUnit.nanosecond)
read_as (DataType.interval unit) = some (DataType.interval unit)
read_as DataType.binary = some DataType.binary
read_as DataType.utf8 = some DataType.utf8
read_as DataType.large_utf8 = some DataType.large_utf8
read_as (DataType.decimal128 precision scale) = some (DataType.decimal128 precision scale)
read_as DataType.utf8_view = some DataType.utf8
read_as DataType.large_binary = some DataType.binary
read_as DataType.binary_view = some DataType.binary
read_as (DataType.fixed_size_binary size) = some DataType.binary
read_as DataType.date64 = some DataType.date32
read_as (DataType.duration unit) = some (DataType.interval IntervalUnit.month_day_nano)
read_as type = none

module _ {F32 F64 B : Type 0} where
  unfoldable pub IsOf : DataType → PgWireResult (Scalar F32 F64 B) → Type 0
  IsOf type (ok v) = scalar_type v ≡ type
  IsOf type (err e) = Unit

  -- A single value of the type, or an error.
  unfoldable pub IsParameterOf : DataType → PgWireResult (Option (ScalarValue F32 F64 B)) → Type 0
  IsParameterOf type (ok (some (ScalarValue.scalar v))) = scalar_type v ≡ type
  IsParameterOf type (ok _) = ⊥
  IsParameterOf type (err e) = Unit

  abbrev IsParameterIf : Option DataType → PgWireResult (Option (ScalarValue F32 F64 B)) → Type 0
  IsParameterIf none result = Unit
  IsParameterIf (some type) result = IsParameterOf type result

  bind-IsOf :
      {A : Type 0} (type : DataType) (m : PgWireResult A) (k : A → PgWireResult (Scalar F32 F64 B))
      → ((a : A) → IsOf type (k a))
      → IsOf type (m >>= k)
  unfolding IsOf
  bind-IsOf type (ok a) k h = h a
  bind-IsOf type (err e) k h = tt

  -- A value that is read and wrapped.
  plain :
      {A : Type 0} (type : DataType) (read : PgWireResult A) (constructed : A → Scalar F32 F64 B)
      → ((a : A) → scalar_type (constructed a) ≡ type)
      → IsOf type (read >>= λ a. ok (constructed a))
  unfolding IsOf
  plain type (ok a) constructed h = h a
  plain type (err e) constructed h = tt

  single-IsParameterOf :
      (type : DataType) (result : PgWireResult (Scalar F32 F64 B))
      → IsOf type result
      → IsParameterOf type (result >>= λ value. ok (some (ScalarValue.scalar value)))
  unfolding IsOf IsParameterOf
  single-IsParameterOf type (ok v) h = h
  single-IsParameterOf type (err e) h = tt

module _ (F32 F64 B : Type 0) where
  year_month-IsOf :
      (debug : DataType → String) (value : Option Interval)
      → IsOf
          (DataType.interval IntervalUnit.year_month)
          (year_month debug {F32 = F32} {F64 = F64} {B = B} value)
  unfolding IsOf scalar_type
  year_month-IsOf debug none = refl
  year_month-IsOf debug (some i) = elim (Bool-cases (is_zero i.days && is_zero i.microseconds)) [
    | inl whole ↦ rw whole refl
    | inr parts ↦ rw parts tt
  ]

  day_time-IsOf :
      (debug : DataType → String) (value : Option Interval)
      → IsOf
          (DataType.interval IntervalUnit.day_time)
          (day_time debug {F32 = F32} {F64 = F64} {B = B} value)
  unfolding IsOf scalar_type
  day_time-IsOf debug none = refl
  day_time-IsOf debug (some i) = elim (Bool-cases (is_zero i.months)) [
    | inl days ↦ rw days (elim (Bool-cases (is_zero (rem i.microseconds 1000))) [
      | inl whole ↦ rw whole refl
      | inr parts ↦ rw parts tt
    ])
    | inr months ↦ rw months tt
  ]

module _ {F32 F64 B D N Z Y : Type 0} (lib : Libraries F32 F64 B D N Z Y)
    (portal : Portal F32 F64 B D N Z Y) where
  cast-IsOf :
      (constructed : Option ℤ → Scalar F32 F64 B) (fits : ℤ → Bool) (type : DataType)
      → ((v : Option ℤ) → scalar_type (constructed v) ≡ type)
      → (value : Option ℤ) → IsOf type (int_into lib.debug lib.floats constructed fits type value)
  cast-IsOf constructed fits type h value =
      plain type (each lib.debug (λ n. checked_int_cast lib.debug fits n type) value) constructed h

  -- The types one by one.
  read_inferred :
      (i : ℕ) (type : DataType)
      → IsParameterIf (read_as type) (
          into_pg_type lib.display type >>= λ pg_type.
          read_parameter lib portal i (some type) pg_type)
  unfolding read_as into_pg_type read_parameter scalar_type coerce_int_value coerce_float_value
      coerce_interval_value
  read_inferred i DataType.boolean = single-IsParameterOf _ _ (plain _ _ _ (λ v. refl))
  read_inferred i DataType.float32 = single-IsParameterOf _ _ (plain _ _ _ (λ v. refl))
  read_inferred i DataType.float64 = single-IsParameterOf _ _ (plain _ _ _ (λ v. refl))
  read_inferred i DataType.int64 = single-IsParameterOf _ _ (plain _ _ _ (λ v. refl))
  read_inferred i DataType.date32 = single-IsParameterOf _ _ (plain _ _ _ (λ v. refl))
  read_inferred i (DataType.time32 TimeUnit.second) =
      single-IsParameterOf _ _ (plain _ _ _ (λ v. refl))
  read_inferred i (DataType.time32 TimeUnit.millisecond) =
      single-IsParameterOf _ _ (plain _ _ _ (λ v. refl))
  read_inferred i (DataType.time64 TimeUnit.microsecond) =
      single-IsParameterOf _ _ (plain _ _ _ (λ v. refl))
  read_inferred i (DataType.time64 TimeUnit.nanosecond) =
      single-IsParameterOf _ _ (plain _ _ _ (λ v. refl))
  read_inferred i DataType.binary = single-IsParameterOf _ _ (plain _ _ _ (λ v. refl))
  read_inferred i DataType.utf8 = single-IsParameterOf _ _ (plain _ _ _ (λ v. refl))
  read_inferred i DataType.large_utf8 = single-IsParameterOf _ _ (plain _ _ _ (λ v. refl))
  read_inferred i (DataType.decimal128 precision scale) =
      single-IsParameterOf _ _ (plain _ _ _ (λ v. refl))
  read_inferred i DataType.uint64 = single-IsParameterOf _ _ (plain _ _ _ (λ v. refl))
  read_inferred i (DataType.timestamp TimeUnit.second none) =
      single-IsParameterOf _ _ (plain _ _ _ (λ v. refl))
  read_inferred i (DataType.timestamp TimeUnit.second (some tz)) =
      single-IsParameterOf _ _ (plain _ _ _ (λ v. refl))
  read_inferred i (DataType.timestamp TimeUnit.millisecond none) =
      single-IsParameterOf _ _ (plain _ _ _ (λ v. refl))
  read_inferred i (DataType.timestamp TimeUnit.millisecond (some tz)) =
      single-IsParameterOf _ _ (plain _ _ _ (λ v. refl))
  read_inferred i (DataType.timestamp TimeUnit.microsecond none) =
      single-IsParameterOf _ _ (plain _ _ _ (λ v. refl))
  read_inferred i (DataType.timestamp TimeUnit.microsecond (some tz)) =
      single-IsParameterOf _ _ (plain _ _ _ (λ v. refl))
  read_inferred i (DataType.timestamp TimeUnit.nanosecond none) =
      single-IsParameterOf _ _ (plain _ _ _ (λ v. refl))
  read_inferred i (DataType.timestamp TimeUnit.nanosecond (some tz)) =
      single-IsParameterOf _ _ (plain _ _ _ (λ v. refl))
  read_inferred i (DataType.interval IntervalUnit.month_day_nano) =
      single-IsParameterOf _ _ (plain _ _ _ (λ v. refl))
  read_inferred i DataType.int8 =
      single-IsParameterOf _ _
        (bind-IsOf _ _ _ (cast-IsOf Scalar.int8 (fits_signed (2 ^ 7)) _ (λ v. refl)))
  read_inferred i DataType.int16 =
      single-IsParameterOf _ _
        (bind-IsOf _ _ _ (cast-IsOf Scalar.int16 (fits_signed (2 ^ 15)) _ (λ v. refl)))
  read_inferred i DataType.int32 =
      single-IsParameterOf _ _
        (bind-IsOf _ _ _ (cast-IsOf Scalar.int32 (fits_signed (2 ^ 31)) _ (λ v. refl)))
  read_inferred i DataType.uint8 =
      single-IsParameterOf _ _
        (bind-IsOf _ _ _ (cast-IsOf Scalar.uint8 (fits_unsigned (2 ^ 8)) _ (λ v. refl)))
  read_inferred i DataType.uint16 =
      single-IsParameterOf _ _
        (bind-IsOf _ _ _ (cast-IsOf Scalar.uint16 (fits_unsigned (2 ^ 16)) _ (λ v. refl)))
  read_inferred i DataType.uint32 =
      single-IsParameterOf _ _
        (bind-IsOf _ _ _ (cast-IsOf Scalar.uint32 (fits_unsigned (2 ^ 32)) _ (λ v. refl)))
  read_inferred i (DataType.interval IntervalUnit.year_month) =
      single-IsParameterOf _ _
        (bind-IsOf _ (portal.interval_at i PgType.interval) _ (year_month-IsOf F32 F64 B lib.debug))
  read_inferred i (DataType.interval IntervalUnit.day_time) =
      single-IsParameterOf _ _
        (bind-IsOf _ (portal.interval_at i PgType.interval) _ (day_time-IsOf F32 F64 B lib.debug))
  read_inferred i DataType.utf8_view = single-IsParameterOf _ _ (plain _ _ _ (λ v. refl))
  read_inferred i DataType.large_binary = single-IsParameterOf _ _ (plain _ _ _ (λ v. refl))
  read_inferred i DataType.binary_view = single-IsParameterOf _ _ (plain _ _ _ (λ v. refl))
  read_inferred i (DataType.fixed_size_binary size) =
      single-IsParameterOf _ _ (plain _ _ _ (λ v. refl))
  read_inferred i DataType.date64 = single-IsParameterOf _ _ (plain _ _ _ (λ v. refl))
  read_inferred i (DataType.duration unit) = single-IsParameterOf _ _ (plain _ _ _ (λ v. refl))
  read_inferred i type = tt

  -- A parameter for which the client gives no type is a single value of exactly the type that
  -- DataFusion infers, or an error, and is never left out, for Booleans, integers, Float32, Float64,
  -- Utf8, LargeUtf8, Binary, Date32, Decimal128, timestamps, intervals, Time32 in seconds or
  -- milliseconds, and Time64 in microseconds or nanoseconds. The same holds with another type than
  -- the inferred one for Utf8View, read as Utf8, LargeBinary, BinaryView and FixedSizeBinary, read as
  -- Binary, Date64, read as Date32, and durations, read as intervals of months, days and nanoseconds.
  pub inferred_type :
      (inferenced_types : List (Option DataType)) (i : ℕ) (type read : DataType)
      → entry portal.parameter_types i ≡ none
      → entry inferenced_types i ≡ some type
      → read_as type ≡ some read
      → IsParameterOf read (parameter_at lib portal inferenced_types i)
  unfolding parameter_at get_pg_type
  inferred_type inferenced_types i type read no_hint inferred known =
      let at_type = read_inferred i type in rw no_hint (rw inferred (rw known at at_type))
