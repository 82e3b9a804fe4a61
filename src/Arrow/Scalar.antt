-- ===== src/Arrow/Scalar.antt =====
-- DataFusion's `ScalarValue`, with the variants that arrow-pg/src/datatypes/df.rs builds; and the
-- numbers and times of Rust and of chrono that go into them, as a parameter.
use datafusion_postgres.Prelude.{ℕ, String, Bool, Option, List}
use datafusion_postgres.Prelude.Int.{ℤ}
use datafusion_postgres.Arrow.{DataType}

pub data Scalar (F32 F64 B : Type 0) : Type 0 where
  boolean : Option Bool → Scalar F32 F64 B
  int8 int16 int32 int64 uint8 uint16 uint32 uint64 : Option ℤ → Scalar F32 F64 B
  float32 : Option F32 → Scalar F32 F64 B
  float64 : Option F64 → Scalar F32 F64 B
  utf8 large_utf8 : Option String → Scalar F32 F64 B
  binary : Option B → Scalar F32 F64 B
  decimal128 : Option ℤ → ℕ → ℤ → Scalar F32 F64 B
  timestamp_second timestamp_millisecond : Option ℤ → Option String → Scalar F32 F64 B
  timestamp_microsecond timestamp_nanosecond : Option ℤ → Option String → Scalar F32 F64 B
  date32 : Option ℤ → Scalar F32 F64 B
  time32_second time32_millisecond time64_microsecond time64_nanosecond :
      Option ℤ → Scalar F32 F64 B
  interval_year_month : Option ℤ → Scalar F32 F64 B
  -- days and milliseconds
  interval_day_time : Option (ℤ × ℤ) → Scalar F32 F64 B
  -- months, days and nanoseconds
  interval_month_day_nano : Option (ℤ × ℤ × ℤ) → Scalar F32 F64 B

-- `list` is `ScalarValue::List` of `new_list_nullable`, and `null_list` is `new_null_list` of length 1.
pub data ScalarValue (F32 F64 B : Type 0) : Type 0 where
  scalar : Scalar F32 F64 B → ScalarValue F32 F64 B
  list : List (Scalar F32 F64 B) → DataType → ScalarValue F32 F64 B
  null_list : DataType → ScalarValue F32 F64 B

-- `pg_interval::Interval`
pub record Interval : Type 0 where
  pub months : ℤ
  pub days : ℤ
  pub microseconds : ℤ

-- Rust's casts and arithmetic of floats
pub record Floats (F32 F64 : Type 0) : Type 0 where
  pub f32_of_int : ℤ → F32
  pub f64_of_int : ℤ → F64
  pub f32_of_f64 : F64 → F32
  pub f64_of_f32 : F32 → F64
  pub i64_of_f64 : F64 → ℤ
  pub is_finite : F64 → Bool
  -- `(a - b).abs() > f64::EPSILON`
  pub differ : F64 → F64 → Bool
  pub print : F64 → String

-- chrono's `NaiveDateTime` in UTC, `DateTime<FixedOffset>`, `NaiveDate` and `NaiveTime`
pub record Clock (T : Type 0) : Type 0 where
  pub timestamp : T → ℤ
  pub timestamp_millis : T → ℤ
  pub timestamp_micros : T → ℤ
  pub timestamp_nanos_opt : T → Option ℤ

-- `rust_decimal::Decimal`
pub record Decimals (D F32 F64 : Type 0) : Type 0 where
  pub rescale : ℕ → D → D
  pub mantissa : D → ℤ
  pub scale : D → ℕ
  pub to_u64 : D → Option ℤ
  pub to_u32 : D → Option ℤ
  pub to_i64 : D → Option ℤ
  pub to_i32 : D → Option ℤ
  pub to_f64 : D → Option F64
  pub to_f32 : D → Option F32
  -- `(m.abs() as f64).log10().floor() as u8`
  pub log10_floor : ℤ → ℕ
