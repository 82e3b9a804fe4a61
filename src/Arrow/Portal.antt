-- ===== src/Arrow/Portal.antt =====
-- What arrow-pg/src/datatypes/df.rs calls to read the parameters of a statement: pgwire's `Portal`,
-- and the libraries' operations on the values read. Both are a parameter of the model.
use datafusion_postgres.Prelude.{ℕ, String, Bool, Option, List}
use datafusion_postgres.Prelude.Int.{ℤ}
use datafusion_postgres.Wire.{PgWireResult}
use datafusion_postgres.Arrow.{DataType, PgType}
use datafusion_postgres.Arrow.Scalar.{Interval, Floats, Clock, Decimals}

-- `NaiveTime`: seconds from midnight, and nanoseconds.
pub record NaiveTime : Type 0 where
  pub num_seconds_from_midnight : ℕ
  pub nanosecond : ℕ

-- F32 and F64 are the floats, B the bytes, D the decimals, N and Z the times without and with a time
-- zone, and Y the days.
pub record Libraries (F32 F64 B D N Z Y : Type 0) : Type 0 where
  -- how Rust prints a type, by `{}` and by `{:?}`
  pub display : DataType → String
  pub debug : DataType → String
  -- `str::trim`
  pub trim : String → String
  pub floats : Floats F32 F64
  pub decimals : Decimals D F32 F64
  pub naive : Clock N
  pub zoned : Clock Z
  -- `Date32Type::from_naive_date`
  pub from_naive_date : Y → ℤ

-- `Portal::parameter` for the Rust types that the source asks for, at an index; `none` is NULL. The
-- hints are the types that the client gave.
pub record Portal (F32 F64 B D N Z Y : Type 0) : Type 0 where
  pub parameter_len : ℕ
  pub parameter_types : List (Option PgType)
  pub bool_at : ℕ → PgType → PgWireResult (Option Bool)
  pub i8_at : ℕ → PgType → PgWireResult (Option ℤ)
  pub i16_at : ℕ → PgType → PgWireResult (Option ℤ)
  pub i32_at : ℕ → PgType → PgWireResult (Option ℤ)
  pub i64_at : ℕ → PgType → PgWireResult (Option ℤ)
  pub f32_at : ℕ → PgType → PgWireResult (Option F32)
  pub f64_at : ℕ → PgType → PgWireResult (Option F64)
  pub string_at : ℕ → PgType → PgWireResult (Option String)
  pub bytes_at : ℕ → PgType → PgWireResult (Option B)
  pub decimal_at : ℕ → PgType → PgWireResult (Option D)
  pub naive_at : ℕ → PgType → PgWireResult (Option N)
  pub zoned_at : ℕ → PgType → PgWireResult (Option Z)
  pub date_at : ℕ → PgType → PgWireResult (Option Y)
  pub time_at : ℕ → PgType → PgWireResult (Option NaiveTime)
  pub interval_at : ℕ → PgType → PgWireResult (Option Interval)
  pub bools_at : ℕ → PgType → PgWireResult (Option (List (Option Bool)))
  pub i16s_at : ℕ → PgType → PgWireResult (Option (List (Option ℤ)))
  pub i32s_at : ℕ → PgType → PgWireResult (Option (List (Option ℤ)))
  pub i64s_at : ℕ → PgType → PgWireResult (Option (List (Option ℤ)))
  pub f32s_at : ℕ → PgType → PgWireResult (Option (List (Option F32)))
  pub f64s_at : ℕ → PgType → PgWireResult (Option (List (Option F64)))
  pub strings_at : ℕ → PgType → PgWireResult (Option (List (Option String)))
  pub intervals_at : ℕ → PgType → PgWireResult (Option (List (Option Interval)))
  pub decimals_at : ℕ → PgType → PgWireResult (Option (List (Option D)))
