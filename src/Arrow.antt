-- ===== src/Arrow.antt =====
-- The types of Arrow and of PostgreSQL that arrow-pg/src/datatypes.rs maps onto each other: Arrow's
-- `DataType` and `Field`, and `postgres_types::Type`, each with the variants that the sources name.
pub mod Types
pub mod Elements
pub mod Ranges
pub mod Columns
pub mod Scalar
pub mod Coerce
pub mod Portal
pub mod Parameters
pub mod Inferred
pub mod Integers
pub mod Lengths
pub mod Samples
mod Tests
use datafusion_postgres.Prelude.{ℕ, String, Option}
use datafusion_postgres.Prelude.Int.{ℤ}
use datafusion_postgres.Prelude.Dict.{Dict}

pub data TimeUnit : Type 0 where
  second millisecond microsecond nanosecond : TimeUnit

pub data IntervalUnit : Type 0 where
  year_month day_time month_day_nano : IntervalUnit

-- `other` is a type that the sources do not name, by its text.
mutual
  pub data DataType : Type 0 where
    null boolean : DataType
    int8 int16 int32 int64 uint8 uint16 uint32 uint64 : DataType
    float16 float32 float64 : DataType
    timestamp : TimeUnit → Option String → DataType
    date32 date64 : DataType
    time32 time64 duration : TimeUnit → DataType
    interval : IntervalUnit → DataType
    binary large_binary binary_view : DataType
    fixed_size_binary : ℤ → DataType
    utf8 large_utf8 utf8_view : DataType
    decimal128 : ℕ → ℤ → DataType
    list large_list list_view large_list_view : Field → DataType
    fixed_size_list : Field → ℤ → DataType
    dictionary : DataType → DataType → DataType
    struct : Fields → DataType
    other : String → DataType

  -- the name, the metadata and the type
  pub data Field : Type 0 where
    field : String → Dict String → DataType → Field

  pub data Fields : Type 0 where
    no_fields : Fields
    fields : Field → Fields → Fields

-- The constants of `Type`. `composite` is `Type::new` with the oid of RECORD, and `record_array` with
-- that of RECORD_ARRAY; `other` is a type that the sources do not name.
mutual
  pub data PgType : Type 0 where
    unknown bool char int2 int4 int8 float4 float8 numeric money : PgType
    text varchar bytea uuid json jsonb inet macaddr : PgType
    timestamp timestamptz date time interval : PgType
    oid regproc regprocedure regoper regoperator regclass regtype : PgType
    regnamespace regrole regconfig regdictionary regcollation : PgType
    bool_array int2_array int4_array int8_array float4_array float8_array numeric_array : PgType
    text_array varchar_array bytea_array : PgType
    timestamp_array timestamptz_array date_array time_array interval_array : PgType
    composite : String → PgFields → PgType
    record_array : PgType → PgType
    other : String → PgType

  pub data PgFields : Type 0 where
    no_fields : PgFields
    fields : String → PgType → PgFields → PgFields
