-- ===== src/Arrow/Columns.antt =====
-- datafusion-pg-catalog/src/pg_catalog/pg_attribute.rs: `datafusion_to_pg_type`, what pg_attribute says of
-- the type of a column. The oids of the types are pgwire's, a parameter.
use datafusion_postgres.Prelude.{ℕ, String, Bool, true, false, some, ◌≡◌, refl}
use datafusion_postgres.Prelude.Int.{ℤ, pos, negsuc}
use datafusion_postgres.Wire.{PgWireResult, ok}
use datafusion_postgres.Arrow.{TimeUnit, DataType, PgType}
use datafusion_postgres.Arrow.Types.{into_pg_type}

-- atttypid, attlen, attbyval, attalign and attstorage
pub record ColumnType : Type 0 where
  pub oid : ℕ
  pub len : ℤ
  pub by_val : Bool
  pub align : String
  pub storage : String

module _ (display : DataType → String) (oid_of : PgType → ℕ) where
  abbrev fixed : PgType → ℕ → String → ColumnType
  fixed type len align = record {
    oid = oid_of type;
    len = pos len;
    by_val = true;
    align = align;
    storage = "p";
  }

  abbrev varying : PgType → String → ColumnType
  varying type storage = record {
    oid = oid_of type;
    len = negsuc 0;
    by_val = false;
    align = "i";
    storage = storage;
  }

  -- The match on the type that the protocol tells.
  unfoldable pub column_type : PgWireResult PgType → ColumnType
  column_type (ok PgType.bool) = fixed PgType.bool 1 "c"
  column_type (ok PgType.char) = fixed PgType.char 1 "c"
  column_type (ok PgType.int2) = fixed PgType.int2 2 "s"
  column_type (ok PgType.int4) = fixed PgType.int4 4 "i"
  column_type (ok PgType.int8) = fixed PgType.int8 8 "d"
  column_type (ok PgType.float4) = fixed PgType.float4 4 "i"
  column_type (ok PgType.float8) = fixed PgType.float8 8 "d"
  column_type (ok PgType.text) = varying PgType.text "x"
  column_type (ok PgType.bytea) = varying PgType.bytea "x"
  column_type (ok PgType.date) = fixed PgType.date 4 "i"
  column_type (ok PgType.time) = fixed PgType.time 8 "d"
  column_type (ok PgType.timestamp) = fixed PgType.timestamp 8 "d"
  column_type (ok PgType.numeric) = varying PgType.numeric "m"
  column_type _ = varying PgType.text "x"

  unfoldable pub datafusion_to_pg_type : DataType → ColumnType
  unfolding column_type into_pg_type
  datafusion_to_pg_type type = column_type (into_pg_type display type)

  -- A column of times with a time zone is told as timestamptz in a result, and as text here.
  timestamptz_is_text :
      (unit : TimeUnit) (tz : String)
      → (into_pg_type display (DataType.timestamp unit (some tz)) ≡ ok PgType.timestamptz)
        × ((datafusion_to_pg_type (DataType.timestamp unit (some tz))).oid ≡ oid_of PgType.text)
  unfolding datafusion_to_pg_type
  timestamptz_is_text unit tz = (refl, refl)
