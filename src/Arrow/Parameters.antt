-- ===== src/Arrow/Parameters.antt =====
-- arrow-pg/src/datatypes/df.rs: `deserialize_parameters`, which reads the parameters of a statement by
-- the type that the client gave or, where it gave none, by the one that DataFusion infers.
pub mod Single
pub mod Arrays
use datafusion_postgres.Prelude.{ℕ, zero, suc, Option, none, some, List, [], ◌∷◌}
use datafusion_postgres.Wire.{PgWireResult, ok, err, ◌>>=◌}
use datafusion_postgres.Arrow.{DataType, PgType}
use datafusion_postgres.Arrow.Types.{into_pg_type}
use datafusion_postgres.Arrow.Scalar.{Scalar, ScalarValue}
use datafusion_postgres.Arrow.Coerce.{map_opt}
use datafusion_postgres.Arrow.Portal.{Libraries, Portal}
use datafusion_postgres.Arrow.Parameters.Single.{
  text_param, time_param, int_param, float4_param, float8_param, numeric_param, timestamp_param,
  timestamptz_param, interval_param,
}
use datafusion_postgres.Arrow.Parameters.Arrays.{
  array_param, interval_array_param, numeric_array_param, other_param,
}

-- `get(i)` and the entry there
unfoldable pub entry : {A : Type 0} → List (Option A) → ℕ → Option A
entry [] i = none
entry (x ∷ xs) zero = x
entry (x ∷ xs) (suc i) = entry xs i

module _ {F32 F64 B D N Z Y : Type 0} (lib : Libraries F32 F64 B D N Z Y) where
  unfoldable pub get_pg_type : Option PgType → Option DataType → PgWireResult PgType
  get_pg_type (some hint) inferred = ok hint
  get_pg_type none (some inferred) = into_pg_type lib.display inferred
  get_pg_type none none = ok PgType.unknown

  abbrev single : PgWireResult (Scalar F32 F64 B) → PgWireResult (Option (ScalarValue F32 F64 B))
  single result = result >>= λ value. ok (some (ScalarValue.scalar value))

  abbrev array :
      PgWireResult (ScalarValue F32 F64 B) → PgWireResult (Option (ScalarValue F32 F64 B))
  array result = result >>= λ value. ok (some value)

  module _ (portal : Portal F32 F64 B D N Z Y) where
    -- The match on the type: what the parameter at the index adds to the list, if anything.
    unfoldable pub read_parameter :
        ℕ → Option DataType → PgType → PgWireResult (Option (ScalarValue F32 F64 B))
    unfolding text_param time_param int_param float4_param float8_param numeric_param
        timestamp_param timestamptz_param interval_param array_param interval_array_param
        numeric_array_param other_param
    read_parameter i inferred PgType.bool =
        single (portal.bool_at i PgType.bool >>= λ value. ok (Scalar.boolean value))
    read_parameter i inferred PgType.char =
        single (portal.i8_at i PgType.char >>= λ value. ok (Scalar.int8 value))
    read_parameter i inferred PgType.int2 =
        single (int_param lib Scalar.int16 inferred (portal.i16_at i PgType.int2))
    read_parameter i inferred PgType.int4 =
        single (int_param lib Scalar.int32 inferred (portal.i32_at i PgType.int4))
    read_parameter i inferred PgType.int8 =
        single (int_param lib Scalar.int64 inferred (portal.i64_at i PgType.int8))
    read_parameter i inferred PgType.text =
        single (text_param inferred (portal.string_at i PgType.text))
    read_parameter i inferred PgType.varchar =
        single (text_param inferred (portal.string_at i PgType.varchar))
    read_parameter i inferred PgType.bytea =
        single (portal.bytes_at i PgType.bytea >>= λ value. ok (Scalar.binary value))
    read_parameter i inferred PgType.float4 =
        single (float4_param lib inferred (portal.f32_at i PgType.float4))
    read_parameter i inferred PgType.float8 =
        single (float8_param lib inferred (portal.f64_at i PgType.float8))
    read_parameter i inferred PgType.numeric =
        single (numeric_param lib inferred (portal.decimal_at i PgType.numeric))
    read_parameter i inferred PgType.timestamp =
        single (timestamp_param lib inferred (portal.naive_at i PgType.timestamp))
    read_parameter i inferred PgType.timestamptz =
        single (timestamptz_param lib inferred (portal.zoned_at i PgType.timestamptz))
    read_parameter i inferred PgType.date = single (
        portal.date_at i PgType.date >>= λ value.
        ok (Scalar.date32 (map_opt lib.from_naive_date value)))
    read_parameter i inferred PgType.time =
        single (time_param inferred (portal.time_at i PgType.time))
    read_parameter i inferred PgType.uuid =
        single (portal.string_at i PgType.uuid >>= λ value. ok (Scalar.utf8 value))
    read_parameter i inferred PgType.json =
        single (portal.string_at i PgType.json >>= λ value. ok (Scalar.utf8 value))
    read_parameter i inferred PgType.jsonb =
        single (portal.string_at i PgType.jsonb >>= λ value. ok (Scalar.utf8 value))
    read_parameter i inferred PgType.interval =
        single (interval_param lib inferred (portal.interval_at i PgType.interval))
    read_parameter i inferred PgType.bool_array =
        array (array_param Scalar.boolean DataType.boolean (portal.bools_at i PgType.bool_array))
    read_parameter i inferred PgType.int2_array =
        array (array_param Scalar.int16 DataType.int16 (portal.i16s_at i PgType.int2_array))
    read_parameter i inferred PgType.int4_array =
        array (array_param Scalar.int32 DataType.int32 (portal.i32s_at i PgType.int4_array))
    read_parameter i inferred PgType.int8_array =
        array (array_param Scalar.int64 DataType.int64 (portal.i64s_at i PgType.int8_array))
    read_parameter i inferred PgType.float4_array =
        array (array_param Scalar.float32 DataType.float32 (portal.f32s_at i PgType.float4_array))
    read_parameter i inferred PgType.float8_array =
        array (array_param Scalar.float64 DataType.float64 (portal.f64s_at i PgType.float8_array))
    read_parameter i inferred PgType.text_array =
        array (array_param Scalar.utf8 DataType.utf8 (portal.strings_at i PgType.text_array))
    read_parameter i inferred PgType.varchar_array =
        array (array_param Scalar.utf8 DataType.utf8 (portal.strings_at i PgType.varchar_array))
    read_parameter i inferred PgType.interval_array =
        array (interval_array_param (portal.intervals_at i PgType.interval_array))
    read_parameter i inferred PgType.numeric_array =
        array (numeric_array_param lib inferred (portal.decimals_at i PgType.numeric_array))
    read_parameter i inferred PgType.money =
        single (portal.i64_at i PgType.money >>= λ value. ok (Scalar.int64 value))
    read_parameter i inferred PgType.inet =
        single (portal.string_at i PgType.inet >>= λ value. ok (Scalar.utf8 value))
    read_parameter i inferred PgType.macaddr =
        single (portal.string_at i PgType.macaddr >>= λ value. ok (Scalar.utf8 value))
    read_parameter i inferred pg_type = other_param lib (portal.string_at i pg_type)

    abbrev pub push :
        Option (ScalarValue F32 F64 B) → List (ScalarValue F32 F64 B) → List (ScalarValue F32 F64 B)
    push none values = values
    push (some value) values = value ∷ values

    module _ (inferenced_types : List (Option DataType)) where
      -- One round of the loop.
      unfoldable pub parameter_at : ℕ → PgWireResult (Option (ScalarValue F32 F64 B))
      unfolding entry get_pg_type read_parameter
      parameter_at i =
          get_pg_type (entry portal.parameter_types i) (entry inferenced_types i)
          >>= read_parameter i (entry inferenced_types i)

      -- The rounds from an index on, as many as are left. An error ends them.
      unfoldable pub parameters_from : ℕ → ℕ → PgWireResult (List (ScalarValue F32 F64 B))
      unfolding parameter_at
      parameters_from i zero = ok []
      parameters_from i (suc left) = parameter_at i >>= λ value.
          parameters_from (suc i) left >>= λ values. ok (push value values)

      unfoldable pub deserialize_parameters : PgWireResult (List (ScalarValue F32 F64 B))
      unfolding parameters_from
      deserialize_parameters = parameters_from 0 portal.parameter_len
