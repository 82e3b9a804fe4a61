-- ===== src/Arrow/Tests.antt =====
-- The types and the parameters on concrete values.
use datafusion_postgres.Prelude.{
  ℕ, String, true, Option, none, some, List, [], ◌∷◌, ◌≡◌, refl, if◌then◌else◌,
}
use datafusion_postgres.Prelude.Int.{ℤ, pos, negsuc, times, quot, rem, fits_signed, as_i32}
use datafusion_postgres.Prelude.Lists.{length}
use datafusion_postgres.Prelude.Dict
use datafusion_postgres.Wire.{ok, err, report, ◌>>=◌}
use datafusion_postgres.Arrow.Samples.{debug, floats, libraries}
use datafusion_postgres.Arrow.{IntervalUnit, DataType, Field, Fields, PgType, PgFields}
use datafusion_postgres.Arrow.Types.{pg_alias_type, struct_name, into_pg_type, field_into_pg_type}
use datafusion_postgres.Arrow.Elements.{ListKind, list_of, array_of, is_element, list_is_array}
use datafusion_postgres.Arrow.Ranges.{is_integer, holds}
use datafusion_postgres.Arrow.Scalar.{Scalar, ScalarValue, Interval}
use datafusion_postgres.Arrow.Coerce.{coerce_int_value, coerce_interval_value}
use datafusion_postgres.Arrow.Integers.{IsExact, coerce_int_value_lem}
use datafusion_postgres.Arrow.Coerce.Intervals.{has_room, IsKeptWhole, coerce_interval_value_lem}
use datafusion_postgres.Arrow.Portal.{Portal}
use datafusion_postgres.Arrow.Parameters.{
  entry, get_pg_type, parameter_at, parameters_from, deserialize_parameters,
}
use datafusion_postgres.Arrow.Inferred.{read_as, IsParameterOf, inferred_type}
use datafusion_postgres.Arrow.Lengths.{
  is_named, IsKept, length-deserialize_parameters, null_is_left_out,
}

-- Parameters that are all the number 7 or the given text.
portal : ℕ → List (Option PgType) → Option String → Portal ℤ ℤ String ℤ ℤ ℤ ℤ
portal count hints written = record {
  parameter_len = count;
  parameter_types = hints;
  bool_at = λ i t. ok (some true);
  i8_at = λ i t. ok (some (pos 7));
  i16_at = λ i t. ok (some (pos 7));
  i32_at = λ i t. ok (some (pos 7));
  i64_at = λ i t. ok (some (pos 7));
  f32_at = λ i t. ok (some (pos 7));
  f64_at = λ i t. ok (some (pos 7));
  string_at = λ i t. ok written;
  bytes_at = λ i t. ok written;
  decimal_at = λ i t. ok (some (pos 7));
  naive_at = λ i t. ok (some (pos 7));
  zoned_at = λ i t. ok (some (pos 7));
  date_at = λ i t. ok (some (pos 7));
  time_at = λ i t. ok none;
  interval_at = λ i t. ok none;
  bools_at = λ i t. ok none;
  i16s_at = λ i t. ok none;
  i32s_at = λ i t. ok none;
  i64s_at = λ i t. ok none;
  f32s_at = λ i t. ok none;
  f64s_at = λ i t. ok none;
  strings_at = λ i t. ok none;
  intervals_at = λ i t. ok none;
  decimals_at = λ i t. ok none;
}

point :
    into_pg_type debug (
      DataType.struct (
        Fields.fields
          (Field.field "x" [] DataType.int32)
          (Fields.fields (Field.field "y" [] DataType.float64) Fields.no_fields)))
    ≡ ok (
        PgType.composite "(x, y)"
          (PgFields.fields "x" PgType.int4 (PgFields.fields "y" PgType.float8 PgFields.no_fields)))
unfolding into_pg_type struct_name pg_alias_type Dict.get
point = refl

tagged :
    field_into_pg_type debug (Field.field "c" (("pg.oid_alias", "regtype") ∷ []) DataType.int32)
    ≡ ok PgType.regtype
unfolding field_into_pg_type pg_alias_type Dict.get
tagged = refl

list_is_array_example :
    into_pg_type debug (list_of ListKind.large (Field.field "item" [] DataType.int16)) ≡ (
      if is_element DataType.int16
      then (into_pg_type debug DataType.int16 >>= λ t. ok (array_of t))
      else err (report "ERROR" "XX000" "Unsupported List Datatype Int16"))
unfolding pg_alias_type Dict.get
list_is_array_example = list_is_array debug ListKind.large "item" [] DataType.int16 refl

coerce_int_value_lem_example :
    IsExact String debug
      (holds DataType.int16 (pos 40000))
      (pos 40000)
      DataType.int16
      (coerce_int_value debug floats (some (pos 40000)) DataType.int16)
unfolding is_integer fits_signed
coerce_int_value_lem_example =
    coerce_int_value_lem String debug floats (pos 40000) DataType.int16 refl refl

abbrev one_second : Interval
one_second = record { months = pos 0; days = pos 1; microseconds = negsuc 999999 }

coerce_interval_value_lem_example :
    IsKeptWhole ℤ ℤ String debug
      (has_room (DataType.interval IntervalUnit.day_time) one_second)
      one_second
      (coerce_interval_value debug (some one_second) (DataType.interval IntervalUnit.day_time))
unfolding fits_signed quot times
coerce_interval_value_lem_example =
    coerce_interval_value_lem ℤ ℤ String debug one_second (DataType.interval IntervalUnit.day_time)
      refl refl

-- 25 days in microseconds are more milliseconds than 32 bits hold: they come out negative.
interval_wraps :
    coerce_interval_value debug {F32 = ℤ} {F64 = ℤ} {B = String}
      (some (record { months = pos 0; days = pos 0; microseconds = pos 2160000000000 }))
      (DataType.interval IntervalUnit.day_time)
    ≡ ok (Scalar.interval_day_time (some (pos 0, negsuc 2134967295)))
unfolding coerce_interval_value rem quot as_i32
interval_wraps = refl

inferred_type_example :
    IsParameterOf DataType.uint16
      (parameter_at libraries (portal 1 [] none) (some DataType.uint16 ∷ []) 0)
unfolding portal entry read_as
inferred_type_example =
    inferred_type libraries (portal 1 [] none) (some DataType.uint16 ∷ []) 0 DataType.uint16
      DataType.uint16 refl refl refl

abbrev two_values : List (ScalarValue ℤ ℤ String)
two_values =
    ScalarValue.scalar (Scalar.utf8 (some "x"))
    ∷ ScalarValue.scalar (Scalar.int32 (some (pos 7)))
    ∷ []

two_parameters :
    deserialize_parameters libraries (portal 2 (none ∷ some PgType.int4 ∷ []) (some "x")) []
    ≡ ok two_values
unfolding portal deserialize_parameters
two_parameters = refl

length-deserialize_parameters_example : length two_values ≡ 2
unfolding portal IsKept
length-deserialize_parameters_example =
    length-deserialize_parameters libraries (portal 2 (none ∷ some PgType.int4 ∷ []) (some "x")) []
      two_values (λ i asked within type other. tt) two_parameters

null_is_left_out_example :
    parameters_from libraries (portal 2 (none ∷ some PgType.int4 ∷ []) none) [] 0 2
    ≡ parameters_from libraries (portal 2 (none ∷ some PgType.int4 ∷ []) none) [] 1 1
unfolding portal entry get_pg_type is_named
null_is_left_out_example =
    null_is_left_out libraries (portal 2 (none ∷ some PgType.int4 ∷ []) none) [] 0 1 PgType.unknown
      refl refl refl
