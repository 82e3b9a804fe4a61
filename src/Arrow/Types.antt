-- ===== src/Arrow/Types.antt =====
-- arrow-pg/src/datatypes.rs, built without the feature `postgis`: the type that PostgreSQL's protocol
-- is told for an Arrow type, a field and a schema. How Arrow prints a type is a parameter.
use Prim.Native.String
use datafusion_postgres.Prelude.{
  ℕ, suc, String, Option, none, some, List, [], ◌∷◌, str_eq, if◌then◌else◌,
}
use datafusion_postgres.Prelude.Dict
use datafusion_postgres.Prelude.Dict.{Dict}
use datafusion_postgres.Wire.{PgWireResult, ok, err, report, ◌>>=◌}
use datafusion_postgres.Arrow.{DataType, Field, Fields, PgType, PgFields}

abbrev alias_of : String → Option PgType
alias_of kind =
    if str_eq kind "oid"
    then some PgType.oid
    else if str_eq kind "regproc"
    then some PgType.regproc
    else if str_eq kind "regprocedure"
    then some PgType.regprocedure
    else if str_eq kind "regoper"
    then some PgType.regoper
    else if str_eq kind "regoperator"
    then some PgType.regoperator
    else if str_eq kind "regclass"
    then some PgType.regclass
    else if str_eq kind "regtype"
    then some PgType.regtype
    else if str_eq kind "regnamespace"
    then some PgType.regnamespace
    else if str_eq kind "regrole"
    then some PgType.regrole
    else if str_eq kind "regconfig"
    then some PgType.regconfig
    else if str_eq kind "regdictionary"
    then some PgType.regdictionary
    else if str_eq kind "regcollation"
    then some PgType.regcollation
    else none

abbrev alias_if_set : Option String → Option PgType
alias_if_set none = none
alias_if_set (some kind) = alias_of kind

-- By the field's metadata.
unfoldable pub pg_alias_type : Dict String → Option PgType
pg_alias_type metadata = alias_if_set (Dict.get "pg.oid_alias" metadata)

abbrev pub or_else : Option PgType → PgWireResult PgType → PgWireResult PgType
or_else (some alias) result = ok alias
or_else none result = result

abbrev join_after : Fields → String
join_after Fields.no_fields = ")"
join_after (Fields.fields (Field.field name metadata type) rest) =
    String.◌++◌ ", " (String.◌++◌ name (join_after rest))

-- The names of the fields, in parentheses.
unfoldable pub struct_name : Fields → String
struct_name Fields.no_fields = "()"
struct_name (Fields.fields (Field.field name metadata type) rest) =
    String.◌++◌ "(" (String.◌++◌ name (join_after rest))

abbrev pub by_zone : Option String → PgType → PgType → PgType
by_zone (some tz) with_zone without = with_zone
by_zone none with_zone without = without

-- A composite type, from the types of its parts.
abbrev pub composite_of : Fields → PgWireResult PgFields → PgWireResult PgType
composite_of parts result = result >>= λ kinds. ok (PgType.composite (struct_name parts) kinds)

module _ (display : DataType → String) where
  unfoldable mutual
    unfolding pg_alias_type struct_name

    pub into_pg_type : DataType → PgWireResult PgType
    into_pg_type DataType.null = ok PgType.unknown
    into_pg_type DataType.boolean = ok PgType.bool
    into_pg_type DataType.int8 = ok PgType.int2
    into_pg_type DataType.int16 = ok PgType.int2
    into_pg_type DataType.uint8 = ok PgType.int2
    into_pg_type DataType.int32 = ok PgType.int4
    into_pg_type DataType.uint16 = ok PgType.int4
    into_pg_type DataType.int64 = ok PgType.int8
    into_pg_type DataType.uint32 = ok PgType.int8
    into_pg_type DataType.uint64 = ok PgType.numeric
    into_pg_type (DataType.timestamp unit tz) = ok (by_zone tz PgType.timestamptz PgType.timestamp)
    into_pg_type (DataType.time32 unit) = ok PgType.time
    into_pg_type (DataType.time64 unit) = ok PgType.time
    into_pg_type DataType.date32 = ok PgType.date
    into_pg_type DataType.date64 = ok PgType.date
    into_pg_type (DataType.interval unit) = ok PgType.interval
    into_pg_type (DataType.duration unit) = ok PgType.interval
    into_pg_type DataType.binary = ok PgType.bytea
    into_pg_type (DataType.fixed_size_binary size) = ok PgType.bytea
    into_pg_type DataType.large_binary = ok PgType.bytea
    into_pg_type DataType.binary_view = ok PgType.bytea
    into_pg_type DataType.float16 = ok PgType.float4
    into_pg_type DataType.float32 = ok PgType.float4
    into_pg_type DataType.float64 = ok PgType.float8
    into_pg_type (DataType.decimal128 precision scale) = ok PgType.numeric
    into_pg_type DataType.utf8 = ok PgType.text
    into_pg_type DataType.large_utf8 = ok PgType.text
    into_pg_type DataType.utf8_view = ok PgType.text
    into_pg_type (DataType.list (Field.field name metadata type)) = list_into_pg_type metadata type
    into_pg_type (DataType.fixed_size_list (Field.field name metadata type) size) =
        list_into_pg_type metadata type
    into_pg_type (DataType.large_list (Field.field name metadata type)) =
        list_into_pg_type metadata type
    into_pg_type (DataType.list_view (Field.field name metadata type)) =
        list_into_pg_type metadata type
    into_pg_type (DataType.large_list_view (Field.field name metadata type)) =
        list_into_pg_type metadata type
    into_pg_type (DataType.dictionary key value) = into_pg_type value
    into_pg_type (DataType.struct parts) = composite_of parts (fields_into_pg_type parts)
    into_pg_type (DataType.other printed) = err (
        report "ERROR" "XX000"
          (String.◌++◌ "Unsupported Datatype " (display (DataType.other printed))))

    -- The match on the element of a list.
    pub list_into_pg_type : Dict String → DataType → PgWireResult PgType
    list_into_pg_type metadata DataType.null = ok PgType.text_array
    list_into_pg_type metadata DataType.boolean = ok PgType.bool_array
    list_into_pg_type metadata DataType.int8 = ok PgType.int2_array
    list_into_pg_type metadata DataType.int16 = ok PgType.int2_array
    list_into_pg_type metadata DataType.uint8 = ok PgType.int2_array
    list_into_pg_type metadata DataType.int32 = ok PgType.int4_array
    list_into_pg_type metadata DataType.uint16 = ok PgType.int4_array
    list_into_pg_type metadata DataType.int64 = ok PgType.int8_array
    list_into_pg_type metadata DataType.uint32 = ok PgType.int8_array
    list_into_pg_type metadata DataType.uint64 = ok PgType.numeric_array
    list_into_pg_type metadata (DataType.decimal128 precision scale) = ok PgType.numeric_array
    list_into_pg_type metadata (DataType.timestamp unit tz) =
        ok (by_zone tz PgType.timestamptz_array PgType.timestamp_array)
    list_into_pg_type metadata (DataType.time32 unit) = ok PgType.time_array
    list_into_pg_type metadata (DataType.time64 unit) = ok PgType.time_array
    list_into_pg_type metadata DataType.date32 = ok PgType.date_array
    list_into_pg_type metadata DataType.date64 = ok PgType.date_array
    list_into_pg_type metadata (DataType.interval unit) = ok PgType.interval_array
    list_into_pg_type metadata (DataType.duration unit) = ok PgType.interval_array
    list_into_pg_type metadata (DataType.fixed_size_binary size) = ok PgType.bytea_array
    list_into_pg_type metadata DataType.binary = ok PgType.bytea_array
    list_into_pg_type metadata DataType.large_binary = ok PgType.bytea_array
    list_into_pg_type metadata DataType.binary_view = ok PgType.bytea_array
    list_into_pg_type metadata DataType.float16 = ok PgType.float4_array
    list_into_pg_type metadata DataType.float32 = ok PgType.float4_array
    list_into_pg_type metadata DataType.float64 = ok PgType.float8_array
    list_into_pg_type metadata DataType.utf8 = ok PgType.text_array
    list_into_pg_type metadata DataType.large_utf8 = ok PgType.text_array
    list_into_pg_type metadata DataType.utf8_view = ok PgType.text_array
    list_into_pg_type metadata (DataType.struct parts) =
        or_else (pg_alias_type metadata) (composite_of parts (fields_into_pg_type parts))
        >>= λ element. ok (PgType.record_array element)
    list_into_pg_type metadata type =
        err (report "ERROR" "XX000" (String.◌++◌ "Unsupported List Datatype " (display type)))

    -- The parts of a struct, up to the first error.
    pub fields_into_pg_type : Fields → PgWireResult PgFields
    fields_into_pg_type Fields.no_fields = ok PgFields.no_fields
    fields_into_pg_type (Fields.fields (Field.field name metadata type) rest) =
        or_else (pg_alias_type metadata) (into_pg_type type) >>= λ kind.
        fields_into_pg_type rest >>= λ kinds. ok (PgFields.fields name kind kinds)

  unfoldable pub field_into_pg_type : Field → PgWireResult PgType
  unfolding pg_alias_type into_pg_type
  field_into_pg_type (Field.field name metadata type) =
      or_else (pg_alias_type metadata) (into_pg_type type)

-- `FieldInfo`, the parts that the sources set; the format of a column is a parameter.
pub record FieldInfo (F : Type 0) : Type 0 where
  pub name : String
  pub datatype : PgType
  pub format : F

module _ {F : Type 0} (display : DataType → String) (format_for : ℕ → F) where
  describe : ℕ → Fields → PgWireResult (List (FieldInfo F))
  unfolding field_into_pg_type
  describe index Fields.no_fields = ok []
  describe index (Fields.fields (Field.field name metadata type) rest) =
      field_into_pg_type display (Field.field name metadata type) >>= λ pg_type.
      describe (suc index) rest >>= λ infos.
      ok (record { name = name; datatype = pg_type; format = format_for index } ∷ infos)

  -- The columns of a result, up to the first type that is not supported.
  unfoldable pub arrow_schema_to_pg_fields : Fields → PgWireResult (List (FieldInfo F))
  unfolding describe
  arrow_schema_to_pg_fields schema = describe 0 schema
