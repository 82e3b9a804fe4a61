-- ===== src/Arrow/Elements.antt =====
-- The type that PostgreSQL is told for a list, from that of its elements.
use Prim.Native.String
use datafusion_postgres.Prelude.{
  String, Bool, true, false, Option, none, some, ◌≡◌, refl, if◌then◌else◌,
}
use datafusion_postgres.Prelude.Int.{ℤ}
use datafusion_postgres.Prelude.Dict.{Dict}
use datafusion_postgres.Wire.{PgWireResult, ok, err, report, ◌>>=◌}
use datafusion_postgres.Arrow.{DataType, Field, Fields, PgType, PgFields}
use datafusion_postgres.Arrow.Types.{
  pg_alias_type, by_zone, composite_of, into_pg_type, list_into_pg_type, fields_into_pg_type,
}

-- The five list types of Arrow.
pub data ListKind : Type 0 where
  plain large view large_view : ListKind
  fixed : ℤ → ListKind

abbrev pub list_of : ListKind → Field → DataType
list_of ListKind.plain part = DataType.list part
list_of ListKind.large part = DataType.large_list part
list_of ListKind.view part = DataType.list_view part
list_of ListKind.large_view part = DataType.large_list_view part
list_of (ListKind.fixed size) part = DataType.fixed_size_list part size

-- PostgreSQL's array type for an element type.
unfoldable pub array_of : PgType → PgType
array_of PgType.unknown = PgType.text_array
array_of PgType.bool = PgType.bool_array
array_of PgType.int2 = PgType.int2_array
array_of PgType.int4 = PgType.int4_array
array_of PgType.int8 = PgType.int8_array
array_of PgType.float4 = PgType.float4_array
array_of PgType.float8 = PgType.float8_array
array_of PgType.numeric = PgType.numeric_array
array_of PgType.text = PgType.text_array
array_of PgType.varchar = PgType.varchar_array
array_of PgType.bytea = PgType.bytea_array
array_of PgType.timestamp = PgType.timestamp_array
array_of PgType.timestamptz = PgType.timestamptz_array
array_of PgType.date = PgType.date_array
array_of PgType.time = PgType.time_array
array_of PgType.interval = PgType.interval_array
array_of (PgType.composite name parts) = PgType.record_array (PgType.composite name parts)
array_of type = type

-- The types that a list may have as its elements.
unfoldable pub is_element : DataType → Bool
is_element (DataType.list part) = false
is_element (DataType.large_list part) = false
is_element (DataType.list_view part) = false
is_element (DataType.large_list_view part) = false
is_element (DataType.fixed_size_list part size) = false
is_element (DataType.dictionary key value) = false
is_element (DataType.other printed) = false
is_element type = true

zoned_array :
    (tz : Option String)
    → by_zone tz PgType.timestamptz_array PgType.timestamp_array
      ≡ array_of (by_zone tz PgType.timestamptz PgType.timestamp)
unfolding array_of
zoned_array none = refl
zoned_array (some tz) = refl

composite_array :
    (result : PgWireResult PgFields) (parts : Fields)
    → (composite_of parts result >>= λ element. ok (PgType.record_array element))
      ≡ (composite_of parts result >>= λ element. ok (array_of element))
unfolding array_of
composite_array (ok kinds) parts = refl
composite_array (err e) parts = refl

module _ (display : DataType → String) where
  -- The types of all elements but structs, whose field may have an alias.
  element :
      (metadata : Dict String) (type : DataType)
      → pg_alias_type metadata ≡ none
      → list_into_pg_type display metadata type ≡ (
          if is_element type
          then (into_pg_type display type >>= λ pg_type. ok (array_of pg_type))
          else err
              (report "ERROR" "XX000" (String.◌++◌ "Unsupported List Datatype " (display type))))
  unfolding into_pg_type is_element array_of
  element metadata (DataType.timestamp unit tz) no_alias = rw (zoned_array tz) refl
  element metadata (DataType.struct parts) no_alias =
      rw no_alias (composite_array (fields_into_pg_type display parts) parts)
  element metadata type no_alias = refl

  -- A list, of whichever of Arrow's five list types, is PostgreSQL's array of the type of its
  -- elements, if its field is not marked as an alias of oid; an element of no known type counts as
  -- text. A list of lists, of dictionaries or of a type that is not supported is refused with XX000,
  -- even if the element alone is supported.
  pub list_is_array :
      (kind : ListKind) (name : String) (metadata : Dict String) (type : DataType)
      → pg_alias_type metadata ≡ none
      → into_pg_type display (list_of kind (Field.field name metadata type)) ≡ (
          if is_element type
          then (into_pg_type display type >>= λ pg_type. ok (array_of pg_type))
          else err
              (report "ERROR" "XX000" (String.◌++◌ "Unsupported List Datatype " (display type))))
  unfolding into_pg_type
  list_is_array ListKind.plain name metadata type no_alias = element metadata type no_alias
  list_is_array ListKind.large name metadata type no_alias = element metadata type no_alias
  list_is_array ListKind.view name metadata type no_alias = element metadata type no_alias
  list_is_array ListKind.large_view name metadata type no_alias = element metadata type no_alias
  list_is_array (ListKind.fixed size) name metadata type no_alias = element metadata type no_alias
