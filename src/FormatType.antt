-- ===== src/FormatType.antt =====
-- datafusion-pg-catalog/src/pg_catalog/format_type.rs: `format_type`, the name of a type by its oid and
-- its modifier, which are both `i32`. A column is the list of its values, with `none` for NULL.
pub mod Modifier
mod Tests
use Prim.Native.String
use datafusion_postgres.Prelude.{
  ℕ, zero, suc, String, ◌-◌, ◌/◌, ◌%◌, Option, none, some, List, [], ◌∷◌, map, ltb, ◌==◌,
  if◌then◌else◌,
}
use datafusion_postgres.Prelude.Int.{ℤ, pos, negsuc, as_i32}
use datafusion_postgres.Prelude.Number
use datafusion_postgres.Wire.{PgWireResult, ok, err, api_error, panicked, ◌>>=◌}

infixr 5 ◌<>◌
abbrev pub ◌<>◌ : String → String → String
s <> t = String.◌++◌ s t

abbrev print_int : ℤ → String
print_int (pos n) = Number.print n
print_int (negsuc n) = "-" <> Number.print (suc n)

-- `typemod > 4`, `typemod >= 4`, `typemod >= 0` and `typemod > 0`
abbrev over_four : ℤ → (ℕ → String) → String → String
over_four (pos n) with_length without = if ltb 4 n then with_length (n - 4) else without
over_four (negsuc n) with_length without = without

abbrev pub from_four : ℤ → (ℕ → String) → String → String
from_four (pos n) with_length without = if ltb n 4 then without else with_length (n - 4)
from_four (negsuc n) with_length without = without

abbrev from_zero : ℤ → (ℕ → String) → String → String
from_zero (pos n) with_precision without = with_precision n
from_zero (negsuc n) with_precision without = without

abbrev over_zero : ℤ → (ℕ → String) → String → String
over_zero (pos n) with_length without = if n == 0 then without else with_length n
over_zero (negsuc n) with_length without = without

-- `numeric` with the precision above the low 16 bits, and the scale in them
unfoldable pub numeric_name : ℕ → String
numeric_name n =
    let precision = n / 65536 % 65536 in
    let scale = n % 65536 in
    if ltb 0 scale
    then "numeric(" <> Number.print precision <> "," <> Number.print scale <> ")"
    else "numeric(" <> Number.print precision <> ")"

-- The names of the types that are no arrays, by the oid.
unfoldable pub core_name : ℕ → ℤ → Option String
unfolding numeric_name
core_name oid typemod =
    if oid == 16
    then some "boolean"
    else if oid == 17
    then some "bytea"
    else if oid == 18
    then some "\"char\""
    else if oid == 19
    then some "name"
    else if oid == 20
    then some "bigint"
    else if oid == 21
    then some "smallint"
    else if oid == 23
    then some "integer"
    else if oid == 24
    then some "regproc"
    else if oid == 25
    then some "text"
    else if oid == 26
    then some "oid"
    else if oid == 27
    then some "tid"
    else if oid == 28
    then some "xid"
    else if oid == 29
    then some "cid"
    else if oid == 114
    then some "json"
    else if oid == 3802
    then some "jsonb"
    else if oid == 700
    then some "real"
    else if oid == 701
    then some "double precision"
    else if oid == 1042
    then some (over_four typemod (λ n. "character(" <> Number.print n <> ")") "character")
    else if oid == 1043
    then some
        (over_four typemod (λ n. "character varying(" <> Number.print n <> ")") "character varying")
    else if oid == 1700
    then some (from_four typemod numeric_name "numeric")
    else if oid == 1082
    then some "date"
    else if oid == 1083
    then some (
        from_zero typemod (λ n. "time(" <> Number.print n <> ") without time zone")
          "time without time zone")
    else if oid == 1114
    then some (
        from_zero typemod (λ n. "timestamp(" <> Number.print n <> ") without time zone")
          "timestamp without time zone")
    else if oid == 1184
    then some (
        from_zero typemod (λ n. "timestamp(" <> Number.print n <> ") with time zone")
          "timestamp with time zone")
    else if oid == 1266
    then some (
        from_zero typemod (λ n. "time(" <> Number.print n <> ") with time zone")
          "time with time zone")
    else if oid == 1186
    then some "interval"
    else if oid == 1560
    then some (over_zero typemod (λ n. "bit(" <> Number.print n <> ")") "bit")
    else if oid == 1562
    then some (over_zero typemod (λ n. "bit varying(" <> Number.print n <> ")") "bit varying")
    else if oid == 2950
    then some "uuid"
    else none

-- The array types, with their element types.
abbrev pub array_types : List (ℕ × ℕ)
array_types =
    (1000, 16)
    ∷ (1001, 17)
    ∷ (1005, 21)
    ∷ (1007, 23)
    ∷ (1016, 20)
    ∷ (1009, 25)
    ∷ (1014, 1042)
    ∷ (1015, 1043)
    ∷ (1021, 700)
    ∷ (1022, 701)
    ∷ (1231, 1700)
    ∷ (1182, 1082)
    ∷ (1183, 1083)
    ∷ (1115, 1114)
    ∷ (1185, 1184)
    ∷ (199, 114)
    ∷ (3807, 3802)
    ∷ (2951, 2950)
    ∷ []

unfoldable pub find : ℕ → List (ℕ × ℕ) → Option ℕ
find oid [] = none
find oid ((array, base) ∷ rest) = if oid == array then some base else find oid rest

unfoldable pub get_array_base_type : ℕ → Option ℕ
unfolding find
get_array_base_type oid = find oid array_types

abbrev pub unknown_oid : ℤ → String
unknown_oid oid = "oid(" <> print_int oid <> ")"

abbrev pub brackets : Option String → Option String
brackets none = none
brackets (some name) = some (name <> "[]")

abbrev pub array_name : ℕ → Option ℕ → (ℕ → Option String) → Option String
array_name oid (some base) rest = brackets (rest base)
array_name oid none rest = some (unknown_oid (pos oid))

abbrev pub or_array : ℕ → Option String → (ℕ → Option String) → Option String
or_array oid (some name) rest = some name
or_array oid none rest = array_name oid (get_array_base_type oid) rest

-- `format_postgres_type`, which calls itself on the element type of an array; `none` is a call that
-- has not ended. The oid 0 has no array arm: it is taken as unknown.
unfoldable pub format_postgres_type : ℕ → ℤ → ℤ → Option String
unfolding core_name get_array_base_type
format_postgres_type zero oid typemod = none
format_postgres_type (suc fuel) (negsuc n) typemod = some (unknown_oid (negsuc n))
format_postgres_type (suc fuel) (pos oid) typemod =
    or_array oid (core_name oid typemod) (λ base. format_postgres_type fuel (pos base) (negsuc 0))

-- An Arrow column of `i32` or `i64`, or of another type, by how Arrow prints it.
pub data Column : Type 0 where
  int32 int64 : List (Option ℤ) → Column
  other : String → Column

abbrev cast_opt : Option ℤ → Option ℤ
cast_opt none = none
cast_opt (some n) = some (as_i32 n)

unfoldable pub as_i32_column : Column → PgWireResult (List (Option ℤ))
unfolding as_i32
as_i32_column (int32 values) = ok values
as_i32_column (int64 values) = ok (map cast_opt values)
as_i32_column (other type) = err (api_error ("Unexpected oid type in format_type: " <> type))

abbrev or_minus_one : Option ℤ → ℤ
or_minus_one none = negsuc 0
or_minus_one (some n) = n

-- The loop over the rows. A missing modifier is an index out of bounds; fuel of 2 is enough.
unfoldable pub format_rows : List (Option ℤ) → List (Option ℤ) → PgWireResult (List (Option String))
unfolding format_postgres_type
format_rows [] typemods = ok []
format_rows (none ∷ oids) [] = format_rows oids [] >>= λ names. ok (none ∷ names)
format_rows (none ∷ oids) (_ ∷ typemods) = format_rows oids typemods >>= λ names. ok (none ∷ names)
format_rows (some oid ∷ oids) [] = err panicked
format_rows (some oid ∷ oids) (typemod ∷ typemods) = format_rows oids typemods >>= λ names.
    ok (format_postgres_type 2 oid (or_minus_one typemod) ∷ names)

unfoldable pub format_type_impl : Column → Column → PgWireResult (List (Option String))
unfolding as_i32_column format_rows
format_type_impl oids typemods = as_i32_column oids >>= λ types.
    as_i32_column typemods >>= λ modifiers. format_rows types modifiers
