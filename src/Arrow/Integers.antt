-- ===== src/Arrow/Integers.antt =====
-- An integer parameter as a value of an integer type.
use datafusion_postgres.Prelude.{
  String, ◌^◌, Bool, true, false, Option, none, some, ◌≡◌, inl, inr, refl, Bool-cases,
}
use datafusion_postgres.Prelude.Int.{ℤ, fits_signed, fits_unsigned}
use datafusion_postgres.Wire.{PgWireResult, ok, err}
use datafusion_postgres.Arrow.{DataType}
use datafusion_postgres.Arrow.Ranges.{is_integer, holds}
use datafusion_postgres.Arrow.Inferred.{scalar_type}
use datafusion_postgres.Arrow.Scalar.{Scalar, Floats}
use datafusion_postgres.Arrow.Coerce.{
  out_of_range_error, checked_int_cast, int_into, coerce_int_value,
}

-- The integer of a value of an integer type.
unfoldable pub integer_of : {F32 F64 B : Type 0} → Scalar F32 F64 B → Option ℤ
integer_of (Scalar.int8 v) = v
integer_of (Scalar.int16 v) = v
integer_of (Scalar.int32 v) = v
integer_of (Scalar.int64 v) = v
integer_of (Scalar.uint8 v) = v
integer_of (Scalar.uint16 v) = v
integer_of (Scalar.uint32 v) = v
integer_of (Scalar.uint64 v) = v
integer_of other = none

module _ {F32 F64 : Type 0} (B : Type 0) (debug : DataType → String) where
  -- The integer itself, of the type and only if the type holds it, or the error 22023.
  abbrev pub IsExact : Bool → ℤ → DataType → PgWireResult (Scalar F32 F64 B) → Type 0
  IsExact fits n target (ok v) = (fits ≡ true) × (scalar_type v ≡ target) × (integer_of v ≡ some n)
  IsExact fits n target (err e) = (fits ≡ false) × (e ≡ out_of_range_error debug "INT" n target)

  int_into-IsExact :
      (floats : Floats F32 F64) (constructed : Option ℤ → Scalar F32 F64 B) (fits : ℤ → Bool)
      (n : ℤ) (target : DataType)
      → scalar_type (constructed (some n)) ≡ target
      → integer_of (constructed (some n)) ≡ some n
      → IsExact (fits n) n target (int_into debug floats constructed fits target (some n))
  unfolding checked_int_cast
  int_into-IsExact floats constructed fits n target typed same = elim (Bool-cases (fits n)) [
    | inl inside ↦ rw inside (refl, typed, same)
    | inr outside ↦ rw outside (refl, refl)
  ]

  -- An integer parameter, which is at most an `i64`, is taken for any of the eight integer types
  -- exactly where that type holds it, as this very integer and as a value of that type; else the
  -- statement is refused with 22023.
  pub coerce_int_value_lem :
      (floats : Floats F32 F64) (n : ℤ) (target : DataType)
      → fits_signed (2 ^ 63) n ≡ true
      → is_integer target ≡ true
      → IsExact (holds target n) n target (coerce_int_value debug {B = B} floats (some n) target)
  unfolding is_integer holds coerce_int_value scalar_type integer_of
  coerce_int_value_lem floats n DataType.int8 i64 is =
      int_into-IsExact floats Scalar.int8 (fits_signed (2 ^ 7)) n _ refl refl
  coerce_int_value_lem floats n DataType.int16 i64 is =
      int_into-IsExact floats Scalar.int16 (fits_signed (2 ^ 15)) n _ refl refl
  coerce_int_value_lem floats n DataType.int32 i64 is =
      int_into-IsExact floats Scalar.int32 (fits_signed (2 ^ 31)) n _ refl refl
  coerce_int_value_lem floats n DataType.int64 i64 is = (i64, refl, refl)
  coerce_int_value_lem floats n DataType.uint8 i64 is =
      int_into-IsExact floats Scalar.uint8 (fits_unsigned (2 ^ 8)) n _ refl refl
  coerce_int_value_lem floats n DataType.uint16 i64 is =
      int_into-IsExact floats Scalar.uint16 (fits_unsigned (2 ^ 16)) n _ refl refl
  coerce_int_value_lem floats n DataType.uint32 i64 is =
      int_into-IsExact floats Scalar.uint32 (fits_unsigned (2 ^ 32)) n _ refl refl
  coerce_int_value_lem floats n DataType.uint64 i64 is =
      int_into-IsExact floats Scalar.uint64 (fits_unsigned (2 ^ 64)) n _ refl refl
  coerce_int_value_lem floats n type i64 is = cc
