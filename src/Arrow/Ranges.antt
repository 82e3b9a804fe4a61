-- ===== src/Arrow/Ranges.antt =====
-- The integers of Arrow's types, and those of the PostgreSQL types that they are reported as.
use datafusion_postgres.Prelude.{String, ◌^◌, Bool, true, false, ◌≡◌, refl, arith}
use datafusion_postgres.Prelude.Int.{ℤ, pos, negsuc, fits_signed, fits_unsigned}
use datafusion_postgres.Wire.{ok}
use datafusion_postgres.Arrow.{DataType, PgType}
use datafusion_postgres.Arrow.Types.{into_pg_type}

unfoldable pub is_integer : DataType → Bool
is_integer DataType.int8 = true
is_integer DataType.int16 = true
is_integer DataType.int32 = true
is_integer DataType.int64 = true
is_integer DataType.uint8 = true
is_integer DataType.uint16 = true
is_integer DataType.uint32 = true
is_integer DataType.uint64 = true
is_integer type = false

-- The integers that a type holds.
unfoldable pub holds : DataType → ℤ → Bool
holds DataType.int8 n = fits_signed (2 ^ 7) n
holds DataType.int16 n = fits_signed (2 ^ 15) n
holds DataType.int32 n = fits_signed (2 ^ 31) n
holds DataType.int64 n = fits_signed (2 ^ 63) n
holds DataType.uint8 n = fits_unsigned (2 ^ 8) n
holds DataType.uint16 n = fits_unsigned (2 ^ 16) n
holds DataType.uint32 n = fits_unsigned (2 ^ 32) n
holds DataType.uint64 n = fits_unsigned (2 ^ 64) n
holds type n = false

unfoldable pub pg_holds : PgType → ℤ → Bool
pg_holds PgType.int2 n = fits_signed (2 ^ 15) n
pg_holds PgType.int4 n = fits_signed (2 ^ 31) n
pg_holds PgType.int8 n = fits_signed (2 ^ 63) n
pg_holds PgType.numeric n = true
pg_holds type n = false

-- Every integer that a value of an integer type of Arrow can be lies in the range of the type that
-- PostgreSQL is told for it: signed and unsigned, 8 to 64 bits.
pub into_pg_type-holds :
    (display : DataType → String) (type : DataType) (n : ℤ)
    → is_integer type ≡ true
    → holds type n ≡ true
    → (pg_type : PgType) × (into_pg_type display type ≡ ok pg_type) × (pg_holds pg_type n ≡ true)
unfolding is_integer holds pg_holds into_pg_type fits_signed fits_unsigned
into_pg_type-holds display DataType.int8 (pos n) is h = (PgType.int2, refl, ground arith)
into_pg_type-holds display DataType.int8 (negsuc n) is h = (PgType.int2, refl, ground arith)
into_pg_type-holds display DataType.int16 n is h = (PgType.int2, refl, h)
into_pg_type-holds display DataType.int32 n is h = (PgType.int4, refl, h)
into_pg_type-holds display DataType.int64 n is h = (PgType.int8, refl, h)
into_pg_type-holds display DataType.uint8 (pos n) is h = (PgType.int2, refl, ground arith)
into_pg_type-holds display DataType.uint8 (negsuc n) is h = cc
into_pg_type-holds display DataType.uint16 (pos n) is h = (PgType.int4, refl, ground arith)
into_pg_type-holds display DataType.uint16 (negsuc n) is h = cc
into_pg_type-holds display DataType.uint32 (pos n) is h = (PgType.int8, refl, ground arith)
into_pg_type-holds display DataType.uint32 (negsuc n) is h = cc
into_pg_type-holds display DataType.uint64 n is h = (PgType.numeric, refl, refl)
into_pg_type-holds display type n is h = cc
