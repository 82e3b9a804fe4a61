-- ===== src/Prelude/Int.antt =====
-- The signed integers of the program's `i32` and `i64`, over the native numbers, with the wrap-around
-- of machine words.
use Prim.Native.Nat.{ℕ, zero, suc, ◌-◌, ◌*◌, ◌/◌, ◌%◌, ◌^◌}
use mathlib.Core.Path.{◌≡◌}
use mathlib.Core.Bool.{Bool, true, false}
use native.Mathlib.Omega.{arith}
use datafusion_postgres.Prelude.Tests.{ltb, if◌then◌else◌}

-- `negsuc n` is -(n + 1).
pub data ℤ : Type 0 where
  pos : ℕ → ℤ
  negsuc : ℕ → ℤ

abbrev pub neg : ℕ → ℤ
neg zero = pos 0
neg (suc n) = negsuc n

-- The product with a number, and the quotient by one, rounded towards zero.
unfoldable pub times : ℤ → ℕ → ℤ
times (pos n) k = pos (n * k)
times (negsuc n) k = neg (suc n * k)

unfoldable pub quot : ℤ → ℕ → ℤ
quot (pos n) k = pos (n / k)
quot (negsuc n) k = neg (suc n / k)

unfoldable pub rem : ℤ → ℕ → ℤ
rem (pos n) k = pos (n % k)
rem (negsuc n) k = neg (suc n % k)

-- Whether a number is below the bound and, if negative, at least minus the bound.
unfoldable pub fits_signed : ℕ → ℤ → Bool
fits_signed half (pos n) = ltb n half
fits_signed half (negsuc n) = ltb n half

unfoldable pub fits_unsigned : ℕ → ℤ → Bool
fits_unsigned bound (pos n) = ltb n bound
fits_unsigned bound (negsuc n) = false

-- The signed word of a residue, and the residue of a number.
abbrev pub signed : ℕ → ℕ → ℤ
signed half r = if ltb r half then pos r else negsuc (2 * half - 1 - r)

abbrev pub residue : ℕ → ℤ → ℕ
residue modulus (pos n) = n % modulus
residue modulus (negsuc n) = modulus - 1 - n % modulus

-- `as i32` and the wrapping operations on `i64`
unfoldable pub as_i32 : ℤ → ℤ
as_i32 z = signed (2 ^ 31) (residue (2 ^ 32) z)

unfoldable pub as_i64 : ℤ → ℤ
as_i64 z = signed (2 ^ 63) (residue (2 ^ 64) z)

pub as_i32-fits : (z : ℤ) → fits_signed (2 ^ 31) z ≡ true → as_i32 z ≡ z
unfolding as_i32 fits_signed
as_i32-fits (pos n) h = ground arith
as_i32-fits (negsuc n) h = ground arith

pub as_i64-fits : (z : ℤ) → fits_signed (2 ^ 63) z ≡ true → as_i64 z ≡ z
unfolding as_i64 fits_signed
as_i64-fits (pos n) h = ground arith
as_i64-fits (negsuc n) h = ground arith

pub as_i64-in_range : (z : ℤ) → fits_signed (2 ^ 63) (as_i64 z) ≡ true
unfolding as_i64 fits_signed
as_i64-in_range (pos n) = ground arith
as_i64-in_range (negsuc n) = ground arith
