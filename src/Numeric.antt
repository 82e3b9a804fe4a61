-- ===== src/Numeric.antt =====
-- datafusion-pg-functions/src/numeric/div.rs and mod_op.rs: `div` and `mod` of two columns of integers.
-- A column is the list of its values, with `none` for NULL; `half` is 2 to the power of the integers'
-- width less one. Rust's division and remainder truncate towards zero, and panic for the smallest
-- number by -1.
pub mod Division
pub mod WidthBucket
mod Tests
mod BucketTests
use datafusion_postgres.Prelude.{
  ℕ, zero, suc, ◌+◌, ◌*◌, ◌/◌, ◌%◌, Bool, true, false, ◌&&◌, Option, none, some, List, [], ◌∷◌, ltb,
  ◌==◌, if◌then◌else◌,
}
use datafusion_postgres.Prelude.Int.{ℤ, pos, negsuc, neg}
use datafusion_postgres.Prelude.Lists.{length}
use datafusion_postgres.Wire.{PgWireResult, ok, err, panicked, ◌>>=◌}

abbrev pub magnitude : ℤ → ℕ
magnitude (pos n) = n
magnitude (negsuc n) = suc n

-- The smallest number by -1.
abbrev pub overflows : ℕ → ℤ → ℤ → Bool
overflows half (negsuc m) (negsuc n) = suc m == half && n == 0
overflows half y x = false

unfoldable pub quotient : ℤ → ℤ → ℤ
quotient (pos m) (pos n) = pos (m / n)
quotient (pos m) (negsuc n) = neg (m / suc n)
quotient (negsuc m) (pos n) = neg (suc m / n)
quotient (negsuc m) (negsuc n) = pos (suc m / suc n)

unfoldable pub remainder : ℤ → ℤ → ℤ
remainder (pos m) x = pos (m % magnitude x)
remainder (negsuc m) x = neg (suc m % magnitude x)

abbrev pub is_zero : ℤ → Bool
is_zero (pos n) = n == 0
is_zero (negsuc n) = false

abbrev checked : ℕ → (ℤ → ℤ → ℤ) → ℤ → ℤ → PgWireResult (Option ℤ)
checked half op y x = if overflows half y x then err panicked else ok (some (op y x))

-- One row: NULL where either value is, and where the divisor is zero.
unfoldable pub int_row : ℕ → (ℤ → ℤ → ℤ) → Option ℤ → Option ℤ → PgWireResult (Option ℤ)
int_row half op (some y) (some x) = if is_zero x then ok none else checked half op y x
int_row half op y x = ok none

-- The value at an index; one beyond the end panics.
abbrev value_at : List (Option ℤ) → ℕ → PgWireResult (Option ℤ)
value_at [] i = err panicked
value_at (x ∷ xs) zero = ok x
value_at (x ∷ xs) (suc i) = value_at xs i

-- A column of one value counts for every row.
abbrev broadcast : List (Option ℤ) → ℕ → ℕ
broadcast column i = if length column == 1 then 0 else i

abbrev second : ℕ → (ℤ → ℤ → ℤ) → List (Option ℤ) → ℕ → Option ℤ → PgWireResult (Option ℤ)
second half op x i none = ok none
second half op x i (some y) = value_at x (broadcast x i) >>= int_row half op (some y)

unfoldable pub int_rows :
    ℕ → (ℤ → ℤ → ℤ) → List (Option ℤ) → List (Option ℤ) → ℕ → ℕ → PgWireResult (List (Option ℤ))
unfolding int_row
int_rows half op y x i zero = ok []
int_rows half op y x i (suc left) = value_at y (broadcast y i) >>= second half op x i >>= λ row.
    int_rows half op y x (suc i) left >>= λ rows. ok (row ∷ rows)

abbrev max : ℕ → ℕ → ℕ
max m n = if ltb m n then n else m

unfoldable pub div_int : ℕ → List (Option ℤ) → List (Option ℤ) → PgWireResult (List (Option ℤ))
unfolding int_rows quotient
div_int half y x = int_rows half quotient y x 0 (max (length y) (length x))

unfoldable pub mod_int : ℕ → List (Option ℤ) → List (Option ℤ) → PgWireResult (List (Option ℤ))
unfolding int_rows remainder
mod_int half y x = int_rows half remainder y x 0 (max (length y) (length x))
