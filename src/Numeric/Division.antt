-- ===== src/Numeric/Division.antt =====
-- The quotient and the remainder of a row.
use native.Mathlib.Nat.{div-add-mod', mod-lt}
use datafusion_postgres.Prelude.{
  ℕ, zero, suc, ◌+◌, ◌*◌, ◌/◌, ◌%◌, ◌<◌, Bool, true, false, not, some, ◌≡◌, ◌⊎◌, inl, inr, refl,
  arith,
}
use datafusion_postgres.Prelude.Int.{ℤ, pos, negsuc, neg}
use datafusion_postgres.Wire.{ok}
use datafusion_postgres.Numeric.{magnitude, overflows, quotient, remainder, is_zero, int_row}

abbrev pub is_negative : ℤ → Bool
is_negative (pos n) = false
is_negative (negsuc n) = true

magnitude-neg : (n : ℕ) → magnitude (neg n) ≡ n
magnitude-neg zero = refl
magnitude-neg (suc n) = refl

negative_or_zero : (n : ℕ) → (neg n ≡ pos 0) ⊎ (is_negative (neg n) ≡ true)
negative_or_zero zero = inl refl
negative_or_zero (suc n) = inr refl

magnitude-remainder : (y x : ℤ) → magnitude (remainder y x) ≡ magnitude y % magnitude x
unfolding remainder
magnitude-remainder (pos m) x = refl
magnitude-remainder (negsuc m) x = magnitude-neg (suc m % magnitude x)

magnitude-quotient : (y x : ℤ) → magnitude (quotient y x) ≡ magnitude y / magnitude x
unfolding quotient
magnitude-quotient (pos m) (pos n) = refl
magnitude-quotient (pos m) (negsuc n) = magnitude-neg (m / suc n)
magnitude-quotient (negsuc m) (pos n) = magnitude-neg (suc m / n)
magnitude-quotient (negsuc m) (negsuc n) = refl

remainder_sign : (y x : ℤ) → (remainder y x ≡ pos 0) ⊎ (is_negative (remainder y x) ≡ is_negative y)
unfolding remainder
remainder_sign (pos m) x = inr refl
remainder_sign (negsuc m) x = negative_or_zero (suc m % magnitude x)

abbrev pub differ : Bool → Bool → Bool
differ true b = not b
differ false b = b

quotient_sign :
    (y x : ℤ)
    → (quotient y x ≡ pos 0) ⊎ (is_negative (quotient y x) ≡ differ (is_negative y) (is_negative x))
unfolding quotient
quotient_sign (pos m) (pos n) = inr refl
quotient_sign (pos m) (negsuc n) = negative_or_zero (m / suc n)
quotient_sign (negsuc m) (pos n) = negative_or_zero (suc m / n)
quotient_sign (negsuc m) (negsuc n) = inr refl

above_zero : (x : ℤ) → is_zero x ≡ false → 0 < magnitude x
above_zero (pos n) h = ground arith
above_zero (negsuc n) h = omega arith

-- For a divisor that is not zero, and unless the smallest number is divided by -1, `div` and `mod` of
-- a row give a quotient and a remainder: without their signs they are those of the numbers, so the
-- quotient times the divisor and the remainder are the dividend, and the remainder is less than the
-- divisor. The remainder, if not zero, has the sign of the dividend; the quotient, if not zero, is
-- negative where the signs of the numbers differ.
pub div-mod :
    (half : ℕ) (y x : ℤ)
    → is_zero x ≡ false
    → overflows half y x ≡ false
    → (q : ℤ) × (r : ℤ) × (int_row half quotient (some y) (some x) ≡ ok (some q))
      × (int_row half remainder (some y) (some x) ≡ ok (some r))
      × (magnitude q * magnitude x + magnitude r ≡ magnitude y)
      × (magnitude r < magnitude x)
      × ((r ≡ pos 0) ⊎ (is_negative r ≡ is_negative y))
      × ((q ≡ pos 0) ⊎ (is_negative q ≡ differ (is_negative y) (is_negative x)))
unfolding int_row
div-mod half y x nonzero fits = (
  quotient y x,
  remainder y x,
  rw nonzero (rw fits refl),
  rw nonzero (rw fits refl),
  rw (magnitude-quotient y x)
      (rw (magnitude-remainder y x) (div-add-mod' (magnitude y) (magnitude x))),
  rw (magnitude-remainder y x) (mod-lt (magnitude y) (above_zero x nonzero)),
  remainder_sign y x,
  quotient_sign y x,
)
