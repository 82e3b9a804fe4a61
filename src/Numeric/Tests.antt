-- ===== src/Numeric/Tests.antt =====
-- -9 and 4, and columns with a NULL and a zero.
use datafusion_postgres.Prelude.{◌^◌, none, some, [], ◌∷◌, ◌≡◌, refl}
use datafusion_postgres.Prelude.Int.{pos, negsuc}
use datafusion_postgres.Wire.{ok, err, panicked}
use datafusion_postgres.Numeric.{div_int, mod_int}

divided :
    div_int (2 ^ 31) (some (negsuc 8) ∷ none ∷ some (pos 9) ∷ []) (some (pos 4) ∷ [])
    ≡ ok (some (negsuc 1) ∷ none ∷ some (pos 2) ∷ [])
unfolding div_int
divided = refl

by_zero : mod_int (2 ^ 31) (some (pos 9) ∷ []) (some (pos 0) ∷ []) ≡ ok (none ∷ [])
unfolding mod_int
by_zero = refl

smallest : div_int (2 ^ 7) (some (negsuc 127) ∷ []) (some (negsuc 0) ∷ []) ≡ err panicked
unfolding div_int
smallest = refl
