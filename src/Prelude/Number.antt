-- ===== src/Prelude/Number.antt =====
-- `str::parse` for the unsigned integers, written out: an optional plus sign, then one or more digits
-- whose value stays below the bound. And the decimal print, which it reads back.
use Prim.Native.Nat.{ℕ, zero, suc, ◌+◌, ◌-◌, ◌*◌, ◌/◌, ◌%◌, ◌<◌, ◌≤◌}
use mathlib.Core.Path.{◌≡◌, refl, sym, ap, ◌∙◌}
use mathlib.Core.Logic.{inl, inr}
use native.Mathlib.Omega.{arith}
use text.Mathlib.TextLemmas.{nil-append, cons-append, append_assoc}
use Prim.Native.Char.{Char, code}
use Prim.Native.String
use Prim.Native.String.{String}
use mathlib.Core.Bool.{true, ◌&&◌}
use mathlib.Core.Option.{Option, none, some}
use datafusion_postgres.Prelude.Tests.{ltb, leb, ◌==◌, Bool-cases, ltb→lt, if◌then◌else◌}

module _ (bound : ℕ) where
  parse_digits : ℕ → String → Option ℕ
  parse_digits n String.[] = some n
  parse_digits n (String.◌∷◌ c rest) =
      let d = code c - b'0' in
      let next = parse_digits (n * 10 + d) rest in
      if leb b'0' (code c) && leb (code c) b'9' && ltb (n * 10 + d) bound then next else none

  -- No digit at all is an error, also after a sign.
  parse_unsigned : String → Option ℕ
  parse_unsigned String.[] = none
  parse_unsigned (String.◌∷◌ c rest) = parse_digits 0 (String.◌∷◌ c rest)

  unfoldable pub parse_below : String → Option ℕ
  unfolding parse_unsigned parse_digits
  parse_below String.[] = none
  parse_below (String.◌∷◌ c rest) =
      if code c == b'+' then parse_unsigned rest else parse_unsigned (String.◌∷◌ c rest)

-- `u128::to_string`: a digit for the rest of a division by ten, as often as it takes.
digit : ℕ → Char
digit d =
    if d == 0
    then "0"
    else if d == 1
    then "1"
    else if d == 2
    then "2"
    else if d == 3
    then "3"
    else if d == 4
    then "4"
    else if d == 5
    then "5"
    else if d == 6
    then "6"
    else if d == 7
    then "7"
    else if d == 8
    then "8"
    else "9"

print_digits : ℕ → ℕ → String → String
print_digits zero n out = out
print_digits (suc fuel) n out =
    let rest = print_digits fuel (n / 10) (String.◌∷◌ (digit (n % 10)) out) in
    if ltb n 10 then String.◌∷◌ (digit (n % 10)) out else rest

unfoldable pub print : ℕ → String
unfolding print_digits digit
print n = print_digits (suc n) n ""

code-digit : (d : ℕ) → d < 10 → code (digit d) ≡ b'0' + d
unfolding digit
code-digit zero h = refl
code-digit (suc zero) h = refl
code-digit (suc (suc zero)) h = refl
code-digit (suc (suc (suc zero))) h = refl
code-digit (suc (suc (suc (suc zero)))) h = refl
code-digit (suc (suc (suc (suc (suc zero))))) h = refl
code-digit (suc (suc (suc (suc (suc (suc zero)))))) h = refl
code-digit (suc (suc (suc (suc (suc (suc (suc zero))))))) h = refl
code-digit (suc (suc (suc (suc (suc (suc (suc (suc zero)))))))) h = refl
code-digit (suc (suc (suc (suc (suc (suc (suc (suc (suc zero))))))))) h = refl
code-digit (suc (suc (suc (suc (suc (suc (suc (suc (suc (suc d)))))))))) h = absurd (omega arith)

print_digits_first :
    (fuel n : ℕ) (out : String)
    → (c : Char) × (rest : String) × (print_digits (suc fuel) n out ≡ String.◌∷◌ c rest)
      × (b'0' ≤ code c)
unfolding print_digits
print_digits_first zero n out =
    let le : b'0' ≤ code (digit (n % 10)) = omega (arith, code-digit (n % 10) (omega arith)) in
    elim (Bool-cases (ltb n 10)) [
      | inl small ↦ (digit (n % 10), out, rw small refl, le)
      | inr large ↦ (digit (n % 10), out, rw large refl, le)
    ]
print_digits_first (suc fuel) n out = elim (Bool-cases (ltb n 10)) [
  | inl small ↦
      (digit (n % 10), out, rw small refl, omega (arith, code-digit (n % 10) (omega arith)))
  | inr large ↦
      let (c, rest, e, le) = print_digits_first fuel (n / 10) (String.◌∷◌ (digit (n % 10)) out) in
      (c, rest, rw large e, le)
]

print_digits_last :
    (fuel n : ℕ) (out : String)
    → (start : String) × (c : Char) × (print_digits (suc fuel) n out
        ≡ String.◌++◌ start (String.◌∷◌ c out))
      × (b'0' ≤ code c)
      × (code c ≤ b'9')
unfolding print_digits
print_digits_last zero n out =
    let d = digit (n % 10) in
    let at_most : n % 10 < 10 = omega arith in
    let low : b'0' ≤ code d = omega (arith, code-digit (n % 10) at_most) in
    let high : code d ≤ b'9' = omega (arith, code-digit (n % 10) at_most) in
    let whole = sym (nil-append (String.◌∷◌ d out)) in
    elim (Bool-cases (ltb n 10)) [
      | inl small ↦ ("", d, rw small whole, low, high)
      | inr large ↦ ("", d, rw large whole, low, high)
    ]
print_digits_last (suc fuel) n out =
    let d = digit (n % 10) in
    let at_most : n % 10 < 10 = omega arith in
    let low : b'0' ≤ code d = omega (arith, code-digit (n % 10) at_most) in
    let high : code d ≤ b'9' = omega (arith, code-digit (n % 10) at_most) in
    elim (Bool-cases (ltb n 10)) [
      | inl small ↦ ("", d, rw small (sym (nil-append (String.◌∷◌ d out))), low, high)
      | inr large ↦
          let (start, c, e, le, ge) = print_digits_last fuel (n / 10) (String.◌∷◌ d out) in
          let joined = String.◌++◌ start (String.◌∷◌ c "") in
          let moved : String.◌++◌ joined (String.◌∷◌ d out)
              ≡ String.◌++◌ start (String.◌∷◌ c (String.◌∷◌ d out)) =
            append_assoc start (String.◌∷◌ c "") (String.◌∷◌ d out)
            ∙ ap (String.◌++◌ start) (
                cons-append c "" (String.◌∷◌ d out)
                ∙ ap (String.◌∷◌ c) (nil-append (String.◌∷◌ d out))) in
          (joined, d, rw large (e ∙ sym moved), low, high)
    ]

-- The last character of a print is a digit.
pub print_last :
    (n : ℕ)
    → (start : String) × (c : Char) × (print n ≡ String.◌++◌ start (String.◌∷◌ c ""))
      × (b'0' ≤ code c)
      × (code c ≤ b'9')
unfolding print
print_last n = print_digits_last n n ""

-- The first character of a print is no less than a zero.
pub print_first :
    (n : ℕ) → (c : Char) × (rest : String) × (print n ≡ String.◌∷◌ c rest) × (b'0' ≤ code c)
unfolding print
print_first n = print_digits_first n n ""

module _ (bound : ℕ) where
  -- Reading the last digit of `n` after the digits before it gives `n`.
  parse_last :
      (n : ℕ) (out : String)
      → n < bound
      → parse_digits bound (n / 10) (String.◌∷◌ (digit (n % 10)) out) ≡ parse_digits bound n out
  unfolding parse_digits
  parse_last n out h = ground (arith, code-digit (n % 10) (omega arith))

  small_digit :
      (n : ℕ) (out : String)
      → ltb n 10 ≡ true
      → n < bound
      → parse_digits bound 0 (String.◌∷◌ (digit (n % 10)) out) ≡ parse_digits bound n out
  unfolding parse_digits
  small_digit n out small h = ground (arith, code-digit (n % 10) (omega arith), ltb→lt n 10 small)

  parse_digits-print_digits :
      (fuel n : ℕ) (out : String)
      → n < fuel
      → n < bound
      → parse_digits bound 0 (print_digits fuel n out) ≡ parse_digits bound n out
  unfolding print_digits
  parse_digits-print_digits zero n out low h = absurd (omega arith)
  parse_digits-print_digits (suc fuel) n out low h = elim (Bool-cases (ltb n 10)) [
    | inl small ↦ rw small (small_digit n out small h)
    | inr large ↦ rw large (
        parse_digits-print_digits fuel (n / 10) (String.◌∷◌ (digit (n % 10)) out) (ground arith)
          (omega arith)
        ∙ parse_last n out h)
  ]

  -- The first digit is no plus sign.
  first_digit :
      (fuel n : ℕ) (out : String)
      → ltb n 10 ≡ true
      → parse_below bound (print_digits (suc fuel) n out)
        ≡ parse_digits bound 0 (print_digits (suc fuel) n out)
  unfolding print_digits parse_below parse_unsigned
  first_digit fuel n out small = rw small (ground (arith, code-digit (n % 10) (omega arith)))

  parse_below-print_digits :
      (fuel n : ℕ) (out : String)
      → n < suc fuel
      → parse_below bound (print_digits (suc fuel) n out)
        ≡ parse_digits bound 0 (print_digits (suc fuel) n out)
  unfolding print_digits parse_below parse_unsigned
  parse_below-print_digits zero n out low =
      let small : ltb n 10 ≡ true = ground arith in first_digit zero n out small
  parse_below-print_digits (suc fuel) n out low = elim (Bool-cases (ltb n 10)) [
    | inl small ↦ first_digit (suc fuel) n out small
    | inr large ↦
        rw large
          (parse_below-print_digits fuel (n / 10) (String.◌∷◌ (digit (n % 10)) out) (ground arith))
  ]

  -- What is printed is read back.
  pub parse_below-print : (n : ℕ) → n < bound → parse_below bound (print n) ≡ some n
  unfolding print parse_digits
  parse_below-print n h =
      parse_below-print_digits n n "" (omega arith)
      ∙ parse_digits-print_digits (suc n) n "" (omega arith) h

  parse_digits-lt : (n r : ℕ) (s : String) → n < bound → parse_digits bound n s ≡ some r → r < bound
  unfolding parse_digits
  parse_digits-lt n r String.[] h e = ground arith
  parse_digits-lt n r (String.◌∷◌ c rest) h e =
      ground (arith, parse_digits-lt (n * 10 + (code c - b'0')) r rest)

  -- What is read is below the bound.
  pub parse_below-lt : (s : String) (r : ℕ) → 0 < bound → parse_below bound s ≡ some r → r < bound
  unfolding parse_below parse_unsigned
  parse_below-lt String.[] r h e = cc
  parse_below-lt (String.◌∷◌ c String.[]) r h e =
      ground (arith, parse_digits-lt 0 r (String.◌∷◌ c ""))
  parse_below-lt (String.◌∷◌ c (String.◌∷◌ d rest)) r h e = ground (
    arith,
    parse_digits-lt 0 r (String.◌∷◌ c (String.◌∷◌ d rest)),
    parse_digits-lt 0 r (String.◌∷◌ d rest),
  )
