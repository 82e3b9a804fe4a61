-- ===== src/Arrow/Coerce/Intervals.antt =====
-- An interval parameter as a value of one of Arrow's interval types.
use datafusion_postgres.Prelude.{
  ℕ, zero, suc, String, ◌*◌, ◌/◌, ◌%◌, ◌^◌, Bool, true, false, ◌&&◌, Option, none, some, ◌≡◌, inl,
  inr, refl, ◌∙◌, arith, Bool-cases,
}
use datafusion_postgres.Prelude.Int.{
  ℤ, pos, negsuc, neg, times, quot, rem, fits_signed, as_i32-fits, as_i64-fits,
}
use datafusion_postgres.Wire.{PgWireResult, ok, err}
use datafusion_postgres.Arrow.{IntervalUnit, DataType}
use datafusion_postgres.Arrow.Scalar.{Scalar, Interval}
use datafusion_postgres.Arrow.Coerce.{is_zero, year_month, day_time, coerce_interval_value}

-- Months, days and nanoseconds of an interval.
unfoldable pub duration_of : {F32 F64 B : Type 0} → Scalar F32 F64 B → Option (ℤ × ℤ × ℤ)
duration_of (Scalar.interval_year_month (some months)) = some (months, pos 0, pos 0)
duration_of (Scalar.interval_day_time (some (days, millis))) =
    some (pos 0, days, times millis 1000000)
duration_of (Scalar.interval_month_day_nano parts) = parts
duration_of other = none

is_zero_lem : (z : ℤ) → is_zero z ≡ true → z ≡ pos 0
is_zero_lem (pos n) h = let e : n ≡ 0 = ground arith in rw e refl
is_zero_lem (negsuc n) h = cc

times-neg : (n k : ℕ) → times (neg n) k ≡ neg (n * k)
unfolding times
times-neg zero k = let e : 0 * k ≡ 0 = omega arith in rw e refl
times-neg (suc n) k = refl

neg_zero : (n : ℕ) → neg n ≡ pos 0 → n ≡ 0
neg_zero zero h = refl
neg_zero (suc n) h = cc

-- Whole milliseconds are as many nanoseconds as the microseconds are.
whole_millis :
    (us : ℤ) → is_zero (rem us 1000) ≡ true → times (quot us 1000) 1000000 ≡ times us 1000
unfolding times quot rem
whole_millis (pos n) h = let e : n / 1000 * 1000000 ≡ n * 1000 = ground arith in rw e refl
whole_millis (negsuc n) h =
    let z : suc n % 1000 ≡ 0 = neg_zero (suc n % 1000) (is_zero_lem (neg (suc n % 1000)) h) in
    let e : suc n / 1000 * 1000000 ≡ suc n * 1000 = omega arith in
    times-neg (suc n / 1000) 1000000 ∙ rw e refl

-- Whether a type has room for all parts of an interval.
unfoldable pub has_room : DataType → Interval → Bool
has_room (DataType.interval IntervalUnit.year_month) i = is_zero i.days && is_zero i.microseconds
has_room (DataType.interval IntervalUnit.day_time) i =
    is_zero i.months && is_zero (rem i.microseconds 1000)
has_room (DataType.interval IntervalUnit.month_day_nano) i = true
has_room (DataType.duration unit) i = true
has_room type i = false

module _ (F32 F64 B : Type 0) (debug : DataType → String) where
  -- The very interval, or an error where there is no room for it.
  abbrev pub IsKeptWhole : Bool → Interval → PgWireResult (Scalar F32 F64 B) → Type 0
  IsKeptWhole room i (ok v) =
      (room ≡ true) × (duration_of v ≡ some (i.months, i.days, times i.microseconds 1000))
  IsKeptWhole room i (err e) = room ≡ false

  kept_months :
      (i : Interval)
      → IsKeptWhole (is_zero i.days && is_zero i.microseconds) i (year_month debug (some i))
  unfolding duration_of
  kept_months i = elim (Bool-cases (is_zero i.days && is_zero i.microseconds)) [
    | inl whole ↦
        let days : i.days ≡ pos 0 = is_zero_lem i.days (ground (arith, whole)) in
        let none_left : i.microseconds ≡ pos 0 =
          is_zero_lem i.microseconds (ground (arith, whole)) in
        rw whole (refl, rw days (rw none_left (unfold times in refl)))
    | inr parts ↦ rw parts refl
  ]

  kept_days :
      (i : Interval)
      → fits_signed (2 ^ 31) (quot i.microseconds 1000) ≡ true
      → IsKeptWhole
          (is_zero i.months && is_zero (rem i.microseconds 1000))
          i
          (day_time debug (some i))
  unfolding duration_of
  kept_days i small = elim (Bool-cases (is_zero i.months)) [
    | inl whole ↦ rw whole (elim (Bool-cases (is_zero (rem i.microseconds 1000))) [
      | inl millis ↦ rw millis (
        refl,
        rw (is_zero_lem i.months whole) (
            rw (as_i32-fits (quot i.microseconds 1000) small)
              (rw (whole_millis i.microseconds millis) refl)),
      )
      | inr parts ↦ rw parts refl
    ])
    | inr months ↦ rw months refl
  ]

  -- An interval parameter whose milliseconds fit into 32 bits and whose nanoseconds into 64 is taken
  -- for one of Arrow's interval types, or for a duration, exactly where that type has room for all
  -- its parts: for no days and no time where it is counted in months, for no months and no fraction
  -- of a millisecond where it is counted in days and milliseconds. It keeps its months, days and time.
  pub coerce_interval_value_lem :
      (i : Interval) (target : DataType)
      → fits_signed (2 ^ 31) (quot i.microseconds 1000) ≡ true
      → fits_signed (2 ^ 63) (times i.microseconds 1000) ≡ true
      → IsKeptWhole (has_room target i) i (coerce_interval_value debug (some i) target)
  unfolding coerce_interval_value duration_of has_room
  coerce_interval_value_lem i (DataType.interval IntervalUnit.year_month) millis nanos =
      kept_months i
  coerce_interval_value_lem i (DataType.interval IntervalUnit.day_time) millis nanos =
      kept_days i millis
  coerce_interval_value_lem i (DataType.interval IntervalUnit.month_day_nano) millis nanos =
      (refl, rw (as_i64-fits (times i.microseconds 1000) nanos) refl)
  coerce_interval_value_lem i (DataType.duration unit) millis nanos =
      (refl, rw (as_i64-fits (times i.microseconds 1000) nanos) refl)
  coerce_interval_value_lem i type millis nanos = refl
