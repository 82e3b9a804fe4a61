-- ===== src/Numeric/WidthBucket/Buckets.antt =====
-- The thresholds of `width_bucket`, counted from below.
use datafusion_postgres.Prelude.{
  ℕ, suc, true, false, List, [], ◌∷◌, ◌≡◌, refl, sym, ap, ◌∙◌, inl, inr, if◌then◌else◌, Bool-cases,
}
use mathlib.Core.Bool.{true≢false}
use datafusion_postgres.Prelude.Lists.{All, length, retain}
use datafusion_postgres.Numeric.WidthBucket.{Floats, threshold_bucket}

module _ {F F32 : Type 0} (floats : Floats F F32) where
  -- Each threshold is at least every one before it.
  abbrev pub IsAscending : List F → Type 0
  IsAscending [] = Unit
  IsAscending (t ∷ thresholds) =
      All (λ u. floats.at_least u t ≡ true) thresholds × IsAscending thresholds

  -- The position of the first threshold that the operand does not reach
  abbrev pub first_above : F → List F → ℕ
  first_above op [] = 0
  first_above op (t ∷ thresholds) =
      if floats.at_least op t then suc (first_above op thresholds) else 0

  nothing_reached :
      (op t : F) (thresholds : List F)
      → floats.at_least op t ≡ false
      → All (λ u. floats.at_least u t ≡ true) thresholds
      → length (retain (λ u. floats.at_least op u) thresholds) ≡ 0
  unfolding retain
  nothing_reached op t [] above later = refl
  nothing_reached op t (u ∷ thresholds) above later = elim (Bool-cases (floats.at_least op u)) [
    | inl reached ↦ absurd (true≢false (sym (floats.at_least-trans op u t reached later.0) ∙ above))
    | inr missed ↦ rw missed (nothing_reached op t thresholds above later.1)
  ]

  reached_first :
      (op : F) (thresholds : List F)
      → IsAscending thresholds
      → length (retain (λ t. floats.at_least op t) thresholds) ≡ first_above op thresholds
  unfolding retain
  reached_first op [] ascending = refl
  reached_first op (t ∷ thresholds) ascending = elim (Bool-cases (floats.at_least op t)) [
    | inl reached ↦ rw reached (ap suc (reached_first op thresholds ascending.1))
    | inr missed ↦ rw missed (nothing_reached op t thresholds missed ascending.0)
  ]

  -- For thresholds in ascending order and an operand that is a number, the number of thresholds that
  -- the operand reaches is the position of the first one, counted from 0, that it does not reach, or
  -- their number if there is none.
  pub threshold_bucket_lem :
      (op : F) (thresholds : List F)
      → floats.is_nan op ≡ false
      → IsAscending thresholds
      → threshold_bucket floats op thresholds ≡ first_above op thresholds
  unfolding threshold_bucket
  threshold_bucket_lem op thresholds a_number ascending =
      rw a_number (reached_first op thresholds ascending)
