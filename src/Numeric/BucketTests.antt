-- ===== src/Numeric/BucketTests.antt =====
-- `width_bucket` at concrete arrays, with the natural numbers for the floating-point ones.
use datafusion_postgres.Prelude.{
  ℕ, ◌-◌, ◌/◌, true, false, some, List, [], ◌∷◌, ◌≡◌, refl, arith, inl, inr, ltb, leb,
}
use datafusion_postgres.Prelude.Int.{ℤ, pos, negsuc, as_i64}
use datafusion_postgres.Numeric.WidthBucket.{
  Floats, float64, int32, equal_width_bucket_f64, equal_width_form, threshold_bucket,
  thresholds_form,
}
use datafusion_postgres.Numeric.WidthBucket.Buckets.{first_above, threshold_bucket_lem}

abbrev natural : ℤ → ℕ
natural (pos n) = n
natural (negsuc n) = 0

leb_trans : (a b c : ℕ) → leb b a ≡ true → leb c b ≡ true → leb c a ≡ true
leb_trans a b c h k = ground arith

abbrev naturals : Floats ℕ ℕ
naturals = record {
  less = ltb;
  at_least = λ a b. leb b a;
  at_least-trans = leb_trans;
  is_nan = λ n. false;
  nan = 0;
  sub = λ a b. a - b;
  div = λ a b. a / b;
  of_int = natural;
  of_f32 = λ n. n;
  floor = pos;
}

abbrev tens : List ℕ
tens = 10 ∷ 20 ∷ 20 ∷ 30 ∷ []

threshold_bucket_lem_example : threshold_bucket naturals 20 tens ≡ first_above naturals 20 tens
threshold_bucket_lem_example =
    threshold_bucket_lem naturals 20 tens refl
      ((refl, (refl, (refl, tt))), ((refl, (refl, tt)), ((refl, tt), (tt, tt))))

bucket_three : equal_width_bucket_f64 naturals 35 10 60 5 ≡ pos 3
unfolding equal_width_bucket_f64
bucket_three = refl

-- The bucket above the range of the largest count does not fit into 32 bits.
count_wraps :
    equal_width_form naturals
      (float64 (some 9 ∷ []))
      (float64 (some 1 ∷ []))
      (float64 (some 5 ∷ []))
      (int32 (some (pos 2147483647) ∷ []))
    ≡ inr (some (negsuc 2147483647) ∷ [])
unfolding equal_width_form
count_wraps = refl

-- The bucket above the range of the largest `i64` wraps around.
largest_count_wraps :
    equal_width_bucket_f64 naturals 9 1 5 9223372036854775807 ≡ negsuc 9223372036854775807
unfolding equal_width_bucket_f64 as_i64
largest_count_wraps = refl

-- The second row has bounds of its own, 100 and 200, and gets its bucket between those of the first.
first_bounds :
    equal_width_form naturals
      (float64 (some 2 ∷ some 150 ∷ []))
      (float64 (some 1 ∷ some 100 ∷ []))
      (float64 (some 5 ∷ some 200 ∷ []))
      (int32 (some (pos 2) ∷ some (pos 2) ∷ []))
    ≡ inr (some (pos 1) ∷ some (pos 3) ∷ [])
unfolding equal_width_form
first_bounds = refl

-- Two operands, with the list of thresholds once for each
two_rows :
    thresholds_form naturals
      (float64 (some 2 ∷ some 15 ∷ []))
      (some (some 10 ∷ []) ∷ some (some 10 ∷ []) ∷ [])
    ≡ inl "width_bucket thresholds must be a sorted list of f64"
unfolding thresholds_form
two_rows = refl
