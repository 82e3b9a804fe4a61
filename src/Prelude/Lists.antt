-- ===== src/Prelude/Lists.antt =====
-- Lists measured by native numbers, searches by a Boolean test, and the predicates on lists that
-- the components share.
use Prim.Native.Nat.{ℕ, suc, ◌+◌}
use mathlib.Core.Path.{◌≡◌, refl}
use mathlib.Core.Logic.{◌↔◌, ◌⊎◌}
use mathlib.Core.Bool.{Bool, true, false, ◌||◌}
use mathlib.Core.List.{List, [], ◌∷◌, ◌++◌}
use native.Mathlib.Omega.{arith}
use datafusion_postgres.Prelude.Tests.{if◌then◌else◌}

module _ {ℓ} {A : Type ℓ} where
  abbrev pub length : List A → ℕ
  length [] = 0
  length (x ∷ xs) = suc (length xs)

  pub length-append : (xs ys : List A) → length (xs ++ ys) ≡ length xs + length ys
  length-append [] ys = omega arith
  length-append (x ∷ xs) ys = omega (arith, length-append xs ys)

  -- `Iterator::any`
  unfoldable pub any : (A → Bool) → List A → Bool
  any test [] = false
  any test (x ∷ xs) = test x || any test xs

  -- `Vec::retain`, by the test of what stays
  unfoldable pub retain : (A → Bool) → List A → List A
  retain test [] = []
  retain test (x ∷ xs) = if test x then x ∷ retain test xs else retain test xs

  abbrev pub All {κ} : (A → Type κ) → List A → Type κ
  All P [] = Unit
  All P (x ∷ xs) = P x × All P xs

  abbrev pub Any : (A → Type 0) → List A → Type 0
  Any P [] = ⊥
  Any P (x ∷ xs) = P x ⊎ Any P xs

  pub any_iff : (test : A → Bool) (xs : List A) → (any test xs ≡ true) ↔ Any (λ x. test x ≡ true) xs
  unfolding any
  any_iff test [] = ground arith
  any_iff test (x ∷ xs) = ground (arith, any_iff test xs)

  pub any-append :
      (test : A → Bool) (xs ys : List A) → any test (xs ++ ys) ≡ any test xs || any test ys
  unfolding any
  any-append test [] ys = refl
  any-append test (x ∷ xs) ys = ground (arith, any-append test xs ys)

  pub retain-append :
      (test : A → Bool) (xs ys : List A) → retain test (xs ++ ys) ≡ retain test xs ++ retain test ys
  unfolding retain
  retain-append test [] ys = refl
  retain-append test (x ∷ xs) ys = ground (arith, retain-append test xs ys)

  -- Two tests that agree on each element agree on the list.
  pub Any-iff : {P Q : A → Type 0} (each : (x : A) → P x ↔ Q x) (xs : List A) → Any P xs ↔ Any Q xs
  Any-iff each [] = (λ h. h, λ h. h)
  Any-iff each (x ∷ xs) = ground (arith, each x, Any-iff each xs)

  pub All-imp : {P Q : A → Type 0} (each : (x : A) → P x → Q x) (xs : List A) → All P xs → All Q xs
  All-imp each [] h = tt
  All-imp each (x ∷ xs) h = (each x h.0, All-imp each xs h.1)

  pub All-always : {P : A → Type 0} (each : (x : A) → P x) (xs : List A) → All P xs
  All-always each [] = tt
  All-always each (x ∷ xs) = (each x, All-always each xs)
