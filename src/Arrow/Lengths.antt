-- ===== src/Arrow/Lengths.antt =====
-- How many values `deserialize_parameters` gives, and what a NULL counts for.
use datafusion_postgres.Prelude.{
  ℕ, zero, suc, ◌+◌, ◌<◌, ◌≤◌, Bool, true, false, Option, none, some, List, ◌≡◌, refl, ◌∙◌, arith,
  inl, inr, Bool-cases, String,
}
use datafusion_postgres.Prelude.Lists.{length}
use datafusion_postgres.Wire.{PgWireResult, ok, err, ◌>>=◌}
use datafusion_postgres.Arrow.{DataType, PgType}
use datafusion_postgres.Arrow.Scalar.{ScalarValue}
use datafusion_postgres.Arrow.Coerce.{map_opt}
use datafusion_postgres.Arrow.Portal.{Libraries, Portal}
use datafusion_postgres.Arrow.Parameters.Arrays.{other_param}
use datafusion_postgres.Arrow.Parameters.{
  entry, get_pg_type, read_parameter, parameter_at, parameters_from, deserialize_parameters, push,
}

-- The types with an arm of their own.
unfoldable pub is_named : PgType → Bool
is_named PgType.unknown = false
is_named PgType.oid = false
is_named PgType.regproc = false
is_named PgType.regprocedure = false
is_named PgType.regoper = false
is_named PgType.regoperator = false
is_named PgType.regclass = false
is_named PgType.regtype = false
is_named PgType.regnamespace = false
is_named PgType.regrole = false
is_named PgType.regconfig = false
is_named PgType.regdictionary = false
is_named PgType.regcollation = false
is_named PgType.bytea_array = false
is_named PgType.timestamp_array = false
is_named PgType.timestamptz_array = false
is_named PgType.date_array = false
is_named PgType.time_array = false
is_named (PgType.composite name parts) = false
is_named (PgType.record_array element) = false
is_named (PgType.other name) = false
is_named type = true

-- Not a value that is left out.
unfoldable pub IsKept : {A : Type 0} → PgWireResult (Option A) → Type 0
IsKept (ok none) = ⊥
IsKept (ok (some a)) = Unit
IsKept (err e) = Unit

keeps :
    {A V : Type 0} (result : PgWireResult A) (constructed : A → V)
    → IsKept (result >>= λ value. ok (some (constructed value)))
unfolding IsKept
keeps (ok a) constructed = tt
keeps (err e) constructed = tt

keeps_text :
    {V : Type 0} (result : PgWireResult (Option String)) (read : String → V)
    → IsKept result
    → IsKept (result >>= λ value. ok (map_opt read value))
unfolding IsKept
keeps_text (ok none) read h = h
keeps_text (ok (some value)) read h = tt
keeps_text (err e) read h = tt

module _ {F32 F64 B D N Z Y : Type 0} (lib : Libraries F32 F64 B D N Z Y)
    (portal : Portal F32 F64 B D N Z Y) where
  keeps_named :
      (i : ℕ) (inferred : Option DataType) (asked : PgType)
      → is_named asked ≡ true
      → IsKept (read_parameter lib portal i inferred asked)
  unfolding is_named read_parameter
  keeps_named i inferred PgType.unknown h = cc
  keeps_named i inferred PgType.oid h = cc
  keeps_named i inferred PgType.regproc h = cc
  keeps_named i inferred PgType.regprocedure h = cc
  keeps_named i inferred PgType.regoper h = cc
  keeps_named i inferred PgType.regoperator h = cc
  keeps_named i inferred PgType.regclass h = cc
  keeps_named i inferred PgType.regtype h = cc
  keeps_named i inferred PgType.regnamespace h = cc
  keeps_named i inferred PgType.regrole h = cc
  keeps_named i inferred PgType.regconfig h = cc
  keeps_named i inferred PgType.regdictionary h = cc
  keeps_named i inferred PgType.regcollation h = cc
  keeps_named i inferred PgType.bytea_array h = cc
  keeps_named i inferred PgType.timestamp_array h = cc
  keeps_named i inferred PgType.timestamptz_array h = cc
  keeps_named i inferred PgType.date_array h = cc
  keeps_named i inferred PgType.time_array h = cc
  keeps_named i inferred (PgType.composite name parts) h = cc
  keeps_named i inferred (PgType.record_array element) h = cc
  keeps_named i inferred (PgType.other name) h = cc
  keeps_named i inferred asked h = keeps _ _

  -- The reading of a parameter without an arm of its own.
  other_read :
      (i : ℕ) (inferred : Option DataType) (asked : PgType)
      → is_named asked ≡ false
      → read_parameter lib portal i inferred asked ≡ other_param lib (portal.string_at i asked)
  unfolding is_named read_parameter
  other_read i inferred PgType.unknown h = refl
  other_read i inferred PgType.oid h = refl
  other_read i inferred PgType.regproc h = refl
  other_read i inferred PgType.regprocedure h = refl
  other_read i inferred PgType.regoper h = refl
  other_read i inferred PgType.regoperator h = refl
  other_read i inferred PgType.regclass h = refl
  other_read i inferred PgType.regtype h = refl
  other_read i inferred PgType.regnamespace h = refl
  other_read i inferred PgType.regrole h = refl
  other_read i inferred PgType.regconfig h = refl
  other_read i inferred PgType.regdictionary h = refl
  other_read i inferred PgType.regcollation h = refl
  other_read i inferred PgType.bytea_array h = refl
  other_read i inferred PgType.timestamp_array h = refl
  other_read i inferred PgType.timestamptz_array h = refl
  other_read i inferred PgType.date_array h = refl
  other_read i inferred PgType.time_array h = refl
  other_read i inferred (PgType.composite name parts) h = refl
  other_read i inferred (PgType.record_array element) h = refl
  other_read i inferred (PgType.other name) h = refl
  other_read i inferred asked h = cc

  keeps_text_param :
      (read : PgWireResult (Option String)) → IsKept read → IsKept (other_param lib read)
  unfolding other_param
  keeps_text_param read h = keeps_text read _ h

  one_more :
      (left : ℕ) (values : List (ScalarValue F32 F64 B))
      (value : PgWireResult (Option (ScalarValue F32 F64 B)))
      (rest : PgWireResult (List (ScalarValue F32 F64 B)))
      → IsKept value
      → ((vs : List (ScalarValue F32 F64 B)) → rest ≡ ok vs → length vs ≡ left)
      → (value >>= λ v. rest >>= λ vs. ok (push lib portal v vs)) ≡ ok values
      → length values ≡ suc left
  unfolding IsKept
  one_more left values (ok (some v)) (ok vs) kept h e = ground (arith, h vs refl)
  one_more left values (ok none) rest kept h e = absurd kept
  one_more left values (err x) rest kept h e = cc
  one_more left values (ok (some v)) (err x) kept h e = cc

  as_it_is :
      (rest : PgWireResult (List (ScalarValue F32 F64 B)))
      → (rest >>= λ vs. ok (push lib portal none vs)) ≡ rest
  as_it_is (ok vs) = refl
  as_it_is (err e) = refl

  module _ (inferenced_types : List (Option DataType)) where
    resolved :
        (i : ℕ) (result : PgWireResult PgType)
        → ((asked : PgType)
            → result ≡ ok asked
            → is_named asked ≡ false
            → IsKept (portal.string_at i asked))
        → IsKept (result >>= read_parameter lib portal i (entry inferenced_types i))
    unfolding IsKept
    resolved i (err e) h = tt
    resolved i (ok asked) h = elim (Bool-cases (is_named asked)) [
      | inl named ↦ keeps_named i (entry inferenced_types i) asked named
      | inr other ↦
          rw (other_read i (entry inferenced_types i) asked other)
            (keeps_text_param (portal.string_at i asked) (h asked refl other))
    ]

    length-parameters_from :
        (i left : ℕ) (values : List (ScalarValue F32 F64 B))
        → i + left ≤ portal.parameter_len
        → ((j : ℕ) → j < portal.parameter_len → IsKept (parameter_at lib portal inferenced_types j))
        → parameters_from lib portal inferenced_types i left ≡ ok values
        → length values ≡ left
    unfolding parameters_from
    length-parameters_from i zero values end h e = ground arith
    length-parameters_from i (suc left) values end h e =
        one_more left values (parameter_at lib portal inferenced_types i)
          (parameters_from lib portal inferenced_types (suc i) left) (h i (omega (arith, end)))
          (λ vs. length-parameters_from (suc i) left vs (omega (arith, end)) h) e

    -- If no parameter of the portal whose own type, the one of the client or else the inferred one, has
    -- no arm of its own is NULL, a list of values that `deserialize_parameters` gives has one value
    -- for each parameter. Parameters of the other types may be NULL.
    pub length-deserialize_parameters :
        (values : List (ScalarValue F32 F64 B))
        → ((i : ℕ) (asked : PgType)
            → i < portal.parameter_len
            → get_pg_type lib (entry portal.parameter_types i) (entry inferenced_types i) ≡ ok asked
            → is_named asked ≡ false
            → IsKept (portal.string_at i asked))
        → deserialize_parameters lib portal inferenced_types ≡ ok values
        → length values ≡ portal.parameter_len
    unfolding deserialize_parameters parameter_at
    length-deserialize_parameters values h e =
        length-parameters_from 0 portal.parameter_len values (omega arith)
          (λ i within.
            resolved i (get_pg_type lib (entry portal.parameter_types i) (entry inferenced_types i))
              (λ asked. h i asked within))
          e

    -- A NULL whose type has no arm of its own is left out: what is read from it on is what is read
    -- from the parameter after it on, so the later values move up by one place.
    pub null_is_left_out :
        (i left : ℕ) (asked : PgType)
        → get_pg_type lib (entry portal.parameter_types i) (entry inferenced_types i) ≡ ok asked
        → is_named asked ≡ false
        → portal.string_at i asked ≡ ok none
        → parameters_from lib portal inferenced_types i (suc left)
          ≡ parameters_from lib portal inferenced_types (suc i) left
    unfolding parameters_from parameter_at other_param
    null_is_left_out i left asked type other null =
        let dropped : parameter_at lib portal inferenced_types i ≡ ok none =
          rw type (other_read i (entry inferenced_types i) asked other ∙ rw null refl) in
        rw dropped (as_it_is (parameters_from lib portal inferenced_types (suc i) left))
