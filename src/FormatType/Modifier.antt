-- ===== src/FormatType/Modifier.antt =====
-- What the modifier of a type says, and that the names of arrays end.
use datafusion_postgres.Prelude.{
  ℕ, suc, String, ◌+◌, ◌*◌, ◌-◌, ◌/◌, ◌%◌, ◌<◌, ◌≡◌, Option, none, some, List, [], ◌∷◌, inl, inr,
  Bool-cases, Option-cases, refl, arith, ◌==◌, if◌then◌else◌,
}
use datafusion_postgres.Prelude.Int.{ℤ, pos, negsuc}
use datafusion_postgres.Prelude.Number
use datafusion_postgres.Prelude.Lists.{All}
use datafusion_postgres.FormatType.{
  ◌<>◌, numeric_name, core_name, array_types, find, unknown_oid, get_array_base_type, array_name,
  format_postgres_type,
}

-- The modifier that PostgreSQL gives to a numeric of this precision and scale.
abbrev pub numeric_typmod : ℕ → ℕ → ℤ
numeric_typmod precision scale = pos (precision * 65536 + scale + 4)

precision_read : (p s : ℕ) → p < 65536 → s < 65536 → (p * 65536 + s + 4 - 4) / 65536 % 65536 ≡ p
precision_read p s small scale = omega arith

scale_read : (p s : ℕ) → s < 65536 → (p * 65536 + s + 4 - 4) % 65536 ≡ s
scale_read p s scale = omega arith

-- The oid of numeric, and a modifier that packs a precision of at least 1 and a scale as PostgreSQL
-- does, are printed with that precision and scale, and the scale is left out where it is zero.
pub numeric_modifier :
    (fuel p s : ℕ)
    → p < 32768
    → s < 65536
    → format_postgres_type (suc fuel) (pos 1700) (numeric_typmod p s)
      ≡ some (
          if s == 0
          then "numeric(" <> Number.print p <> ")"
          else "numeric(" <> Number.print p <> "," <> Number.print s <> ")")
unfolding format_postgres_type core_name numeric_name
numeric_modifier fuel p s precision scale =
    rw (precision_read p s (omega arith) scale) (rw (scale_read p s scale) (ground arith))

-- The element types of the arrays are no arrays.
abbrev IsCore : ℕ → Type 0
IsCore base = (name : String) × (core_name base (negsuc 0) ≡ some name)

array_types-IsCore : All (λ entry. IsCore entry.1) array_types
unfolding core_name
array_types-IsCore = (
  ("boolean", refl),
  (
    ("bytea", refl),
    (
      ("smallint", refl),
      (
        ("integer", refl),
        (
          ("bigint", refl),
          (
            ("text", refl),
            (
              ("character", refl),
              (
                ("character varying", refl),
                (
                  ("real", refl),
                  (
                    ("double precision", refl),
                    (
                      ("numeric", refl),
                      (
                        ("date", refl),
                        (
                          ("time without time zone", refl),
                          (
                            ("timestamp without time zone", refl),
                            (
                              ("timestamp with time zone", refl),
                              (("json", refl), (("jsonb", refl), (("uuid", refl), tt))),
                            ),
                          ),
                        ),
                      ),
                    ),
                  ),
                ),
              ),
            ),
          ),
        ),
      ),
    ),
  ),
)

find-IsCore :
    (oid base : ℕ) (types : List (ℕ × ℕ))
    → All (λ entry. IsCore entry.1) types
    → find oid types ≡ some base
    → IsCore base
unfolding find
find-IsCore oid base [] all e = cc
find-IsCore oid base ((array, element) ∷ rest) (first, all) e = elim (Bool-cases (oid == array)) [
  | inl here ↦
      let found : some element ≡ some base = rw here at e in
      let same : element ≡ base = cc found in rw (← same) first
  | inr later ↦ find-IsCore oid base rest all (rw later at e)
]

element_named :
    (oid : ℕ) (base : Option ℕ)
    → ((b : ℕ) → base ≡ some b → IsCore b)
    → (name : String) × (array_name oid base (λ b. format_postgres_type 1 (pos b) (negsuc 0))
        ≡ some name)
unfolding format_postgres_type
element_named oid none h = (unknown_oid (pos oid), refl)
element_named oid (some b) h = let (name, e) = h b refl in (name <> "[]", rw e refl)

-- The calls of `format_postgres_type` end for every oid and modifier: at most one more call is made,
-- on the element type of an array.
pub format_postgres_type_ends :
    (oid typemod : ℤ) → (name : String) × (format_postgres_type 2 oid typemod ≡ some name)
unfolding format_postgres_type get_array_base_type
format_postgres_type_ends (negsuc n) typemod = (unknown_oid (negsuc n), refl)
format_postgres_type_ends (pos oid) typemod = elim (Option-cases (core_name oid typemod)) [
  | inl missing ↦ rw missing (
      element_named oid (get_array_base_type oid)
        (λ b e. find-IsCore oid b array_types array_types-IsCore e))
  | inr (name, e) ↦ (name, rw e refl)
]
