-- ===== src/FormatType/Tests.antt =====
-- Names of types, from oids and modifiers as PostgreSQL stores them.
use datafusion_postgres.Prelude.{none, some, [], ◌∷◌, ◌≡◌, refl, arith}
use datafusion_postgres.Prelude.Int.{pos, as_i32}
use datafusion_postgres.Prelude.Number
use datafusion_postgres.Wire.{ok}
use datafusion_postgres.FormatType.{
  Column, numeric_name, core_name, find, format_postgres_type, format_type_impl,
}
use datafusion_postgres.FormatType.Modifier.{numeric_typmod, numeric_modifier}

-- numeric(10,2), an array of integers, a NULL, and 23 of another width.
formatted :
    format_type_impl
      (Column.int32 (some (pos 1700) ∷ some (pos 1007) ∷ none ∷ []))
      (Column.int64 (some (pos 655366) ∷ none ∷ some (pos 4) ∷ []))
    ≡ ok (some "numeric(10,2)" ∷ some "integer[]" ∷ none ∷ [])
unfolding format_type_impl as_i32 find core_name numeric_name Number.print
formatted = refl

numeric_modifier_example :
    format_postgres_type 2 (pos 1700) (numeric_typmod 10 2) ≡ some "numeric(10,2)"
unfolding Number.print
numeric_modifier_example = numeric_modifier 1 10 2 (omega arith) (omega arith)
