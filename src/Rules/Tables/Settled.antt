-- ===== src/Rules/Tables/Settled.antt =====
-- The rules for the names of tables and functions, run twice and in either order.
use datafusion_postgres.Prelude.{none, some, [], ◌∷◌, ◌≡◌, refl, ap, inl, inr, Bool-cases}
use datafusion_postgres.Ast.{
  ObjectNamePart, ident, ObjectName, TableFactor, table, other_factor, Expr,
}
use datafusion_postgres.Ast.Expr.{function}
use datafusion_postgres.Rules.Tables.{
  is_pg_catalog_table, qualify_pg_table, prepend_pg_catalog, strip_name, strip_table_function,
  strip_function,
}

module _ {X : Type 0} where
  qualify_again :
      (name : ObjectName X) → qualify_pg_table (qualify_pg_table name) ≡ qualify_pg_table name
  unfolding qualify_pg_table
  qualify_again (ident i ∷ []) = elim (Bool-cases (is_pg_catalog_table i.text)) [
    | inl known ↦ rw known refl
    | inr unknown ↦ rw unknown (rw unknown refl)
  ]
  qualify_again _ = refl

  prepend_again :
      (factor : TableFactor X)
      → prepend_pg_catalog (prepend_pg_catalog factor) ≡ prepend_pg_catalog factor
  unfolding prepend_pg_catalog
  prepend_again (table name alias none rest) =
      ap (λ n. table n alias none rest) (qualify_again name)
  prepend_again _ = refl

  -- One part is left, the last.
  strip_name_single :
      (part : ObjectNamePart X) (parts : ObjectName X)
      → (last : ObjectNamePart X) × (strip_name (part ∷ parts) ≡ last ∷ [])
  unfolding strip_name
  strip_name_single part [] = (part, refl)
  strip_name_single part (next ∷ parts) = strip_name_single next parts

  strip_name_again : (name : ObjectName X) → strip_name (strip_name name) ≡ strip_name name
  unfolding strip_name
  strip_name_again [] = refl
  strip_name_again (part ∷ parts) = rw (strip_name_single part parts).1 refl

  strip_again :
      (factor : TableFactor X)
      → strip_table_function (strip_table_function factor) ≡ strip_table_function factor
  unfolding strip_table_function
  strip_again (table name alias (some args) rest) =
      ap (λ n. table n alias (some args) rest) (strip_name_again name)
  strip_again _ = refl

  strip_function_again :
      (expr : Expr X) → strip_function (strip_function expr) ≡ strip_function expr
  unfolding strip_function
  strip_function_again (function name args rest) =
      ap (λ n. function n args rest) (strip_name_again name)
  strip_function_again _ = refl

  commute :
      (factor : TableFactor X)
      → strip_table_function (prepend_pg_catalog factor)
        ≡ prepend_pg_catalog (strip_table_function factor)
  unfolding strip_table_function prepend_pg_catalog
  commute (table name alias none rest) = refl
  commute (table name alias (some args) rest) = refl
  commute (other_factor x) = refl

  -- The two rules for the names of tables can run in either order. Neither finds anything to do after
  -- it has run, nor does the rule for the names of functions.
  pub names_settled :
      (factor : TableFactor X) (expr : Expr X)
      → (strip_table_function (prepend_pg_catalog factor)
          ≡ prepend_pg_catalog (strip_table_function factor))
        × (prepend_pg_catalog (prepend_pg_catalog factor) ≡ prepend_pg_catalog factor)
        × (strip_table_function (strip_table_function factor) ≡ strip_table_function factor)
        × (strip_function (strip_function expr) ≡ strip_function expr)
  names_settled factor expr =
      (commute factor, prepend_again factor, strip_again factor, strip_function_again expr)
