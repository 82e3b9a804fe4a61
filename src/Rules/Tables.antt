-- ===== src/Rules/Tables.antt =====
-- datafusion-pg-catalog/src/sql/rules.rs: `PrependUnqualifiedPgTableName` and
-- `StripCallableQualifier`; datafusion-pg-catalog/src/pg_catalog.rs: the names of the relations.
pub mod Settled
use Prim.Native.Char.{Char, code}
use Prim.Native.String
use datafusion_postgres.Prelude.{
  ℕ, ◌+◌, String, Bool, true, false, ◌&&◌, Option, none, some, List, [], ◌∷◌, leb, ◌==◌,
  if◌then◌else◌,
}
use datafusion_postgres.Prelude.Lists.{any}
use datafusion_postgres.Ast.{ident_new, ObjectNamePart, ObjectName, ident, TableFactor, table, Expr}
use datafusion_postgres.Ast.Expr.{function}

-- `PG_CATALOG_TABLES`
abbrev pub pg_catalog_tables : List String
pg_catalog_tables =
    "pg_aggregate" ∷ "pg_am" ∷ "pg_amop" ∷ "pg_amproc" ∷ "pg_cast" ∷ "pg_collation"
    ∷ "pg_conversion" ∷ "pg_language" ∷ "pg_opclass" ∷ "pg_operator" ∷ "pg_opfamily" ∷ "pg_proc"
    ∷ "pg_range" ∷ "pg_ts_config" ∷ "pg_ts_dict" ∷ "pg_ts_parser" ∷ "pg_ts_template" ∷ "pg_type"
    ∷ "pg_attribute" ∷ "pg_attrdef" ∷ "pg_auth_members" ∷ "pg_authid" ∷ "pg_class" ∷ "pg_constraint"
    ∷ "pg_database" ∷ "pg_db_role_setting" ∷ "pg_default_acl" ∷ "pg_depend" ∷ "pg_description"
    ∷ "pg_enum" ∷ "pg_event_trigger" ∷ "pg_extension" ∷ "pg_foreign_data_wrapper"
    ∷ "pg_foreign_server" ∷ "pg_foreign_table" ∷ "pg_index" ∷ "pg_inherits" ∷ "pg_init_privs"
    ∷ "pg_largeobject" ∷ "pg_largeobject_metadata" ∷ "pg_namespace" ∷ "pg_partitioned_table"
    ∷ "pg_policy" ∷ "pg_publication" ∷ "pg_publication_namespace" ∷ "pg_publication_rel"
    ∷ "pg_replication_origin" ∷ "pg_rewrite" ∷ "pg_seclabel" ∷ "pg_sequence" ∷ "pg_shdepend"
    ∷ "pg_shdescription" ∷ "pg_shseclabel" ∷ "pg_statistic" ∷ "pg_statistic_ext"
    ∷ "pg_statistic_ext_data" ∷ "pg_subscription" ∷ "pg_subscription_rel" ∷ "pg_tablespace"
    ∷ "pg_trigger" ∷ "pg_user_mapping" ∷ "pg_roles" ∷ "pg_settings" ∷ "pg_stat_gssapi" ∷ "pg_tables"
    ∷ "pg_views" ∷ "pg_matviews" ∷ "pg_stat_user_tables" ∷ "pg_replication_slots" ∷ []

-- `eq_ignore_ascii_case`
abbrev pub ascii_lower : ℕ → ℕ
ascii_lower n = if leb 65 n && leb n 90 then n + 32 else n

unfoldable pub eq_ignore_ascii_case : String → String → Bool
eq_ignore_ascii_case String.[] String.[] = true
eq_ignore_ascii_case (String.◌∷◌ c s) (String.◌∷◌ d t) =
    ascii_lower (code c) == ascii_lower (code d) && eq_ignore_ascii_case s t
eq_ignore_ascii_case _ _ = false

unfoldable pub is_pg_catalog_table : String → Bool
unfolding eq_ignore_ascii_case any
is_pg_catalog_table name = any (λ table. eq_ignore_ascii_case table name) pg_catalog_tables

module _ {X : Type 0} where
  -- The guards and the new name of `PrependUnqualifiedPgTableNameVisitor`
  unfoldable pub qualify_pg_table : ObjectName X → ObjectName X
  qualify_pg_table (ident i ∷ []) =
      if is_pg_catalog_table i.text
      then ident (ident_new "pg_catalog") ∷ ident i ∷ []
      else ident i ∷ []
  qualify_pg_table name = name

  -- `PrependUnqualifiedPgTableNameVisitor::pre_visit_table_factor`
  unfoldable pub prepend_pg_catalog : TableFactor X → TableFactor X
  prepend_pg_catalog (table name alias none rest) = table (qualify_pg_table name) alias none rest
  prepend_pg_catalog factor = factor

  -- A name of several parts becomes its last one.
  unfoldable pub strip_name : ObjectName X → ObjectName X
  strip_name [] = []
  strip_name (part ∷ []) = part ∷ []
  strip_name (part ∷ next ∷ parts) = strip_name (next ∷ parts)

  -- `StripCallableQualifierVisitor::pre_visit_table_factor` and `pre_visit_expr`
  unfoldable pub strip_table_function : TableFactor X → TableFactor X
  unfolding strip_name
  strip_table_function (table name alias (some args) rest) =
      table (strip_name name) alias (some args) rest
  strip_table_function factor = factor

  unfoldable pub strip_function : Expr X → Expr X
  unfolding strip_name
  strip_function (function name args rest) = function (strip_name name) args rest
  strip_function expr = expr
