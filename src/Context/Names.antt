-- ===== src/Context/Names.antt =====
-- datafusion-pg-catalog/src/pg_catalog/context.rs: `Permission::from_string`. The change to upper case is
-- a parameter.
use datafusion_postgres.Prelude.{String, Option, none, some, ◌≡◌, refl, str_eq, if◌then◌else◌}
use datafusion_postgres.Context.{Permission}

module _ (to_uppercase : String → String) where
  abbrev of_upper : String → Option Permission
  of_upper s =
      if str_eq s "SELECT"
      then some Permission.select
      else if str_eq s "INSERT"
      then some Permission.insert
      else if str_eq s "UPDATE"
      then some Permission.update
      else if str_eq s "DELETE"
      then some Permission.delete
      else if str_eq s "CREATE"
      then some Permission.create
      else if str_eq s "DROP"
      then some Permission.drop
      else if str_eq s "ALTER"
      then some Permission.alter
      else if str_eq s "INDEX"
      then some Permission.index
      else if str_eq s "REFERENCES"
      then some Permission.references
      else if str_eq s "TRIGGER"
      then some Permission.trigger
      else if str_eq s "EXECUTE"
      then some Permission.execute
      else if str_eq s "USAGE"
      then some Permission.usage
      else if str_eq s "CONNECT"
      then some Permission.connect
      else if str_eq s "TEMPORARY"
      then some Permission.temporary
      else if str_eq s "ALL"
      then some Permission.all
      else none

  unfoldable pub from_string : String → Option Permission
  from_string s = of_upper (to_uppercase s)

  abbrev name_of : Permission → String
  name_of Permission.select = "SELECT"
  name_of Permission.insert = "INSERT"
  name_of Permission.update = "UPDATE"
  name_of Permission.delete = "DELETE"
  name_of Permission.create = "CREATE"
  name_of Permission.drop = "DROP"
  name_of Permission.alter = "ALTER"
  name_of Permission.index = "INDEX"
  name_of Permission.references = "REFERENCES"
  name_of Permission.trigger = "TRIGGER"
  name_of Permission.execute = "EXECUTE"
  name_of Permission.usage = "USAGE"
  name_of Permission.connect = "CONNECT"
  name_of Permission.temporary = "TEMPORARY"
  name_of Permission.all = "ALL"

  -- Whatever is written like the name of a permission, but for its case, is read as it.
  from_string-name_of :
      (p : Permission) (s : String) → to_uppercase s ≡ name_of p → from_string s ≡ some p
  unfolding from_string
  from_string-name_of Permission.select s e = rw e refl
  from_string-name_of Permission.insert s e = rw e refl
  from_string-name_of Permission.update s e = rw e refl
  from_string-name_of Permission.delete s e = rw e refl
  from_string-name_of Permission.create s e = rw e refl
  from_string-name_of Permission.drop s e = rw e refl
  from_string-name_of Permission.alter s e = rw e refl
  from_string-name_of Permission.index s e = rw e refl
  from_string-name_of Permission.references s e = rw e refl
  from_string-name_of Permission.trigger s e = rw e refl
  from_string-name_of Permission.execute s e = rw e refl
  from_string-name_of Permission.usage s e = rw e refl
  from_string-name_of Permission.connect s e = rw e refl
  from_string-name_of Permission.temporary s e = rw e refl
  from_string-name_of Permission.all s e = rw e refl
