-- ===== src/Hooks/Permissions.antt =====
-- datafusion-postgres/src/hooks/permissions.rs: `PermissionsHook`. The answer of
-- `AuthManager::check_permission` is a parameter here, and `Permissions/Refusal` puts it in.
pub mod Refusal
use Prim.Native.String
use datafusion_postgres.Prelude.{String, Bool, true, false, Option, none, some, if◌then◌else◌}
use datafusion_postgres.Prelude.Dict
use datafusion_postgres.Context.{Permission, ResourceType}
use datafusion_postgres.Wire.{PgWireResult, PgWireError, ok, err, report, Response}
use datafusion_postgres.Client.{Client}
use datafusion_postgres.Statement.{
  Statement, query, insert, update, delete, create_table, create_view, drop, alter_table, set,
  show_variable, show_status, show_catalogs, start_transaction, commit, rollback, savepoint,
  release_savepoint,
}

unfoldable pub required : Statement → Option (Permission × ResourceType)
required (query _) = some (Permission.select, ResourceType.all)
required (insert _) = some (Permission.insert, ResourceType.all)
required (update _) = some (Permission.update, ResourceType.all)
required (delete _) = some (Permission.delete, ResourceType.all)
required (create_table _) = some (Permission.create, ResourceType.all)
required (create_view _) = some (Permission.create, ResourceType.all)
required (drop _) = some (Permission.drop, ResourceType.all)
required (alter_table _) = some (Permission.alter, ResourceType.all)
required _ = none

or_anonymous : Option String → String
or_anonymous none = "anonymous"
or_anonymous (some name) = name

unfoldable pub username : Client → String
unfolding or_anonymous
username client = or_anonymous (Dict.get "user" client.metadata)

abbrev pub denied : String → PgWireError
denied name =
    report "ERROR" "42501" (String.◌++◌ "permission denied for user \"" (String.◌++◌ name "\""))

unfoldable pub should_skip_permission_check : Statement → Bool
should_skip_permission_check (set _) = true
should_skip_permission_check (show_variable _) = true
should_skip_permission_check show_status = true
should_skip_permission_check show_catalogs = true
should_skip_permission_check start_transaction = true
should_skip_permission_check commit = true
should_skip_permission_check rollback = true
should_skip_permission_check savepoint = true
should_skip_permission_check release_savepoint = true
should_skip_permission_check _ = false

module _ (check_permission : String → Permission → ResourceType → Bool) where
  abbrev pub check_required : Client → Option (Permission × ResourceType) → PgWireResult (Unit {0})
  check_required client none = ok tt
  check_required client (some (permission, resource)) =
      if check_permission (username client) permission resource
      then ok tt
      else err (denied (username client))

  unfoldable pub check_statement_permission : Client → Statement → PgWireResult (Unit {0})
  check_statement_permission client statement = check_required client (required statement)

  abbrev pub refuse {ℓ} : {A : Type ℓ} → PgWireResult (Unit {0}) → Option (PgWireResult A)
  refuse (ok _) = none
  refuse (err e) = some (err e)

  -- `handle_simple_query`; `handle_extended_query` has the same body
  unfoldable pub handle_simple_query :
      {R : Type 0} → Client → Statement → Option (PgWireResult (Response R))
  unfolding check_statement_permission
  handle_simple_query client statement =
      if should_skip_permission_check statement
      then none
      else refuse (check_statement_permission client statement)
