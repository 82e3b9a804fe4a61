-- ===== src/Auth/Predefined.antt =====
-- auth.rs: `create_predefined_roles`, and what the three roles may do afterwards.
use datafusion_postgres.Prelude.{
  ℕ, suc, String, Bool, false, true, ◌||◌, some, [], ◌∷◌, ◌≡◌, ◌∙◌, ap, refl, arith,
}
use datafusion_postgres.Prelude.Lists.{any}
use datafusion_postgres.Prelude.Dict.{get-insert, get-update}
use datafusion_postgres.Context.{
  Grant, Permission, ResourceType, Role, RoleConfig, permission_eq, resource_eq,
}
use datafusion_postgres.Wire.{PgWireResult, ok, err}
use datafusion_postgres.Auth.{AuthManager, Method, create_role, role_of, get_role, grant_permission}
use datafusion_postgres.Auth.Check.{
  check_role_permission, check_named, grant_matches, first_true, permission_matches,
  resource_matches,
}

abbrev go_on :
    AuthManager × PgWireResult (Unit {0})
    → Method (Unit {0})
    → AuthManager × PgWireResult (Unit {0})
go_on (m, ok _) next = next m
go_on (m, err e) next = (m, err e)

-- `first.await?; next`
infixr 5 ◌>>◌
abbrev ◌>>◌ : Method (Unit {0}) → Method (Unit {0}) → Method (Unit {0})
◌>>◌ first next m = go_on (first m) next

abbrev config : String → Bool → Bool → RoleConfig
config name can_login can_create_db = record {
  name = name;
  is_superuser = false;
  can_login = can_login;
  can_create_db = can_create_db;
  can_create_role = false;
  can_create_user = false;
  can_replication = false;
}

abbrev grant_all_tables : String → Permission → Bool → Method (Unit {0})
grant_all_tables role_name permission w =
    grant_permission role_name permission ResourceType.all "system" w

unfoldable pub create_predefined_roles : Method (Unit {0})
unfolding create_role grant_permission
create_predefined_roles =
    create_role (config "readonly" false false)
    >> grant_all_tables "readonly" Permission.select false
    >> create_role (config "readwrite" false false)
    >> grant_all_tables "readwrite" Permission.select false
    >> grant_all_tables "readwrite" Permission.insert false
    >> grant_all_tables "readwrite" Permission.update false
    >> grant_all_tables "readwrite" Permission.delete false
    >> create_role (config "dbadmin" true true)
    >> grant_all_tables "dbadmin" Permission.all true

-- SELECT, and the statements that change rows.
abbrev pub reads : Permission → Bool
reads Permission.select = true
reads _ = false

abbrev pub reads_or_writes : Permission → Bool
reads_or_writes Permission.select = true
reads_or_writes Permission.insert = true
reads_or_writes Permission.update = true
reads_or_writes Permission.delete = true
reads_or_writes _ = false

abbrev all_of : Permission → Bool → Grant
all_of permission w = record {
  permission = permission;
  resource = ResourceType.all;
  granted_by = "system";
  with_grant_option = w;
}

-- What each predefined role is afterwards, whatever role had its name before.
module _ (m : AuthManager) where
  readonly_role :
      get_role (create_predefined_roles m).0 "readonly"
      ≡ some (record (role_of (config "readonly" false false)) {
        grants = all_of Permission.select false ∷ [];
      })
  unfolding create_predefined_roles get_role
  readonly_role = simp (get-insert, get-update)

  readwrite_role :
      get_role (create_predefined_roles m).0 "readwrite"
      ≡ some (record (role_of (config "readwrite" false false)) {
        grants =
            all_of Permission.select false
            ∷ all_of Permission.insert false
            ∷ all_of Permission.update false
            ∷ all_of Permission.delete false
            ∷ [];
      })
  unfolding create_predefined_roles get_role
  readwrite_role = simp (get-insert, get-update)

  dbadmin_role :
      get_role (create_predefined_roles m).0 "dbadmin"
      ≡ some (record (role_of (config "dbadmin" true true)) {
        grants = all_of Permission.all true ∷ [];
      })
  unfolding create_predefined_roles get_role
  dbadmin_role = simp (get-insert, get-update)

  all_created : (create_predefined_roles m).1 ≡ ok tt
  unfolding create_predefined_roles
  all_created = simp (get-insert, get-update)

-- What a search from a role finds in one step, when the role inherits nothing.
check_of_role :
    (m : AuthManager) (n : String) (role : Role) (p : Permission) (r : ResourceType) (fuel : ℕ)
    → get_role m n ≡ some role
    → role.is_superuser ≡ false
    → role.inherited_roles ≡ []
    → check_role_permission (suc fuel) m p r n ≡ some (any (grant_matches p r) role.grants)
unfolding check_role_permission first_true
check_of_role m n role p r fuel found plain alone =
    rw (found, check_named) (rw plain (rw alone (ground arith)))

all_of_matches :
    (p q : Permission) (w : Bool) (r : ResourceType)
    → grant_matches q r (all_of p w) ≡ permission_matches p q
unfolding grant_matches resource_matches resource_eq
all_of_matches p q w ResourceType.all = ground arith
all_of_matches p q w _ = ground arith

select_matches : (p : Permission) → permission_matches Permission.select p ≡ reads p
unfolding permission_matches permission_eq
select_matches Permission.select = refl
select_matches _ = refl

any_of_four :
    (p : Permission)
    → (permission_matches Permission.select p
        || (permission_matches Permission.insert p
            || (permission_matches Permission.update p
                || (permission_matches Permission.delete p || false))))
      ≡ reads_or_writes p
unfolding permission_matches permission_eq
any_of_four Permission.select = refl
any_of_four _ = refl

-- `create_predefined_roles` succeeds from any state. On every resource `readonly` then has SELECT
-- and nothing else, `readwrite` SELECT, INSERT, UPDATE and DELETE and nothing else, and `dbadmin`
-- every permission; whatever roles had these names before have no effect.
pub create_predefined_roles_lem :
    (m : AuthManager) (p : Permission) (r : ResourceType) (fuel : ℕ)
    → ((create_predefined_roles m).1 ≡ ok tt)
      × (check_role_permission (suc fuel) (create_predefined_roles m).0 p r "readonly"
          ≡ some (reads p))
      × (check_role_permission (suc fuel) (create_predefined_roles m).0 p r "readwrite"
          ≡ some (reads_or_writes p))
      × (check_role_permission (suc fuel) (create_predefined_roles m).0 p r "dbadmin" ≡ some true)
unfolding any
create_predefined_roles_lem m p r fuel =
    let m' = (create_predefined_roles m).0 in
    (
      all_created m,
      check_of_role m' "readonly" _ p r fuel (readonly_role m) refl refl
          ∙ ap some (simp all_of_matches (ground (arith, select_matches p))),
      check_of_role m' "readwrite" _ p r fuel (readwrite_role m) refl refl
          ∙ ap some (simp all_of_matches (any_of_four p)),
      check_of_role m' "dbadmin" _ p r fuel (dbadmin_role m) refl refl
          ∙ ap some (simp all_of_matches (unfold permission_matches in ground arith)),
    )
