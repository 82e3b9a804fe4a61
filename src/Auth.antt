-- ===== src/Auth.antt =====
-- datafusion-postgres/src/auth.rs: `AuthManager`. Its two maps stand behind locks. A method is a
-- function of the state to the new state and its result, in one step; the permission check takes the
-- locks anew for each user and role that it reads, and what happens between is not modelled.
pub mod Check
pub mod Authorized
pub mod Decides
pub mod Ends
pub mod Cycle
pub mod Grants
pub mod Effect
pub mod Login
pub mod Simple
pub mod Predefined
mod Tests
use Prim.Native.String
use datafusion_postgres.Prelude.{
  String, Bool, false, true, ◌&&◌, ◌||◌, not, Option, none, some, List, [], ◌∷◌, ◌++◌, str_eq,
  if◌then◌else◌,
}
use datafusion_postgres.Prelude.Lists.{any, retain}
use datafusion_postgres.Prelude.Dict
use datafusion_postgres.Prelude.Dict.{Dict}
use datafusion_postgres.Context.{
  Permission, ResourceType, Grant, Role, RoleConfig, User, permission_eq, resource_eq,
}
use datafusion_postgres.Wire.{PgWireResult, PgWireError, ok, err, report}

pub record AuthManager : Type 0 where
  pub users : Dict User
  pub roles : Dict Role

-- A method that takes a write lock.
abbrev pub Method : Type 0 → Type 0
Method A = AuthManager → AuthManager × PgWireResult A

abbrev postgres_user : User
postgres_user = record {
  username = "postgres";
  password_hash = "";
  roles = "postgres" ∷ [];
  is_superuser = true;
  can_login = true;
  connection_limit = none;
}

abbrev postgres_role : Role
postgres_role = record {
  name = "postgres";
  is_superuser = true;
  can_login = true;
  can_create_db = true;
  can_create_role = true;
  can_create_user = true;
  can_replication = true;
  grants =
      record {
        permission = Permission.all;
        resource = ResourceType.all;
        granted_by = "system";
        with_grant_option = true;
      }
      ∷ [];
  inherited_roles = [];
}

abbrev pub new : AuthManager
new = record { users = ("postgres", postgres_user) ∷ []; roles = ("postgres", postgres_role) ∷ [] }

unfoldable pub add_user : User → Method (Unit {0})
add_user user m = (record m { users = Dict.insert user.username user m.users }, ok tt)

unfoldable pub add_role : Role → Method (Unit {0})
add_role role m = (record m { roles = Dict.insert role.name role m.roles }, ok tt)

unfoldable pub get_user : AuthManager → String → Option User
get_user m username = Dict.get username m.users

unfoldable pub get_role : AuthManager → String → Option Role
get_role m role_name = Dict.get role_name m.roles

abbrev pub contains : List String → String → Bool
contains names name = any (λ n. str_eq n name) names

unfoldable pub user_has_role : AuthManager → String → String → Bool
unfolding get_user
user_has_role m username role_name = elim (get_user m username) [
  | none ↦ false
  | some user ↦ contains user.roles role_name || user.is_superuser
]

unfoldable pub list_users : AuthManager → List String
list_users m = Dict.keys m.users

unfoldable pub list_roles : AuthManager → List String
list_roles m = Dict.keys m.roles

abbrev pub no_such_role : String → PgWireError
no_such_role name =
    report "ERROR" "42704" (String.◌++◌ "role \"" (String.◌++◌ name "\" does not exist"))

-- `if let Some(role) = roles.get_mut(name) { change role; Ok(()) } else { Err(undefined_object) }`
abbrev pub change_found : Option Role → String → (Role → Role) → Method (Unit {0})
change_found none name change m = (m, err (no_such_role name))
change_found (some _) name change m = (record m { roles = Dict.update name change m.roles }, ok tt)

abbrev pub change_role : String → (Role → Role) → Method (Unit {0})
change_role name change m = change_found (Dict.get name m.roles) name change m

abbrev pub with_grant : Grant → Role → Role
with_grant g role = record role { grants = role.grants ++ g ∷ [] }

unfoldable pub grant_permission :
    String → Permission → ResourceType → String → Bool → Method (Unit {0})
grant_permission role_name permission resource granted_by with_grant_option =
    change_role role_name (
      with_grant (record {
        permission = permission;
        resource = resource;
        granted_by = granted_by;
        with_grant_option = with_grant_option;
      }))

abbrev pub survives : Permission → ResourceType → Grant → Bool
survives permission resource grant =
    not (permission_eq grant.permission permission && resource_eq grant.resource resource)

unfoldable pub revoke_permission : String → Permission → ResourceType → Method (Unit {0})
revoke_permission role_name permission resource =
    change_role role_name
      λ role. record role { grants = retain (survives permission resource) role.grants }

-- `if !list.contains(name) { list.push(name) }`
abbrev pub push_new : String → List String → List String
push_new name names = if contains names name then names else names ++ name ∷ []

abbrev pub inherit : String → Role → Role
inherit parent child = record child { inherited_roles = push_new parent child.inherited_roles }

unfoldable pub add_role_inheritance : String → String → Method (Unit {0})
add_role_inheritance child_role parent_role = change_role child_role (inherit parent_role)

unfoldable pub remove_role_inheritance : String → String → Method (Unit {0})
remove_role_inheritance child_role parent_role = change_role child_role λ child. record child {
  inherited_roles = retain (λ role. not (str_eq role parent_role)) child.inherited_roles;
}

abbrev pub role_of : RoleConfig → Role
role_of config = record {
  name = config.name;
  is_superuser = config.is_superuser;
  can_login = config.can_login;
  can_create_db = config.can_create_db;
  can_create_role = config.can_create_role;
  can_create_user = config.can_create_user;
  can_replication = config.can_replication;
  grants = [];
  inherited_roles = [];
}

unfoldable pub create_role : RoleConfig → Method (Unit {0})
unfolding add_role
create_role config = add_role (role_of config)
