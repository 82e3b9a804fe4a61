-- ===== src/Auth/Check.antt =====
-- auth.rs: `permission_matches`, `resource_matches`, `check_role_permission`, `check_permission`.
-- The search follows `inherited_roles` with nothing that stops it, so it takes fuel: `none` is a
-- search that has not ended.
use Prim.Native.String
use text.Mathlib.Text.{starts_with}
use datafusion_postgres.Prelude.{
  ℕ, zero, suc, String, Bool, false, true, ◌&&◌, ◌||◌, Option, none, some, List, [], ◌∷◌,
  if◌then◌else◌,
}
use datafusion_postgres.Prelude.Lists.{any}
use datafusion_postgres.Context.{Permission, ResourceType, Grant, Role, permission_eq, resource_eq}
use datafusion_postgres.Auth.{AuthManager, get_user, get_role}

is_all : Permission → Bool
is_all Permission.all = true
is_all _ = false

unfoldable pub permission_matches : Permission → Permission → Bool
unfolding is_all
permission_matches grant_permission requested =
    permission_eq grant_permission requested || is_all grant_permission

-- The arms below the exact match.
covers : ResourceType → ResourceType → Bool
covers ResourceType.all _ = true
covers (ResourceType.schema schema) (ResourceType.table table) =
    starts_with table (String.◌++◌ schema ".")
covers _ _ = false

unfoldable pub resource_matches : ResourceType → ResourceType → Bool
unfolding covers
resource_matches grant_resource requested =
    if resource_eq grant_resource requested then true else covers grant_resource requested

unfoldable pub grant_matches : Permission → ResourceType → Grant → Bool
grant_matches permission resource grant =
    permission_matches grant.permission permission && resource_matches grant.resource resource

-- The loop over `inherited_roles`, which returns at the first `true`.
unfoldable pub first_true : (String → Option Bool) → List String → Option Bool
first_true check [] = some false
first_true check (name ∷ names) = elim (check name) [
  | none ↦ none
  | some true ↦ some true
  | some false ↦ first_true check names
]

-- One role: superuser, then its own grants, then what it inherits.
abbrev pub check_role : (String → Option Bool) → Permission → ResourceType → Role → Option Bool
check_role check permission resource role =
    if role.is_superuser
    then some true
    else if any (grant_matches permission resource) role.grants
    then some true
    else first_true check role.inherited_roles

-- A role by its name; a name that no role has grants nothing.
abbrev pub check_named :
    (String → Option Bool) → AuthManager → Permission → ResourceType → String → Option Bool
check_named check m permission resource role_name = elim (get_role m role_name) [
  | none ↦ some false
  | some role ↦ check_role check permission resource role
]

unfoldable pub check_role_permission :
    ℕ → AuthManager → Permission → ResourceType → String → Option Bool
check_role_permission zero m permission resource role_name = none
check_role_permission (suc fuel) m permission resource role_name =
    check_named (check_role_permission fuel m permission resource) m permission resource role_name

-- `check_permission` has the body of `check_role_permission` written out for each of the user's
-- roles, and calls that for what they inherit.
unfoldable pub check_permission : ℕ → AuthManager → String → Permission → ResourceType → Option Bool
unfolding get_user
check_permission fuel m username permission resource = elim (get_user m username) [
  | none ↦ some false
  | some user ↦
      if user.is_superuser
      then some true
      else first_true
          (check_named (check_role_permission fuel m permission resource) m permission resource)
          user.roles
]
