-- ===== src/Auth/Tests.antt =====
-- A small office: alice is a clerk, and clerks inherit the readers' grant on a schema.
use mathlib.Core.List.{Memᴰ}
use datafusion_postgres.Prelude.{
  ℕ, suc, ◌<◌, String, Bool, true, false, some, none, [], ◌∷◌, ◌≡◌, ◌≢◌, ◌↔◌, ◌⊎◌, refl, arith, inl,
  inr, Bool-cases, str_eq, eq_iff, if◌then◌else◌,
}
use datafusion_postgres.Prelude.Lists.{any}
use datafusion_postgres.Prelude.Dict
use datafusion_postgres.Context.{
  Permission, ResourceType, Role, Grant, User, permission_eq, resource_eq,
}
use datafusion_postgres.Wire.{ok, err}
use datafusion_postgres.Auth.{
  AuthManager, get_role, get_user, role_of, grant_permission, add_role_inheritance,
}
use datafusion_postgres.Auth.Check.{
  first_true, grant_matches, permission_matches, resource_matches, check_permission,
  check_role_permission,
}
use datafusion_postgres.Auth.Authorized.{
  Authorized, Holds, GrantCovers, superuser, granted, inherited,
}
use datafusion_postgres.Auth.Ends.{IsRanked, check_permission_decides}
use datafusion_postgres.Auth.Cycle.{self_inheritance_never_ends}
use datafusion_postgres.Auth.Effect.{Inherits, grant_permission_exact}
use datafusion_postgres.Auth.Login.{authenticate, authenticate_iff}
use datafusion_postgres.Auth.Simple.{
  login_name, login_failed, simple_get_password, simple_get_password_lem,
}

abbrev plain_role : String → Role
plain_role name = role_of (record {
  name = name;
  is_superuser = false;
  can_login = false;
  can_create_db = false;
  can_create_role = false;
  can_create_user = false;
  can_replication = false;
})

abbrev read_public : Grant
read_public = record {
  permission = Permission.select;
  resource = ResourceType.schema "public";
  granted_by = "postgres";
  with_grant_option = false;
}

abbrev readers : Role
readers = record (plain_role "readers") { grants = read_public ∷ [] }

abbrev clerk : Role
clerk = record (plain_role "clerk") { inherited_roles = "readers" ∷ [] }

abbrev alice : User
alice = record {
  username = "alice";
  password_hash = "secret";
  roles = "clerk" ∷ [];
  is_superuser = false;
  can_login = true;
  connection_limit = none;
}

abbrev office : AuthManager
office = record {
  users = ("alice", alice) ∷ [];
  roles = ("clerk", clerk) ∷ ("readers", readers) ∷ [];
}

abbrev rank : String → ℕ
rank name = if str_eq "clerk" name then 1 else 0

office_roles :
    (n : String) (role : Role)
    → get_role office n ≡ some role
    → (("clerk" ≡ n) × (clerk ≡ role)) ⊎ (readers ≡ role)
unfolding get_role Dict.get
office_roles n role found = elim (Bool-cases (str_eq "clerk" n)) [
  | inl same ↦ inl ((eq_iff "clerk" n).0 same, ground (arith, same, found))
  | inr other ↦ elim (Bool-cases (str_eq "readers" n)) [
    | inl same ↦ inr (ground (arith, other, same, found))
    | inr neither ↦ absurd (ground (arith, other, neither, found))
  ]
]

rank_of_parent : (parent : String) → Memᴰ parent clerk.inherited_roles → rank parent < 1
rank_of_parent parent (Memᴰ.head same) = rw same (omega arith)
rank_of_parent parent (Memᴰ.tail listed) = elim listed [ ]

office-descends :
    (n parent : String) (role : Role)
    → get_role office n ≡ some role
    → Memᴰ parent role.inherited_roles
    → rank parent < rank n
office-descends n parent role found listed = elim (office_roles n role found) [
  | inl (same, is_clerk) ↦ rw (← same) (rank_of_parent parent (rw (← is_clerk) at listed))
  | inr is_readers ↦ absurd (no_parent (rw (← is_readers) at listed))
]
  where
    no_parent : ¬ Memᴰ parent readers.inherited_roles
    no_parent listed = elim listed [ ]

office-IsRanked : IsRanked office rank
office-IsRanked = record { descends = office-descends }

alice_low :
    (user : User) (n : String)
    → get_user office "alice" ≡ some user
    → Memᴰ n user.roles
    → rank n < suc 1
alice_low user n found listed = elim (Bool-cases (str_eq "clerk" n)) [
  | inl same ↦ rw same (omega arith)
  | inr other ↦ rw other (omega arith)
]

-- A table of the schema is granted, by inheritance.
alice_reads :
    check_permission 1 office "alice" Permission.select (ResourceType.table "public.t") ≡ some true
unfolding check_permission get_user get_role check_role_permission Dict.get first_true any
    grant_matches permission_matches resource_matches permission_eq resource_eq
alice_reads = refl

check_permission_decides_example :
    (b : Bool) × (check_permission 1 office "alice" Permission.select
        (ResourceType.table "public.t")
      ≡ some b)
    × ((b ≡ true) ↔ Authorized office Permission.select (ResourceType.table "public.t") "alice")
check_permission_decides_example =
    check_permission_decides office rank office-IsRanked Permission.select
      (ResourceType.table "public.t") 1 "alice" alice_low

-- A further grant, to the readers, reaches the clerks.
abbrev insert_all : Grant
insert_all = record {
  permission = Permission.insert;
  resource = ResourceType.all;
  granted_by = "postgres";
  with_grant_option = false;
}

grant_permission_exact_example :
    Holds
      (grant_permission "readers" Permission.insert ResourceType.all "postgres" false office).0
      Permission.insert
      (ResourceType.table "t")
      "clerk"
    ↔ (Holds office Permission.insert (ResourceType.table "t") "clerk"
        ⊎ (GrantCovers Permission.insert (ResourceType.table "t") insert_all
            × Inherits office "readers" "clerk"))
unfolding Dict.get
grant_permission_exact_example =
    grant_permission_exact office "readers" readers insert_all Permission.insert
      (ResourceType.table "t") "clerk" (unfold get_role in refl)

-- A role without grants that inherits itself.
abbrev lone : AuthManager
lone = record { users = []; roles = ("clerk", plain_role "clerk") ∷ [] }

abbrev looped : AuthManager
looped = (add_role_inheritance "clerk" "clerk" lone).0

looped_roles :
    (n : String) (role : Role)
    → get_role looped n ≡ some role
    → (role.is_superuser ≡ false) × (role.grants ≡ [])
unfolding get_role Dict.get Dict.update add_role_inheritance any
looped_roles n role found = elim (Bool-cases (str_eq "clerk" n)) [
  | inl same ↦ ground (arith, same, found)
  | inr other ↦ absurd (ground (arith, other, found))
]

looped_without : {n : String} → ¬ Holds looped Permission.select ResourceType.all n
looped_without {n} (superuser role found super) = cc ((looped_roles n role found).0, super)
looped_without {n} (granted role found direct) = absurd (rw (looped_roles n role found).1 at direct)
looped_without (inherited role found listed above) = looped_without above

self_inheritance_never_ends_example :
    check_role_permission 1000 looped Permission.select ResourceType.all "clerk" ≡ none
unfolding Dict.get
self_inheritance_never_ends_example =
    self_inheritance_never_ends lone Permission.select ResourceType.all "clerk" (plain_role "clerk")
      (unfold get_role in refl) looped_without 1000

authenticate_iff_example : (authenticate office "alice" "secret" ≡ true) ↔ (
    (user : User) × (get_user office "alice" ≡ some user)
    × (user.can_login ≡ true)
    × ((user.password_hash ≡ "") ⊎ ("secret" ≡ user.password_hash)))
authenticate_iff_example = authenticate_iff office "alice" "secret"

simple_get_password_lem_example :
    ((simple_get_password office (some "alice") ≡ ok "")
      × ((login_name (some "alice") ≡ "postgres")
          ⊎ ((user : User) × (get_user office (login_name (some "alice")) ≡ some user)
              × (user.can_login ≡ true))))
    ⊎ ((simple_get_password office (some "alice") ≡ err (login_failed (login_name (some "alice"))))
        × (login_name (some "alice") ≢ "postgres")
        × ((get_user office (login_name (some "alice")) ≡ none)
            ⊎ ((user : User) × (get_user office (login_name (some "alice")) ≡ some user)
                × (user.can_login ≡ false))))
simple_get_password_lem_example = simple_get_password_lem office (some "alice")
