-- ===== src/Auth/Authorized.antt =====
-- auth.rs: what `check_permission` decides, said without the search: a user is authorized who is a
-- superuser or has a role that holds the permission, by itself or by inheritance.
use Prim.Native.String
use text.Mathlib.Text.{starts_with}
use mathlib.Core.List.{Memᴰ}
use datafusion_postgres.Prelude.{
  String, true, some, List, [], ◌∷◌, ◌≡◌, ◌↔◌, ◌⊎◌, inl, inr, arith, Bool-cases,
}
use datafusion_postgres.Prelude.Lists.{any, Any}
use datafusion_postgres.Context.{
  Permission, ResourceType, Grant, Role, User, permission_eq_iff, resource_eq_iff,
}
use datafusion_postgres.Auth.{AuthManager, get_user, get_role}
use datafusion_postgres.Auth.Check.{permission_matches, resource_matches, grant_matches}

-- A grant on `a` reaches `b`: the same resource, everything, or a table of the schema.
abbrev pub Covers : ResourceType → ResourceType → Type 0
Covers ResourceType.all b = Unit
Covers (ResourceType.schema s) (ResourceType.table t) = starts_with t (String.◌++◌ s ".") ≡ true
Covers a b = a ≡ b

abbrev pub GrantCovers : Permission → ResourceType → Grant → Type 0
GrantCovers p r g = ((g.permission ≡ p) ⊎ (g.permission ≡ Permission.all)) × Covers g.resource r

module _ (m : AuthManager) (p : Permission) (r : ResourceType) where
  pub data Holds : String → Type 0 where
    superuser :
        {n : String} (role : Role) → get_role m n ≡ some role → role.is_superuser ≡ true → Holds n
    granted :
        {n : String} (role : Role)
        → get_role m n ≡ some role
        → Any (GrantCovers p r) role.grants
        → Holds n
    inherited :
        {n parent : String} (role : Role)
        → get_role m n ≡ some role
        → Memᴰ parent role.inherited_roles
        → Holds parent
        → Holds n

  pub data Authorized (username : String) : Type 0 where
    as_superuser :
        (user : User)
        → get_user m username ≡ some user
        → user.is_superuser ≡ true
        → Authorized username
    by_role :
        (user : User) (n : String)
        → get_user m username ≡ some user
        → Memᴰ n user.roles
        → Holds n
        → Authorized username

permission_matches_iff :
    (g p : Permission) → (permission_matches g p ≡ true) ↔ ((g ≡ p) ⊎ (g ≡ Permission.all))
unfolding permission_matches
permission_matches_iff Permission.all p = ground (arith, permission_eq_iff Permission.all p)
permission_matches_iff Permission.select p = ground (arith, permission_eq_iff Permission.select p)
permission_matches_iff g p = ground (arith, permission_eq_iff g p)

resource_matches_iff : (a b : ResourceType) → (resource_matches a b ≡ true) ↔ Covers a b
unfolding resource_matches
resource_matches_iff ResourceType.all b = ground (arith, resource_eq_iff ResourceType.all b)
resource_matches_iff (ResourceType.schema s) (ResourceType.table t) =
    ground (arith, resource_eq_iff (ResourceType.schema s) (ResourceType.table t))
resource_matches_iff a b = ground (arith, resource_eq_iff a b)

pub grant_matches_iff :
    (p : Permission) (r : ResourceType) (g : Grant)
    → (grant_matches p r g ≡ true) ↔ GrantCovers p r g
unfolding grant_matches
grant_matches_iff p r g =
    let (pto, pfrom) = permission_matches_iff g.permission p in
    let (rto, rfrom) = resource_matches_iff g.resource r in
    elim (Bool-cases (permission_matches g.permission p)) [
      | inl e ↦ (λ h. (pto e, rto (rw e at h)), λ h. rw e (rfrom h.1))
      | inr e ↦ (λ h. absurd (cc h), λ h. absurd (cc (pfrom h.0)))
    ]

pub has_grant_iff :
    (p : Permission) (r : ResourceType) (gs : List Grant)
    → (any (grant_matches p r) gs ≡ true) ↔ Any (GrantCovers p r) gs
unfolding any
has_grant_iff p r [] = ground arith
has_grant_iff p r (g ∷ gs) =
    let (here, back) = grant_matches_iff p r g in
    let (later, back') = has_grant_iff p r gs in
    elim (Bool-cases (grant_matches p r g)) [
      | inl e ↦ (λ _. inl (here e), λ _. rw e)
      | inr e ↦ (
        λ h. inr (later (rw e at h)),
        λ h. rw e (elim h [ inl c ↦ absurd (cc (back c)) | inr l ↦ back' l ]),
      )
    ]
