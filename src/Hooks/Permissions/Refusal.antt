-- ===== src/Hooks/Permissions/Refusal.antt =====
-- Whom `PermissionsHook` refuses, with `AuthManager::check_permission` behind it.
use datafusion_postgres.Prelude.{
  ℕ, String, Bool, true, false, List, [], ◌∷◌, none, some, ◌≡◌, ◌≢◌, ◌⊎◌, inl, inr, refl, ◌∙◌,
  arith, Bool-cases, Option-cases, if◌then◌else◌,
}
use datafusion_postgres.Prelude.Lists.{All, Any}
use datafusion_postgres.Context.{Permission, ResourceType, Grant, Role, User}
use datafusion_postgres.Wire.{err}
use datafusion_postgres.Client.{Client}
use datafusion_postgres.Statement.{Statement, query, set}
use datafusion_postgres.Auth.{AuthManager, get_role, get_user}
use datafusion_postgres.Auth.Check.{check_permission}
use datafusion_postgres.Auth.Authorized.{
  Covers, GrantCovers, Holds, superuser, granted, inherited, Authorized, as_superuser, by_role,
}
use datafusion_postgres.Auth.Decides.{check_permission_iff}
use datafusion_postgres.Hooks.Permissions.{
  required, username, denied, should_skip_permission_check, handle_simple_query,
}

-- The statements that skip the check need no permission anyway.
pub skipped-required : (s : Statement) → should_skip_permission_check s ≡ true → required s ≡ none
unfolding should_skip_permission_check required
skipped-required (query _) h = cc
skipped-required (set _) h = refl
skipped-required _ h = ground arith

module _ {R : Type 0} (check : String → Permission → ResourceType → Bool) (client : Client) where
  handle-required :
      (s : Statement) (p : Permission) (r : ResourceType)
      → required s ≡ some (p, r)
      → handle_simple_query check {R = R} client s
        ≡ (if check (username client) p r then none else some (err (denied (username client))))
  unfolding handle_simple_query
  handle-required s p r needs = elim (Bool-cases (should_skip_permission_check s)) [
    | inl skip ↦ cc (skipped-required s skip, needs)
    | inr checked ↦ elim (Bool-cases (check (username client) p r)) [
      | inl yes_p ↦ rw (checked, needs, yes_p)
      | inr no_p ↦ rw (checked, needs, no_p)
    ]
  ]

  handle-not_required :
      (s : Statement) → required s ≡ none → handle_simple_query check {R = R} client s ≡ none
  unfolding handle_simple_query
  handle-not_required s free = elim (Bool-cases (should_skip_permission_check s)) [
    | inl skip ↦ rw skip
    | inr checked ↦ rw (checked, free)
  ]

module _ {R : Type 0} (m : AuthManager) (fuel : ℕ)
    (check : String → Permission → ResourceType → Bool) (client : Client) where
  -- Where the permission search has ended with the answers `check`, the hook lets a statement
  -- through exactly if it needs no permission or the user is authorized, and otherwise refuses it
  -- with `insufficient_privilege`.
  pub handle_simple_query_lem :
      ((u : String) (p : Permission) (r : ResourceType)
        → check_permission fuel m u p r ≡ some (check u p r))
      → (s : Statement)
      → ((handle_simple_query check {R = R} client s ≡ none)
          × ((required s ≡ none)
              ⊎ ((p : Permission) × (r : ResourceType) × (required s ≡ some (p, r))
                  × Authorized m p r (username client))))
        ⊎ ((handle_simple_query check {R = R} client s ≡ some (err (denied (username client))))
            × ((p : Permission) × (r : ResourceType) × (required s ≡ some (p, r))
                × (¬ Authorized m p r (username client))))
  handle_simple_query_lem answers s = elim (Option-cases (required s)) [
    | inl free ↦ inl (handle-not_required check client s free, inl free)
    | inr ((p, r), needs) ↦
        let (to, from) =
          check_permission_iff m p r fuel (username client) (check (username client) p r)
            (answers (username client) p r) in
        elim (Bool-cases (check (username client) p r)) [
          | inl yes_p ↦ inl (
            handle-required check client s p r needs ∙ rw yes_p refl,
            inr (p, r, needs, to yes_p),
          )
          | inr no_p ↦ inr (
            handle-required check client s p r needs ∙ rw no_p refl,
            (p, r, needs, λ a. cc (from a, no_p)),
          )
        ]
  ]

-- A grant on a single table, schema, database, function or sequence covers no statement: the hook
-- asks for the permission on all resources.
covers_all :
    (p : Permission) (g : Grant) → GrantCovers p ResourceType.all g → g.resource ≡ ResourceType.all
covers_all p g (_, c) = go g.resource c
  where
    go : (r : ResourceType) → Covers r ResourceType.all → r ≡ ResourceType.all
    go ResourceType.all c = refl
    go (ResourceType.schema s) c = c
    go r c = c

not-Any_all :
    (p : Permission) (gs : List Grant)
    → All (λ g. g.resource ≢ ResourceType.all) gs
    → ¬ Any (GrantCovers p ResourceType.all) gs
not-Any_all p [] narrow h = h
not-Any_all p (g ∷ gs) (n, ns) (inl h) = n (covers_all p g h)
not-Any_all p (g ∷ gs) (n, ns) (inr h) = not-Any_all p gs ns h

-- No role is a superuser or has a grant on all resources.
pub record IsNarrow (m : AuthManager) : Type 0 where
  pub narrow :
      (n : String) (role : Role)
      → get_role m n ≡ some role
      → (role.is_superuser ≡ false) × All (λ g. g.resource ≢ ResourceType.all) role.grants

Holds-of_IsNarrow :
    (m : AuthManager) (p : Permission) {n : String} → IsNarrow m → ¬ Holds m p ResourceType.all n
Holds-of_IsNarrow m p {n} h (superuser role found super) = cc ((h.narrow n role found).0, super)
Holds-of_IsNarrow m p {n} h (granted role found direct) =
    not-Any_all p role.grants (h.narrow n role found).1 direct
Holds-of_IsNarrow m p {n} h (inherited role found listed above) = Holds-of_IsNarrow m p h above

required_all :
    (s : Statement) (p : Permission) (r : ResourceType)
    → required s ≡ some (p, r)
    → r ≡ ResourceType.all
unfolding required
required_all (query _) p r e = ground arith
required_all _ p r e = ground arith

-- Without superusers and without grants on all resources nobody is authorized for any statement
-- that needs a permission, whatever grants there are on the very table that it names.
pub narrow_grants_refused :
    (m : AuthManager) (s : Statement) (p : Permission) (r : ResourceType) (u : String)
    → IsNarrow m
    → ((user : User) → get_user m u ≡ some user → user.is_superuser ≡ false)
    → required s ≡ some (p, r)
    → ¬ Authorized m p r u
narrow_grants_refused m s p r u narrow plain needs (as_superuser user found super) =
    cc (plain user found, super)
narrow_grants_refused m s p r u narrow plain needs (by_role user n found listed holds) =
    Holds-of_IsNarrow m p narrow (rw (required_all s p r needs) at holds)
