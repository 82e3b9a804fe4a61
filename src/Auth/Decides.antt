-- ===== src/Auth/Decides.antt =====
-- auth.rs: the answers of `check_permission`, beside what `Authorized` says.
use mathlib.Core.List.{Memᴰ}
use datafusion_postgres.Prelude.{
  ℕ, zero, suc, String, Bool, false, true, Option, some, List, [], ◌∷◌, ◌≡◌, ◌↔◌, inl, inr, refl,
  sym, ◌∙◌, ap, arith, Bool-cases, Option-cases,
}
use datafusion_postgres.Prelude.Lists.{any}
use datafusion_postgres.Context.{Permission, ResourceType, User}
use datafusion_postgres.Auth.{AuthManager, get_user, get_role}
use datafusion_postgres.Auth.Check.{
  grant_matches, first_true, check_named, check_role_permission, check_permission,
}
use datafusion_postgres.Auth.Authorized.{
  Holds, superuser, granted, inherited, Authorized, as_superuser, by_role, has_grant_iff,
}

pub some-inj {ℓ} : {A : Type ℓ} {a b : A} → some a ≡ some b → a ≡ b
some-inj e = cc

-- What a search that ended has seen.
pub first_true-eq-true :
    (check : String → Option Bool) (names : List String)
    → first_true check names ≡ some true
    → (n : String) × Memᴰ n names × (check n ≡ some true)
unfolding first_true
first_true-eq-true check [] e = cc
first_true-eq-true check (n ∷ names) e = elim (Option-cases (check n)) [
  | inl stuck ↦ absurd (cc (rw (stuck, first_true) at e))
  | inr (b, same) ↦ elim (Bool-cases b) [
    | inl t ↦ (n, Memᴰ.head refl, same ∙ ap some t)
    | inr f ↦
        let (x, listed, found) = first_true-eq-true check names (ground (arith, same, f, e)) in
        (x, Memᴰ.tail listed, found)
  ]
]

pub first_true-eq-false :
    (check : String → Option Bool) (names : List String)
    → first_true check names ≡ some false
    → (n : String) → Memᴰ n names
    → check n ≡ some false
unfolding first_true
first_true-eq-false check [] e n m = elim m [ ]
first_true-eq-false check (x ∷ names) e n (Memᴰ.head same) = rw same (ground arith)
first_true-eq-false check (x ∷ names) e n (Memᴰ.tail listed) =
    first_true-eq-false check names (ground arith) n listed

module _ (m : AuthManager) (p : Permission) (r : ResourceType) where
  -- One role, when the roles that it inherits are decided.
  module _ (check : String → Option Bool) where
    check_named_sound :
        ((n : String) → check n ≡ some true → Holds m p r n)
        → (n : String) → check_named check m p r n ≡ some true
        → Holds m p r n
    check_named_sound below n e = elim (Option-cases (get_role m n)) [
      | inl missing ↦ absurd (cc (rw (missing, check_named) at e))
      | inr (role, found) ↦ elim (Bool-cases role.is_superuser) [
        | inl super ↦ superuser role found super
        | inr plain ↦ elim (Bool-cases (any (grant_matches p r) role.grants)) [
          | inl direct ↦ granted role found ((has_grant_iff p r role.grants).0 direct)
          | inr other ↦
              let (parent, listed, holds) =
                first_true-eq-true check role.inherited_roles
                  (ground (arith, found, plain, other, e)) in
              inherited role found listed (below parent holds)
        ]
      ]
    ]

    check_named_complete :
        ((n : String) → check n ≡ some false → ¬ Holds m p r n)
        → (n : String) → check_named check m p r n ≡ some false
        → ¬ Holds m p r n
    check_named_complete below n e (superuser role found super) = ground (arith, found, super, e)
    check_named_complete below n e (granted role found direct) =
        let has = (has_grant_iff p r role.grants).1 direct in ground (arith, found, has, e)
    check_named_complete below n e (inherited {parent = parent} role found listed holds) =
        below parent
          (first_true-eq-false check role.inherited_roles (ground (arith, found, e)) parent listed)
          holds

  check_role_permission_sound :
      (fuel : ℕ) (n : String) → check_role_permission fuel m p r n ≡ some true → Holds m p r n
  unfolding check_role_permission
  check_role_permission_sound zero n e = cc
  check_role_permission_sound (suc fuel) n e =
      check_named_sound (check_role_permission fuel m p r) (check_role_permission_sound fuel) n e

  check_role_permission_complete :
      (fuel : ℕ) (n : String) → check_role_permission fuel m p r n ≡ some false → ¬ Holds m p r n
  unfolding check_role_permission
  check_role_permission_complete zero n e = cc
  check_role_permission_complete (suc fuel) n e =
      check_named_complete (check_role_permission fuel m p r) (check_role_permission_complete fuel)
        n e

  -- The answer for one role is whether the role holds the permission.
  pub check_role_permission_iff :
      (fuel : ℕ) (n : String) (b : Bool)
      → check_role_permission fuel m p r n ≡ some b
      → (b ≡ true) ↔ Holds m p r n
  check_role_permission_iff fuel n true e = (λ _. check_role_permission_sound fuel n e, λ _. refl)
  check_role_permission_iff fuel n false e =
      (λ h. cc, λ h. absurd (check_role_permission_complete fuel n e h))

  roles_sound :
      (fuel : ℕ) (u : String) (user : User)
      → get_user m u ≡ some user
      → first_true (check_named (check_role_permission fuel m p r) m p r) user.roles ≡ some true
      → Authorized m p r u
  roles_sound fuel u user found e =
      let (n, listed, yes_n) = first_true-eq-true _ user.roles e in
      by_role user n found listed
        (check_role_permission_sound (suc fuel) n (unfold check_role_permission in yes_n))

  roles_complete :
      (fuel : ℕ) (u : String) (user : User)
      → get_user m u ≡ some user
      → user.is_superuser ≡ false
      → first_true (check_named (check_role_permission fuel m p r) m p r) user.roles ≡ some false
      → ¬ Authorized m p r u
  roles_complete fuel u user found plain e (as_superuser user' found' super) =
      let same : user ≡ user' = some-inj (sym found ∙ found') in cc (same, plain, super)
  roles_complete fuel u user found plain e (by_role user' n found' listed holds) =
      let same : user' ≡ user = some-inj (sym found' ∙ found) in
      check_role_permission_complete (suc fuel) n
        (unfold check_role_permission in first_true-eq-false _ user.roles e n (rw same at listed))
        holds

  check_permission_sound :
      (fuel : ℕ) (u : String) → check_permission fuel m u p r ≡ some true → Authorized m p r u
  unfolding check_permission
  check_permission_sound fuel u e = elim (Option-cases (get_user m u)) [
    | inl missing ↦ absurd (ground (arith, missing, e))
    | inr (user, found) ↦ elim (Bool-cases user.is_superuser) [
      | inl super ↦ as_superuser user found super
      | inr plain ↦ roles_sound fuel u user found (ground (arith, found, plain, e))
    ]
  ]

  check_permission_complete :
      (fuel : ℕ) (u : String) → check_permission fuel m u p r ≡ some false → ¬ Authorized m p r u
  unfolding check_permission
  check_permission_complete fuel u e = elim (Option-cases (get_user m u)) [
    | inl missing ↦ λ h. elim h [
      | as_superuser user found super ↦ cc (missing, found)
      | by_role user n found listed holds ↦ cc (missing, found)
    ]
    | inr (user, found) ↦ elim (Bool-cases user.is_superuser) [
      | inl super ↦ absurd (ground (arith, found, super, e))
      | inr plain ↦ roles_complete fuel u user found plain (ground (arith, found, plain, e))
    ]
  ]

  -- Whenever the search ends, it answers `true` exactly for the authorized users: superusers, and
  -- those with a role that holds the permission by itself or by inheritance.
  pub check_permission_iff :
      (fuel : ℕ) (u : String) (b : Bool)
      → check_permission fuel m u p r ≡ some b
      → (b ≡ true) ↔ Authorized m p r u
  check_permission_iff fuel u true e = (λ _. check_permission_sound fuel u e, λ _. refl)
  check_permission_iff fuel u false e =
      (λ h. cc, λ h. absurd (check_permission_complete fuel u e h))
