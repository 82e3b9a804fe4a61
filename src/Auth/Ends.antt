-- ===== src/Auth/Ends.antt =====
-- auth.rs: `check_permission` on roles whose inheritance has no cycle.
use mathlib.Core.List.{Memᴰ}
use datafusion_postgres.Prelude.{
  ℕ, zero, suc, ◌<◌, String, Bool, false, true, Option, some, List, [], ◌∷◌, ◌≡◌, ◌↔◌, inl, inr,
  refl, arith, Bool-cases, Option-cases,
}
use datafusion_postgres.Prelude.Lists.{any}
use datafusion_postgres.Context.{Permission, ResourceType, Role, User}
use datafusion_postgres.Auth.{AuthManager, get_user, get_role}
use datafusion_postgres.Auth.Check.{
  grant_matches, first_true, check_named, check_role_permission, check_permission,
}
use datafusion_postgres.Auth.Authorized.{Authorized}
use datafusion_postgres.Auth.Decides.{check_permission_iff}

first_true_ends :
    (check : String → Option Bool) (names : List String)
    → ((n : String) → Memᴰ n names → (b : Bool) × (check n ≡ some b))
    → (b : Bool) × (first_true check names ≡ some b)
unfolding first_true
first_true_ends check [] each = (false, refl)
first_true_ends check (x ∷ names) each =
    let (rest, ended) = first_true_ends check names (λ n listed. each n (Memᴰ.tail listed)) in
    let (b, here) = each x (Memᴰ.head refl) in
    elim (Bool-cases b) [
      | inl t ↦ (true, ground (arith, here, t))
      | inr f ↦ (rest, ground (arith, here, f, ended))
    ]

-- No cycle: each role has a rank above those of the roles that it inherits.
pub record IsRanked (m : AuthManager) (rank : String → ℕ) : Type 0 where
  pub descends :
      (n parent : String) (role : Role)
      → get_role m n ≡ some role
      → Memᴰ parent role.inherited_roles
      → rank parent < rank n

module _ (m : AuthManager) (rank : String → ℕ) (ranked : IsRanked m rank) where
  module _ (p : Permission) (r : ResourceType) where
    check_named_ends :
        (fuel : ℕ)
        → ((n : String)
            → rank n < fuel
            → (b : Bool) × (check_role_permission fuel m p r n ≡ some b))
        → (n : String) → rank n < suc fuel
        → (b : Bool) × (check_named (check_role_permission fuel m p r) m p r n ≡ some b)
    check_named_ends fuel below n h = elim (Option-cases (get_role m n)) [
      | inl missing ↦ (false, rw (missing, check_named))
      | inr (role, found) ↦
          let (b, ended) =
            first_true_ends (check_role_permission fuel m p r) role.inherited_roles
              (λ parent listed.
                below parent (omega (arith, ranked.descends n parent role found listed))) in
          check_role_ends role b found ended
    ]
      where
        check_role_ends :
            (role : Role) (b : Bool)
            → get_role m n ≡ some role
            → first_true (check_role_permission fuel m p r) role.inherited_roles ≡ some b
            → (b : Bool) × (check_named (check_role_permission fuel m p r) m p r n ≡ some b)
        check_role_ends role b found ended = elim (Bool-cases role.is_superuser) [
          | inl super ↦ (true, ground (arith, found, super))
          | inr plain ↦ elim (Bool-cases (any (grant_matches p r) role.grants)) [
            | inl direct ↦ (true, ground (arith, found, plain, direct))
            | inr other ↦ (b, ground (arith, found, plain, other, ended))
          ]
        ]

    -- Without a cycle the search from a role ends on any fuel above the role's rank.
    pub check_role_permission_ends :
        (fuel : ℕ) (n : String)
        → rank n < fuel
        → (b : Bool) × (check_role_permission fuel m p r n ≡ some b)
    unfolding check_role_permission
    check_role_permission_ends zero n h = elim h [ ]
    check_role_permission_ends (suc fuel) n h =
        check_named_ends fuel (check_role_permission_ends fuel) n h

    check_permission_ends :
        (fuel : ℕ) (u : String)
        → ((user : User) (n : String)
            → get_user m u ≡ some user
            → Memᴰ n user.roles
            → rank n < suc fuel)
        → (b : Bool) × (check_permission fuel m u p r ≡ some b)
    unfolding check_permission
    check_permission_ends fuel u low = elim (Option-cases (get_user m u)) [
      | inl missing ↦ (false, ground (arith, missing))
      | inr (user, found) ↦ elim (Bool-cases user.is_superuser) [
        | inl super ↦ (true, ground (arith, found, super))
        | inr plain ↦
            let (b, ended) =
              first_true_ends (check_named (check_role_permission fuel m p r) m p r) user.roles
                (λ n listed.
                  check_named_ends fuel (check_role_permission_ends fuel) n
                    (low user n found listed)) in
            (b, ground (arith, found, plain, ended))
      ]
    ]

    -- In a manager without inheritance cycles `check_permission` ends, on any fuel that no rank of
    -- the user's roles passes, and its answer is whether the user is authorized.
    pub check_permission_decides :
        (fuel : ℕ) (u : String)
        → ((user : User) (n : String)
            → get_user m u ≡ some user
            → Memᴰ n user.roles
            → rank n < suc fuel)
        → (b : Bool) × (check_permission fuel m u p r ≡ some b) × ((b ≡ true) ↔ Authorized m p r u)
    check_permission_decides fuel u low =
        let (b, ended) = check_permission_ends fuel u low in
        (b, ended, check_permission_iff m p r fuel u b ended)
