-- ===== src/Auth/Cycle.antt =====
-- auth.rs: `add_role_inheritance` accepts any pair of roles, so the inheritance may have a cycle, and
-- `check_role_permission` has no memory of the roles that it has entered.
use mathlib.Core.List.{Memᴰ}
use datafusion_postgres.Prelude.{
  ℕ, zero, suc, String, Bool, false, true, Option, none, some, List, [], ◌∷◌, ◌++◌, ◌≡◌, refl, sym,
  ◌∙◌, ap, arith, inl, inr, eq_iff, Bool-cases, Option-cases, str_eq,
}
use datafusion_postgres.Prelude.Lists.{any}
use datafusion_postgres.Prelude.Dict.{get-update}
use datafusion_postgres.Context.{Permission, ResourceType, Role}
use datafusion_postgres.Auth.{AuthManager, get_role, add_role_inheritance, inherit, contains}
use datafusion_postgres.Auth.Check.{check_named, check_role_permission}
use datafusion_postgres.Auth.Authorized.{Holds}
use datafusion_postgres.Auth.Decides.{first_true-eq-false, check_role_permission_iff}

-- Roles among which the inheritance goes on for ever.
pub record IsEndless (m : AuthManager) (D : String → Type 0) : Type 0 where
  pub goes_on :
      (n : String)
      → D n
      → (role : Role) × (parent : String) × (get_role m n ≡ some role)
        × Memᴰ parent role.inherited_roles
        × D parent

module _ (m : AuthManager) (p : Permission) (r : ResourceType) where
  check_named-eq-false :
      (check : String → Option Bool) (n parent : String) (role : Role)
      → get_role m n ≡ some role
      → check_named check m p r n ≡ some false
      → Memᴰ parent role.inherited_roles
      → check parent ≡ some false
  check_named-eq-false check n parent role found e listed =
      first_true-eq-false check role.inherited_roles (ground (arith, found, e)) parent listed

  module _ (D : String → Type 0) (endless : IsEndless m D) where
    never_false :
        (fuel : ℕ) (n : String) → D n → check_role_permission fuel m p r n ≡ some false → ⊥
    unfolding check_role_permission
    never_false zero n d e = cc
    never_false (suc fuel) n d e =
        let (role, parent, found, listed, d') = endless.goes_on n d in
        never_false fuel parent d'
          (check_named-eq-false (check_role_permission fuel m p r) n parent role found e listed)

    -- From a role that does not hold the permission and whose inheritance goes on for ever, the
    -- search never ends: no fuel is enough.
    pub endless_never_ends :
        (n : String)
        → D n
        → ¬ Holds m p r n
        → (fuel : ℕ) → check_role_permission fuel m p r n ≡ none
    endless_never_ends n d without fuel = elim (Option-cases (check_role_permission fuel m p r n)) [
      | inl running ↦ running
      | inr (b, ended) ↦ elim (Bool-cases b) [
        | inl t ↦ absurd (without ((check_role_permission_iff m p r fuel n b ended).0 t))
        | inr f ↦ absurd (never_false fuel n d (ended ∙ ap some f))
      ]
    ]

Memᴰ_of_contains :
    (names : List String) (name : String) → contains names name ≡ true → Memᴰ name names
unfolding any
Memᴰ_of_contains [] name e = cc
Memᴰ_of_contains (n ∷ names) name e = elim (Bool-cases (str_eq n name)) [
  | inl same ↦ Memᴰ.head (sym ((eq_iff n name).0 same))
  | inr other ↦ Memᴰ.tail (Memᴰ_of_contains names name (ground (arith, other, e)))
]

Memᴰ-concat : (names : List String) (name : String) → Memᴰ name (names ++ name ∷ [])
Memᴰ-concat [] name = Memᴰ.head refl
Memᴰ-concat (n ∷ names) name = Memᴰ.tail (Memᴰ-concat names name)

-- The new parent is inherited, whether it was already or not.
pub Memᴰ-inherit :
    (parent : String) (role : Role) → Memᴰ parent (inherit parent role).inherited_roles
Memᴰ-inherit parent role = elim (Bool-cases (contains role.inherited_roles parent)) [
  | inl old ↦ rw old (Memᴰ_of_contains role.inherited_roles parent old)
  | inr new ↦ rw new (Memᴰ-concat role.inherited_roles parent)
]

get_role-add_role_inheritance :
    (m : AuthManager) (child parent : String) (role : Role)
    → get_role m child ≡ some role
    → get_role (add_role_inheritance child parent m).0 child ≡ some (inherit parent role)
unfolding get_role add_role_inheritance
get_role-add_role_inheritance m child parent role found =
    ground (arith, found, get-update child child (inherit parent) m.roles, eq_iff child child)

-- A role may be made to inherit itself. Every later check of a permission that the role does not
-- hold then recurs without end.
pub self_inheritance_never_ends :
    (m : AuthManager) (p : Permission) (r : ResourceType) (child : String) (role : Role)
    → get_role m child ≡ some role
    → ¬ Holds (add_role_inheritance child child m).0 p r child
    → (fuel : ℕ)
    → check_role_permission fuel (add_role_inheritance child child m).0 p r child ≡ none
self_inheritance_never_ends m p r child role found without =
    endless_never_ends (add_role_inheritance child child m).0 p r (λ n. n ≡ child)
      (record {
        goes_on = λ n same. (
          inherit child role,
          child,
          rw same (get_role-add_role_inheritance m child child role found),
          Memᴰ-inherit child role,
          refl,
        );
      })
      child refl without
