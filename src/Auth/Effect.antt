-- ===== src/Auth/Effect.antt =====
-- auth.rs: what `grant_permission` adds to the permissions that roles hold.
use mathlib.Core.List.{Memᴰ}
use mathlib.Core.Option
use datafusion_postgres.Prelude.{
  String, some, List, [], ◌∷◌, ◌++◌, ◌≡◌, ◌≢◌, ◌↔◌, ◌⊎◌, refl, sym, ◌∙◌, arith, inl, inr, eq_iff,
  Bool-cases, Option-cases, if◌then◌else◌, str_eq,
}
use datafusion_postgres.Prelude.Lists.{Any}
use datafusion_postgres.Prelude.Dict
use datafusion_postgres.Prelude.Dict.{get-update}
use datafusion_postgres.Context.{Permission, ResourceType, Role, Grant}
use datafusion_postgres.Auth.{AuthManager, get_role, change_role, with_grant, grant_permission}
use datafusion_postgres.Auth.Authorized.{GrantCovers, Holds, superuser, granted, inherited}
use datafusion_postgres.Auth.Decides.{some-inj}

-- `n` is `target`, or inherits a role that inherits `target`.
pub data Inherits (m : AuthManager) (target : String) : String → Type 0 where
  itself : {n : String} → n ≡ target → Inherits m target n
  through :
      {n parent : String} (role : Role)
      → get_role m n ≡ some role
      → Memᴰ parent role.inherited_roles
      → Inherits m target parent
      → Inherits m target n

module _ {ℓ} {A : Type ℓ} (P : A → Type 0) where
  Any-concat_left : (xs : List A) (a : A) → Any P xs → Any P (xs ++ a ∷ [])
  Any-concat_left (x ∷ xs) a (inl h) = inl h
  Any-concat_left (x ∷ xs) a (inr h) = inr (Any-concat_left xs a h)
  Any-concat_left [] a h = absurd h

  Any-concat_right : (xs : List A) (a : A) → P a → Any P (xs ++ a ∷ [])
  Any-concat_right [] a h = inl h
  Any-concat_right (x ∷ xs) a h = inr (Any-concat_right xs a h)

  Any-concat_cases : (xs : List A) (a : A) → Any P (xs ++ a ∷ []) → Any P xs ⊎ P a
  Any-concat_cases [] a (inl h) = inr h
  Any-concat_cases [] a (inr h) = absurd h
  Any-concat_cases (x ∷ xs) a (inl h) = inl (inl h)
  Any-concat_cases (x ∷ xs) a (inr h) = elim (Any-concat_cases xs a h) [
    | inl old ↦ inl (inr old)
    | inr new ↦ inr new
  ]

-- A change of one role, seen through `get_role`.
get_role-change_role :
    (m : AuthManager) (name n : String) (f : Role → Role)
    → get_role (change_role name f m).0 n
      ≡ (if str_eq name n then Option.map f (get_role m n) else get_role m n)
unfolding get_role
get_role-change_role m name n f = elim (Option-cases (Dict.get name m.roles)) [
  | inl missing ↦ rw (missing, change_role) (ground (arith, missing, eq_iff name n))
  | inr (role, found) ↦ rw (found, change_role) (get-update name n f m.roles)
]

module _ (m : AuthManager) (name : String) (g : Grant) where
  abbrev after : AuthManager
  after = (change_role name (with_grant g) m).0

  -- A role afterwards, from what it was.
  after_of_before :
      (n : String) (role : Role)
      → get_role m n ≡ some role
      → ((n ≡ name) × (get_role after n ≡ some (with_grant g role)))
        ⊎ ((n ≢ name) × (get_role after n ≡ some role))
  after_of_before n role found = elim (Bool-cases (str_eq name n)) [
    | inl same ↦ inl (
      sym ((eq_iff name n).0 same),
      get_role-change_role m name n (with_grant g) ∙ rw same (rw found),
    )
    | inr other ↦ inr (
      λ e. cc (other, (eq_iff name n).1 (sym e)),
      get_role-change_role m name n (with_grant g) ∙ rw other found,
    )
  ]

  before_of_after :
      (n : String) (role' : Role)
      → get_role after n ≡ some role'
      → (role : Role) × (get_role m n ≡ some role)
        × ((role' ≡ role) ⊎ ((n ≡ name) × (role' ≡ with_grant g role)))
  before_of_after n role' found' = elim (Option-cases (get_role m n)) [
    | inl missing ↦
        absurd (ground (arith, get_role-change_role m name n (with_grant g), missing, found'))
    | inr (role, found) ↦ elim (after_of_before n role found) [
      | inl (same, now) ↦ (role, found, inr (same, some-inj (sym found' ∙ now)))
      | inr (other, now) ↦ (role, found, inl (some-inj (sym found' ∙ now)))
    ]
  ]

  module _ (p : Permission) (r : ResourceType) where
    -- Nothing is lost by a grant.
    Holds-after : {n : String} → Holds m p r n → Holds after p r n
    Holds-after {n} (superuser role found super) = elim (after_of_before n role found) [
      | inl (same, now) ↦ superuser (with_grant g role) now super
      | inr (other, now) ↦ superuser role now super
    ]
    Holds-after {n} (granted role found direct) = elim (after_of_before n role found) [
      | inl (same, now) ↦
          granted (with_grant g role) now (Any-concat_left (GrantCovers p r) role.grants g direct)
      | inr (other, now) ↦ granted role now direct
    ]
    Holds-after {n} (inherited role found listed above) =
        let above' = Holds-after above in
        elim (after_of_before n role found) [
          | inl (same, now) ↦ inherited (with_grant g role) now listed above'
          | inr (other, now) ↦ inherited role now listed above'
        ]

    -- Every role that inherits from the granted one gains what the grant covers.
    Holds-of_Inherits :
        (role : Role)
        → get_role m name ≡ some role
        → GrantCovers p r g
        → {n : String} → Inherits m name n
        → Holds after p r n
    Holds-of_Inherits role found covers {n} (itself same) = elim (after_of_before name role found) [
      | inl (_, now) ↦ rw same (
          granted (with_grant g role) now (Any-concat_right (GrantCovers p r) role.grants g covers))
      | inr (other, _) ↦ absurd (other refl)
    ]
    Holds-of_Inherits role found covers {n} (through role' found' listed above) =
        let above' = Holds-of_Inherits role found covers above in
        elim (after_of_before n role' found') [
          | inl (same, now) ↦ inherited (with_grant g role') now listed above'
          | inr (other, now) ↦ inherited role' now listed above'
        ]

    -- And no other.
    Holds-before :
        {n : String} → Holds after p r n → Holds m p r n ⊎ (GrantCovers p r g × Inherits m name n)
    Holds-before {n} (superuser role' found' super) =
        let (role, found, change) = before_of_after n role' found' in
        inl (superuser role found (ground arith))
    Holds-before {n} (granted role' found' direct) =
        let (role, found, change) = before_of_after n role' found' in
        elim change [
          | inl same ↦ inl (granted role found (rw same at direct))
          | inr (here, same) ↦
              elim (Any-concat_cases (GrantCovers p r) role.grants g (rw same at direct)) [
                | inl old ↦ inl (granted role found old)
                | inr new ↦ inr (new, itself here)
              ]
        ]
    Holds-before {n} (inherited {parent = parent} role' found' listed above) =
        let (role, found, change) = before_of_after n role' found' in
        let listed' : Memᴰ parent role.inherited_roles = elim change [
          | inl same ↦ rw same at listed
          | inr (here, same) ↦ rw same at listed
        ] in
        elim (Holds-before above) [
          | inl old ↦ inl (inherited role found listed' old)
          | inr (covers, way) ↦ inr (covers, through role found listed' way)
        ]

-- After a grant to an existing role a role holds a permission exactly if it held it before, or if
-- the grant covers the permission and the role is the granted one or inherits from it.
pub grant_permission_exact :
    (m : AuthManager) (name : String) (role : Role) (g : Grant) (p : Permission) (r : ResourceType)
    (n : String)
    → get_role m name ≡ some role
    → Holds
        (grant_permission name g.permission g.resource g.granted_by g.with_grant_option m).0
        p
        r
        n
      ↔ (Holds m p r n ⊎ (GrantCovers p r g × Inherits m name n))
unfolding grant_permission
grant_permission_exact m name role g p r n found = (
  λ h. Holds-before m name g p r h,
  λ h. elim h [
    | inl old ↦ Holds-after m name g p r old
    | inr (covers, way) ↦ Holds-of_Inherits m name g p r role found covers way
  ],
)
