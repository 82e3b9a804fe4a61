-- ===== src/Auth/Grants.antt =====
-- auth.rs: what `grant_permission`, `revoke_permission`, `add_role_inheritance` and
-- `remove_role_inheritance` change.
use mathlib.Core.List.{append-nil}
use datafusion_postgres.Prelude.{
  String, Bool, not, none, List, [], ◌∷◌, ◌++◌, ◌≡◌, ◌∙◌, ap, fun_ext, arith, inl, inr, eq_iff,
  Bool-cases, Option-cases, str_eq,
}
use datafusion_postgres.Prelude.Lists.{retain, retain-append}
use datafusion_postgres.Prelude.Dict
use datafusion_postgres.Prelude.Dict.{get-update, get-update_self, update-update}
use datafusion_postgres.Context.{
  Permission, ResourceType, Role, Grant, permission_eq_iff, resource_eq_iff,
}
use datafusion_postgres.Wire.{err}
use datafusion_postgres.Auth.{
  AuthManager, get_role, change_role, grant_permission, revoke_permission, survives,
  add_role_inheritance, remove_role_inheritance, push_new, contains, no_such_role,
}

-- Two changes of one role in a row are one change.
change_role-change_role :
    (name : String) (f g : Role → Role) (m : AuthManager)
    → change_role name f (change_role name g m).0 ≡ change_role name (λ role. f (g role)) m
change_role-change_role name f g m = elim (Option-cases (Dict.get name m.roles)) [
  | inl missing ↦ rw (missing, change_role) (rw (missing, change_role))
  | inr (role, found) ↦ rw (found, change_role) (rw (get-update_self, found) (rw update-update))
]

retain-grant :
    (p : Permission) (r : ResourceType) (by : String) (w : Bool) (role : Role)
    → ◌≡◌ {A = List Grant}
        (retain (survives p r) (
          role.grants
          ++ record { permission = p; resource = r; granted_by = by; with_grant_option = w } ∷ []))
        (retain (survives p r) role.grants)
unfolding retain
retain-grant p r by w role = rw retain-append (
    ground (
      arith,
      permission_eq_iff p p,
      resource_eq_iff r r,
      append-nil (retain (survives p r) role.grants),
    ))

-- Revoking what was just granted, to an existing role or not, has the outcome of revoking without
-- the grant: the same manager and the same result.
pub revoke_permission-grant_permission :
    (name : String) (p : Permission) (r : ResourceType) (by : String) (w : Bool) (m : AuthManager)
    → revoke_permission name p r (grant_permission name p r by w m).0 ≡ revoke_permission name p r m
unfolding revoke_permission grant_permission
revoke_permission-grant_permission name p r by w m =
    change_role-change_role name _ _ m
    ∙ ap (λ (f : Role → Role). change_role name f m)
        (fun_ext λ role.
          ap (λ (gs : List Grant). record role { grants = gs }) (retain-grant p r by w role))

retain-push_new :
    (parent : String) (names : List String)
    → retain (λ role. not (str_eq role parent)) (push_new parent names)
      ≡ retain (λ role. not (str_eq role parent)) names
unfolding retain
retain-push_new parent names = elim (Bool-cases (contains names parent)) [
  | inl old ↦ rw old
  | inr new ↦ rw new (
      rw retain-append (
        ground (
          arith,
          eq_iff parent parent,
          append-nil (retain (λ role. not (str_eq role parent)) names),
        )))
]

-- Removing an inheritance that was just added has the outcome of removing it without adding it.
pub remove_role_inheritance-add_role_inheritance :
    (child parent : String) (m : AuthManager)
    → remove_role_inheritance child parent (add_role_inheritance child parent m).0
      ≡ remove_role_inheritance child parent m
unfolding remove_role_inheritance add_role_inheritance
remove_role_inheritance-add_role_inheritance child parent m =
    change_role-change_role child _ _ m
    ∙ ap (λ (f : Role → Role). change_role child f m)
        (fun_ext λ role.
          ap (λ (names : List String). record role { inherited_roles = names })
            (retain-push_new parent role.inherited_roles))

-- On a role that does not exist `grant_permission`, `revoke_permission`, `add_role_inheritance` and
-- `remove_role_inheritance` fail with `undefined_object` and change nothing.
pub change_unknown :
    (m : AuthManager) (name parent : String) (p : Permission) (r : ResourceType) (by : String)
    (w : Bool)
    → get_role m name ≡ none
    → (grant_permission name p r by w m ≡ (m, err (no_such_role name)))
      × (revoke_permission name p r m ≡ (m, err (no_such_role name)))
      × (add_role_inheritance name parent m ≡ (m, err (no_such_role name)))
      × (remove_role_inheritance name parent m ≡ (m, err (no_such_role name)))
unfolding get_role grant_permission revoke_permission add_role_inheritance remove_role_inheritance
change_unknown m name parent p r by w missing = (rw missing, rw missing, rw missing, rw missing)
