-- ===== src/Hooks/Tests.antt =====
-- The hooks on concrete statements and users.
use datafusion_postgres.Prelude.{
  ℕ, String, Bool, true, false, none, some, [], ◌∷◌, ◌≡◌, ◌≢◌, ◌⊎◌, refl, inl, inr, arith,
  Bool-cases, str_eq, if◌then◌else◌,
}
use datafusion_postgres.Prelude.Lists.{All, any}
use datafusion_postgres.Prelude.Dict
use datafusion_postgres.Context.{Permission, ResourceType, Role, Grant, User}
use datafusion_postgres.Wire.{err, idle}
use datafusion_postgres.Client.{Client}
use datafusion_postgres.Statement.{query, insert}
use datafusion_postgres.Auth.{AuthManager, get_role, get_user, role_of}
use datafusion_postgres.Auth.Check.{first_true, grant_matches, check_permission}
use datafusion_postgres.Auth.Authorized.{Authorized}
use datafusion_postgres.Hooks.Permissions.{required, username, denied, handle_simple_query}
use datafusion_postgres.Hooks.Permissions.Refusal.{
  handle_simple_query_lem, IsNarrow, narrow_grants_refused,
}

-- bob has a role with a grant on one table.
abbrev narrow_grant : Grant
narrow_grant = record {
  permission = Permission.select;
  resource = ResourceType.table "public.t";
  granted_by = "postgres";
  with_grant_option = false;
}

abbrev viewer : Role
viewer =
    record (role_of (record {
      name = "viewer";
      is_superuser = false;
      can_login = false;
      can_create_db = false;
      can_create_role = false;
      can_create_user = false;
      can_replication = false;
    })) { grants = narrow_grant ∷ [] }

abbrev bob : User
bob = record {
  username = "bob";
  password_hash = "";
  roles = "viewer" ∷ [];
  is_superuser = false;
  can_login = true;
  connection_limit = none;
}

abbrev shop : AuthManager
shop = record { users = ("bob", bob) ∷ []; roles = ("viewer", viewer) ∷ [] }

viewer-narrow :
    (n : String) (role : Role)
    → get_role shop n ≡ some role
    → (role.is_superuser ≡ false) × All (λ g. g.resource ≢ ResourceType.all) role.grants
unfolding get_role Dict.get
viewer-narrow n role found = elim (Bool-cases (str_eq "viewer" n)) [
  | inl same ↦
      let is_viewer : viewer ≡ role = ground (arith, same, found) in
      rw (← is_viewer) (refl, (λ e. cc, tt))
  | inr other ↦ absurd (ground (arith, other, found))
]

shop-IsNarrow : IsNarrow shop
shop-IsNarrow = record { narrow = viewer-narrow }

bob_plain : (user : User) → get_user shop "bob" ≡ some user → user.is_superuser ≡ false
unfolding get_user Dict.get
bob_plain user found = ground (arith, found)

narrow_grants_refused_example : ¬ Authorized shop Permission.select ResourceType.all "bob"
narrow_grants_refused_example =
    narrow_grants_refused shop (query "SELECT * FROM public.t") Permission.select ResourceType.all
      "bob" shop-IsNarrow bob_plain (unfold required in refl)

-- What the permission search answers in the shop.
abbrev shop_check : String → Permission → ResourceType → Bool
shop_check u p r = if str_eq "bob" u then any (grant_matches p r) (narrow_grant ∷ []) else false

shop_answers :
    (u : String) (p : Permission) (r : ResourceType)
    → check_permission 1 shop u p r ≡ some (shop_check u p r)
unfolding check_permission get_user get_role Dict.get first_true
shop_answers u p r = elim (Bool-cases (str_eq "bob" u)) [
  | inl same ↦ elim (Bool-cases (any (grant_matches p r) (narrow_grant ∷ []))) [
    | inl granted ↦ ground (arith, same, granted)
    | inr refused ↦ ground (arith, same, refused)
  ]
  | inr other ↦ ground (arith, other)
]

abbrev bobs_client : Client
bobs_client = record { metadata = ("user", "bob") ∷ []; status = idle }

handle_simple_query_lem_example :
    ((handle_simple_query shop_check {R = ℕ} bobs_client (insert "INSERT INTO t VALUES (1)") ≡ none)
      × ((required (insert "INSERT INTO t VALUES (1)") ≡ none)
          ⊎ ((p : Permission) × (r : ResourceType) × (required (insert "INSERT INTO t VALUES (1)")
                ≡ some (p, r))
              × Authorized shop p r (username bobs_client))))
    ⊎ ((handle_simple_query shop_check {R = ℕ} bobs_client (insert "INSERT INTO t VALUES (1)")
          ≡ some (err (denied (username bobs_client))))
        × ((p : Permission) × (r : ResourceType) × (required (insert "INSERT INTO t VALUES (1)")
              ≡ some (p, r))
            × (¬ Authorized shop p r (username bobs_client))))
handle_simple_query_lem_example =
    handle_simple_query_lem shop 1 shop_check bobs_client shop_answers
      (insert "INSERT INTO t VALUES (1)")
