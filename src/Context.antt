-- ===== src/Context.antt =====
-- datafusion-pg-catalog/src/pg_catalog/context.rs: users, roles, grants, permissions and resources,
-- with the derived `PartialEq` of the last two. Passwords and names are texts.
pub mod Names
use datafusion_postgres.Prelude.Int.{ℤ}
use datafusion_postgres.Prelude.{
  ℕ, String, Bool, false, true, Option, List, ◌≡◌, ◌↔◌, refl, ap, sym, ◌∙◌, arith, str_eq, eq_iff,
  ◌==◌, ==_iff, if◌then◌else◌,
}

pub data Permission : Type 0 where
  select insert update delete create drop alter index references : Permission
  trigger execute usage connect temporary all : Permission

pub data ResourceType : Type 0 where
  table schema database function sequence : String → ResourceType
  all : ResourceType

-- `#[derive(PartialEq)]` compares the variants, here by their position in the declaration.
discriminant : Permission → ℕ
discriminant Permission.select = 0
discriminant Permission.insert = 1
discriminant Permission.update = 2
discriminant Permission.delete = 3
discriminant Permission.create = 4
discriminant Permission.drop = 5
discriminant Permission.alter = 6
discriminant Permission.index = 7
discriminant Permission.references = 8
discriminant Permission.trigger = 9
discriminant Permission.execute = 10
discriminant Permission.usage = 11
discriminant Permission.connect = 12
discriminant Permission.temporary = 13
discriminant Permission.all = 14

unfoldable pub permission_eq : Permission → Permission → Bool
unfolding discriminant
permission_eq p q = discriminant p == discriminant q

of_discriminant : ℕ → Permission
of_discriminant n =
    if n == 0
    then Permission.select
    else if n == 1
    then Permission.insert
    else if n == 2
    then Permission.update
    else if n == 3
    then Permission.delete
    else if n == 4
    then Permission.create
    else if n == 5
    then Permission.drop
    else if n == 6
    then Permission.alter
    else if n == 7
    then Permission.index
    else if n == 8
    then Permission.references
    else if n == 9
    then Permission.trigger
    else if n == 10
    then Permission.execute
    else if n == 11
    then Permission.usage
    else if n == 12
    then Permission.connect
    else if n == 13
    then Permission.temporary
    else Permission.all

of_discriminant-discriminant : (p : Permission) → of_discriminant (discriminant p) ≡ p
unfolding of_discriminant discriminant
of_discriminant-discriminant Permission.select = refl
of_discriminant-discriminant _ = refl

discriminant_inj : (p q : Permission) → discriminant p ≡ discriminant q → p ≡ q
discriminant_inj p q e =
    sym (of_discriminant-discriminant p) ∙ ap of_discriminant e ∙ of_discriminant-discriminant q

pub permission_eq_iff : (p q : Permission) → (permission_eq p q ≡ true) ↔ (p ≡ q)
permission_eq_iff p q = (
  λ e. discriminant_inj p q ((==_iff _ _).0 (unfold permission_eq in e)),
  λ e. unfold permission_eq in (==_iff _ _).1 (ap discriminant e),
)

unfoldable pub resource_eq : ResourceType → ResourceType → Bool
resource_eq (ResourceType.table s) (ResourceType.table t) = str_eq s t
resource_eq (ResourceType.schema s) (ResourceType.schema t) = str_eq s t
resource_eq (ResourceType.database s) (ResourceType.database t) = str_eq s t
resource_eq (ResourceType.function s) (ResourceType.function t) = str_eq s t
resource_eq (ResourceType.sequence s) (ResourceType.sequence t) = str_eq s t
resource_eq ResourceType.all ResourceType.all = true
resource_eq _ _ = false

pub resource_eq_iff : (a b : ResourceType) → (resource_eq a b ≡ true) ↔ (a ≡ b)
unfolding resource_eq
resource_eq_iff (ResourceType.table s) (ResourceType.table t) = ground (arith, eq_iff s t)
resource_eq_iff (ResourceType.schema s) (ResourceType.schema t) = ground (arith, eq_iff s t)
resource_eq_iff (ResourceType.database s) (ResourceType.database t) = ground (arith, eq_iff s t)
resource_eq_iff (ResourceType.function s) (ResourceType.function t) = ground (arith, eq_iff s t)
resource_eq_iff (ResourceType.sequence s) (ResourceType.sequence t) = ground (arith, eq_iff s t)
resource_eq_iff _ _ = ground arith

pub record Grant : Type 0 where
  pub permission : Permission
  pub resource : ResourceType
  pub granted_by : String
  pub with_grant_option : Bool

pub record Role : Type 0 where
  pub name : String
  pub is_superuser : Bool
  pub can_login : Bool
  pub can_create_db : Bool
  pub can_create_role : Bool
  pub can_create_user : Bool
  pub can_replication : Bool
  pub grants : List Grant
  pub inherited_roles : List String

pub record RoleConfig : Type 0 where
  pub name : String
  pub is_superuser : Bool
  pub can_login : Bool
  pub can_create_db : Bool
  pub can_create_role : Bool
  pub can_create_user : Bool
  pub can_replication : Bool

pub record User : Type 0 where
  pub username : String
  pub password_hash : String
  pub roles : List String
  pub is_superuser : Bool
  pub can_login : Bool
  pub connection_limit : Option ℤ
