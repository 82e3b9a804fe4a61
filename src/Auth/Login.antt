-- ===== src/Auth/Login.antt =====
-- auth.rs: `AuthManager::authenticate`, and `DfAuthSource::get_password`, from which pgwire's own
-- handlers check a password.
use Prim.Native.String
use datafusion_postgres.Prelude.{
  String, Bool, false, true, ◌||◌, Option, none, some, ◌≡◌, ◌↔◌, ◌⊎◌, inl, inr, arith, eq_iff,
  Option-cases, if◌then◌else◌, str_eq,
}
use datafusion_postgres.Context.{User}
use datafusion_postgres.Wire.{PgWireResult, ok, err, report}
use datafusion_postgres.Auth.{AuthManager, get_user}

-- `password_hash.is_empty() || password == password_hash`, for a user that may log in
abbrev pub accepts : User → String → Bool
accepts user password =
    if user.can_login
    then str_eq user.password_hash "" || str_eq password user.password_hash
    else false

unfoldable pub authenticate : AuthManager → String → String → Bool
unfolding get_user
authenticate m username password = elim (get_user m username) [
  | none ↦ false
  | some user ↦ accepts user password
]

-- The report for a user that may not log in.
abbrev pub not_allowed : String → PgWireResult String
not_allowed username = err (
    report "FATAL" "28000"
      (String.◌++◌ "User \"" (String.◌++◌ username "\" is not allowed to login")))

abbrev pub unknown_user : String → PgWireResult String
unknown_user username = err (
    report "FATAL" "28P01"
      (String.◌++◌ "password authentication failed for user \"" (String.◌++◌ username "\"")))

abbrev pub password_of : String → Option User → PgWireResult String
password_of username none = unknown_user username
password_of username (some user) =
    if user.can_login then ok user.password_hash else not_allowed username

-- `login.user()` is `none` where the client gave no name. The stored password is handed out as it
-- is, with no salt.
unfoldable pub get_password : AuthManager → Option String → PgWireResult String
unfolding get_user
get_password m none = err (report "FATAL" "28P01" "No username provided in login request")
get_password m (some username) = password_of username (get_user m username)

authenticate_sound :
    (m : AuthManager) (username password : String)
    → authenticate m username password ≡ true
    → (user : User) × (get_user m username ≡ some user)
      × (user.can_login ≡ true)
      × ((user.password_hash ≡ "") ⊎ (password ≡ user.password_hash))
unfolding authenticate
authenticate_sound m username password e = elim (Option-cases (get_user m username)) [
  | inl missing ↦ absurd (ground (arith, missing, e))
  | inr (user, found) ↦ (
    user,
    found,
    ground (arith, found, e),
    ground (arith, found, e, eq_iff password user.password_hash, eq_iff user.password_hash ""),
  )
]

authenticate_complete :
    (m : AuthManager) (username password : String) (user : User)
    → get_user m username ≡ some user
    → user.can_login ≡ true
    → (user.password_hash ≡ "") ⊎ (password ≡ user.password_hash)
    → authenticate m username password ≡ true
unfolding authenticate
authenticate_complete m username password user found can accepted =
    ground (arith, found, eq_iff password user.password_hash, eq_iff user.password_hash "")

-- `authenticate` accepts exactly a known user that may log in, with an empty stored password or
-- with the stored password.
pub authenticate_iff :
    (m : AuthManager) (username password : String)
    → (authenticate m username password ≡ true) ↔ (
        (user : User) × (get_user m username ≡ some user)
        × (user.can_login ≡ true)
        × ((user.password_hash ≡ "") ⊎ (password ≡ user.password_hash)))
authenticate_iff m username password = (
  authenticate_sound m username password,
  λ (user, found, can, accepted). authenticate_complete m username password user found can accepted,
)

get_password_of_user :
    (m : AuthManager) (username : String) (user : User)
    → get_user m username ≡ some user
    → user.can_login ≡ true
    → get_password m (some username) ≡ ok user.password_hash
unfolding get_password
get_password_of_user m username user found can = ground (arith, found)

user_of_get_password :
    (m : AuthManager) (username hash : String)
    → get_password m (some username) ≡ ok hash
    → (user : User) × (get_user m username ≡ some user)
      × (user.can_login ≡ true)
      × (user.password_hash ≡ hash)
unfolding get_password
user_of_get_password m username hash e = elim (Option-cases (get_user m username)) [
  | inl missing ↦ absurd (ground (arith, missing, e))
  | inr (user, found) ↦ (user, found, ground (arith, found, e), ground (arith, found, e))
]

-- The two ways to check a password agree: `authenticate` accepts exactly if `get_password` hands
-- out a password that is empty or the one given.
pub authenticate_iff_get_password :
    (m : AuthManager) (username password : String)
    → (authenticate m username password ≡ true) ↔ (
        (hash : String) × (get_password m (some username) ≡ ok hash)
        × ((hash ≡ "") ⊎ (password ≡ hash)))
authenticate_iff_get_password m username password = (
  λ e.
      let (user, found, can, accepted) = authenticate_sound m username password e in
      (user.password_hash, get_password_of_user m username user found can, accepted),
  λ (hash, handed, accepted).
      let (user, found, can, same) = user_of_get_password m username hash handed in
      authenticate_complete m username password user found can (rw same accepted),
)
