-- ===== src/Auth/Simple.antt =====
-- auth.rs: `SimpleAuthSource::get_password`, which asks no password of anybody.
use Prim.Native.String
use datafusion_postgres.Prelude.{
  String, Bool, true, false, Option, none, some, ◌≡◌, ◌≢◌, ◌⊎◌, inl, inr, refl, eq_iff, Bool-cases,
  Option-cases, if◌then◌else◌, str_eq,
}
use datafusion_postgres.Context.{User}
use datafusion_postgres.Wire.{PgWireResult, PgWireError, ok, err, report}
use datafusion_postgres.Auth.{AuthManager, get_user}

abbrev pub login_name : Option String → String
login_name none = "anonymous"
login_name (some name) = name

abbrev may_login : Option User → Bool
may_login none = false
may_login (some user) = user.can_login

abbrev pub login_failed : String → PgWireError
login_failed username =
    report "FATAL" "28P01"
      (String.◌++◌ "password authentication failed for user \"" (String.◌++◌ username "\""))

-- The empty text stands for the password without a salt and without bytes.
unfoldable pub simple_get_password : AuthManager → Option String → PgWireResult String
unfolding get_user
simple_get_password m login =
    if may_login (get_user m (login_name login))
    then ok ""
    else if str_eq (login_name login) "postgres"
    then ok ""
    else err (login_failed (login_name login))

-- `SimpleAuthSource` hands out the empty password exactly to the users that may log in, whatever
-- their stored password, and to `postgres`; everybody else gets the report of a failed login.
pub simple_get_password_lem :
    (m : AuthManager) (login : Option String)
    → ((simple_get_password m login ≡ ok "")
        × ((login_name login ≡ "postgres")
            ⊎ ((user : User) × (get_user m (login_name login) ≡ some user)
                × (user.can_login ≡ true))))
      ⊎ ((simple_get_password m login ≡ err (login_failed (login_name login)))
          × (login_name login ≢ "postgres")
          × ((get_user m (login_name login) ≡ none)
              ⊎ ((user : User) × (get_user m (login_name login) ≡ some user)
                  × (user.can_login ≡ false))))
unfolding simple_get_password
simple_get_password_lem m login = elim (Option-cases (get_user m (login_name login))) [
  | inl missing ↦ elim (Bool-cases (str_eq (login_name login) "postgres")) [
    | inl super ↦
        inl (rw missing (rw super refl), inl ((eq_iff (login_name login) "postgres").0 super))
    | inr other ↦ inr (
      rw missing (rw other refl),
      λ e. cc (other, (eq_iff (login_name login) "postgres").1 e),
      inl missing,
    )
  ]
  | inr (user, found) ↦ elim (Bool-cases user.can_login) [
    | inl can ↦ inl (rw found (rw can refl), inr (user, found, can))
    | inr cannot ↦ elim (Bool-cases (str_eq (login_name login) "postgres")) [
      | inl super ↦ inl (
        rw found (rw cannot (rw super refl)),
        inl ((eq_iff (login_name login) "postgres").0 super),
      )
      | inr other ↦ inr (
        rw found (rw cannot (rw other refl)),
        λ e. cc (other, (eq_iff (login_name login) "postgres").1 e),
        inr (user, found, cannot),
      )
    ]
  ]
]
