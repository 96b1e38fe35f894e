-- ===== src/Application/Auth.antt =====
-- src/app/application/auth.py
pub mod Uniform
pub mod Acceptance
pub mod RoundTrip
use lsstack.Persistence.Users
use lsstack.Domain.Users.{User, normalize_email, validate_password, with_rehashed_password}
use lsstack.Exec.{
  Exec, Result, err, invalid_credentials_error, invalid_session_error, lift, ok, or_raise, pure,
  raise, raise_if, runtime_error, value_error, ◌>>=◌, ◌>>◌,
}
use lsstack.Persistence.Models.{World}
use lsstack.Platform.{Platform}
use lsstack.Prelude.{Option, if◌then◌else◌, leb, none, not, some, ℕ, ◌+◌, ◌==◌}
use lsstack.Prelude.Int.{leb_ℤ, pos, pos_part, ℤ}
use lsstack.Security.Passwords.{hash, now, verify, verify_unknown}
use lsstack.Text.{Text}

pub record AuthResult : Type 0 where
  pub user_id : ℕ
  pub email_normalized : Text
  pub session_version : ℕ

pub record UserSession : Type 0 where
  pub user_id : ℕ
  pub email_normalized : Text
  pub session_version : ℕ

pub record SessionClaims : Type 0 where
  pub user_id : ℕ
  pub session_version : ℕ
  pub issued_at : ℕ
  pub expires_at : ℕ

-- The last lines of `register` and `authenticate`.
unfoldable pub auth_result : User → Exec World AuthResult
auth_result user = do
  user_id ← or_raise user.id (runtime_error "The user repository returned an unpersisted user.")
  pure (record {
    user_id = user_id;
    email_normalized = user.email_normalized;
    session_version = user.session_version;
  })

unfoldable pub register : Platform → Text → Text → Exec World AuthResult
unfolding auth_result
register p email password = do
  email_normalized ← lift (normalize_email p email)
  lift (validate_password p password email_normalized)
  time ← now p
  hashed ← hash p password
  user ← Users.add (record {
    id = none;
    email_normalized = email_normalized;
    password_hash = hashed;
    session_version = 0;
    created_at = time;
    updated_at = time;
  })
  auth_result user

-- `password_hasher.verify_unknown(password)`, and the one error of `authenticate`
unfoldable pub reject_unknown : {A : Type 0} → Platform → Text → Exec World A
reject_unknown p password = do verify_unknown p password; raise invalid_credentials_error

-- An upgraded hash is stored with the same session version.
unfoldable pub upgrade_hash : Platform → User → Option Text → Exec World User
upgrade_hash p user none = pure user
upgrade_hash p user (some replacement) = do
  time ← now p
  Users.update_credentials (with_rehashed_password user replacement time)

unfoldable pub authenticate_user : Platform → Text → Option User → Exec World AuthResult
unfolding auth_result reject_unknown upgrade_hash
authenticate_user p password none = reject_unknown p password
authenticate_user p password (some user) = do
  verification ← verify p password user.password_hash
  raise_if (not verification.valid) invalid_credentials_error
  current ← upgrade_hash p user verification.replacement_hash
  auth_result current

-- `normalize_email` raises nothing but ValidationError.
unfoldable pub authenticate_email : Platform → Text → Result Text → Exec World AuthResult
unfolding authenticate_user
authenticate_email p password (err e) = reject_unknown p password
authenticate_email p password (ok email_normalized) = do
  user ← Users.get_by_email_for_update email_normalized
  authenticate_user p password user

unfoldable pub authenticate : Platform → Text → Text → Exec World AuthResult
unfolding authenticate_email
authenticate p email password = authenticate_email p password (normalize_email p email)

unfoldable pub session_of_user : User → Option UserSession
session_of_user user = elim user.id [
  | none ↦ none
  | some user_id ↦ some (record {
    user_id = user_id;
    email_normalized = user.email_normalized;
    session_version = user.session_version;
  })
]

unfoldable pub get_user_session : ℕ → Exec World (Option UserSession)
unfolding session_of_user
get_user_session user_id = do
  user ← Users.get_by_id user_id
  pure (elim user [ none ↦ none | some u ↦ session_of_user u ])

-- A timedelta is a signed number of microseconds; one that passes the test is positive.
unfoldable pub issue_session : Platform → AuthResult → ℤ → Exec World SessionClaims
issue_session p auth lifetime = do
  raise_if (leb_ℤ lifetime (pos 0)) (value_error "Session lifetime must be positive.")
  issued_at ← now p
  pure (record {
    user_id = auth.user_id;
    session_version = auth.session_version;
    issued_at = issued_at;
    expires_at = issued_at + pos_part lifetime;
  })

-- `current is None or current.session_version != claims.session_version`
unfoldable pub check_version : ℕ → Option UserSession → Exec World UserSession
check_version version none = raise invalid_session_error
check_version version (some current) =
    if current.session_version == version then pure current else raise invalid_session_error

unfoldable pub revalidate_session : Platform → SessionClaims → Exec World UserSession
unfolding check_version
revalidate_session p claims = do
  time ← now p
  raise_if (leb claims.expires_at time) invalid_session_error
  current ← get_user_session claims.user_id
  check_version claims.session_version current
