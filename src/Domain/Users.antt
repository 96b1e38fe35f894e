-- ===== src/Domain/Users.antt =====
-- src/app/domain/users.py
use lsstack.Exec.{Error, Result, err, ok, validation_error}
use lsstack.Platform.{Platform}
use lsstack.Prelude.{Option, any, if◌then◌else◌, is_empty, length, ltb, not, ℕ, ◌+◌, ◌==◌, ◌||◌}
use lsstack.Text.{Text, before, behind, contains, count, is_space, strip, text_eq}

abbrev pub max_email_length : ℕ
max_email_length = 320

abbrev pub min_password_length : ℕ
min_password_length = 12

abbrev pub max_password_length : ℕ
max_password_length = 128

abbrev pub invalid_email : Error
invalid_email = validation_error "email" "Enter a valid email address."

-- The tests of `normalize_email` on the canonical text.
unfoldable pub check_email : Text → Result Text
check_email normalized =
    if is_empty normalized
      || ltb max_email_length (length normalized)
      || not (count b'@' normalized == 1)
      || any is_space normalized
    then err invalid_email
    else let local = before b'@' normalized in
      let domain = behind b'@' normalized in
      if is_empty local || is_empty domain || count b'.' domain == 0
      then err invalid_email
      else ok normalized

unfoldable pub normalize_email : Platform → Text → Result Text
unfolding check_email
normalize_email p value = check_email (p.casefold (strip (p.nfkc value)))

unfoldable pub validate_password : Platform → Text → Text → Result (Unit {0})
validate_password p password email_normalized =
    if ltb (length password) min_password_length || ltb max_password_length (length password)
    then err (validation_error "password" "Password must be 12-128 characters.")
    else if not (text_eq password (strip password))
    then err (validation_error "password" "Password must not start or end with whitespace.")
    else if contains email_normalized (p.casefold (p.nfkc password))
    then err (validation_error "password" "Password must not contain your email address.")
    else ok tt

pub record User : Type 0 where
  pub id : Option ℕ
  pub email_normalized : Text
  pub password_hash : Text
  pub session_version : ℕ
  pub created_at : ℕ
  pub updated_at : ℕ

unfoldable pub with_password : User → Text → ℕ → User
with_password user password_hash changed_at = record user {
  password_hash = password_hash;
  session_version = user.session_version + 1;
  updated_at = changed_at;
}

unfoldable pub with_rehashed_password : User → Text → ℕ → User
with_rehashed_password user password_hash changed_at = record user {
  password_hash = password_hash;
  updated_at = changed_at;
}
