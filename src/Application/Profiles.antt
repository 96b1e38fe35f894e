-- ===== src/Application/Profiles.antt =====
-- src/app/application/profiles.py
pub mod Revocation
use lsstack.Persistence.Users
use lsstack.Domain.Users.{validate_password, with_password}
use lsstack.Exec.{
  Exec, current_password_mismatch_error, invalid_session_error, lift, or_raise, pure, raise_if,
  validation_error, ◌>>=◌, ◌>>◌,
}
use lsstack.Persistence.Models.{World}
use lsstack.Platform.{Platform}
use lsstack.Prelude.{not, ℕ}
use lsstack.Security.Passwords.{hash, now, verify}
use lsstack.Text.{Text, text_eq}

unfoldable pub change_password : Platform → ℕ → Text → Text → Text → Exec World ℕ
change_password p user_id current_password new_password new_password_confirmation = do
  found ← Users.get_by_id_for_update user_id
  user ← or_raise found invalid_session_error
  verification ← verify p current_password user.password_hash
  raise_if (not verification.valid) current_password_mismatch_error
  raise_if (not (text_eq new_password new_password_confirmation))
      (validation_error "new_password_confirmation" "Passwords do not match.")
  lift (validate_password p new_password user.email_normalized)
  hashed ← hash p new_password
  time ← now p
  updated ← Users.update_credentials (with_password user hashed time)
  pure updated.session_version
