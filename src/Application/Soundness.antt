-- ===== src/Application/Soundness.antt =====
-- Every use case of src/app/application keeps the database well formed, whether it returns or raises.
pub mod Tasks
pub mod Toggle
use lsstack.Persistence.Validity.{Sound-preorder as sound_preorder}
use lsstack.Application.Auth.{
  auth_result, authenticate, authenticate_email, authenticate_user, register, reject_unknown,
  upgrade_hash,
}
use lsstack.Application.Profiles.{change_password}
use lsstack.Domain.Emails.{normalize_email_iff}
use lsstack.Domain.Users.{User, normalize_email}
use lsstack.Exec.{Result, err, modify, ok, ◌>>=◌}
use lsstack.Exec.Steps.{Steps, Steps-bind, Steps-bind-lift}
use lsstack.Persistence.Validity.{Sound, Sound_of_same, sound_rules}
use lsstack.Persistence.Validity.Claims.{claim_batch-Sound}
use lsstack.Persistence.Validity.Outbox.{mark_failed-Sound, mark_published-Sound}
use lsstack.Persistence.Validity.Tasks.{
  delete_owned-Sound, get_owned-Sound, list_owned-Sound, mark_background_processed-Sound,
}
use lsstack.Persistence.Validity.Users.{
  add_user-Sound, get_by_email_for_update-Sound, get_by_id-Sound, get_by_id_for_update-Sound,
  update_credentials-Sound,
}
use lsstack.Platform.{Platform}
use lsstack.Prelude.{Option, none, refl, some, ℕ}
use lsstack.Queue.Relay.{accepted}
use lsstack.Security.Passwords.{hash, new_uuid, now, verify, verify_unknown}
use lsstack.Text.{Text}

pub now-Sound : (p : Platform) → Steps Sound (now p)
unfolding now
now-Sound p = record { at = λ w. Sound_of_same refl }

pub hash-Sound : (p : Platform) (password : Text) → Steps Sound (hash p password)
unfolding hash
hash-Sound p password = record { at = λ w. Sound_of_same refl }

pub new_uuid-Sound : (p : Platform) → Steps Sound (new_uuid p)
unfolding new_uuid
new_uuid-Sound p = record { at = λ w. Sound_of_same refl }

pub verify-Sound : (p : Platform) (password stored : Text) → Steps Sound (verify p password stored)
unfolding verify ◌>>=◌
verify-Sound p password stored = record { at = λ w. Sound_of_same refl }

pub verify_unknown-Sound :
    (p : Platform) (password : Text) → Steps Sound (verify_unknown p password)
unfolding verify_unknown modify
verify_unknown-Sound p password = record { at = λ w. Sound_of_same refl }

pub ruleset platform_rules = (
  sound_rules, now-Sound, hash-Sound, new_uuid-Sound, verify-Sound, verify_unknown-Sound,
  get_by_id-Sound, get_by_id_for_update-Sound, get_by_email_for_update-Sound,
  update_credentials-Sound, get_owned-Sound, list_owned-Sound, delete_owned-Sound,
  mark_background_processed-Sound, mark_published-Sound, mark_failed-Sound, claim_batch-Sound,
)

upgrade_hash-Sound :
    (p : Platform) (user : User) (replacement : Option Text)
    → Steps Sound (upgrade_hash p user replacement)
unfolding upgrade_hash
upgrade_hash-Sound p user none = search platform_rules
upgrade_hash-Sound p user (some replacement) = search platform_rules

auth_result-Sound : (user : User) → Steps Sound (auth_result user)
unfolding auth_result
auth_result-Sound user = search platform_rules

-- Registration stores only canonical emails.
pub register-Sound :
    (p : Platform) (email password : Text) → Steps Sound (register p email password)
unfolding register
register-Sound p email password = Steps-bind-lift (normalize_email p email) _ λ canonical accepted.
    let valid = ((normalize_email_iff p email canonical).0 accepted).1 in
    Steps-bind _ _ (search platform_rules) λ checked. Steps-bind _ _ (now-Sound p) λ time.
      Steps-bind _ _ (hash-Sound p password)
        λ hashed. Steps-bind _ _ (add_user-Sound _ valid) auth_result-Sound

authenticate_user-Sound :
    (p : Platform) (password : Text) (found : Option User)
    → Steps Sound (authenticate_user p password found)
unfolding authenticate_user reject_unknown
authenticate_user-Sound p password none = search platform_rules
authenticate_user-Sound p password (some user) =
    search (platform_rules, upgrade_hash-Sound, auth_result-Sound)

authenticate_email-Sound :
    (p : Platform) (password : Text) (email : Result Text)
    → Steps Sound (authenticate_email p password email)
unfolding authenticate_email reject_unknown
authenticate_email-Sound p password (err e) = search platform_rules
authenticate_email-Sound p password (ok email) = search (platform_rules, authenticate_user-Sound)

pub authenticate-Sound :
    (p : Platform) (email password : Text) → Steps Sound (authenticate p email password)
unfolding authenticate
authenticate-Sound p email password = authenticate_email-Sound p password (normalize_email p email)

pub change_password-Sound :
    (p : Platform) (user_id : ℕ) (current new confirmation : Text)
    → Steps Sound (change_password p user_id current new confirmation)
unfolding change_password
change_password-Sound p user_id current new confirmation = search platform_rules depth 12
