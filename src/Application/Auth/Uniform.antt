-- ===== src/Application/Auth/Uniform.antt =====
-- A failed sign-in does not tell why it failed: one password is checked on every path.
use lsstack.Persistence.Users
use lsstack.Application.Auth.{
  AuthResult, auth_result, authenticate, authenticate_email, authenticate_user, reject_unknown,
  upgrade_hash,
}
use lsstack.Domain.Users.{User, normalize_email}
use lsstack.Exec.{Result-cases, invalid_credentials_error, raise_if, ◌>>=◌, ◌>>◌}
use lsstack.Exec.Steps.{IsPreorder, Steps, steps_rules}
use lsstack.Persistence.Models.{UserModel, World}
use lsstack.Platform.{Platform}
use lsstack.Prelude.{
  Option, arith, if◌then◌else◌, inl, inr, none, not, refl, some, ℕ, ◌+◌, ◌∙◌, ◌≡◌,
}
use lsstack.Security.Passwords.{PasswordVerification, now, verify, verify_unknown}
use lsstack.Text.{Text}

record Unchecked (s t : World) : Type 0 where
  same : t.verifications ≡ s.verifications

instance abbrev Unchecked-preorder : IsPreorder Unchecked
Unchecked-preorder = record {
  same = λ s. record { same = refl };
  chain = λ s t u h k. record { same = k.same ∙ h.same };
}

ruleset unchecked_rules = (steps_rules, Unchecked-preorder)

now-Unchecked : (p : Platform) → Steps Unchecked (now p)
unfolding now
now-Unchecked p = record { at = λ w. record { same = refl } }

flush-Unchecked :
    (user_id : ℕ) (user : User) (model : UserModel)
    → Steps Unchecked (Users.flush_credentials user_id user model)
unfolding Users.flush_credentials
flush-Unchecked user_id user model = record { at = λ w. record { same = ground arith } }

update-Unchecked : (user : User) → Steps Unchecked (Users.update_credentials user)
unfolding Users.update_credentials
update-Unchecked user = search (unchecked_rules, flush-Unchecked) depth 12

upgrade-Unchecked :
    (p : Platform) (user : User) (replacement : Option Text)
    → Steps Unchecked (upgrade_hash p user replacement)
unfolding upgrade_hash
upgrade-Unchecked p user none = search unchecked_rules
upgrade-Unchecked p user (some replacement) =
    search (unchecked_rules, now-Unchecked, update-Unchecked)

auth_result-Unchecked : (user : User) → Steps Unchecked (auth_result user)
unfolding auth_result
auth_result-Unchecked user = search unchecked_rules

rest-Unchecked :
    (p : Platform) (user : User) (v : PasswordVerification)
    → Steps Unchecked (do
      raise_if (not v.valid) invalid_credentials_error
      current ← upgrade_hash p user v.replacement_hash
      auth_result current)
rest-Unchecked p user v =
    search (unchecked_rules, upgrade-Unchecked, auth_result-Unchecked) depth 12

reject-once :
    (p : Platform) (password : Text) (w : World)
    → (reject_unknown {A = AuthResult} p password w).1.verifications ≡ w.verifications + 1
unfolding reject_unknown verify_unknown ◌>>=◌
reject-once p password w = refl

-- The steps behind a check that counted one.
after_check :
    (p : Platform) (password : Text) (user : User) (w : World)
    → (authenticate_user p password (some user) w).1.verifications ≡ w.verifications + 1
unfolding authenticate_user verify ◌>>=◌
after_check p password user w =
    let out = p.verify_and_update w.readings password user.password_hash in
    ((rest-Unchecked p user
        (record { valid = out.0; replacement_hash = if out.0 then out.1 else none })).at
      (record w { readings = w.readings + 1; verifications = w.verifications + 1 })).same

user-once :
    (p : Platform) (password : Text) (found : Option User) (w : World)
    → (authenticate_user p password found w).1.verifications ≡ w.verifications + 1
unfolding authenticate_user
user-once p password none w = reject-once p password w
user-once p password (some user) w = after_check p password user w

-- Whatever the email and the password, known or not, accepted or refused: a sign-in checks exactly
-- one password.
pub authenticate-checks_once :
    (p : Platform) (email password : Text) (w : World)
    → (authenticate p email password w).1.verifications ≡ w.verifications + 1
unfolding authenticate authenticate_email Users.get_by_email_for_update ◌>>=◌
authenticate-checks_once p email password w = elim (Result-cases (normalize_email p email)) [
  | inl (e, h) ↦ rw h (reject-once p password w)
  | inr (e, h) ↦ rw h (user-once p password _ w)
]
