-- ===== src/Security/Passwords.antt =====
-- src/app/adapters/security/clock.py and passwords.py, and the record PasswordVerification of
-- src/app/application/ports/security.py. The library's hash function draws a salt, so every call is
-- one more reading of the platform.
use lsstack.Exec.{Exec, modify, ok, pure, ◌>>=◌, ◌>>◌}
use lsstack.Persistence.Models.{World}
use lsstack.Platform.{Platform}
use lsstack.Prelude.{Bool, Option, if◌then◌else◌, none, ℕ, ◌+◌}
use lsstack.Text.{Text}

reading : {A : Type 0} → (ℕ → A) → Exec World A
reading f w = (ok (f w.readings), record w { readings = w.readings + 1 })

-- SystemClock.now
unfoldable pub now : Platform → Exec World ℕ
unfolding reading
now p = reading p.utc_now

-- uuid.uuid4()
unfoldable pub new_uuid : Platform → Exec World ℕ
unfolding reading
new_uuid p = reading p.uuid4

pub record PasswordVerification : Type 0 where
  pub valid : Bool
  pub replacement_hash : Option Text

-- PwdlibPasswordHasher.hash
unfoldable pub hash : Platform → Text → Exec World Text
unfolding reading
hash p password = reading (λ n. p.password_hash n password)

count_verification : World → World
count_verification w = record w { verifications = w.verifications + 1 }

verification_of : Bool × Option Text → PasswordVerification
verification_of (valid, replacement) = record {
  valid = valid;
  replacement_hash = if valid then replacement else none;
}

-- PwdlibPasswordHasher.verify
unfoldable pub verify : Platform → Text → Text → Exec World PasswordVerification
unfolding reading count_verification verification_of
verify p password stored = do
  modify count_verification
  outcome ← reading (λ n. p.verify_and_update n password stored)
  pure (verification_of outcome)

-- PwdlibPasswordHasher.verify_unknown: one verification against a fixed hash, its answer unused
unfoldable pub verify_unknown : Platform → Text → Exec World (Unit {0})
unfolding count_verification
verify_unknown p password = modify count_verification
