-- ===== src/Platform.antt =====
-- What the program uses and does not implement, as one record that the models take as a
-- parameter. Every reading of the clock, of the salt of a hash or of a new UUID is numbered by the
-- count of such readings, so each may answer anything at every call.
use lsstack.Prelude.{Bool, List, Option, ℕ}
use lsstack.Text.{Text}
use lsstack.Values.{Float}

pub record Platform : Type 0 where
  -- unicodedata.normalize("NFKC", text) and str.casefold()
  pub nfkc : Text → Text
  pub casefold : Text → Text
  -- datetime.now(UTC), in microseconds since 1970
  pub utc_now : ℕ → ℕ
  -- datetime.timestamp() and datetime.fromtimestamp(x, UTC), `none` for the three exceptions
  pub timestamp : ℕ → Float
  pub from_timestamp : Float → Option ℕ
  -- pwdlib.PasswordHash.hash and verify_and_update
  pub password_hash : ℕ → Text → Text
  pub verify_and_update : ℕ → Text → Text → Bool × Option Text
  -- uuid.uuid4(), as a 128-bit number
  pub uuid4 : ℕ → ℕ
  -- hashlib.sha256(data).digest()
  pub sha256 : List ℕ → List ℕ
  -- whether sqids.Sqids(alphabet, min_length) raises no ValueError, as it does for a character
  -- beyond ASCII, and its encode and decode, `none` for a ValueError, as for too large a number
  pub sqids_accepts : Text → ℕ → Bool
  pub sqids_encode : Text → ℕ → List ℕ → Option Text
  pub sqids_decode : Text → ℕ → Text → Option (List ℕ)
