-- ===== src/Security/Sessions.antt =====
-- src/app/adapters/security/sessions.py
pub mod RoundTrip
use lsstack.Application.Auth.{SessionClaims}
use lsstack.Platform.{Platform}
use lsstack.Prelude.{Option, if◌then◌else◌, none, some, ℕ, ◌||◌}
use lsstack.Prelude.Int.{ltb_ℤ, pos, pos_part, ℤ}
use lsstack.Values.{
  Fields, Float, Value, as_int, as_number, dict, end, field, float, float_le, get, int,
}

unfoldable pub claims_to_session : Platform → SessionClaims → Fields
claims_to_session p claims = field "user_id" (int (pos claims.user_id)) (
    field "session_version" (int (pos claims.session_version)) (
      field "issued_at" (float (p.timestamp claims.issued_at))
        (field "expires_at" (float (p.timestamp claims.expires_at)) end)))

build_claims : ℕ → ℕ → Option ℕ → Option ℕ → Option SessionClaims
build_claims user_id version (some issued_at) (some expires_at) = some (record {
  user_id = user_id;
  session_version = version;
  issued_at = issued_at;
  expires_at = expires_at;
})
build_claims user_id version _ _ = none

check_claims : Platform → Option ℤ → Option ℤ → Option Float → Option Float → Option SessionClaims
unfolding build_claims
check_claims p (some user_id) (some version) (some issued) (some expires) =
    if ltb_ℤ user_id (pos 1) || ltb_ℤ version (pos 0) || float_le expires issued
    then none
    else build_claims (pos_part user_id) (pos_part version) (p.from_timestamp issued)
        (p.from_timestamp expires)
check_claims p _ _ _ _ = none

unfoldable pub claims_from_session : Platform → Value → Option SessionClaims
unfolding check_claims
claims_from_session p (dict mapping) =
    check_claims p (as_int (get mapping "user_id")) (as_int (get mapping "session_version"))
      (as_number (get mapping "issued_at")) (as_number (get mapping "expires_at"))
claims_from_session p _ = none
