-- ===== src/Security/Sessions/RoundTrip.antt =====
-- The session cookie gives back the claims that were put into it.
use lsstack.Application.Auth.{SessionClaims}
use lsstack.Platform.{Platform}
use lsstack.Prelude.{arith, false, some, ◌≡◌, ◌≤◌}
use lsstack.Security.Sessions.{claims_from_session, claims_to_session}
use lsstack.Values.{dict, float_le, get}

-- Claims of a numbered user are read back as they were written, if their two instants survive the
-- conversion to seconds and back, and the expiry comes out later than the issue.
pub claims-round_trip :
    (p : Platform) (c : SessionClaims)
    → 1 ≤ c.user_id
    → p.from_timestamp (p.timestamp c.issued_at) ≡ some c.issued_at
    → p.from_timestamp (p.timestamp c.expires_at) ≡ some c.expires_at
    → float_le (p.timestamp c.expires_at) (p.timestamp c.issued_at) ≡ false
    → claims_from_session p (dict (claims_to_session p c)) ≡ some c
unfolding claims_from_session claims_to_session get
claims-round_trip p c numbered issued expires later =
    rw (issued, expires, later) (ground (arith, numbered))
