-- ===== src/Application/Auth/Acceptance.antt =====
-- Which session claims are accepted.
use lsstack.Persistence.Users
use lsstack.Application.Auth.{
  SessionClaims, UserSession, get_user_session, revalidate_session, session_of_user,
}
use lsstack.Exec.{ok, ◌>>=◌}
use lsstack.Persistence.Models.{UserModel, World}
use lsstack.Platform.{Platform}
use lsstack.Prelude.{
  Bool-cases, Option-cases, ap, arith, false, inl, inr, leb, some, sym, true, ◌<◌, ◌==◌, ◌↔◌, ◌≡◌,
}
use lsstack.Prelude.Table.{find}
use lsstack.Security.Passwords.{now}

-- The claims still run, and the account that they name is there with their version.
pub record IsCurrent (p : Platform) (c : SessionClaims) (w : World) (s : UserSession) : Type 0 where
  runs : p.utc_now w.readings < c.expires_at
  account : UserModel
  there : find (Users.has_id c.user_id) w.db.users ≡ some account
  version : account.session_version ≡ c.session_version
  answer : s ≡ record {
    user_id = account.id;
    email_normalized = account.email_normalized;
    session_version = account.session_version;
  }

accepted-IsCurrent :
    (p : Platform) (c : SessionClaims) (w : World) (s : UserSession)
    → (revalidate_session p c w).0 ≡ ok s
    → IsCurrent p c w s
unfolding revalidate_session get_user_session session_of_user Users.get_by_id now ◌>>=◌
accepted-IsCurrent p c w s h = elim (Bool-cases (leb c.expires_at (p.utc_now w.readings))) [
  | inl over ↦ let k = rw over at h in absurd (ground arith)
  | inr runs ↦ elim (Option-cases (find (Users.has_id c.user_id) w.db.users)) [
    | inl missing ↦ let k = rw (runs, missing) at h in absurd (ground arith)
    | inr (r, found) ↦ elim (Bool-cases (r.session_version == c.session_version)) [
      | inr stale ↦ let k = rw (runs, found, stale) at h in absurd (ground arith)
      | inl same ↦
          let k = rw (runs, found, same) at h in
          record {
            runs = ground (arith, runs);
            account = r;
            there = found;
            version = ground (arith, same);
            answer = ground (arith, k);
          }
    ]
  ]
]

IsCurrent-accepted :
    (p : Platform) (c : SessionClaims) (w : World) (s : UserSession)
    → IsCurrent p c w s
    → (revalidate_session p c w).0 ≡ ok s
unfolding revalidate_session get_user_session session_of_user Users.get_by_id now ◌>>=◌
IsCurrent-accepted p c w s v =
    let runs : leb c.expires_at (p.utc_now w.readings) ≡ false = ground (arith, v.runs) in
    let same : (v.account.session_version == c.session_version) ≡ true =
      ground (arith, v.version) in
    rw (runs, v.there, same) (sym (ap ok v.answer))

-- Session claims are accepted exactly while they run and the account that they name is there with
-- their version, and the answer is that account.
pub revalidate_session_iff :
    (p : Platform) (c : SessionClaims) (w : World) (s : UserSession)
    → ((revalidate_session p c w).0 ≡ ok s) ↔ IsCurrent p c w s
revalidate_session_iff p c w s = (accepted-IsCurrent p c w s, IsCurrent-accepted p c w s)
