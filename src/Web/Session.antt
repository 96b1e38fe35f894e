-- ===== src/Web/Session.antt =====
-- How a handler of src/app/adapters/web/handlers.py learns who is asking: `_current_user` and
-- `_run_authenticated`, with the sign-in and sign-out of a client.
use lsstack.Application.Auth.{
  AuthResult, SessionClaims, UserSession, issue_session, revalidate_session,
}
use lsstack.Exec.{Exec, Result, attempt, err, invalid_session_error, ok, pure, raise, ◌>>=◌, ◌>>◌}
use lsstack.Persistence.Models.{World}
use lsstack.Prelude.{Option, String, none, some, ◌*◌}
use lsstack.Prelude.Int.{pos}
use lsstack.Security.Sessions.{claims_from_session, claims_to_session}
use lsstack.Values.{dict, end}
use lsstack.Web.Views.{
  CurrentUser, Response, Server, WebDependencies, clear_session, outside, redirect, replace_session,
  transact_request,
}

abbrev current_user_of : UserSession → CurrentUser
current_user_of s = record {
  id = s.user_id;
  email = s.email_normalized;
  session_version = s.session_version;
}

-- `except InvalidSessionError`: the session is cleared and nobody is signed in.
catch_invalid_session : {A : Type 0} → Result A → Exec Server (Option A)
catch_invalid_session (ok a) = pure (some a)
catch_invalid_session (err invalid_session_error) = do clear_session; pure none
catch_invalid_session (err e) = raise e

-- `if request.session: request.clear_session()`; an empty session is left as it is
forget_session : Exec Server (Unit {0})
forget_session s = (ok tt, record s { session = end })

-- One transaction for the holder of the claims, if the session has any.
with_claims :
    {A : Type 0} → (SessionClaims → Exec World A) → Option SessionClaims → Exec Server (Option A)
unfolding catch_invalid_session forget_session
with_claims operation none = do forget_session; pure none
with_claims operation (some claims) = do
  outcome ← attempt (transact_request (operation claims))
  catch_invalid_session outcome

unfoldable pub get_current_user : WebDependencies → Exec Server (Option CurrentUser)
unfolding with_claims
get_current_user d s =
    with_claims
      (λ claims. do
        session_user ← revalidate_session d.platform claims
        pure (current_user_of session_user))
      (claims_from_session d.platform (dict s.session)) s

unfoldable pub run_authenticated :
    {A : Type 0}
    → WebDependencies
    → (CurrentUser → Exec World A)
    → Exec Server (Option (CurrentUser × A))
unfolding with_claims
run_authenticated d operation s =
    with_claims
      (λ claims. do
        session_user ← revalidate_session d.platform claims
        result ← operation (current_user_of session_user)
        pure (current_user_of session_user, result))
      (claims_from_session d.platform (dict s.session)) s

-- The last lines of `register_action`, `login_action` and `change_password_action`.
unfoldable pub start_session : WebDependencies → AuthResult → String → Exec Server Response
start_session d auth path = do
  claims ← outside (issue_session d.platform auth (pos (d.session_lifetime_seconds * 1000000)))
  replace_session (claims_to_session d.platform claims)
  pure (redirect path)
