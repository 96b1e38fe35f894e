-- ===== src/Web/Accounts.antt =====
-- The handlers of src/app/adapters/web/handlers.py for registration, sign-in and the
-- profile. A handler that takes a form takes it as its argument.
use lsstack.Application.Auth.{AuthResult, authenticate, register}
use lsstack.Application.Profiles.{change_password}
use lsstack.Exec.{
  Exec, Result, attempt, current_password_mismatch_error, duplicate_email_error, err,
  invalid_credentials_error, ok, pure, raise, runtime_error, validation_error, ◌>>=◌, ◌>>◌,
}
use lsstack.Persistence.Models.{World}
use lsstack.Prelude.{
  Bool, List, Option, String, [], if◌then◌else◌, is_empty, is_none, none, not, some, ℕ, ◌∷◌,
}
use lsstack.Text.{Text}
use lsstack.Values.{Fields}
use lsstack.Web.Forms.{FormValues, password_change_form, registration_form, text, value_at}
use lsstack.Web.Session.{get_current_user, run_authenticated, start_session}
use lsstack.Web.Views.{
  CurrentUser, Response, Server, WebDependencies, clear_session, page, redirect, template,
  transact_request,
}

signed_in : Option CurrentUser → Bool
signed_in found = not (is_none found)

unfoldable pub root : WebDependencies → Exec Server Response
root d = do
  found ← get_current_user d
  pure (elim found [ none ↦ redirect "/login" | some _ ↦ redirect "/tasks" ])

register_page : List String → List (String × Text) → ℕ → Response
register_page errors values status =
    template "auth/register.html" (page none [] errors values) status

unfoldable pub register_form : WebDependencies → Exec Server Response
unfolding register_page
register_form d = do
  found ← get_current_user d
  pure (elim found [ none ↦ register_page [] [] 200 | some _ ↦ redirect "/tasks" ])

-- The two `except` clauses of `register_action`, and what follows them.
finish_registration :
    WebDependencies → List (String × Text) → Result AuthResult → Exec Server Response
unfolding register_page
finish_registration d values (ok auth) = start_session d auth "/tasks"
finish_registration d values (err duplicate_email_error) =
    pure (register_page ("An account with this email already exists." ∷ []) values 409)
finish_registration d values (err (validation_error name message)) =
    pure (register_page (message ∷ []) values 422)
finish_registration d values (err e) = raise e

submit_registration : WebDependencies → FormValues → Exec Server Response
unfolding finish_registration
submit_registration d submitted =
    let values = ("email", value_at submitted.values "email") ∷ [] in
    if is_empty submitted.errors
    then (do
      outcome ← attempt (
          transact_request (
            register d.platform (value_at submitted.values "email")
              (value_at submitted.values "password")))
      finish_registration d values outcome)
    else pure (register_page submitted.errors values 422)

unfoldable pub register_action : WebDependencies → Fields → Exec Server Response
unfolding submit_registration
register_action d form = do
  found ← get_current_user d
  elim found [
    | none ↦ submit_registration d (registration_form form)
    | some _ ↦ pure (redirect "/tasks")
  ]

login_page : List String → List (String × Text) → ℕ → Response
login_page errors values status = template "auth/login.html" (page none [] errors values) status

unfoldable pub login_form : WebDependencies → Exec Server Response
unfolding login_page
login_form d = do
  found ← get_current_user d
  pure (elim found [ none ↦ login_page [] [] 200 | some _ ↦ redirect "/tasks" ])

login_refused : Text → Response
unfolding login_page
login_refused email = login_page ("Invalid email or password." ∷ []) (("email", email) ∷ []) 401

finish_login : WebDependencies → Text → Result AuthResult → Exec Server Response
unfolding login_refused
finish_login d email (ok auth) = start_session d auth "/tasks"
finish_login d email (err invalid_credentials_error) = pure (login_refused email)
finish_login d email (err (validation_error name message)) = pure (login_refused email)
finish_login d email (err e) = raise e

submit_login : WebDependencies → Text → Text → Exec Server Response
unfolding finish_login
submit_login d email password = do
  outcome ← attempt (transact_request (authenticate d.platform email password))
  finish_login d email outcome

unfoldable pub login_action : WebDependencies → Fields → Exec Server Response
unfolding submit_login
login_action d form = do
  found ← get_current_user d
  elim found [
    | none ↦ submit_login d (text form "email") (text form "password")
    | some _ ↦ pure (redirect "/tasks")
  ]

-- The operation that only revalidates.
abbrev nothing : CurrentUser → Exec World (Unit {0})
nothing user = pure tt

unfoldable pub logout_action : WebDependencies → Exec Server Response
logout_action d = do run_authenticated d nothing; clear_session; pure (redirect "/login")

profile_page : CurrentUser → List String → ℕ → Response
profile_page user errors status =
    template "profile/show.html" (page (some user) [] errors []) status

unfoldable pub profile : WebDependencies → Exec Server Response
unfolding profile_page
profile d = do
  authenticated ← run_authenticated d nothing
  pure (elim authenticated [ none ↦ redirect "/login" | some (user, _) ↦ profile_page user [] 200 ])

-- What the operation of `change_password_action` returns: the new session version, an error
-- message, or None.
pub data PasswordOutcome : Type 0 where
  changed_to : ℕ → PasswordOutcome
  refused : String → PasswordOutcome
  not_tried : PasswordOutcome

catch_password_errors : Result ℕ → Exec World PasswordOutcome
catch_password_errors (ok version) = pure (changed_to version)
catch_password_errors (err current_password_mismatch_error) =
    pure (refused "Current password is incorrect.")
catch_password_errors (err (validation_error name message)) = pure (refused message)
catch_password_errors (err e) = raise e

password_operation : WebDependencies → FormValues → CurrentUser → Exec World PasswordOutcome
unfolding catch_password_errors
password_operation d submitted user =
    if is_empty submitted.errors
    then (do
      outcome ← attempt (
          change_password d.platform user.id (value_at submitted.values "current_password")
            (value_at submitted.values "new_password")
            (value_at submitted.values "new_password_confirmation"))
      catch_password_errors outcome)
    else pure not_tried

-- `submitted.errors or ((outcome,) if isinstance(outcome, str) else ())`, and what follows. The
-- `assert` cannot fail: with no form errors the outcome is a number or a text.
finish_password :
    WebDependencies → List String → CurrentUser × PasswordOutcome → Exec Server Response
unfolding profile_page
finish_password d (e ∷ es) (user, outcome) = pure (profile_page user (e ∷ es) 422)
finish_password d [] (user, refused message) = pure (profile_page user (message ∷ []) 422)
finish_password d [] (user, changed_to version) =
    start_session d
      (record { user_id = user.id; email_normalized = user.email; session_version = version })
      "/profile?password-changed=1"
finish_password d [] (user, not_tried) = raise (runtime_error "AssertionError")

unfoldable pub change_password_action : WebDependencies → Fields → Exec Server Response
unfolding password_operation finish_password
change_password_action d form = do
  let submitted = password_change_form form
  authenticated ← run_authenticated d (password_operation d submitted)
  elim authenticated [
    | none ↦ pure (redirect "/login")
    | some result ↦ finish_password d submitted.errors result
  ]
