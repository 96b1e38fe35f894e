-- ===== src/Web/Anonymous.antt =====
-- What the handlers do for a caller whose session names nobody.
-- The state behind such a request: the session is empty, and nothing else has changed.
use lsstack.Exec.{Error, Exec, Result, Result-cases, err, lift, ok, ◌>>=◌}
use lsstack.Persistence.Models.{World}
use lsstack.Prelude.{Bool-cases, Option, inl, inr, is_empty, none, refl, ℕ, ◌≡◌, ◌⊎◌}
use lsstack.Security.PublicIds.{decode}
use lsstack.Security.Sessions.{claims_from_session}
use lsstack.Text.{Text}
use lsstack.Values.{Fields, dict, end}
use lsstack.Web.Accounts.{change_password_action, profile}
use lsstack.Web.Forms.{task_form}
use lsstack.Web.Session.{run_authenticated}
use lsstack.Web.TaskHandlers.{
  create_task_action, delete_task_action, edit_task_action, edit_task_form, task_list, task_request,
  task_status, toggle_task_action,
}
use lsstack.Web.Views.{CurrentUser, Response, Server, WebDependencies, redirect}

abbrev pub signed_out : Server → Server
signed_out s = record s { session = end }

run_authenticated-anonymous :
    {A : Type 0} (d : WebDependencies) (operation : CurrentUser → Exec World A) (s : Server)
    → claims_from_session d.platform (dict s.session) ≡ none
    → run_authenticated d operation s ≡ (ok none, signed_out s)
unfolding run_authenticated ◌>>=◌
run_authenticated-anonymous d operation s h = rw h refl

-- The answer to a caller who is not signed in: the login page, or the error of an identifier that
-- is not read.
abbrev pub Refused : Result (Option ℕ) → Server → Result Response × Server → Type 0
Refused decoded s answer =
    (answer ≡ (ok (redirect "/login"), signed_out s))
    ⊎ ((e : Error) × (decoded ≡ err e) × (answer ≡ (err e, s)))

task_request-anonymous :
    {A : Type 0} (d : WebDependencies) (public_id : Text)
    (operation : CurrentUser → ℕ → Exec World A) (render : CurrentUser → A → Result Response)
    (s : Server)
    → claims_from_session d.platform (dict s.session) ≡ none
    → Refused
        (decode d.platform d.public_ids public_id)
        s
        (task_request d public_id operation render s)
unfolding task_request ◌>>=◌ lift
task_request-anonymous d public_id operation render s h =
    elim (Result-cases (decode d.platform d.public_ids public_id)) [
      | inl (error, e) ↦ inr (error, e, rw e refl)
      | inr (found, e) ↦ inl (rw (e, run_authenticated-anonymous d _ s h) refl)
    ]

task_list-anonymous :
    (d : WebDependencies) (s : Server)
    → claims_from_session d.platform (dict s.session) ≡ none
    → task_list d s ≡ (ok (redirect "/login"), signed_out s)
unfolding task_list ◌>>=◌
task_list-anonymous d s h = rw (run_authenticated-anonymous d _ s h) refl

create-anonymous :
    (d : WebDependencies) (hx : Option Text) (form : Fields) (s : Server)
    → claims_from_session d.platform (dict s.session) ≡ none
    → create_task_action d hx form s ≡ (ok (redirect "/login"), signed_out s)
unfolding create_task_action ◌>>=◌
create-anonymous d hx form s h = elim (Bool-cases (is_empty (task_form form).errors)) [
  | inl fine ↦ rw (fine, run_authenticated-anonymous d _ s h) refl
  | inr bad ↦ rw (bad, run_authenticated-anonymous d _ s h) refl
]

profile-anonymous :
    (d : WebDependencies) (s : Server)
    → claims_from_session d.platform (dict s.session) ≡ none
    → profile d s ≡ (ok (redirect "/login"), signed_out s)
unfolding profile ◌>>=◌
profile-anonymous d s h = rw (run_authenticated-anonymous d _ s h) refl

password-anonymous :
    (d : WebDependencies) (form : Fields) (s : Server)
    → claims_from_session d.platform (dict s.session) ≡ none
    → change_password_action d form s ≡ (ok (redirect "/login"), signed_out s)
unfolding change_password_action ◌>>=◌
password-anonymous d form s h = rw (run_authenticated-anonymous d _ s h) refl

-- The requests that need a signed-in caller.
pub data Protected : Type 0 where
  lists_tasks shows_profile : Protected
  creates_task : Option Text → Fields → Protected
  opens_edit : Text → Protected
  edits_task : Option Text → Text → Fields → Protected
  toggles_task : Option Text → Text → Protected
  deletes_task : Option Text → Text → Protected
  asks_status : Text → Protected
  submits_password : Fields → Protected

unfoldable pub handle : WebDependencies → Protected → Exec Server Response
handle d lists_tasks = task_list d
handle d shows_profile = profile d
handle d (creates_task hx form) = create_task_action d hx form
handle d (opens_edit public_id) = edit_task_form d public_id
handle d (edits_task hx public_id form) = edit_task_action d hx public_id form
handle d (toggles_task hx public_id) = toggle_task_action d hx public_id
handle d (deletes_task hx public_id) = delete_task_action d hx public_id
handle d (asks_status public_id) = task_status d public_id
handle d (submits_password form) = change_password_action d form

-- What the public identifier of a request is read as, where it has one.
abbrev pub decoded_of : WebDependencies → Protected → Result (Option ℕ)
decoded_of d (opens_edit public_id) = decode d.platform d.public_ids public_id
decoded_of d (edits_task hx public_id form) = decode d.platform d.public_ids public_id
decoded_of d (toggles_task hx public_id) = decode d.platform d.public_ids public_id
decoded_of d (deletes_task hx public_id) = decode d.platform d.public_ids public_id
decoded_of d (asks_status public_id) = decode d.platform d.public_ids public_id
decoded_of d _ = ok none

-- When the session carries no claims that are well formed, every handler of tasks and of the
-- profile sends the caller to the login page, empties the session, and touches neither the database
-- nor the clock; or the codec raises on the public identifier of the request, and the handler
-- raises the same and touches nothing at all.
pub protected-anonymous :
    (d : WebDependencies) (r : Protected) (s : Server)
    → claims_from_session d.platform (dict s.session) ≡ none
    → Refused (decoded_of d r) s (handle d r s)
unfolding handle edit_task_form edit_task_action toggle_task_action delete_task_action task_status
protected-anonymous d lists_tasks s h = inl (task_list-anonymous d s h)
protected-anonymous d shows_profile s h = inl (profile-anonymous d s h)
protected-anonymous d (creates_task hx form) s h = inl (create-anonymous d hx form s h)
protected-anonymous d (opens_edit public_id) s h = task_request-anonymous d public_id _ _ s h
protected-anonymous d (edits_task hx public_id form) s h =
    task_request-anonymous d public_id _ _ s h
protected-anonymous d (toggles_task hx public_id) s h = task_request-anonymous d public_id _ _ s h
protected-anonymous d (deletes_task hx public_id) s h = task_request-anonymous d public_id _ _ s h
protected-anonymous d (asks_status public_id) s h = task_request-anonymous d public_id _ _ s h
protected-anonymous d (submits_password form) s h = inl (password-anonymous d form s h)
