-- ===== src/Web/TaskHandlers.antt =====
-- The task handlers of src/app/adapters/web/handlers.py, and its two health checks. A handler takes
-- the value of the header HX-Request as an argument, and a form or a public identifier where the
-- request has one.
use lsstack.Application.Tasks.{
  TaskCreatedResult, TaskResult, create_task, delete_task, get_task, list_tasks, toggle_task,
  update_task,
}
use lsstack.Exec.{
  Exec, Result, attempt, cancelled_error, err, lift, ok, pure, raise, task_not_found_error, ◌>>=◌,
}
use lsstack.Persistence.Engine.{Outcome, cancelled, probe}
use lsstack.Persistence.Models.{World}
use lsstack.Prelude.{
  Bool, List, Option, String, [], false, if◌then◌else◌, is_empty, none, some, true, ℕ, ◌∷◌,
}
use lsstack.Security.PublicIds.{decode}
use lsstack.Text.{Text, or_none}
use lsstack.Values.{Fields}
use lsstack.Web.Forms.{FormValues, task_form, value_at}
use lsstack.Web.Session.{run_authenticated}
use lsstack.Web.Views.{
  CurrentUser, Response, Server, WebDependencies, empty_body, is_htmx, not_found, page, redirect,
  task_view, task_views, template,
}

-- The answer to a caller who is signed in; to any other, the way to the login page.
signed_in_or_login :
    {A : Type 0}
    → (CurrentUser → A → Result Response)
    → Option (CurrentUser × A)
    → Exec Server Response
signed_in_or_login render none = pure (redirect "/login")
signed_in_or_login render (some (user, result)) = lift (render user result)

-- The listed tasks on a page.
render_list :
    WebDependencies
    → String
    → List String
    → List (String × Text)
    → ℕ
    → CurrentUser
    → List TaskResult
    → Result Response
render_list d name errors values status user results = elim (task_views d results) [
  | err e ↦ err e
  | ok views ↦ ok (template name (page (some user) views errors values) status)
]

-- One task on a page.
render_task :
    WebDependencies
    → String
    → List String
    → List (String × Text)
    → ℕ
    → CurrentUser
    → TaskResult
    → Result Response
render_task d name errors values status user result = elim (task_view d result) [
  | err e ↦ err e
  | ok view ↦ ok (template name (page (some user) (view ∷ []) errors values) status)
]

unfoldable pub task_list : WebDependencies → Exec Server Response
unfolding signed_in_or_login render_list
task_list d = do
  authenticated ← run_authenticated d (λ user. list_tasks user.id)
  signed_in_or_login (render_list d "tasks/list.html" [] [] 200) authenticated

abbrev invalid_create_page : Bool → String
invalid_create_page htmx = if htmx then "tasks/create_validation.html" else "tasks/list.html"

created_response : WebDependencies → Bool → CurrentUser → TaskCreatedResult → Result Response
unfolding render_task
created_response d htmx user created =
    if htmx
    then render_task d "tasks/create_response.html" [] [] 200 user created.task
    else ok (redirect "/tasks")

unfoldable pub create_task_action : WebDependencies → Option Text → Fields → Exec Server Response
unfolding signed_in_or_login render_list created_response
create_task_action d hx form =
    let submitted = task_form form in
    let htmx = is_htmx d.platform hx in
    if is_empty submitted.errors
    then (do
      authenticated ← run_authenticated d (λ user.
          create_task d.platform user.id (value_at submitted.values "title")
            (or_none (value_at submitted.values "description")) none)
      signed_in_or_login (created_response d htmx) authenticated)
    else (do
      authenticated ← run_authenticated d (λ user. list_tasks user.id)
      signed_in_or_login
          (render_list d (invalid_create_page htmx) submitted.errors submitted.values 422)
          authenticated)

-- `except TaskNotFoundError: return None`
catch_not_found : {A : Type 0} → Result A → Exec World (Option A)
catch_not_found (ok a) = pure (some a)
catch_not_found (err task_not_found_error) = pure none
catch_not_found (err e) = raise e

-- An operation on the task that a public identifier names, if it names one.
on_task :
    {A : Type 0} → (CurrentUser → ℕ → Exec World A) → Option ℕ → CurrentUser → Exec World (Option A)
unfolding catch_not_found
on_task operation none user = pure none
on_task operation (some task_id) user = do
  outcome ← attempt (operation user task_id)
  catch_not_found outcome

found_or_not_found :
    {A : Type 0} → (CurrentUser → A → Result Response) → CurrentUser → Option A → Result Response
found_or_not_found render user none = ok (not_found (some user))
found_or_not_found render user (some result) = render user result

-- The shape of the handlers below: decode, run, and answer 303, 404 or the rendered result.
unfoldable pub task_request :
    {A : Type 0}
    → WebDependencies
    → Text
    → (CurrentUser → ℕ → Exec World A)
    → (CurrentUser → A → Result Response)
    → Exec Server Response
unfolding signed_in_or_login on_task found_or_not_found
task_request d public_id operation render = do
  decoded ← lift (decode d.platform d.public_ids public_id)
  authenticated ← run_authenticated d (on_task operation decoded)
  signed_in_or_login (found_or_not_found render) authenticated

unfoldable pub edit_task_form : WebDependencies → Text → Exec Server Response
unfolding task_request render_task
edit_task_form d public_id =
    task_request d public_id (λ user task_id. get_task user.id task_id)
      (render_task d "tasks/edit.html" [] [] 200)

edit_operation : WebDependencies → FormValues → CurrentUser → ℕ → Exec World TaskResult
edit_operation d submitted user task_id =
    if is_empty submitted.errors
    then update_task d.platform user.id task_id (value_at submitted.values "title")
        (or_none (value_at submitted.values "description"))
    else get_task user.id task_id

-- The row of a task for HTMX, or the list page. The list page needs no view of the task, but
-- `edit_task_action` makes one.
row_or_tasks : WebDependencies → Bool → CurrentUser → TaskResult → Result Response
unfolding render_task
row_or_tasks d htmx user result =
    if htmx then render_task d "tasks/row.html" [] [] 200 user result else ok (redirect "/tasks")

edit_response : WebDependencies → Bool → FormValues → CurrentUser → TaskResult → Result Response
unfolding row_or_tasks
edit_response d htmx submitted user result = elim (task_view d result) [
  | err e ↦ err e
  | ok view ↦
      if is_empty submitted.errors
      then row_or_tasks d htmx user result
      else render_task d "tasks/edit.html" submitted.errors submitted.values 422 user result
]

unfoldable pub edit_task_action :
    WebDependencies → Option Text → Text → Fields → Exec Server Response
unfolding task_request edit_operation edit_response
edit_task_action d hx public_id form =
    let submitted = task_form form in
    task_request d public_id (edit_operation d submitted)
      (edit_response d (is_htmx d.platform hx) submitted)

unfoldable pub toggle_task_action : WebDependencies → Option Text → Text → Exec Server Response
unfolding task_request row_or_tasks
toggle_task_action d hx public_id =
    task_request d public_id (λ user task_id. toggle_task d.platform user.id task_id)
      (row_or_tasks d (is_htmx d.platform hx))

deleted_response : Bool → CurrentUser → Unit {0} → Result Response
deleted_response htmx user _ = ok (if htmx then empty_body else redirect "/tasks")

unfoldable pub delete_task_action : WebDependencies → Option Text → Text → Exec Server Response
unfolding task_request deleted_response
delete_task_action d hx public_id =
    task_request d public_id (λ user task_id. delete_task user.id task_id)
      (deleted_response (is_htmx d.platform hx))

unfoldable pub task_status : WebDependencies → Text → Exec Server Response
unfolding task_request render_task
task_status d public_id =
    task_request d public_id (λ user task_id. get_task user.id task_id)
      (render_task d "tasks/status.html" [] [] 200)

-- A JSON body with its status.
pub record Health : Type 0 where
  pub status : String
  pub status_code : ℕ

unfoldable pub liveness : Health
liveness = record { status = "ok"; status_code = 200 }

health_of : Result Bool → Health
health_of (ok true) = record { status = "ok"; status_code = 200 }
health_of (ok false) = record { status = "unavailable"; status_code = 503 }
health_of (err e) = record { status = "unavailable"; status_code = 503 }

-- `except Exception` answers for a failed probe. A cancelled one is no Exception and is raised.
unfoldable pub readiness : Outcome → Exec World Health
unfolding health_of
readiness outcome = do
  answer ← attempt (probe outcome)
  elim outcome [ cancelled ↦ raise cancelled_error | _ ↦ pure (health_of answer) ]
