-- ===== src/Web/Views.antt =====
-- src/app/adapters/web/types.py and dependencies.py, the request and response of a handler, and the
-- helpers at the head of src/app/adapters/web/handlers.py that make responses.
use lsstack.Application.Tasks.{TaskResult}
use lsstack.Exec.{Exec, Result, err, ok}
use lsstack.Persistence.Engine.{Outcome, run}
use lsstack.Persistence.Models.{World}
use lsstack.Platform.{Platform}
use lsstack.Prelude.{Bool, List, Option, String, [], false, none, some, ℕ, ◌+◌, ◌∷◌}
use lsstack.Security.PublicIds.{SqidsPublicIdCodec, encode}
use lsstack.Text.{Text, codes, text_eq}
use lsstack.Values.{Fields, end}

pub record CurrentUser : Type 0 where
  pub id : ℕ
  pub email : Text
  pub session_version : ℕ

pub record TaskView : Type 0 where
  pub public_id : Text
  pub title : Text
  pub description : Option Text
  pub is_completed : Bool
  pub background_processed_at : Option ℕ
  pub created_at : ℕ

-- What a handler depends on. The lifetime is in seconds.
pub record WebDependencies : Type 0 where
  pub platform : Platform
  pub public_ids : SqidsPublicIdCodec
  pub session_lifetime_seconds : ℕ

-- What a template is rendered with; `tasks` holds the listed tasks, or the one task.
pub record Context : Type 0 where
  pub current_user : Option CurrentUser
  pub tasks : List TaskView
  pub errors : List String
  pub values : List (String × Text)

-- WebResponse: a redirect with status 303, a template with its status, or an empty body.
pub data Response : Type 0 where
  redirect : String → Response
  template : String → Context → ℕ → Response
  empty_body : Response

-- A request on the server: the database, the session of the client, and how the surroundings
-- answer the transactions of the request in turn.
pub record Server : Type 0 where
  pub world : World
  pub session : Fields
  pub outcomes : ℕ → Outcome
  pub transactions : ℕ

-- `await dependencies.transactions.run(operation)`
unfoldable pub transact_request : {A : Type 0} → Exec World A → Exec Server A
transact_request operation s =
    let (r, w) = run (s.outcomes s.transactions) operation s.world in
    (r, record s { world = w; transactions = s.transactions + 1 })

-- A use of the clock outside of a transaction.
unfoldable pub outside : {A : Type 0} → Exec World A → Exec Server A
outside action s = let (r, w) = action s.world in (r, record s { world = w })

-- `_is_htmx`, on the header HX-Request
unfoldable pub is_htmx : Platform → Option Text → Bool
is_htmx p none = false
is_htmx p (some value) = text_eq (p.casefold value) (codes "true")

-- request.clear_session()
unfoldable pub clear_session : Exec Server (Unit {0})
clear_session s = (ok tt, record s { session = end })

-- `_replace_session`
unfoldable pub replace_session : Fields → Exec Server (Unit {0})
replace_session values s = (ok tt, record s { session = values })

-- `_task_view`
unfoldable pub task_view : WebDependencies → TaskResult → Result TaskView
task_view d result = elim (encode d.platform d.public_ids result.id) [
  | err e ↦ err e
  | ok public_id ↦ ok (record {
    public_id = public_id;
    title = result.title;
    description = result.description;
    is_completed = result.is_completed;
    background_processed_at = result.background_processed_at;
    created_at = result.created_at;
  })
]

unfoldable pub task_views : WebDependencies → List TaskResult → Result (List TaskView)
task_views d [] = ok []
task_views d (r ∷ rs) = elim (task_view d r) [
  | err e ↦ err e
  | ok v ↦ elim (task_views d rs) [ err e ↦ err e | ok vs ↦ ok (v ∷ vs) ]
]

abbrev pub page : Option CurrentUser → List TaskView → List String → List (String × Text) → Context
page current_user tasks errors values = record {
  current_user = current_user;
  tasks = tasks;
  errors = errors;
  values = values;
}

-- `_not_found`
unfoldable pub not_found : Option CurrentUser → Response
not_found current_user = template "errors/not_found.html" (page current_user [] [] []) 404
