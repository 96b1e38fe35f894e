-- ===== src/Application/Tasks.antt =====
-- src/app/application/tasks.py
pub mod Deleted
pub mod Created
use lsstack.Persistence.Tasks
use lsstack.Persistence.Outbox
use lsstack.Domain.Tasks.{Task, edited, normalize_description, normalize_title, with_completion}
use lsstack.Exec.{
  Exec, Result, err, lift, ok, or_raise, pure, raise_if, runtime_error, task_not_found_error, ◌>>=◌,
  ◌>>◌,
}
use lsstack.Persistence.Models.{World}
use lsstack.Platform.{Platform}
use lsstack.Prelude.{Bool, List, Option, [], false, none, not, some, ℕ, ◌∷◌}
use lsstack.Prelude.Int.{pos}
use lsstack.Security.Passwords.{new_uuid, now}
use lsstack.Text.{Text, codes}
use lsstack.Values.{Fields, end, field, int}

abbrev pub task_created_topic : Text
task_created_topic = codes "task.created.v1"

pub record TaskResult : Type 0 where
  pub id : ℕ
  pub user_id : ℕ
  pub title : Text
  pub description : Option Text
  pub is_completed : Bool
  pub background_processed_at : Option ℕ
  pub created_at : ℕ
  pub updated_at : ℕ

pub record TaskCreatedResult : Type 0 where
  pub task : TaskResult
  pub outbox_message_id : ℕ

-- `_result`
unfoldable pub result_of_task : Task → Result TaskResult
result_of_task task = elim task.id [
  | none ↦ err (runtime_error "The task repository returned an unpersisted task.")
  | some task_id ↦ ok (record {
    id = task_id;
    user_id = task.user_id;
    title = task.title;
    description = task.description;
    is_completed = task.is_completed;
    background_processed_at = task.background_processed_at;
    created_at = task.created_at;
    updated_at = task.updated_at;
  })
]

unfoldable pub results_of_tasks : List Task → Result (List TaskResult)
results_of_tasks [] = ok []
results_of_tasks (t ∷ ts) = elim (result_of_task t) [
  | err e ↦ err e
  | ok r ↦ elim (results_of_tasks ts) [ err e ↦ err e | ok rs ↦ ok (r ∷ rs) ]
]

unfoldable pub list_tasks : ℕ → Exec World (List TaskResult)
unfolding results_of_tasks
list_tasks user_id = do tasks ← Tasks.list_owned user_id; lift (results_of_tasks tasks)

abbrev pub task_created_payload : ℕ → Fields
task_created_payload task_id =
    field "version" (int (pos 1)) (field "task_id" (int (pos task_id)) end)

-- `message_id or uuid4()`
unfoldable pub message_id_or_new : Platform → Option ℕ → Exec World ℕ
message_id_or_new p none = new_uuid p
message_id_or_new p (some message_id) = pure message_id

-- What `create_task` does once the task has its number: the message in the outbox.
unfoldable pub announce_task : Platform → Option ℕ → ℕ → Task → Exec World TaskCreatedResult
unfolding message_id_or_new
announce_task p message_id time task = do
  task_result ← lift (result_of_task task)
  outbox_id ← message_id_or_new p message_id
  Outbox.add (record {
    id = outbox_id;
    topic = task_created_topic;
    payload = task_created_payload task_result.id;
    created_at = time;
    published_at = none;
    lease_owner = none;
    lease_expires_at = none;
    attempt_count = 0;
    last_error = none;
  })
  pure (record { task = task_result; outbox_message_id = outbox_id })

unfoldable pub create_task :
    Platform → ℕ → Text → Option Text → Option ℕ → Exec World TaskCreatedResult
unfolding announce_task
create_task p user_id title description message_id = do
  time ← now p
  title' ← lift (normalize_title title)
  description' ← lift (normalize_description description)
  task ← Tasks.add (record {
    id = none;
    user_id = user_id;
    title = title';
    description = description';
    is_completed = false;
    background_processed_at = none;
    created_at = time;
    updated_at = time;
  })
  announce_task p message_id time task

unfoldable pub get_task : ℕ → ℕ → Exec World TaskResult
get_task user_id task_id = do
  found ← Tasks.get_owned task_id user_id
  task ← or_raise found task_not_found_error
  lift (result_of_task task)

unfoldable pub update_task : Platform → ℕ → ℕ → Text → Option Text → Exec World TaskResult
update_task p user_id task_id title description = do
  found ← Tasks.get_owned task_id user_id
  task ← or_raise found task_not_found_error
  time ← now p
  task' ← lift (edited task title description time)
  saved ← Tasks.update task'
  lift (result_of_task saved)

unfoldable pub toggle_task : Platform → ℕ → ℕ → Exec World TaskResult
toggle_task p user_id task_id = do
  found ← Tasks.get_owned task_id user_id
  task ← or_raise found task_not_found_error
  time ← now p
  saved ← Tasks.update (with_completion task (not task.is_completed) time)
  lift (result_of_task saved)

unfoldable pub delete_task : ℕ → ℕ → Exec World (Unit {0})
delete_task user_id task_id = do
  deleted ← Tasks.delete_owned task_id user_id
  raise_if (not deleted) task_not_found_error

unfoldable pub result_of_option : Option Task → Exec World (Option TaskResult)
result_of_option none = pure none
result_of_option (some task) = do result ← lift (result_of_task task); pure (some result)

unfoldable pub process_task_created : Platform → ℕ → Exec World (Option TaskResult)
unfolding result_of_option
process_task_created p task_id = do
  time ← now p
  task ← Tasks.mark_background_processed task_id time
  result_of_option task
