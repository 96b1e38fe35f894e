-- ===== src/Persistence/Tasks.antt =====
-- SqlAlchemyTaskRepository of src/app/adapters/persistence/repositories.py.
pub mod Processed
use mathlib.Core.Option
use lsstack.Domain.Tasks.{Task}
use lsstack.Exec.{Exec, err, gets, ok, or_raise, value_error, ◌>>=◌}
use lsstack.Persistence.Models.{TaskModel, World, check_task}
use lsstack.Prelude.{
  Bool, List, Option, is_none, leb, ltb, map, none, not, select, some, sort_by, ℕ, ◌&&◌, ◌+◌, ◌==◌,
  ◌||◌,
}
use lsstack.Prelude.Table.{delete_where, find, insert_row, update_where}

-- `_task`
abbrev pub task_of_model : TaskModel → Task
task_of_model model = record {
  id = some model.id;
  user_id = model.user_id;
  title = model.title;
  description = model.description;
  is_completed = model.is_completed;
  background_processed_at = model.background_processed_at;
  created_at = model.created_at;
  updated_at = model.updated_at;
}

abbrev pub has_id : ℕ → TaskModel → Bool
has_id task_id r = r.id == task_id

abbrev pub owned_by : ℕ → TaskModel → Bool
owned_by user_id r = r.user_id == user_id

-- `_owned_query`
abbrev pub owned_query : ℕ → ℕ → TaskModel → Bool
owned_query task_id user_id r = r.id == task_id && r.user_id == user_id

unfoldable pub insert_task : TaskModel → Exec World Task
insert_task model w =
    let w' = record w { db = record (w.db) { last_task_id = w.db.last_task_id + 1 } } in
    elim (check_task w.db.users model) [
      | some e ↦ (err e, w')
      | none ↦ (
        ok (task_of_model model),
        record w' { db = record (w'.db) { tasks = insert_row model w.db.tasks } },
      )
    ]

unfoldable pub add : Task → Exec World Task
unfolding insert_task
add task w =
    insert_task
      (record {
        id = w.db.last_task_id + 1;
        user_id = task.user_id;
        title = task.title;
        description = task.description;
        is_completed = task.is_completed;
        background_processed_at = task.background_processed_at;
        created_at = task.created_at;
        updated_at = task.updated_at;
      })
      w

unfoldable pub get_owned : ℕ → ℕ → Exec World (Option Task)
get_owned task_id user_id w =
    (ok (Option.map task_of_model (find (owned_query task_id user_id) w.db.tasks)), w)

-- ORDER BY created_at DESC, id DESC
abbrev pub newer : TaskModel → TaskModel → Bool
newer a b = ltb b.created_at a.created_at || b.created_at == a.created_at && leb b.id a.id

unfoldable pub list_owned : ℕ → Exec World (List Task)
list_owned user_id w =
    (ok (map task_of_model (sort_by newer (select (owned_by user_id) w.db.tasks))), w)

abbrev pub set_task : Task → TaskModel → TaskModel
set_task task model = record model {
  title = task.title;
  description = task.description;
  is_completed = task.is_completed;
  background_processed_at = task.background_processed_at;
  updated_at = task.updated_at;
}

unfoldable pub flush_task : ℕ → Task → TaskModel → Exec World Task
flush_task task_id task model w = elim (check_task w.db.users (set_task task model)) [
  | some e ↦ (err e, w)
  | none ↦ (
    ok (task_of_model (set_task task model)),
    record w {
      db = record (w.db) { tasks = update_where (has_id task_id) (set_task task) w.db.tasks };
    },
  )
]

unfoldable pub update : Task → Exec World Task
unfolding flush_task
update task = do
  task_id ← or_raise task.id (value_error "Cannot update an unpersisted task.")
  found ← gets (λ w. find (owned_query task_id task.user_id) w.db.tasks)
  model ← or_raise found (value_error "Cannot update a missing or unowned task.")
  flush_task task_id task model

-- DELETE … RETURNING id
unfoldable pub delete_owned : ℕ → ℕ → Exec World Bool
delete_owned task_id user_id w = (
  ok (not (is_none (find (owned_query task_id user_id) w.db.tasks))),
  record w { db = record (w.db) { tasks = delete_where (owned_query task_id user_id) w.db.tasks } },
)

abbrev pub unprocessed : ℕ → TaskModel → Bool
unprocessed task_id r = r.id == task_id && is_none r.background_processed_at

abbrev pub set_processed : ℕ → TaskModel → TaskModel
set_processed processed_at r = record r {
  background_processed_at = some processed_at;
  updated_at = processed_at;
}

unfoldable pub mark_background_processed : ℕ → ℕ → Exec World (Option Task)
mark_background_processed task_id processed_at w =
    let tasks = update_where (unprocessed task_id) (set_processed processed_at) w.db.tasks in
    (
      ok (Option.map task_of_model (find (has_id task_id) tasks)),
      record w { db = record (w.db) { tasks = tasks } },
    )
