-- ===== src/Persistence/Validity/Tasks.antt =====
-- The task repository keeps the database well formed.
use lsstack.Persistence.Tasks
use lsstack.Domain.Tasks.{Task}
use lsstack.Domain.Validation.{IsOptionalDescription, IsTitle}
use lsstack.Exec.Steps.{Steps}
use lsstack.Persistence.Models.{Database, TaskModel, UserModel, World, check_task}
use lsstack.Persistence.Validity.{
  IsValid, Sound, Sound_of_same, TaskIsValid, messages_below_mono, sound_rules, tasks_below_mono,
}
use lsstack.Prelude.{
  All, Bool, List, Option-cases, all, any, arith, inl, inr, none, refl, true, ℕ, ◌+◌, ◌==◌, ◌≡◌,
  ◌≢◌, ◌≤◌,
}
use lsstack.Prelude.Table.{delete_where, insert_row, update_where}
use lsstack.Prelude.Table.Keys.{Unique, Unique-delete_where, Unique-insert_row, Unique-update_where}
use lsstack.Prelude.Table.Laws.{All-delete_where, All-insert_row, All-map, All-update_where}

check_task-owner :
    (users : List UserModel) (r : TaskModel)
    → check_task users r ≡ none
    → any (λ u. u.id == r.user_id) users ≡ true
unfolding check_task
check_task-owner users r h = ground arith

fresh_id :
    (n : ℕ) (users : List UserModel) (rows : List TaskModel)
    → All (TaskIsValid n users) rows
    → All (λ (r : TaskModel). r.id ≢ n + 1) rows
fresh_id n users rows =
    All-map (TaskIsValid n users) (λ (r : TaskModel). r.id ≢ n + 1) rows
      (λ r v. omega (arith, v.below))

-- The tables with other tasks, all of them valid.
with_tasks :
    (db : Database) (next : ℕ) (tasks : List TaskModel)
    → db.last_task_id ≤ next
    → All (TaskIsValid next db.users) tasks
    → Unique (λ (r : TaskModel). r.id) tasks
    → IsValid db
    → IsValid (record db { tasks = tasks; last_task_id = next })
with_tasks db next tasks le all ids v = record {
  users = v.users;
  user_ids = v.user_ids;
  emails = v.emails;
  tasks = all;
  task_ids = ids;
  messages = messages_below_mono db.last_task_id next db.outbox le v.messages;
  message_ids = v.message_ids;
}

drawn_only :
    (w : World) → Sound w (record w { db = record (w.db) { last_task_id = w.db.last_task_id + 1 } })
drawn_only w = record {
  valid = λ v.
      with_tasks w.db (w.db.last_task_id + 1) w.db.tasks (omega arith)
        (tasks_below_mono w.db.last_task_id (w.db.last_task_id + 1) w.db.users w.db.tasks
          (omega arith) v.tasks)
        v.task_ids v;
  users_grow = omega arith;
  tasks_grow = omega arith;
}

inserted :
    (db : Database) (model : TaskModel)
    → model.id ≡ db.last_task_id + 1
    → IsTitle model.title
    → IsOptionalDescription model.description
    → check_task db.users model ≡ none
    → IsValid db
    → IsValid (record db { last_task_id = db.last_task_id + 1; tasks = insert_row model db.tasks })
inserted db model numbered title description fits v =
    with_tasks db (db.last_task_id + 1) (insert_row model db.tasks) (omega arith)
      (All-insert_row (TaskIsValid (db.last_task_id + 1) db.users) model db.tasks
        (tasks_below_mono db.last_task_id (db.last_task_id + 1) db.users db.tasks (omega arith)
          v.tasks)
        (record {
          numbered = omega arith;
          below = omega arith;
          title = title;
          description = description;
          owner = check_task-owner db.users model fits;
        }))
      (Unique-insert_row (λ (r : TaskModel). r.id) model db.tasks v.task_ids
        (rw numbered (fresh_id db.last_task_id db.users db.tasks v.tasks)))
      v

insert_task-Sound :
    (model : TaskModel) (w : World)
    → model.id ≡ w.db.last_task_id + 1
    → IsTitle model.title
    → IsOptionalDescription model.description
    → Sound w (Tasks.insert_task model w).1
unfolding Tasks.insert_task
insert_task-Sound model w numbered title description =
    elim (Option-cases (check_task w.db.users model)) [
      | inr (e, h) ↦ rw (h, Tasks.insert_task) (drawn_only w)
      | inl h ↦
          rw (h, Tasks.insert_task)
            (record {
              valid = inserted w.db model numbered title description h;
              users_grow = omega arith;
              tasks_grow = omega arith;
            })
    ]

-- A task is added with a title and a description that may be stored.
pub add_task-Sound :
    (task : Task)
    → IsTitle task.title
    → IsOptionalDescription task.description
    → Steps Sound (Tasks.add task)
unfolding Tasks.add
add_task-Sound task title description = record {
  at = λ w. insert_task-Sound _ w refl title description;
}

-- An UPDATE of some tasks by a change that keeps them valid, with their numbers.
changed-Sound :
    (p : TaskModel → Bool) (f : TaskModel → TaskModel) (w : World)
    → ((n : ℕ) (users : List UserModel) (r : TaskModel)
        → TaskIsValid n users r
        → TaskIsValid n users (f r))
    → ((r : TaskModel) → (f r).id ≡ r.id)
    → Sound w (record w { db = record (w.db) { tasks = update_where p f w.db.tasks } })
changed-Sound p f w keep same = record {
  valid = λ v.
      with_tasks w.db w.db.last_task_id (update_where p f w.db.tasks) (omega arith)
        (All-update_where (TaskIsValid w.db.last_task_id w.db.users) p f w.db.tasks
          (λ r t _. keep w.db.last_task_id w.db.users r t) v.tasks)
        (Unique-update_where (λ (r : TaskModel). r.id) p f w.db.tasks same v.task_ids) v;
  users_grow = omega arith;
  tasks_grow = omega arith;
}

flush_task-Sound :
    (task_id : ℕ) (task : Task) (model : TaskModel)
    → IsTitle task.title
    → IsOptionalDescription task.description
    → Steps Sound (Tasks.flush_task task_id task model)
unfolding Tasks.flush_task
flush_task-Sound task_id task model title description = record {
  at = λ w. elim (Option-cases (check_task w.db.users (Tasks.set_task task model))) [
    | inr (e, h) ↦ rw (h, Tasks.flush_task) (Sound_of_same refl)
    | inl h ↦
        rw (h, Tasks.flush_task)
          (changed-Sound (Tasks.has_id task_id) (Tasks.set_task task) w
            (λ n users r t. record {
              numbered = t.numbered;
              below = t.below;
              title = title;
              description = description;
              owner = t.owner;
            })
            (λ r. refl))
  ];
}

pub save_task-Sound :
    (task : Task)
    → IsTitle task.title
    → IsOptionalDescription task.description
    → Steps Sound (Tasks.update task)
unfolding Tasks.update
save_task-Sound task title description = search (sound_rules, flush_task-Sound)

pub get_owned-Sound : (task_id user_id : ℕ) → Steps Sound (Tasks.get_owned task_id user_id)
unfolding Tasks.get_owned
get_owned-Sound task_id user_id = record { at = λ w. Sound_of_same refl }

pub list_owned-Sound : (user_id : ℕ) → Steps Sound (Tasks.list_owned user_id)
unfolding Tasks.list_owned
list_owned-Sound user_id = record { at = λ w. Sound_of_same refl }

pub delete_owned-Sound : (task_id user_id : ℕ) → Steps Sound (Tasks.delete_owned task_id user_id)
unfolding Tasks.delete_owned
delete_owned-Sound task_id user_id = record {
  at = λ w. record {
    valid = λ v.
        with_tasks w.db w.db.last_task_id
          (delete_where (Tasks.owned_query task_id user_id) w.db.tasks) (omega arith)
          (All-delete_where (TaskIsValid w.db.last_task_id w.db.users)
            (Tasks.owned_query task_id user_id) w.db.tasks v.tasks)
          (Unique-delete_where (λ (r : TaskModel). r.id) (Tasks.owned_query task_id user_id)
            w.db.tasks v.task_ids)
          v;
    users_grow = omega arith;
    tasks_grow = omega arith;
  };
}

pub mark_background_processed-Sound :
    (task_id time : ℕ) → Steps Sound (Tasks.mark_background_processed task_id time)
unfolding Tasks.mark_background_processed
mark_background_processed-Sound task_id time = record {
  at = λ w.
      changed-Sound (Tasks.unprocessed task_id) (Tasks.set_processed time) w
        (λ n users r t. record {
          numbered = t.numbered;
          below = t.below;
          title = t.title;
          description = t.description;
          owner = t.owner;
        })
        (λ r. refl);
}
