-- ===== src/System/Ownership.antt =====
-- What a user does with tasks, seen from the other users.
use lsstack.Application.Ownership.{Private-preorder as private_preorder}
use lsstack.Application.Ownership.{IsNumbered, Private, foreign, private_rules}
use lsstack.Application.Privacy.{
  create_task-Private, delete_task-Private, get_task-Private, list_tasks-Private,
  toggle_task-Private, update_task-Private,
}
use lsstack.Exec.{Exec}
use lsstack.Exec.Steps.{Steps, Steps-bind}
use lsstack.Persistence.Engine.{Outcome}
use lsstack.Persistence.Engine.Atomic.{run_cases}
use lsstack.Persistence.Models.{Database, TaskModel, World}
use lsstack.Persistence.Validity.{IsValid, TaskIsValid}
use lsstack.Platform.{Platform}
use lsstack.Prelude.{Bool, Option, ap, inl, inr, select, sym, ℕ, ◌≡◌, ◌≤◌}
use lsstack.Prelude.Table.Laws.{All-map}
use lsstack.System.{
  Transaction, UseCase, creates, deletes, done, gets_task, lists, perform, step, toggles, updates,
}
use lsstack.Text.{Text}
use mathlib.Core.Path.{subst}

-- The requests on tasks of one user.
pub data TaskUse : Type 0 where
  list_all : TaskUse
  create : Text → Option Text → Option ℕ → TaskUse
  read toggle delete : ℕ → TaskUse
  edit : ℕ → Text → Option Text → TaskUse

unfoldable pub as_user : ℕ → TaskUse → UseCase
as_user user_id list_all = lists user_id
as_user user_id (create title description message_id) = creates user_id title description message_id
as_user user_id (read task_id) = gets_task user_id task_id
as_user user_id (toggle task_id) = toggles user_id task_id
as_user user_id (delete task_id) = deletes user_id task_id
as_user user_id (edit task_id title description) = updates user_id task_id title description

done-Private :
    {A : Type 0} (user_id : ℕ) (m : Exec World A)
    → Steps (Private user_id) m
    → Steps (Private user_id) (done m)
unfolding done
done-Private user_id m h = Steps-bind m _ h (λ a. search private_rules)

perform-Private :
    (p : Platform) (user_id : ℕ) (u : TaskUse)
    → Steps (Private user_id) (perform p (as_user user_id u))
unfolding perform as_user
perform-Private p user_id list_all = done-Private user_id _ (list_tasks-Private user_id)
perform-Private p user_id (create t d m) =
    done-Private user_id _ (create_task-Private p user_id t d m)
perform-Private p user_id (read k) = done-Private user_id _ (get_task-Private user_id k)
perform-Private p user_id (toggle k) = done-Private user_id _ (toggle_task-Private p user_id k)
perform-Private p user_id (delete k) = done-Private user_id _ (delete_task-Private user_id k)
perform-Private p user_id (edit k t d) =
    done-Private user_id _ (update_task-Private p user_id k t d)

valid-IsNumbered : (db : Database) → IsValid db → IsNumbered db
valid-IsNumbered db v = record {
  distinct = v.task_ids;
  drawn =
      All-map (TaskIsValid db.last_task_id db.users) (λ (r : TaskModel). r.id ≤ db.last_task_id)
        db.tasks (λ r t. t.below) v.tasks;
}

-- The transaction of such a request.
abbrev pub request : ℕ → TaskUse → Outcome → (ℕ → Bool) → Transaction
request user_id u o rows = record { use_case = as_user user_id u; outcome = o; locked_rows = rows }

-- On a well-formed database, whatever a user asks to do with tasks and however the transaction
-- ends, the tasks of every other user stay as they are, in the same order, and so do all accounts.
pub tasks_private :
    (p : Platform) (user_id : ℕ) (u : TaskUse) (o : Outcome) (rows : ℕ → Bool) (w : World)
    → IsValid w.db
    → (select (foreign user_id) (step p w (request user_id u o rows)).db.tasks
        ≡ select (foreign user_id) w.db.tasks)
      × ((step p w (request user_id u o rows)).db.users ≡ w.db.users)
unfolding step
tasks_private p user_id u o rows w v =
    let start = record w { locked = rows } in
    elim (run_cases o (perform p (as_user user_id u)) start) [
      | inl (returned, same) ↦
          let k = (perform-Private p user_id u).at start in
          subst
            (λ (x : World).
              (select (foreign user_id) x.db.tasks ≡ select (foreign user_id) w.db.tasks)
              × (x.db.users ≡ w.db.users))
            (sym same) (k.others (valid-IsNumbered w.db v), k.users)
      | inr (raised, same) ↦ (ap (select (foreign user_id)) same.tasks, same.users)
    ]
