-- ===== src/Application/Privacy.antt =====
-- The use cases of src/app/application/tasks.py that a user calls, as steps of that user alone.
use lsstack.Application.Ownership.{Private-preorder as private_preorder}
use lsstack.Persistence.Tasks
use lsstack.Persistence.Outbox
use lsstack.Application.Ownership.{
  Private, Private_of_same, add-Private, delete_owned-Private, private_rules, update-Private,
}
use lsstack.Application.Soundness.Toggle.{or_raise-ok}
use lsstack.Application.Tasks.{
  announce_task, create_task, delete_task, get_task, list_tasks, message_id_or_new, toggle_task,
  update_task,
}
use lsstack.Domain.Outbox.{OutboxMessage}
use lsstack.Domain.Tasks.{Task, edited, with_completion}
use lsstack.Exec.{Exec, ok, or_raise, task_not_found_error, ◌>>=◌}
use lsstack.Exec.Steps.{Steps, Steps-bind, Steps-bind-lift, Steps-or_raise, bind_at}
use lsstack.Persistence.Models.{World}
use lsstack.Platform.{Platform}
use lsstack.Prelude.{Option, Option-cases, arith, inl, inr, none, refl, some, ℕ, ◌∙◌, ◌≡◌}
use lsstack.Prelude.Table.{find}
use lsstack.Prelude.Table.Laws.{find_sound}
use lsstack.Security.Passwords.{new_uuid, now}
use lsstack.Text.{Text}

now-Private : (user_id : ℕ) (p : Platform) → Steps (Private user_id) (now p)
unfolding now
now-Private user_id p = record { at = λ w. Private_of_same user_id w _ refl refl refl }

new_uuid-Private : (user_id : ℕ) (p : Platform) → Steps (Private user_id) (new_uuid p)
unfolding new_uuid
new_uuid-Private user_id p = record { at = λ w. Private_of_same user_id w _ refl refl refl }

message_id-Private :
    (user_id : ℕ) (p : Platform) (message_id : Option ℕ)
    → Steps (Private user_id) (message_id_or_new p message_id)
unfolding message_id_or_new
message_id-Private user_id p none = new_uuid-Private user_id p
message_id-Private user_id p (some message_id) = search private_rules

get_owned-Private :
    (user_id task_id : ℕ) → Steps (Private user_id) (Tasks.get_owned task_id user_id)
unfolding Tasks.get_owned
get_owned-Private user_id task_id = record { at = λ w. Private_of_same user_id w _ refl refl refl }

list_owned-Private : (user_id : ℕ) → Steps (Private user_id) (Tasks.list_owned user_id)
unfolding Tasks.list_owned
list_owned-Private user_id = record { at = λ w. Private_of_same user_id w _ refl refl refl }

announced-Private :
    (user_id : ℕ) (message : OutboxMessage) → Steps (Private user_id) (Outbox.add message)
unfolding Outbox.add Outbox.insert_message
announced-Private user_id message = record {
  at = λ w. Private_of_same user_id w _ (ground arith) (ground arith) (ground arith);
}

pub list_tasks-Private : (user_id : ℕ) → Steps (Private user_id) (list_tasks user_id)
unfolding list_tasks
list_tasks-Private user_id = search (private_rules, list_owned-Private)

pub get_task-Private : (user_id task_id : ℕ) → Steps (Private user_id) (get_task user_id task_id)
unfolding get_task
get_task-Private user_id task_id = search (private_rules, get_owned-Private) depth 12

pub delete_task-Private :
    (user_id task_id : ℕ) → Steps (Private user_id) (delete_task user_id task_id)
unfolding delete_task
delete_task-Private user_id task_id = search (private_rules, delete_owned-Private)

announce_task-Private :
    (user_id : ℕ) (p : Platform) (message_id : Option ℕ) (time : ℕ) (task : Task)
    → Steps (Private user_id) (announce_task p message_id time task)
unfolding announce_task
announce_task-Private user_id p message_id time task =
    search (private_rules, message_id-Private, announced-Private) depth 12

pub create_task-Private :
    (p : Platform) (user_id : ℕ) (title : Text) (description : Option Text) (message_id : Option ℕ)
    → Steps (Private user_id) (create_task p user_id title description message_id)
unfolding create_task
create_task-Private p user_id title description message_id =
    Steps-bind (now p) _ (now-Private user_id p) λ time. Steps-bind _ _ (search private_rules) λ t.
      Steps-bind _ _ (search private_rules) λ d.
        Steps-bind _ _ (add-Private user_id _ refl)
          (announce_task-Private user_id p message_id time)

-- What a user reads is that user's.
found-owner :
    (task_id user_id : ℕ) (w t : World) (found : Option Task) (task : Task)
    → Tasks.get_owned task_id user_id w ≡ (ok found, t)
    → found ≡ some task
    → task.user_id ≡ user_id
unfolding Tasks.get_owned
found-owner task_id user_id w t found task h e =
    elim (Option-cases (find (Tasks.owned_query task_id user_id) w.db.tasks)) [
      | inl missing ↦ absurd (ground arith)
      | inr (r, there) ↦
          let sound = find_sound (Tasks.owned_query task_id user_id) w.db.tasks r there in
          ground (arith, sound)
    ]

-- An action on a task of the user that was read first.
on_owned :
    {A : Type 0} (user_id task_id : ℕ) (rest : Task → Exec World A)
    → ((task : Task) → task.user_id ≡ user_id → Steps (Private user_id) (rest task))
    → Steps
        (Private user_id)
        (Tasks.get_owned task_id user_id >>= λ found. or_raise found task_not_found_error >>= rest)
on_owned user_id task_id rest h = record {
  at = λ w.
      bind_at (Private user_id) (Tasks.get_owned task_id user_id) _ w
        ((get_owned-Private user_id task_id).at w)
        λ found t got.
          bind_at (Private user_id) (or_raise found task_not_found_error) _ t
            ((Steps-or_raise {R = Private user_id} found task_not_found_error).at t)
            λ task u taken.
              (h task (
                  found-owner task_id user_id w t found task got
                    (or_raise-ok found task_not_found_error task t u taken))).at
                u;
}

pub toggle_task-Private :
    (p : Platform) (user_id task_id : ℕ) → Steps (Private user_id) (toggle_task p user_id task_id)
unfolding toggle_task with_completion
toggle_task-Private p user_id task_id = on_owned user_id task_id _ λ task mine.
    Steps-bind (now p) _ (now-Private user_id p)
      λ time. Steps-bind _ _ (update-Private user_id _ mine) (λ saved. search private_rules)

edited-owner :
    (task task' : Task) (title : Text) (description : Option Text) (time : ℕ)
    → edited task title description time ≡ ok task'
    → task'.user_id ≡ task.user_id
unfolding edited
edited-owner task task' title description time h = ground arith

pub update_task-Private :
    (p : Platform) (user_id task_id : ℕ) (title : Text) (description : Option Text)
    → Steps (Private user_id) (update_task p user_id task_id title description)
unfolding update_task
update_task-Private p user_id task_id title description = on_owned user_id task_id _ λ task mine.
    Steps-bind (now p) _ (now-Private user_id p) λ time. Steps-bind-lift _ _ λ task' e.
      Steps-bind _ _
        (update-Private user_id task' (edited-owner task task' title description time e ∙ mine))
        (λ saved. search private_rules)
