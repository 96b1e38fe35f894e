-- ===== src/System/History/Statements.antt =====
-- The statements of the repositories keep what is published.
use lsstack.Persistence.Outbox.History.{History-preorder as history_preorder}
use lsstack.Persistence.Users
use lsstack.Persistence.Tasks
use lsstack.Domain.Tasks.{Task}
use lsstack.Domain.Users.{User}
use lsstack.Exec.{modify, ◌>>=◌}
use lsstack.Exec.Steps.{Steps}
use lsstack.Persistence.Models.{TaskModel, UserModel}
use lsstack.Persistence.Outbox.History.{
  History, History_of_same, add-History, claim_batch-History, history_rules, mark_failed-History,
  mark_published-History,
}
use lsstack.Platform.{Platform}
use lsstack.Prelude.{arith, refl, ℕ}
use lsstack.Security.Passwords.{hash, now, verify, verify_unknown}
use lsstack.Text.{Text}

pub now-History : (p : Platform) → Steps History (now p)
unfolding now
now-History p = record { at = λ w. History_of_same w _ refl }

pub hash-History : (p : Platform) (password : Text) → Steps History (hash p password)
unfolding hash
hash-History p password = record { at = λ w. History_of_same w _ refl }

pub verify-History :
    (p : Platform) (password stored : Text) → Steps History (verify p password stored)
unfolding verify ◌>>=◌
verify-History p password stored = record { at = λ w. History_of_same w _ refl }

pub verify_unknown-History :
    (p : Platform) (password : Text) → Steps History (verify_unknown p password)
unfolding verify_unknown modify
verify_unknown-History p password = record { at = λ w. History_of_same w _ refl }

pub add_user-History : (user : User) → Steps History (Users.add user)
unfolding Users.add
add_user-History user = record { at = λ w. History_of_same w _ (ground arith) }

pub get_by_id-History : (user_id : ℕ) → Steps History (Users.get_by_id user_id)
unfolding Users.get_by_id
get_by_id-History user_id = record { at = λ w. History_of_same w _ refl }

pub get_by_id_for_update-History :
    (user_id : ℕ) → Steps History (Users.get_by_id_for_update user_id)
unfolding Users.get_by_id_for_update
get_by_id_for_update-History user_id = record { at = λ w. History_of_same w _ refl }

pub get_by_email_for_update-History :
    (email : Text) → Steps History (Users.get_by_email_for_update email)
unfolding Users.get_by_email_for_update
get_by_email_for_update-History email = record { at = λ w. History_of_same w _ refl }

pub flush_credentials-History :
    (user_id : ℕ) (user : User) (model : UserModel)
    → Steps History (Users.flush_credentials user_id user model)
unfolding Users.flush_credentials
flush_credentials-History user_id user model = record {
  at = λ w. History_of_same w _ (ground arith);
}

pub update_credentials-History : (user : User) → Steps History (Users.update_credentials user)
unfolding Users.update_credentials
update_credentials-History user = search (history_rules, flush_credentials-History)

pub insert_task-History : (model : TaskModel) → Steps History (Tasks.insert_task model)
unfolding Tasks.insert_task
insert_task-History model = record { at = λ w. History_of_same w _ (ground arith) }

pub add_task-History : (task : Task) → Steps History (Tasks.add task)
unfolding Tasks.add
add_task-History task = record { at = λ w. History_of_same w _ (ground arith) }

pub get_owned-History : (task_id user_id : ℕ) → Steps History (Tasks.get_owned task_id user_id)
unfolding Tasks.get_owned
get_owned-History task_id user_id = record { at = λ w. History_of_same w _ refl }

pub list_owned-History : (user_id : ℕ) → Steps History (Tasks.list_owned user_id)
unfolding Tasks.list_owned
list_owned-History user_id = record { at = λ w. History_of_same w _ refl }

pub delete_owned-History :
    (task_id user_id : ℕ) → Steps History (Tasks.delete_owned task_id user_id)
unfolding Tasks.delete_owned
delete_owned-History task_id user_id = record { at = λ w. History_of_same w _ refl }

pub mark_background_processed-History :
    (task_id time : ℕ) → Steps History (Tasks.mark_background_processed task_id time)
unfolding Tasks.mark_background_processed
mark_background_processed-History task_id time = record { at = λ w. History_of_same w _ refl }

pub flush_task-History :
    (task_id : ℕ) (task : Task) (model : TaskModel)
    → Steps History (Tasks.flush_task task_id task model)
unfolding Tasks.flush_task
flush_task-History task_id task model = record { at = λ w. History_of_same w _ (ground arith) }

pub update-History : (task : Task) → Steps History (Tasks.update task)
unfolding Tasks.update
update-History task = search (history_rules, flush_task-History)

pub ruleset outbox_rules = (
  history_rules, now-History, hash-History, verify-History, verify_unknown-History,
  add_user-History, get_by_id-History, get_by_id_for_update-History,
  get_by_email_for_update-History, update_credentials-History, add_task-History, get_owned-History,
  list_owned-History, delete_owned-History, mark_background_processed-History, update-History,
  mark_published-History, mark_failed-History, claim_batch-History, add-History,
)
