-- ===== src/Tests/Store.antt =====
-- The theorems on the database at a small service.
use lsstack.Persistence.Outbox
use lsstack.Persistence.Tasks
use lsstack.Application.Auth.{authenticate}
use lsstack.Application.Auth.Uniform.{authenticate-checks_once}
use lsstack.Application.Ownership.{foreign}
use lsstack.Application.Tasks.{delete_task, get_task, toggle_task, update_task}
use lsstack.Application.Tasks.Deleted.{delete_task-gone}
use lsstack.Domain.Outbox.{OutboxMessage}
use lsstack.Exec.{err, ok, task_not_found_error, ◌>>=◌}
use lsstack.Persistence.Engine.{commits}
use lsstack.Persistence.Models.{OutboxMessageModel, check_message}
use lsstack.Persistence.Outbox.Claims.{IsEarliestFirst, IsFree, candidates_lem}
use lsstack.Persistence.Outbox.Published.{published_once, row}
use lsstack.Persistence.Outbox.Running.{
  OutboxCall, calls, claims_disjoint, claims_messages, marks_failed,
}
use lsstack.Persistence.Tasks.Processed.{mark_background_processed_once}
use lsstack.Persistence.Validity.{IsValid}
use lsstack.Prelude.{
  All, Bool, List, [], any, arith, false, none, refl, select, some, sort_by, true, ℕ, ◌+◌, ◌==◌,
  ◌↔◌, ◌∷◌, ◌≡◌, ◌≤◌,
}
use lsstack.Prelude.Table.{delete_where, find, update_where}
use lsstack.Queue.Relay.{job_name}
use lsstack.Queue.Worker.{check_payload}
use lsstack.Queue.Worker.Payloads.{messages-accepted}
use lsstack.System.{acknowledges, serve, step, toggles}
use lsstack.System.History.{published_forever}
use lsstack.System.Ownership.{delete, request, tasks_private}
use lsstack.System.Validity.{serve-IsValid}
use lsstack.Tests.{
  committed, free_message, leased_message, nothing_locked, one_task, outbox_of, plain_platform,
  published_message, two_users, two_users-IsValid,
}
use lsstack.Text.{codes}
use lsstack.Values.{dict}
use mathlib.Core.List.{Perm}

serve-IsValid_example : IsValid (serve plain_platform two_users (committed (toggles 1 1) ∷ [])).db
serve-IsValid_example =
    serve-IsValid plain_platform two_users (committed (toggles 1 1) ∷ []) two_users-IsValid

published_forever_example :
    row 7 (
      serve plain_platform
        (outbox_of published_message)
        (committed (acknowledges 7 (codes "relay")) ∷ []))
    ≡ some published_message
published_forever_example =
    published_forever plain_platform (outbox_of published_message)
      (committed (acknowledges 7 (codes "relay")) ∷ []) 7 42 published_message (tt, tt)
      (unfold row find in refl) refl

tasks_private_example :
    (select
        (foreign 1)
        (step plain_platform two_users (request 1 (delete 1) commits nothing_locked)).db.tasks
      ≡ select (foreign 1) two_users.db.tasks)
    × ((step plain_platform two_users (request 1 (delete 1) commits nothing_locked)).db.users
        ≡ two_users.db.users)
tasks_private_example =
    tasks_private plain_platform 1 (delete 1) commits nothing_locked two_users two_users-IsValid

candidates_lem_example :
    ((keep : OutboxMessageModel → Bool) × ((r : OutboxMessageModel)
        → (keep r ≡ true) ↔ (IsFree 50 r × ((outbox_of free_message).locked r.id ≡ false)))
      × Perm
          (Outbox.candidates (outbox_of free_message).locked 50 (outbox_of free_message).db.outbox)
          (select keep (outbox_of free_message).db.outbox))
    × IsEarliestFirst
        (Outbox.candidates (outbox_of free_message).locked 50 (outbox_of free_message).db.outbox)
candidates_lem_example = candidates_lem (outbox_of free_message) 50

abbrev meanwhile : List OutboxCall
meanwhile =
    marks_failed 7 (codes "relay") (codes "down")
    ∷ claims_messages (codes "other") 30 70 5 nothing_locked
    ∷ []

claims_disjoint_example : any (λ (m : OutboxMessage). m.id == 7) [] ≡ false
unfolding Outbox.claim_batch Outbox.mark_failed calls any sort_by select update_where check_message
    lsstack.Text.text_eq
claims_disjoint_example =
    claims_disjoint (codes "relay") (codes "other") 20 60 5 59 99 5 (outbox_of free_message)
      (outbox_of leased_message) (calls meanwhile (outbox_of leased_message))
      (Outbox.message_of_model leased_message ∷ []) [] meanwhile nothing_locked 7 refl
      (tt, (omega arith, tt)) refl (omega arith) refl

published_once_example :
    Outbox.mark_published 7 (codes "other") 45 (outbox_of published_message)
    ≡ (ok false, outbox_of published_message)
unfolding Outbox.mark_published find update_where lsstack.Text.text_eq
published_once_example =
    published_once 7 (codes "relay") (codes "other") 42 45 (outbox_of leased_message)
      (outbox_of published_message) (tt, tt) refl

authenticate-checks_once_example :
    (authenticate plain_platform (codes "nobody") (codes "secret") two_users).1.verifications
    ≡ two_users.verifications + 1
authenticate-checks_once_example =
    authenticate-checks_once plain_platform (codes "nobody") (codes "secret") two_users

messages-accepted_example :
    All
      (λ m.
        (job_name m.topic ≡ ok (codes "process_task_created_job"))
        × ((task_id : ℕ) × (check_payload (dict m.payload) ≡ ok task_id)
            × (1 ≤ task_id)
            × (task_id ≤ two_users.db.last_task_id)))
      two_users.db.outbox
messages-accepted_example = messages-accepted two_users.db two_users-IsValid

mark_background_processed_once_example :
    Tasks.mark_background_processed 1 20 (Tasks.mark_background_processed 1 10 two_users).1
    ≡ Tasks.mark_background_processed 1 10 two_users
mark_background_processed_once_example = mark_background_processed_once 1 10 20 two_users

delete_task-gone_example :
    (get_task 1 1 (delete_task 1 1 one_task).1
      ≡ (err task_not_found_error, (delete_task 1 1 one_task).1))
    × (toggle_task plain_platform 1 1 (delete_task 1 1 one_task).1
        ≡ (err task_not_found_error, (delete_task 1 1 one_task).1))
    × (update_task plain_platform 1 1 (codes "x") none (delete_task 1 1 one_task).1
        ≡ (err task_not_found_error, (delete_task 1 1 one_task).1))
unfolding delete_task Tasks.delete_owned ◌>>=◌ find delete_where
delete_task-gone_example =
    delete_task-gone plain_platform 1 1 (codes "x") none one_task (delete_task 1 1 one_task).1 refl
