-- ===== src/Queue/Worker/Payloads.antt =====
-- The payloads that the service writes are those that the worker takes.
use lsstack.Application.Tasks.{task_created_payload}
use lsstack.Exec.{ok}
use lsstack.Persistence.Models.{Database}
use lsstack.Persistence.Validity.{IsValid, MessageIsValid}
use lsstack.Prelude.{All, arith, refl, ℕ, ◌≡◌, ◌≤◌}
use lsstack.Prelude.Table.Laws.{All-map}
use lsstack.Queue.Relay.{job_name}
use lsstack.Queue.Worker.{check_payload}
use lsstack.Text.{codes}
use lsstack.Values.{dict, get}

check-task_created_payload :
    (task_id : ℕ) → 1 ≤ task_id → check_payload (dict (task_created_payload task_id)) ≡ ok task_id
unfolding check_payload get
check-task_created_payload task_id h = ground (arith, h)

-- The relay finds a job for every message of a well-formed database, and the job takes the payload,
-- which names a task by a number that was drawn.
pub messages-accepted :
    (db : Database)
    → IsValid db
    → All
        (λ m.
          (job_name m.topic ≡ ok (codes "process_task_created_job"))
          × ((task_id : ℕ) × (check_payload (dict m.payload) ≡ ok task_id)
              × (1 ≤ task_id)
              × (task_id ≤ db.last_task_id)))
        db.outbox
unfolding lsstack.Text.text_eq job_name
messages-accepted db v =
    All-map (MessageIsValid db.last_task_id) _ db.outbox
      (λ m h. (
        rw h.topic refl,
        (
          h.task,
          rw h.payload (check-task_created_payload h.task h.task_numbered),
          h.task_numbered,
          h.task_below,
        ),
      ))
      v.messages
