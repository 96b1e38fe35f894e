-- ===== src/Queue/Worker.antt =====
-- The two jobs of src/app/adapters/queue/worker.py.
pub mod Payloads
use lsstack.Application.Tasks.{process_task_created}
use lsstack.Exec.{Exec, Result, err, lift, ok, or_raise, pure, type_error, value_error, ◌>>=◌}
use lsstack.Platform.{Platform}
use lsstack.Prelude.{Bool, Option, false, if◌then◌else◌, is_none, none, not, some, ℕ}
use lsstack.Prelude.Int.{eqb_ℤ, ltb_ℤ, pos, pos_part, ℤ}
use lsstack.Queue.Relay.{Broker, relay_once, transact}
use lsstack.Text.{Text}
use lsstack.Values.{Value, as_int, dict, finite, float, get, int, scaled}

-- not (isinstance(version, bool) or version != 1)
is_version_one : Option Value → Bool
is_version_one (some (int n)) = eqb_ℤ n (pos 1)
is_version_one (some (float (finite x))) = eqb_ℤ x (scaled (pos 1))
is_version_one _ = false

task_id_of : Option ℤ → Option ℕ
task_id_of none = none
task_id_of (some n) = if ltb_ℤ n (pos 1) then none else some (pos_part n)

-- The task that a payload names, or the exception.
unfoldable pub check_payload : Value → Result ℕ
unfolding is_version_one task_id_of
check_payload (dict message) =
    if is_version_one (get message "version")
    then elim (task_id_of (as_int (get message "task_id"))) [
      | none ↦ err (value_error "Invalid task.created.v1 payload.")
      | some task_id ↦ ok task_id
    ]
    else err (value_error "Invalid task.created.v1 payload.")
check_payload _ = err (type_error "task.created.v1 payload must be an object.")

-- {"task_id": …, "processed": …}
pub record JobResult : Type 0 where
  pub task_id : ℕ
  pub processed : Bool

-- WorkerResources, as far as the jobs use it, with the worker's own identifier.
pub record WorkerResources : Type 0 where
  pub worker_id : Text
  pub lease_duration : ℤ
  pub batch_size : ℤ

-- `_resources` of a context that start-up may not have filled
abbrev resources_of : Option WorkerResources → Exec Broker WorkerResources
resources_of context =
    or_raise context (type_error "SAQ application resources were not initialized.")

-- The delay of 0.2 seconds is left out.
unfoldable pub process_task_created_job :
    Platform → Option WorkerResources → Value → Exec Broker JobResult
process_task_created_job p context payload = do
  task_id ← lift (check_payload payload)
  resources ← resources_of context
  result ← transact (process_task_created p task_id)
  pure (record { task_id = task_id; processed = not (is_none result) })

unfoldable pub relay_outbox_job : Platform → Option WorkerResources → Exec Broker ℕ
relay_outbox_job p context = do
  resources ← resources_of context
  relay_once p resources.worker_id resources.lease_duration resources.batch_size
