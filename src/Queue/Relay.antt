-- ===== src/Queue/Relay.antt =====
-- src/app/adapters/queue/relay.py. Logging, tracing and metrics are left out.
pub mod Counts
pub mod Delivery
use lsstack.Application.Outbox.{ClaimedMessage, acknowledge_message, claim_messages, fail_message}
use lsstack.Domain.Outbox.{published}
use lsstack.Exec.{
  Error, Exec, Result, attempt, cancelled_error, current_password_mismatch_error, data_error,
  duplicate_email_error, err, integrity_error, invalid_credentials_error, invalid_session_error,
  lift, ok, other_error, pure, raise, runtime_error, task_not_found_error, type_error,
  validation_error, value_error, ◌>>=◌, ◌>>◌,
}
use lsstack.Persistence.Engine.{Outcome, run}
use lsstack.Persistence.Models.{World}
use lsstack.Platform.{Platform}
use lsstack.Prelude.{Bool, List, String, [], false, if◌then◌else◌, true, ℕ, ◌++◌, ◌+◌, ◌∷◌}
use lsstack.Prelude.Int.{ℤ}
use lsstack.Text.{Text, codes, text_eq}
use lsstack.Values.{Fields}

-- What the queue does with a job: it takes it, it has one with that key already, it raises an
-- exception of a class with a text, or the call is cancelled.
pub data Answer : Type 0 where
  accepted already_queued : Answer
  raises : String → String → Answer
  cancels : Answer

pub record Job : Type 0 where
  pub name : Text
  pub payload : Fields
  pub key : ℕ

-- The database with the queue. The surroundings answer each transaction and each `enqueue` in
-- turn; `returned` holds the jobs that `enqueue` returned from without raising, the latest first.
pub record Broker : Type 0 where
  pub world : World
  pub returned : List Job
  pub outcomes : ℕ → Outcome
  pub answers : ℕ → Answer
  pub transactions : ℕ
  pub enqueues : ℕ

-- `await runner.run(operation)`
unfoldable pub transact : {A : Type 0} → Exec World A → Exec Broker A
transact operation b =
    let (r, w) = run (b.outcomes b.transactions) operation b.world in
    (r, record b { world = w; transactions = b.transactions + 1 })

unfoldable pub answer_job : Answer → Job → Exec Broker (Unit {0})
answer_job accepted job b =
    (ok tt, record b { returned = job ∷ b.returned; enqueues = b.enqueues + 1 })
answer_job already_queued job b =
    (ok tt, record b { returned = job ∷ b.returned; enqueues = b.enqueues + 1 })
answer_job (raises name message) job b =
    (err (other_error name message), record b { enqueues = b.enqueues + 1 })
answer_job cancels job b = (err cancelled_error, record b { enqueues = b.enqueues + 1 })

-- `await queue.enqueue(…)`
unfoldable pub enqueue : Job → Exec Broker (Unit {0})
unfolding answer_job
enqueue job b = answer_job (b.answers b.enqueues) job b

-- `_job_name`
unfoldable pub job_name : Text → Result Text
job_name topic =
    if text_eq topic (codes "task.created.v1")
    then ok (codes "process_task_created_job")
    else err (value_error "No SAQ handler is registered for the outbox topic.")

unfoldable pub publish_message : ClaimedMessage → Exec Broker (Unit {0})
publish_message message = do
  name ← lift (job_name message.topic)
  enqueue (record { name = name; payload = message.payload; key = message.id })

-- f"{type(error).__name__}: {error}"
unfoldable pub describe : Error → Text
describe (value_error message) = codes "ValueError: " ++ codes message
describe (runtime_error message) = codes "RuntimeError: " ++ codes message
describe (data_error message) = codes "DataError: " ++ codes message
describe (integrity_error message) = codes "IntegrityError: " ++ codes message
describe (validation_error name message) = codes "ValidationError: " ++ codes message
describe (type_error message) = codes "TypeError: " ++ codes message
describe duplicate_email_error = codes "DuplicateEmailError: "
describe invalid_credentials_error = codes "InvalidCredentialsError: "
describe invalid_session_error = codes "InvalidSessionError: "
describe current_password_mismatch_error = codes "CurrentPasswordMismatchError: "
describe task_not_found_error = codes "TaskNotFoundError: "
describe cancelled_error = codes "CancelledError: "
describe (other_error name message) = codes name ++ codes ": " ++ codes message

-- The body of the `try`.
unfoldable pub publish_and_acknowledge : Platform → Text → ClaimedMessage → Exec Broker Bool
publish_and_acknowledge p owner message = do
  publish_message message
  transact (acknowledge_message p message.id owner)

-- `int(published)`
abbrev pub count_of : Bool → ℕ
count_of true = 1
count_of false = 0

-- How many acknowledgements a message adds: the two `except` clauses.
unfoldable pub settle_message : Text → ClaimedMessage → Result Bool → Exec Broker ℕ
settle_message owner message (ok published) = pure (count_of published)
settle_message owner message (err cancelled_error) = raise cancelled_error
settle_message owner message (err e) = do
  transact (fail_message message.id owner (describe e))
  pure 0

unfoldable pub relay_message : Platform → Text → ClaimedMessage → Exec Broker ℕ
unfolding publish_and_acknowledge settle_message
relay_message p owner message = do
  outcome ← attempt (publish_and_acknowledge p owner message)
  settle_message owner message outcome

unfoldable pub relay_messages : Platform → Text → List ClaimedMessage → ℕ → Exec Broker ℕ
relay_messages p owner [] acknowledged = pure acknowledged
relay_messages p owner (message ∷ rest) acknowledged =
    relay_message p owner message >>= λ n. relay_messages p owner rest (acknowledged + n)

unfoldable pub relay_once : Platform → Text → ℤ → ℤ → Exec Broker ℕ
relay_once p owner lease_duration batch_size = do
  claimed ← transact (claim_messages p owner lease_duration batch_size)
  relay_messages p owner claimed 0
