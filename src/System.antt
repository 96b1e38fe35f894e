-- ===== src/System.antt =====
-- The whole service as a sequence of transactions: each runs one use case of
-- src/app/application on the committed database, and commits or rolls back (TransactionRunner.run of
-- src/app/adapters/persistence/engine.py). Web requests, the relay and the worker are such sequences.
pub mod Validity
pub mod History
pub mod Ownership
use lsstack.Application.Auth.{SessionClaims, authenticate, register, revalidate_session}
use lsstack.Application.Outbox.{acknowledge_message, claim_messages, fail_message}
use lsstack.Application.Profiles.{change_password}
use lsstack.Application.Tasks.{
  create_task, delete_task, get_task, list_tasks, process_task_created, toggle_task, update_task,
}
use lsstack.Exec.{Exec, pure, ◌>>=◌}
use lsstack.Persistence.Engine.{Outcome, run}
use lsstack.Persistence.Models.{Database, World}
use lsstack.Platform.{Platform}
use lsstack.Prelude.{Bool, List, Option, [], false, ℕ, ◌∷◌}
use lsstack.Prelude.Int.{ℤ}
use lsstack.Text.{Text}

pub data UseCase : Type 0 where
  registers logs_in : Text → Text → UseCase
  revalidates : SessionClaims → UseCase
  changes_password : ℕ → Text → Text → Text → UseCase
  lists : ℕ → UseCase
  creates : ℕ → Text → Option Text → Option ℕ → UseCase
  gets_task toggles deletes : ℕ → ℕ → UseCase
  updates : ℕ → ℕ → Text → Option Text → UseCase
  processes : ℕ → UseCase
  claims_batch : Text → ℤ → ℤ → UseCase
  acknowledges : ℕ → Text → UseCase
  fails : ℕ → Text → Text → UseCase

unfoldable pub done : {A : Type 0} → Exec World A → Exec World (Unit {0})
done m = m >>= λ _. pure tt

unfoldable pub perform : Platform → UseCase → Exec World (Unit {0})
perform p (registers email password) = done (register p email password)
perform p (logs_in email password) = done (authenticate p email password)
perform p (revalidates c) = done (revalidate_session p c)
perform p (changes_password user_id current new confirmation) =
    done (change_password p user_id current new confirmation)
perform p (lists user_id) = done (list_tasks user_id)
perform p (creates user_id title description message_id) =
    done (create_task p user_id title description message_id)
perform p (gets_task user_id task_id) = done (get_task user_id task_id)
perform p (toggles user_id task_id) = done (toggle_task p user_id task_id)
perform p (deletes user_id task_id) = done (delete_task user_id task_id)
perform p (updates user_id task_id title description) =
    done (update_task p user_id task_id title description)
perform p (processes task_id) = done (process_task_created p task_id)
perform p (claims_batch owner lease limit) = done (claim_messages p owner lease limit)
perform p (acknowledges message_id owner) = done (acknowledge_message p message_id owner)
perform p (fails message_id owner error) = done (fail_message message_id owner error)

-- One transaction: the use case, how the transaction ends, and the outbox rows that other open
-- transactions have locked meanwhile.
pub record Transaction : Type 0 where
  pub use_case : UseCase
  pub outcome : Outcome
  pub locked_rows : ℕ → Bool

unfoldable pub step : Platform → World → Transaction → World
step p w t = (run t.outcome (perform p t.use_case) (record w { locked = t.locked_rows })).1

unfoldable pub serve : Platform → World → List Transaction → World
serve p w [] = w
serve p w (t ∷ ts) = serve p (step p w t) ts

-- The database after the migrations.
abbrev pub empty_database : Database
empty_database = record { users = []; tasks = []; outbox = []; last_user_id = 0; last_task_id = 0 }

abbrev pub fresh_world : World
fresh_world = record { db = empty_database; locked = λ n. false; readings = 0; verifications = 0 }
