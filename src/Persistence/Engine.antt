-- ===== src/Persistence/Engine.antt =====
-- TransactionRunner of src/app/adapters/persistence/engine.py. A transaction begins on the committed
-- database, and its statements are seen by no other. `run` commits what the operation wrote if it
-- returns and the commit is accepted, and rolls it back if it raises, if it is cancelled or if the
-- commit fails. A commit whose answer is lost raises, and has taken effect. A roll-back gives the tables back as they were; sequences keep what was drawn.
pub mod Atomic
use lsstack.Exec.{Exec, Result, cancelled_error, err, ok, pure, runtime_error}
use lsstack.Persistence.Models.{Database, World}
use lsstack.Prelude.{Bool, true}
use lsstack.Text.{before}

-- How the surroundings answer: the operation is cancelled; or the commit goes through, fails, or
-- goes through on the server while its answer is lost, as when `fail_after` runs out.
pub data Outcome : Type 0 where
  commits fails_to_commit commits_unheard cancelled : Outcome

abbrev pub rollback : Database → World → World
rollback before w = record w {
  db = record before { last_user_id = w.db.last_user_id; last_task_id = w.db.last_task_id };
}

unfoldable pub settle : {A : Type 0} → Outcome → Database → Result A × World → Result A × World
settle commits before (ok a, w) = (ok a, w)
settle fails_to_commit before (ok a, w) =
    (err (runtime_error "The commit failed."), rollback before w)
settle commits_unheard before (ok a, w) = (err (runtime_error "The commit timed out."), w)
settle cancelled before (ok a, w) = (err cancelled_error, rollback before w)
settle o before (err e, w) = (err e, rollback before w)

unfoldable pub run : {A : Type 0} → Outcome → Exec World A → Exec World A
unfolding settle
run outcome operation w = settle outcome w.db (operation w)

-- `SELECT true` through the same bridge
unfoldable pub probe : Outcome → Exec World Bool
unfolding run
probe outcome = run outcome (pure true)
