-- ===== src/Persistence/Tasks/Processed.antt =====
-- A task is marked as processed once.
use lsstack.Persistence.Tasks
use lsstack.Persistence.Models.{TaskModel, World}
use lsstack.Prelude.{List, [], arith, refl, ℕ, ◌∷◌, ◌≡◌}
use lsstack.Prelude.Table.{update_where}

set_once :
    (task_id : ℕ) (time time' : ℕ) (rows : List TaskModel)
    → update_where
        (Tasks.unprocessed task_id)
        (Tasks.set_processed time')
        (update_where (Tasks.unprocessed task_id) (Tasks.set_processed time) rows)
      ≡ update_where (Tasks.unprocessed task_id) (Tasks.set_processed time) rows
unfolding update_where
set_once task_id time time' [] = refl
set_once task_id time time' (r ∷ rows) = ground (arith, set_once task_id time time' rows)

-- The job may run again, at any time: the first run decides the time, and every later run finds the
-- same task and changes nothing.
pub mark_background_processed_once :
    (task_id time time' : ℕ) (w : World)
    → Tasks.mark_background_processed task_id time'
        (Tasks.mark_background_processed task_id time w).1
      ≡ Tasks.mark_background_processed task_id time w
unfolding Tasks.mark_background_processed
mark_background_processed_once task_id time time' w =
    rw (set_once task_id time time' w.db.tasks) refl
