-- ===== src/Application/Confidential.antt =====
-- What a user reads depends on that user's tasks alone.
use lsstack.Persistence.Tasks
use lsstack.Application.Tasks.{get_task, list_tasks}
use lsstack.Exec.{◌>>=◌}
use lsstack.Persistence.Models.{TaskModel, World}
use lsstack.Prelude.{List, Option-cases, ap, arith, inl, inr, refl, select, sym, ℕ, ◌∙◌, ◌≡◌}
use lsstack.Prelude.Table.{find}
use lsstack.Prelude.Table.Laws.{find-select}

own-find :
    (task_id user_id : ℕ) (rows : List TaskModel)
    → find (Tasks.owned_query task_id user_id) (select (Tasks.owned_by user_id) rows)
      ≡ find (Tasks.owned_query task_id user_id) rows
own-find task_id user_id rows =
    find-select (Tasks.owned_query task_id user_id) (Tasks.owned_by user_id) rows
      (λ r h. ground (arith, h))

same-find :
    (task_id user_id : ℕ) (rows rows' : List TaskModel)
    → select (Tasks.owned_by user_id) rows ≡ select (Tasks.owned_by user_id) rows'
    → find (Tasks.owned_query task_id user_id) rows ≡ find (Tasks.owned_query task_id user_id) rows'
same-find task_id user_id rows rows' same =
    sym (own-find task_id user_id rows)
    ∙ ap (find (Tasks.owned_query task_id user_id)) same
    ∙ own-find task_id user_id rows'

list-same :
    (user_id : ℕ) (w v : World)
    → select (Tasks.owned_by user_id) w.db.tasks ≡ select (Tasks.owned_by user_id) v.db.tasks
    → (list_tasks user_id w).0 ≡ (list_tasks user_id v).0
unfolding list_tasks Tasks.list_owned ◌>>=◌
list-same user_id w v same = rw same refl

get-same :
    (user_id task_id : ℕ) (w v : World)
    → find (Tasks.owned_query task_id user_id) w.db.tasks
      ≡ find (Tasks.owned_query task_id user_id) v.db.tasks
    → (get_task user_id task_id w).0 ≡ (get_task user_id task_id v).0
unfolding get_task Tasks.get_owned ◌>>=◌
get-same user_id task_id w v same =
    elim (Option-cases (find (Tasks.owned_query task_id user_id) v.db.tasks)) [
      | inl missing ↦ rw (same, missing) refl
      | inr (r, there) ↦ rw (same, there) refl
    ]

-- In two databases that hold the same tasks of a user, whatever else they hold, listing the tasks
-- and reading any one of them give that user the same answers, errors included.
pub tasks_confidential :
    (user_id task_id : ℕ) (w v : World)
    → select (Tasks.owned_by user_id) w.db.tasks ≡ select (Tasks.owned_by user_id) v.db.tasks
    → ((list_tasks user_id w).0 ≡ (list_tasks user_id v).0)
      × ((get_task user_id task_id w).0 ≡ (get_task user_id task_id v).0)
tasks_confidential user_id task_id w v same = (
  list-same user_id w v same,
  get-same user_id task_id w v (same-find task_id user_id w.db.tasks v.db.tasks same),
)
