-- ===== src/Application/Tasks/Deleted.antt =====
-- A deleted task is gone.
use lsstack.Persistence.Tasks
use lsstack.Application.Tasks.{delete_task, get_task, toggle_task, update_task}
use lsstack.Exec.{err, ok, task_not_found_error, ◌>>=◌}
use lsstack.Persistence.Models.{World}
use lsstack.Platform.{Platform}
use lsstack.Prelude.{Option, ap, none, refl, ℕ, ◌≡◌}
use lsstack.Prelude.Table.{find}
use lsstack.Prelude.Table.Laws.{find-delete_where}
use lsstack.Text.{Text}
use mathlib.Core.Path.{subst}

deleted_rows :
    (user_id task_id : ℕ) (w w' : World)
    → delete_task user_id task_id w ≡ (ok tt, w')
    → find (Tasks.owned_query task_id user_id) w'.db.tasks ≡ none
unfolding delete_task Tasks.delete_owned ◌>>=◌
deleted_rows user_id task_id w w' h =
    subst (λ (u : World). find (Tasks.owned_query task_id user_id) u.db.tasks ≡ none)
      (ap (λ x. x.1) h) (find-delete_where (Tasks.owned_query task_id user_id) w.db.tasks)

missing-get :
    (user_id task_id : ℕ) (w : World)
    → find (Tasks.owned_query task_id user_id) w.db.tasks ≡ none
    → get_task user_id task_id w ≡ (err task_not_found_error, w)
unfolding get_task Tasks.get_owned ◌>>=◌
missing-get user_id task_id w h = rw h refl

missing-toggle :
    (p : Platform) (user_id task_id : ℕ) (w : World)
    → find (Tasks.owned_query task_id user_id) w.db.tasks ≡ none
    → toggle_task p user_id task_id w ≡ (err task_not_found_error, w)
unfolding toggle_task Tasks.get_owned ◌>>=◌
missing-toggle p user_id task_id w h = rw h refl

missing-update :
    (p : Platform) (user_id task_id : ℕ) (title : Text) (description : Option Text) (w : World)
    → find (Tasks.owned_query task_id user_id) w.db.tasks ≡ none
    → update_task p user_id task_id title description w ≡ (err task_not_found_error, w)
unfolding update_task Tasks.get_owned ◌>>=◌
missing-update p user_id task_id title description w h = rw h refl

-- After a user deleted a task, that user finds no task of that number: reading it, toggling it and
-- editing it each answer that there is none, and change nothing.
pub delete_task-gone :
    (p : Platform) (user_id task_id : ℕ) (title : Text) (description : Option Text) (w w' : World)
    → delete_task user_id task_id w ≡ (ok tt, w')
    → (get_task user_id task_id w' ≡ (err task_not_found_error, w'))
      × (toggle_task p user_id task_id w' ≡ (err task_not_found_error, w'))
      × (update_task p user_id task_id title description w' ≡ (err task_not_found_error, w'))
delete_task-gone p user_id task_id title description w w' h =
    let gone = deleted_rows user_id task_id w w' h in
    (
      missing-get user_id task_id w' gone,
      missing-toggle p user_id task_id w' gone,
      missing-update p user_id task_id title description w' gone,
    )
