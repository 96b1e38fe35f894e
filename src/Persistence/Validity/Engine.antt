-- ===== src/Persistence/Validity/Engine.antt =====
-- A transaction keeps the database well formed, however it ends.
use lsstack.Exec.{Exec, Result, err, ok}
use lsstack.Exec.Steps.{Steps}
use lsstack.Persistence.Engine.{
  Outcome, cancelled, commits, commits_unheard, fails_to_commit, rollback, run, settle,
}
use lsstack.Persistence.Models.{Database, World}
use lsstack.Persistence.Validity.{
  IsValid, Sound, messages_below_mono, tasks_below_mono, users_below_mono,
}
use lsstack.Prelude.{◌≤◌}
use lsstack.Text.{before}

rollback-IsValid :
    (before : Database) (w : World)
    → before.last_user_id ≤ w.db.last_user_id
    → before.last_task_id ≤ w.db.last_task_id
    → IsValid before
    → IsValid (rollback before w).db
rollback-IsValid before w users tasks v = record {
  users = users_below_mono before.last_user_id w.db.last_user_id before.users users v.users;
  user_ids = v.user_ids;
  emails = v.emails;
  tasks =
      tasks_below_mono before.last_task_id w.db.last_task_id before.users before.tasks tasks
        v.tasks;
  task_ids = v.task_ids;
  messages =
      messages_below_mono before.last_task_id w.db.last_task_id before.outbox tasks v.messages;
  message_ids = v.message_ids;
}

undone : (s t : World) → Sound s t → Sound s (rollback s.db t)
undone s t h = record {
  valid = rollback-IsValid s.db t h.users_grow h.tasks_grow;
  users_grow = h.users_grow;
  tasks_grow = h.tasks_grow;
}

settle-Sound :
    {A : Type 0} (o : Outcome) (s : World) (r : Result A) (t : World)
    → Sound s t
    → Sound s (settle o s.db (r, t)).1
unfolding settle
settle-Sound commits s (ok a) t h = h
settle-Sound commits s (err e) t h = undone s t h
settle-Sound commits_unheard s (ok a) t h = h
settle-Sound commits_unheard s (err e) t h = undone s t h
settle-Sound fails_to_commit s (ok a) t h = undone s t h
settle-Sound fails_to_commit s (err e) t h = undone s t h
settle-Sound cancelled s (ok a) t h = undone s t h
settle-Sound cancelled s (err e) t h = undone s t h

pub run-Sound :
    {A : Type 0} (o : Outcome) (m : Exec World A) → Steps Sound m → Steps Sound (run o m)
unfolding run
run-Sound o m h = record { at = λ s. let (r, t) = m s in settle-Sound o s r t (h.at s) }
