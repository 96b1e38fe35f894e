-- ===== src/Application/Tasks/Created.antt =====
-- A task is created together with its message in the outbox.
use lsstack.Persistence.Outbox
use lsstack.Application.Tasks.{
  TaskCreatedResult, TaskResult, announce_task, create_task, task_created_payload,
  task_created_topic,
}
use lsstack.Domain.Outbox.{OutboxMessage}
use lsstack.Exec.{ok, pure, ◌>>◌}
use lsstack.Exec.Inversion.{Returns, Returns-bind, bind_ok}
use lsstack.Persistence.Models.{OutboxMessageModel, World, check_message}
use lsstack.Platform.{Platform}
use lsstack.Prelude.{Bool-cases, Option, Option-cases, any, ap, arith, inl, inr, none, some, ℕ, ◌≡◌}
use lsstack.Prelude.Table.{find}
use lsstack.Prelude.Table.Laws.{find-insert_row, find-none}
use lsstack.Text.{Text}
use mathlib.Core.Path.{subst}

-- The message that announces a task: unpublished, free, and never tried.
abbrev pub announcement : ℕ → ℕ → ℕ → OutboxMessageModel
announcement message_id task_id time = record {
  id = message_id;
  topic = task_created_topic;
  payload = task_created_payload task_id;
  created_at = time;
  published_at = none;
  lease_owner = none;
  lease_expires_at = none;
  attempt_count = 0;
  last_error = none;
}

-- The outbox holds the announcement of the task.
record Announced (created : TaskCreatedResult) (w : World) : Type 0 where
  time : ℕ
  there :
      find (Outbox.has_id created.outbox_message_id) w.db.outbox
      ≡ some (announcement created.outbox_message_id created.task.id time)

insert-there :
    (model : OutboxMessageModel) (w w' : World) (message : OutboxMessage)
    → Outbox.insert_message model w ≡ (ok message, w')
    → find (Outbox.has_id model.id) w'.db.outbox ≡ some model
unfolding Outbox.insert_message
insert-there model w w' message h = elim (Option-cases (check_message model)) [
  | inr (e, bad) ↦ let k = rw (bad, Outbox.insert_message) at h in absurd (ground arith)
  | inl fits ↦ elim (Bool-cases (any (Outbox.has_id model.id) w.db.outbox)) [
    | inl taken ↦ let k = rw (fits, taken, Outbox.insert_message) at h in absurd (ground arith)
    | inr free ↦
        let k = rw (fits, free, Outbox.insert_message) at h in
        subst (λ (u : World). find (Outbox.has_id model.id) u.db.outbox ≡ some model)
          (ap (λ x. x.1) k)
          (rw
            (
              find-insert_row (Outbox.has_id model.id) model w.db.outbox,
              find-none (Outbox.has_id model.id) w.db.outbox free,
            )
            (ground arith))
  ]
]

written-Announced :
    (outbox_id time : ℕ) (result : TaskResult)
    → Returns Announced (do
      Outbox.add (record {
        id = outbox_id;
        topic = task_created_topic;
        payload = task_created_payload result.id;
        created_at = time;
        published_at = none;
        lease_owner = none;
        lease_expires_at = none;
        attempt_count = 0;
        last_error = none;
      })
      pure (record { task = result; outbox_message_id = outbox_id }))
unfolding Outbox.add pure
written-Announced outbox_id time result = record {
  ends = λ s t created h.
      let (message, u, wrote, last) = bind_ok _ _ s t created h in
      let same : record { task = result; outbox_message_id = outbox_id } ≡ created =
        ground (arith, last) in
      let left : u ≡ t = ap (λ x. x.1) last in
      subst (λ c. Announced c t) same
        (record {
          time = time;
          there =
              subst
                (λ (v : World).
                  find (Outbox.has_id outbox_id) v.db.outbox
                  ≡ some (announcement outbox_id result.id time))
                left (insert-there (announcement outbox_id result.id time) s u message wrote);
        });
}

create_task-Returns :
    (p : Platform) (user_id : ℕ) (title : Text) (description : Option Text) (message_id : Option ℕ)
    → Returns Announced (create_task p user_id title description message_id)
unfolding create_task announce_task
create_task-Returns p user_id title description message_id = Returns-bind _ _ _ λ time.
    Returns-bind _ _ _ λ title'. Returns-bind _ _ _ λ description'. Returns-bind _ _ _ λ task.
      Returns-bind _ _ _
        λ result. Returns-bind _ _ _ λ outbox_id. written-Announced outbox_id time result

-- A creation that returned has left in the outbox, under the number that it answers, an
-- unpublished and free message about the task that it answers, which no relay has tried.
pub create_task-announced :
    (p : Platform) (user_id : ℕ) (title : Text) (description : Option Text) (message_id : Option ℕ)
    (w w' : World) (created : TaskCreatedResult)
    → create_task p user_id title description message_id w ≡ (ok created, w')
    → (time : ℕ) × (find (Outbox.has_id created.outbox_message_id) w'.db.outbox
        ≡ some (announcement created.outbox_message_id created.task.id time))
create_task-announced p user_id title description message_id w w' created h =
    let a = (create_task-Returns p user_id title description message_id).ends w w' created h in
    (a.time, a.there)
