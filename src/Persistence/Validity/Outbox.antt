-- ===== src/Persistence/Validity/Outbox.antt =====
-- The outbox repository keeps the database well formed.
use lsstack.Persistence.Outbox
use lsstack.Domain.Outbox.{OutboxMessage}
use lsstack.Exec.Steps.{Steps}
use lsstack.Persistence.Models.{Database, OutboxMessageModel, World, check_message}
use lsstack.Persistence.Validity.{IsValid, MessageIsValid, Sound, Sound_of_same}
use lsstack.Prelude.{
  All, Bool, Bool-cases, List, Option-cases, [], all, any, arith, false, inl, inr, refl, true, ℕ,
  ◌∷◌, ◌≡◌, ◌≢◌,
}
use lsstack.Prelude.Table.{insert_row, update_where}
use lsstack.Prelude.Table.Keys.{Unique, Unique-insert_row, Unique-update_where}
use lsstack.Prelude.Table.Laws.{All-insert_row, All-update_where}
use lsstack.Text.{Text}

-- The tables with another outbox, all of its messages valid.
pub with_outbox :
    (db : Database) (outbox : List OutboxMessageModel)
    → All (MessageIsValid db.last_task_id) outbox
    → Unique (λ (r : OutboxMessageModel). r.id) outbox
    → IsValid db
    → IsValid (record db { outbox = outbox })
with_outbox db outbox all ids v = record {
  users = v.users;
  user_ids = v.user_ids;
  emails = v.emails;
  tasks = v.tasks;
  task_ids = v.task_ids;
  messages = all;
  message_ids = ids;
}

pub fresh_message :
    (n : ℕ) (rows : List OutboxMessageModel)
    → any (Outbox.has_id n) rows ≡ false
    → All (λ (r : OutboxMessageModel). r.id ≢ n) rows
unfolding any
fresh_message n [] h = tt
fresh_message n (r ∷ rows) h = (ground arith, fresh_message n rows (ground arith))

insert_message-Sound :
    (model : OutboxMessageModel) (w : World)
    → MessageIsValid w.db.last_task_id model
    → Sound w (Outbox.insert_message model w).1
unfolding Outbox.insert_message
insert_message-Sound model w m = elim (Option-cases (check_message model)) [
  | inr (e, h) ↦ rw (h, Outbox.insert_message) (Sound_of_same refl)
  | inl h ↦ elim (Bool-cases (any (Outbox.has_id model.id) w.db.outbox)) [
    | inl taken ↦ rw (h, Outbox.insert_message, taken) (Sound_of_same refl)
    | inr free ↦
        rw (h, Outbox.insert_message, free)
          (record {
            valid = λ v.
                with_outbox w.db (insert_row model w.db.outbox)
                  (All-insert_row (MessageIsValid w.db.last_task_id) model w.db.outbox v.messages m)
                  (Unique-insert_row (λ (r : OutboxMessageModel). r.id) model w.db.outbox
                    v.message_ids (fresh_message model.id w.db.outbox free))
                  v;
            users_grow = omega arith;
            tasks_grow = omega arith;
          })
  ]
]

-- A message is added that tells of a numbered task.
pub add_message-Sound :
    (message : OutboxMessage) (w : World)
    → MessageIsValid w.db.last_task_id (Outbox.model_of_message message)
    → Sound w (Outbox.add message w).1
unfolding Outbox.add
add_message-Sound message w m = insert_message-Sound (Outbox.model_of_message message) w m

-- An UPDATE of some messages by a change that keeps them valid, with their numbers.
changed-Sound :
    (p : OutboxMessageModel → Bool) (f : OutboxMessageModel → OutboxMessageModel) (w : World)
    → ((n : ℕ) (r : OutboxMessageModel) → MessageIsValid n r → p r ≡ true → MessageIsValid n (f r))
    → ((r : OutboxMessageModel) → (f r).id ≡ r.id)
    → Sound w (record w { db = record (w.db) { outbox = update_where p f w.db.outbox } })
changed-Sound p f w keep same = record {
  valid = λ v.
      with_outbox w.db (update_where p f w.db.outbox)
        (All-update_where (MessageIsValid w.db.last_task_id) p f w.db.outbox
          (keep w.db.last_task_id) v.messages)
        (Unique-update_where (λ (r : OutboxMessageModel). r.id) p f w.db.outbox same v.message_ids)
        v;
  users_grow = omega arith;
  tasks_grow = omega arith;
}

pub mark_published-Sound :
    (message_id : ℕ) (owner : Text) (time : ℕ)
    → Steps Sound (Outbox.mark_published message_id owner time)
unfolding Outbox.mark_published
mark_published-Sound message_id owner time = record {
  at = λ w.
      changed-Sound (Outbox.held message_id owner) (Outbox.set_published time) w
        (λ n r m _. record {
          task = m.task;
          task_numbered = m.task_numbered;
          task_below = m.task_below;
          topic = m.topic;
          payload = m.payload;
          paired = refl;
          released = λ _. refl;
        })
        (λ r. refl);
}

pub mark_failed-Sound :
    (message_id : ℕ) (owner error : Text) → Steps Sound (Outbox.mark_failed message_id owner error)
unfolding Outbox.mark_failed
mark_failed-Sound message_id owner error = record {
  at = λ w.
      changed-Sound (Outbox.held message_id owner) (Outbox.set_failed error) w
        (λ n r m _. record {
          task = m.task;
          task_numbered = m.task_numbered;
          task_below = m.task_below;
          topic = m.topic;
          payload = m.payload;
          paired = m.paired;
          released = m.released;
        })
        (λ r. refl);
}
