-- ===== src/Persistence/Outbox.antt =====
-- SqlAlchemyOutboxRepository of src/app/adapters/persistence/repositories.py.
pub mod Claims
pub mod Published
pub mod History
pub mod Leases
pub mod Running
pub mod Marks
pub mod Progress
use lsstack.Domain.Outbox.{OutboxMessage}
use lsstack.Exec.{Error, Exec, err, integrity_error, ok}
use lsstack.Persistence.Models.{OutboxMessageModel, World, check_message}
use lsstack.Prelude.{
  Bool, List, Option, [], any, false, if◌then◌else◌, is_none, leb, ltb, map, none, not, select,
  some, sort_by, take, true, ℕ, ◌&&◌, ◌+◌, ◌==◌, ◌||◌, ◌∷◌,
}
use lsstack.Prelude.Table.{find, insert_row, update_where}
use lsstack.Prelude.Table.Laws.{changed}
use lsstack.Security.Passwords.{now}
use lsstack.Text.{Text, text_eq}

-- `_outbox`
abbrev pub message_of_model : OutboxMessageModel → OutboxMessage
message_of_model model = record {
  id = model.id;
  topic = model.topic;
  payload = model.payload;
  created_at = model.created_at;
  published_at = model.published_at;
  lease_owner = model.lease_owner;
  lease_expires_at = model.lease_expires_at;
  attempt_count = model.attempt_count;
  last_error = model.last_error;
}

abbrev pub model_of_message : OutboxMessage → OutboxMessageModel
model_of_message message = record {
  id = message.id;
  topic = message.topic;
  payload = message.payload;
  created_at = message.created_at;
  published_at = message.published_at;
  lease_owner = message.lease_owner;
  lease_expires_at = message.lease_expires_at;
  attempt_count = message.attempt_count;
  last_error = message.last_error;
}

abbrev pub has_id : ℕ → OutboxMessageModel → Bool
has_id message_id r = r.id == message_id

unfoldable pub insert_message : OutboxMessageModel → Exec World OutboxMessage
insert_message model w = elim (check_message model) [
  | some e ↦ (err e, w)
  | none ↦
      if any (has_id model.id) w.db.outbox
      then (err (integrity_error "pk_outbox_messages"), w)
      else (
        ok (message_of_model model),
        record w { db = record (w.db) { outbox = insert_row model w.db.outbox } },
      )
]

unfoldable pub add : OutboxMessage → Exec World OutboxMessage
unfolding insert_message
add message = insert_message (model_of_message message)

-- lease_expires_at IS NULL OR lease_expires_at <= now
abbrev pub lease_over : ℕ → Option ℕ → Bool
lease_over now none = true
lease_over now (some expires) = leb expires now

abbrev pub claimable : ℕ → OutboxMessageModel → Bool
claimable now r = is_none r.published_at && lease_over now r.lease_expires_at

-- ORDER BY created_at, id
abbrev pub older : OutboxMessageModel → OutboxMessageModel → Bool
older a b = ltb a.created_at b.created_at || a.created_at == b.created_at && leb a.id b.id

-- The rows of the SELECT … FOR UPDATE SKIP LOCKED, before LIMIT.
unfoldable pub candidates : (ℕ → Bool) → ℕ → List OutboxMessageModel → List OutboxMessageModel
candidates locked now rows = sort_by older (select (λ r. claimable now r && not (locked r.id)) rows)

abbrev pub set_lease : Text → ℕ → OutboxMessageModel → OutboxMessageModel
set_lease owner lease_expires_at r = record r {
  lease_owner = some owner;
  lease_expires_at = some lease_expires_at;
  attempt_count = r.attempt_count + 1;
  last_error = none;
}

abbrev pub among : List OutboxMessageModel → OutboxMessageModel → Bool
among models r = any (λ m. m.id == r.id) models

unfoldable pub first_error : List OutboxMessageModel → Option Error
first_error [] = none
first_error (m ∷ ms) = elim (check_message m) [ some e ↦ some e | none ↦ first_error ms ]

unfoldable pub lease_models : Text → ℕ → List OutboxMessageModel → Exec World (List OutboxMessage)
unfolding first_error
lease_models owner lease_expires_at models w =
    let changed = map (set_lease owner lease_expires_at) models in
    elim (first_error changed) [
      | some e ↦ (err e, w)
      | none ↦ (
        ok (map message_of_model changed),
        record w {
          db = record (w.db) {
            outbox = update_where (among models) (set_lease owner lease_expires_at) w.db.outbox;
          };
        },
      )
    ]

unfoldable pub claim_batch : Text → ℕ → ℕ → ℕ → Exec World (List OutboxMessage)
unfolding candidates lease_models
claim_batch owner now lease_expires_at limit w =
    lease_models owner lease_expires_at (take limit (candidates w.locked now w.db.outbox)) w

abbrev pub is_owner : Text → Option Text → Bool
is_owner owner none = false
is_owner owner (some other) = text_eq other owner

-- WHERE id = … AND lease_owner = … AND published_at IS NULL
abbrev pub held : ℕ → Text → OutboxMessageModel → Bool
held message_id owner r =
    r.id == message_id && (is_owner owner r.lease_owner && is_none r.published_at)

abbrev pub set_published : ℕ → OutboxMessageModel → OutboxMessageModel
set_published published_at r = record r {
  published_at = some published_at;
  lease_owner = none;
  lease_expires_at = none;
  last_error = none;
}

abbrev pub set_failed : Text → OutboxMessageModel → OutboxMessageModel
set_failed error r = record r { last_error = some error }

unfoldable pub mark_published : ℕ → Text → ℕ → Exec World Bool
mark_published message_id owner published_at w = (
  ok (not (is_none (find (held message_id owner) w.db.outbox))),
  record w {
    db = record (w.db) {
      outbox = update_where (held message_id owner) (set_published published_at) w.db.outbox;
    };
  },
)

unfoldable pub mark_failed : ℕ → Text → Text → Exec World Bool
mark_failed message_id owner error w = (
  ok (not (is_none (find (held message_id owner) w.db.outbox))),
  record w {
    db = record (w.db) {
      outbox = update_where (held message_id owner) (set_failed error) w.db.outbox;
    };
  },
)
