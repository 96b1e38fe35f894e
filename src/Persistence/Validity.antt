-- ===== src/Persistence/Validity.antt =====
-- The well-formed database: what the constraints of src/app/adapters/persistence/models.py and the
-- validators of src/app/domain promise of the stored rows together.
pub mod Users
pub mod Tasks
pub mod Outbox
pub mod Claims
pub mod Engine
use lsstack.Application.Tasks.{task_created_payload, task_created_topic}
use lsstack.Domain.Emails.{IsEmail}
use lsstack.Domain.Validation.{IsOptionalDescription, IsTitle}
use lsstack.Exec.Steps.{IsPreorder, steps_rules}
use lsstack.Persistence.Models.{Database, OutboxMessageModel, TaskModel, UserModel, World}
use lsstack.Prelude.{All, List, any, arith, false, is_none, sym, true, ℕ, ◌==◌, ◌≡◌, ◌≤◌}
use lsstack.Prelude.Table.Keys.{Unique}
use lsstack.Prelude.Table.Laws.{All-map}
use mathlib.Core.Path.{subst}

pub record UserIsValid (last_user_id : ℕ) (r : UserModel) : Type 0 where
  pub numbered : 1 ≤ r.id
  pub below : r.id ≤ last_user_id
  pub email : IsEmail r.email_normalized

pub record TaskIsValid (last_task_id : ℕ) (users : List UserModel) (r : TaskModel) : Type 0 where
  pub numbered : 1 ≤ r.id
  pub below : r.id ≤ last_task_id
  pub title : IsTitle r.title
  pub description : IsOptionalDescription r.description
  pub owner : any (λ u. u.id == r.user_id) users ≡ true

-- A message tells of one task; it is leased to an owner until a time or not leased; and once it is
-- published it is not leased.
pub record MessageIsValid (last_task_id : ℕ) (r : OutboxMessageModel) : Type 0 where
  pub task : ℕ
  pub task_numbered : 1 ≤ task
  pub task_below : task ≤ last_task_id
  pub topic : r.topic ≡ task_created_topic
  pub payload : r.payload ≡ task_created_payload task
  pub paired : is_none r.lease_owner ≡ is_none r.lease_expires_at
  pub released : is_none r.published_at ≡ false → is_none r.lease_owner ≡ true

pub record IsValid (db : Database) : Type 0 where
  pub users : All (UserIsValid db.last_user_id) db.users
  pub user_ids : Unique (λ (r : UserModel). r.id) db.users
  pub emails : Unique (λ (r : UserModel). r.email_normalized) db.users
  pub tasks : All (TaskIsValid db.last_task_id db.users) db.tasks
  pub task_ids : Unique (λ (r : TaskModel). r.id) db.tasks
  pub messages : All (MessageIsValid db.last_task_id) db.outbox
  pub message_ids : Unique (λ (r : OutboxMessageModel). r.id) db.outbox

-- A step that keeps the database well formed and draws numbers only upwards.
pub record Sound (s t : World) : Type 0 where
  pub valid : IsValid s.db → IsValid t.db
  pub users_grow : s.db.last_user_id ≤ t.db.last_user_id
  pub tasks_grow : s.db.last_task_id ≤ t.db.last_task_id

instance abbrev pub Sound-preorder : IsPreorder Sound
Sound-preorder = record {
  same = λ s. record { valid = λ v. v; users_grow = omega arith; tasks_grow = omega arith };
  chain = λ s t u h k. record {
    valid = λ v. k.valid (h.valid v);
    users_grow = omega arith;
    tasks_grow = omega arith;
  };
}

pub ruleset sound_rules = (steps_rules, Sound-preorder)

-- A step that leaves the database alone.
pub Sound_of_same : {s t : World} → t.db ≡ s.db → Sound s t
Sound_of_same {s} {t} e = record {
  valid = λ v. subst IsValid (sym e) v;
  users_grow = rw e (omega arith);
  tasks_grow = rw e (omega arith);
}

pub users_below_mono :
    (m n : ℕ) (users : List UserModel)
    → m ≤ n
    → All (UserIsValid m) users
    → All (UserIsValid n) users
users_below_mono m n users le =
    All-map (UserIsValid m) (UserIsValid n) users
      λ r v. record { numbered = v.numbered; below = omega arith; email = v.email }

pub tasks_below_mono :
    (m n : ℕ) (users : List UserModel) (tasks : List TaskModel)
    → m ≤ n
    → All (TaskIsValid m users) tasks
    → All (TaskIsValid n users) tasks
tasks_below_mono m n users tasks le =
    All-map (TaskIsValid m users) (TaskIsValid n users) tasks λ r v. record {
      numbered = v.numbered;
      below = omega arith;
      title = v.title;
      description = v.description;
      owner = v.owner;
    }

pub messages_below_mono :
    (m n : ℕ) (rows : List OutboxMessageModel)
    → m ≤ n
    → All (MessageIsValid m) rows
    → All (MessageIsValid n) rows
messages_below_mono m n rows le = All-map (MessageIsValid m) (MessageIsValid n) rows λ r v. record {
  task = v.task;
  task_numbered = v.task_numbered;
  task_below = omega arith;
  topic = v.topic;
  payload = v.payload;
  paired = v.paired;
  released = v.released;
}
