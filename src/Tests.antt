-- ===== src/Tests.antt =====
-- A small service to try the theorems on: a platform that is easy to compute with, and its database
-- after two people registered and wrote down one task each.
pub mod Store
pub mod Edge
pub mod Flows
pub mod Outbox
pub mod Settings
pub mod Tools
use lsstack.Application.Tasks.{task_created_payload, task_created_topic}
use lsstack.Persistence.Engine.{commits}
use lsstack.Persistence.Models.{OutboxMessageModel, World}
use lsstack.Persistence.Validity.{IsValid}
use lsstack.Platform.{Platform}
use lsstack.Prelude.{Bool, List, Option, [], false, none, some, true, ℕ, ◌+◌, ◌∷◌}
use lsstack.Prelude.Int.{pos}
use lsstack.System.{Transaction, UseCase, creates, empty_database, fresh_world, registers, serve}
use lsstack.System.Validity.{empty-IsValid, serve-IsValid}
use lsstack.Text.{Text, codes, text_eq}
use lsstack.Values.{Float, finite}

abbrev pub instant_of : Float → Option ℕ
instant_of (finite (pos t)) = some t
instant_of _ = none

abbrev pub plain_platform : Platform
plain_platform = record {
  nfkc = λ s. s;
  casefold = λ s. s;
  utc_now = λ n. 1000 + n;
  timestamp = λ t. finite (pos t);
  from_timestamp = instant_of;
  password_hash = λ n password. password;
  verify_and_update = λ n password stored. (text_eq password stored, none);
  uuid4 = λ n. n;
  sha256 = λ bytes. bytes;
  sqids_accepts = λ alphabet min_length. true;
  sqids_encode = λ alphabet min_length numbers. some numbers;
  sqids_decode = λ alphabet min_length s. some s;
}

abbrev pub nothing_locked : ℕ → Bool
nothing_locked n = false

abbrev pub committed : UseCase → Transaction
committed c = record { use_case = c; outcome = commits; locked_rows = nothing_locked }

abbrev pub ada : Text
ada = codes "ada@example.org"

abbrev pub bea : Text
bea = codes "bea@example.org"

abbrev pub setup : List Transaction
setup =
    committed (registers ada (codes "correct horse battery"))
    ∷ committed (registers bea (codes "staple horse battery"))
    ∷ committed (creates 1 (codes " water plants ") none none)
    ∷ committed (creates 2 (codes "feed cat") (some (codes "twice")) none)
    ∷ []

abbrev pub two_users : World
two_users = serve plain_platform fresh_world setup

pub two_users-IsValid : IsValid two_users.db
two_users-IsValid = serve-IsValid plain_platform fresh_world setup empty-IsValid

-- A free message about task 1, and the same message after its publication.
abbrev pub free_message : OutboxMessageModel
free_message = record {
  id = 7;
  topic = task_created_topic;
  payload = task_created_payload 1;
  created_at = 10;
  published_at = none;
  lease_owner = none;
  lease_expires_at = none;
  attempt_count = 0;
  last_error = none;
}

abbrev pub leased_message : OutboxMessageModel
leased_message = record free_message {
  lease_owner = some (codes "relay");
  lease_expires_at = some 60;
  attempt_count = 1;
}

abbrev pub published_message : OutboxMessageModel
published_message = record free_message { published_at = some 42; attempt_count = 1 }

-- A database with one message.
abbrev pub outbox_of : OutboxMessageModel → World
outbox_of r = record fresh_world { db = record empty_database { outbox = r ∷ [] } }

-- A database with one task of user 1.
abbrev pub one_task : World
one_task = record fresh_world {
  db = record empty_database {
    tasks =
        record {
          id = 1;
          user_id = 1;
          title = codes "water plants";
          description = none;
          is_completed = false;
          background_processed_at = none;
          created_at = 10;
          updated_at = 10;
        }
        ∷ [];
    last_task_id = 1;
  };
}
