-- ===== src/Tests/Flows.antt =====
-- The theorems on whole flows at small inputs.
use lsstack.Persistence.Outbox
use lsstack.Application.Auth.{
  SessionClaims, UserSession, auth_result, authenticate, register, revalidate_session,
}
use lsstack.Application.Auth.Acceptance.{IsCurrent, revalidate_session_iff}
use lsstack.Application.Auth.RoundTrip.{register-authenticate}
use lsstack.Application.Confidential.{tasks_confidential}
use lsstack.Application.Outbox.{acknowledge_message, claim_messages}
use lsstack.Application.Profiles.{change_password}
use lsstack.Application.Profiles.Revocation.{change_password-revokes}
use lsstack.Application.Tasks.{
  TaskCreatedResult, announce_task, create_task, get_task, list_tasks, message_id_or_new,
  result_of_task,
}
use lsstack.Application.Tasks.Created.{announcement, create_task-announced}
use lsstack.Domain.Tasks.{normalize_description, normalize_title}
use lsstack.Domain.Users.{check_email, normalize_email, validate_password, with_password}
use lsstack.Exec.{attempt, err, invalid_session_error, ok, ◌>>=◌}
use lsstack.Persistence.Engine.{commits, run}
use lsstack.Persistence.Models.{UserModel, World, check_message, check_task, check_user}
use lsstack.Prelude.{
  [], any, arith, false, length, none, refl, select, some, sort_by, true, ℕ, ◌+◌, ◌↔◌, ◌∷◌, ◌≡◌,
  ◌≤◌,
}
use lsstack.Prelude.Int.{pos}
use lsstack.Prelude.Table.{find, insert_row, update_where}
use lsstack.Queue.Relay.{
  Broker, accepted, answer_job, enqueue, job_name, publish_and_acknowledge, publish_message,
  relay_message, relay_messages, relay_once, settle_message, transact,
}
use lsstack.Queue.Relay.Counts.{relay_once-returned}
use lsstack.Security.Passwords.{hash, now, verify}
use lsstack.System.{empty_database, fresh_world}
use lsstack.Tests.{ada, free_message, one_task, outbox_of, plain_platform}
use lsstack.Text.{
  Text, before, behind, codes, contains, count, is_space, lstrip, rstrip, strip, text_eq,
}

abbrev secret : Text
secret = codes "correct horse battery"

abbrev fresh_secret : Text
fresh_secret = codes "staple horse battery"

abbrev ada_row : UserModel
ada_row = record {
  id = 1;
  email_normalized = ada;
  password_hash = secret;
  session_version = 0;
  created_at = 10;
  updated_at = 10;
}

abbrev one_user : World
one_user = record fresh_world {
  db = record empty_database { users = ada_row ∷ []; last_user_id = 1 };
}

abbrev old_claims : SessionClaims
old_claims = record { user_id = 1; session_version = 0; issued_at = 10; expires_at = 5000 }

change_password-revokes_example :
    ((revalidate_session plain_platform old_claims
        (change_password plain_platform 1 secret fresh_secret fresh_secret one_user).1).0
      ≡ err invalid_session_error)
    × (1 ≡ 0 + 1)
unfolding change_password lsstack.Persistence.Users.get_by_id_for_update verify ◌>>=◌ find text_eq
    validate_password hash now lsstack.Persistence.Users.update_credentials with_password strip
    lstrip rstrip is_space contains check_user
change_password-revokes_example =
    change_password-revokes plain_platform 1 secret fresh_secret fresh_secret one_user
      (change_password plain_platform 1 secret fresh_secret fresh_secret one_user).1
      (change_password plain_platform 1 secret fresh_secret fresh_secret one_user).1 1 ada_row
      old_claims refl refl refl refl (ground arith)

abbrev one_message : Broker
one_message = record {
  world = outbox_of free_message;
  returned = [];
  outcomes = λ n. commits;
  answers = λ n. accepted;
  transactions = 0;
  enqueues = 0;
}

relay_once-returned_example :
    length one_message.returned + 1
    ≤ length
        (relay_once plain_platform (codes "relay") (pos 30000000) (pos 10) one_message).1.returned
unfolding relay_once transact run claim_messages Outbox.claim_batch any sort_by select update_where
    check_message now ◌>>=◌ relay_messages relay_message publish_and_acknowledge publish_message
    job_name text_eq enqueue answer_job attempt acknowledge_message find Outbox.mark_published
    settle_message
relay_once-returned_example =
    relay_once-returned plain_platform (codes "relay") (pos 30000000) (pos 10) one_message
      (relay_once plain_platform (codes "relay") (pos 30000000) (pos 10) one_message).1 1 refl

register-authenticate_example :
    (authenticate plain_platform ada secret (register plain_platform ada secret fresh_world).1).0
    ≡ ok (record { user_id = 1; email_normalized = ada; session_version = 0 })
unfolding register normalize_email check_email validate_password hash now
    lsstack.Persistence.Users.add auth_result ◌>>=◌ text_eq strip lstrip rstrip is_space contains
    check_user any insert_row count before behind
register-authenticate_example =
    register-authenticate plain_platform ada secret fresh_world
      (register plain_platform ada secret fresh_world).1
      (register plain_platform ada secret fresh_world).1
      (record { user_id = 1; email_normalized = ada; session_version = 0 }) (λ n m. refl) refl refl

abbrev crowded : World
crowded = record one_task {
  db = record (one_task.db) {
    tasks =
        record {
          id = 2;
          user_id = 2;
          title = codes "feed cat";
          description = none;
          is_completed = true;
          background_processed_at = none;
          created_at = 11;
          updated_at = 11;
        }
        ∷ one_task.db.tasks;
  };
}

tasks_confidential_example :
    ((list_tasks 1 crowded).0 ≡ (list_tasks 1 one_task).0)
    × ((get_task 1 2 crowded).0 ≡ (get_task 1 2 one_task).0)
tasks_confidential_example = tasks_confidential 1 2 crowded one_task (unfold select in refl)

abbrev created : TaskCreatedResult
created = record {
  task = record {
    id = 1;
    user_id = 1;
    title = codes "water plants";
    description = none;
    is_completed = false;
    background_processed_at = none;
    created_at = 1000;
    updated_at = 1000;
  };
  outbox_message_id = 7;
}

create_task-announced_example :
    (time : ℕ) × (find
        (Outbox.has_id 7)
        (create_task plain_platform 1 (codes " water plants") none (some 7) one_user).1.db.outbox
      ≡ some (announcement 7 1 time))
unfolding create_task announce_task now normalize_title normalize_description any insert_row
    check_message check_task strip lstrip rstrip is_space message_id_or_new result_of_task ◌>>=◌
    Outbox.add lsstack.Persistence.Tasks.add
create_task-announced_example =
    create_task-announced plain_platform 1 (codes " water plants") none (some 7) one_user
      (create_task plain_platform 1 (codes " water plants") none (some 7) one_user).1 created refl

abbrev ada_session : UserSession
ada_session = record { user_id = 1; email_normalized = ada; session_version = 0 }

revalidate_session_iff_example :
    ((revalidate_session plain_platform old_claims one_user).0 ≡ ok ada_session)
    ↔ IsCurrent plain_platform old_claims one_user ada_session
revalidate_session_iff_example =
    revalidate_session_iff plain_platform old_claims one_user ada_session
