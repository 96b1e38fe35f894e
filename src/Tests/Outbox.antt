-- ===== src/Tests/Outbox.antt =====
-- The theorems on claims and the relay at one message.
use lsstack.Persistence.Outbox
use lsstack.Application.Outbox.{
  ClaimedMessage, acknowledge_message, claim_messages, claimed_of_message,
}
use lsstack.Application.Outbox.Bounds.{claim_messages-bounds}
use lsstack.Exec.{attempt, ◌>>=◌}
use lsstack.Persistence.Engine.{commits, run}
use lsstack.Persistence.Models.{OutboxMessageModel, check_message}
use lsstack.Persistence.Outbox.Claims.{IsFree}
use lsstack.Persistence.Outbox.Progress.{IsServedBy, claim_batch-serves}
use lsstack.Persistence.Outbox.Published.{row}
use lsstack.Prelude.{
  All, [], any, false, is_empty, length, refl, select, some, sort_by, true, ◌∷◌, ◌≡◌, ◌≤◌,
}
use lsstack.Prelude.Int.{pos, pos_part}
use lsstack.Prelude.Table.{find, update_where}
use lsstack.Queue.Relay.{
  Broker, accepted, answer_job, enqueue, job_name, publish_and_acknowledge, publish_message,
  relay_message, relay_messages, relay_once, settle_message, transact,
}
use lsstack.Queue.Relay.Delivery.{is_queued, relay_once-delivers}
use lsstack.Security.Passwords.{now}
use lsstack.Tests.{free_message, leased_message, outbox_of, plain_platform}
use lsstack.Text.{codes, text_eq}

abbrev one_message : Broker
one_message = record {
  world = outbox_of free_message;
  returned = [];
  outcomes = λ n. commits;
  answers = λ n. accepted;
  transactions = 0;
  enqueues = 0;
}

abbrev relayed : Broker
relayed = (relay_once plain_platform (codes "relay") (pos 30000000) (pos 10) one_message).1

abbrev settled_message : OutboxMessageModel
settled_message = record free_message { published_at = some 1001; attempt_count = 1 }

relay_once-delivers_example : is_queued 7 relayed.returned ≡ true
unfolding relay_once transact run claim_messages Outbox.claim_batch any sort_by select update_where
    check_message now ◌>>=◌ relay_messages relay_message publish_and_acknowledge publish_message
    job_name text_eq enqueue answer_job attempt acknowledge_message find Outbox.mark_published
    settle_message row
relay_once-delivers_example =
    relay_once-delivers plain_platform (codes "relay") (pos 30000000) (pos 10) one_message 7
      free_message settled_message refl refl refl refl

claim_batch-serves_example :
    All
      (λ r.
        IsFree 20 r × ((outbox_of free_message).locked r.id ≡ false)
        → IsServedBy 5 (Outbox.message_of_model leased_message ∷ []) r)
      (outbox_of free_message).db.outbox
unfolding Outbox.claim_batch any sort_by select update_where check_message
claim_batch-serves_example =
    claim_batch-serves (codes "relay") 20 60 5 (outbox_of free_message) (outbox_of leased_message)
      (Outbox.message_of_model leased_message ∷ []) refl

abbrev claimed : ClaimedMessage
claimed = record (claimed_of_message (Outbox.message_of_model leased_message)) { id = 7 }

claim_messages-bounds_example :
    (is_empty (codes "relay") ≡ false)
    × (1 ≤ pos_part (pos 30))
    × (1 ≤ pos_part (pos 10))
    × (pos_part (pos 10) ≤ 1000)
    × (length (claimed ∷ []) ≤ pos_part (pos 10))
unfolding claim_messages Outbox.claim_batch any sort_by select update_where check_message now ◌>>=◌
claim_messages-bounds_example =
    claim_messages-bounds plain_platform (codes "relay") (pos 30) (pos 10) (outbox_of free_message)
      (claim_messages plain_platform (codes "relay") (pos 30) (pos 10) (outbox_of free_message)).1
      (claimed ∷ []) refl
