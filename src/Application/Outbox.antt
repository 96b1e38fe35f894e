-- ===== src/Application/Outbox.antt =====
-- src/app/application/outbox.py
pub mod Bounds
use lsstack.Persistence.Outbox
use lsstack.Domain.Outbox.{OutboxMessage}
use lsstack.Exec.{Exec, pure, raise_if, value_error, ◌>>=◌, ◌>>◌}
use lsstack.Persistence.Models.{World}
use lsstack.Platform.{Platform}
use lsstack.Prelude.{Bool, List, if◌then◌else◌, is_empty, map, take, ℕ, ◌+◌, ◌||◌}
use lsstack.Prelude.Int.{leb_ℤ, ltb_ℤ, pos, pos_part, ℤ}
use lsstack.Security.Passwords.{now}
use lsstack.Text.{Text, codes, strip}
use lsstack.Values.{Fields}

pub record ClaimedMessage : Type 0 where
  pub id : ℕ
  pub topic : Text
  pub payload : Fields
  pub attempt_count : ℕ

abbrev pub claimed_of_message : OutboxMessage → ClaimedMessage
claimed_of_message message = record {
  id = message.id;
  topic = message.topic;
  payload = message.payload;
  attempt_count = message.attempt_count;
}

-- The duration is a signed number of microseconds, and the limit a signed number.
unfoldable pub claim_messages : Platform → Text → ℤ → ℤ → Exec World (List ClaimedMessage)
claim_messages p owner lease_duration limit = do
  raise_if (is_empty owner) (value_error "A lease owner is required.")
  raise_if (leb_ℤ lease_duration (pos 0)) (value_error "Lease duration must be positive.")
  raise_if (ltb_ℤ limit (pos 1) || ltb_ℤ (pos 1000) limit)
      (value_error "Outbox claim limit must be between 1 and 1000.")
  time ← now p
  claimed ← Outbox.claim_batch owner time (time + pos_part lease_duration) (pos_part limit)
  pure (map claimed_of_message claimed)

unfoldable pub acknowledge_message : Platform → ℕ → Text → Exec World Bool
acknowledge_message p message_id owner = do
  time ← now p
  Outbox.mark_published message_id owner time

-- `error.strip()[:2_000] or "Queue publication failed."`
unfoldable pub safe_error : Text → Text
safe_error error =
    let kept = take 2000 (strip error) in
    if is_empty kept then codes "Queue publication failed." else kept

unfoldable pub fail_message : ℕ → Text → Text → Exec World Bool
fail_message message_id owner error = Outbox.mark_failed message_id owner (safe_error error)
