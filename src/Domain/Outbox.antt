-- ===== src/Domain/Outbox.antt =====
-- src/app/domain/outbox.py
use lsstack.Prelude.{Option, none, some, ℕ, ◌+◌}
use lsstack.Text.{Text}
use lsstack.Values.{Fields}

pub record OutboxMessage : Type 0 where
  pub id : ℕ
  pub topic : Text
  pub payload : Fields
  pub created_at : ℕ
  pub published_at : Option ℕ
  pub lease_owner : Option Text
  pub lease_expires_at : Option ℕ
  pub attempt_count : ℕ
  pub last_error : Option Text

unfoldable pub leased : OutboxMessage → Text → ℕ → OutboxMessage
leased message owner expires_at = record message {
  lease_owner = some owner;
  lease_expires_at = some expires_at;
  attempt_count = message.attempt_count + 1;
  last_error = none;
}

unfoldable pub published : OutboxMessage → ℕ → OutboxMessage
published message published_at = record message {
  published_at = some published_at;
  lease_owner = none;
  lease_expires_at = none;
  last_error = none;
}

unfoldable pub failed : OutboxMessage → Text → OutboxMessage
failed message error = record message { last_error = some error }
