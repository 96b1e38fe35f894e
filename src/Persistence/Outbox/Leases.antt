-- ===== src/Persistence/Outbox/Leases.antt =====
-- What a claim that returned has done.
use lsstack.Persistence.Outbox
use lsstack.Domain.Outbox.{OutboxMessage}
use lsstack.Exec.{ok}
use lsstack.Persistence.Models.{World}
use lsstack.Persistence.Outbox.Claims.{chosen, claim_batch-cases, leased_world}
use lsstack.Prelude.{List, any, ap, arith, inl, inr, map, ℕ, ◌==◌, ◌∙◌, ◌≡◌}
use lsstack.Prelude.Order.{any-map}
use lsstack.Prelude.Table.{update_where}
use lsstack.Security.Passwords.{now}
use lsstack.Text.{Text}

-- The messages of a claim are the rows that it takes, as it leased them.
pub messages_of_claim :
    (owner : Text) (now expires limit : ℕ) (w : World) (ms : List OutboxMessage) (w' : World)
    → Outbox.claim_batch owner now expires limit w ≡ (ok ms, w')
    → ms ≡ map Outbox.message_of_model (map (Outbox.set_lease owner expires) (chosen now limit w))
messages_of_claim owner now expires limit w ms w' h =
    elim (claim_batch-cases owner now expires limit w) [
      | inl (e, raised) ↦ cc
      | inr claimed ↦ ground arith
    ]

pub ids_of_claim :
    (owner : Text) (now expires limit : ℕ) (w : World) (ms : List OutboxMessage) (w' : World)
    (k : ℕ)
    → Outbox.claim_batch owner now expires limit w ≡ (ok ms, w')
    → any (λ m. m.id == k) ms ≡ any (λ m. m.id == k) (chosen now limit w)
ids_of_claim owner now expires limit w ms w' k h =
    rw (messages_of_claim owner now expires limit w ms w' h) (
      any-map (λ m. m.id == k) Outbox.message_of_model
        (map (Outbox.set_lease owner expires) (chosen now limit w))
      ∙ any-map (λ m. m.id == k) (Outbox.set_lease owner expires) (chosen now limit w))

pub db_of_claim :
    (owner : Text) (now expires limit : ℕ) (w : World) (ms : List OutboxMessage) (w' : World)
    → Outbox.claim_batch owner now expires limit w ≡ (ok ms, w')
    → w'.db.outbox
      ≡ update_where
          (Outbox.among (chosen now limit w))
          (Outbox.set_lease owner expires)
          w.db.outbox
db_of_claim owner now expires limit w ms w' h = elim (claim_batch-cases owner now expires limit w) [
  | inl (e, raised) ↦ cc
  | inr claimed ↦
      let same : w' ≡ leased_world owner expires (chosen now limit w) w = ground arith in
      ap (λ (u : World). u.db.outbox) same
]
