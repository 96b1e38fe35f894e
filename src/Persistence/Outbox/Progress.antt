-- ===== src/Persistence/Outbox/Progress.antt =====
-- A claim passes over no free message that precedes one which it takes, or that it has room for.
use lsstack.Persistence.Outbox
use lsstack.Domain.Outbox.{OutboxMessage}
use lsstack.Exec.{ok}
use lsstack.Persistence.Models.{OutboxMessageModel, World}
use lsstack.Persistence.Outbox.{among}
use lsstack.Persistence.Outbox.Claims.{
  IsFree, candidates-IsSorted, chosen, older-IsEarlier, takes, takes-IsFree,
}
use lsstack.Persistence.Outbox.Leases.{ids_of_claim, messages_of_claim}
use lsstack.Prelude.{
  All, List, any, ap, arith, false, inl, inr, length, length-map, length-take-le, map, select,
  sort_by, sym, true, ℕ, ◌<◌, ◌==◌, ◌∙◌, ◌≡◌, ◌≤◌, ◌⊎◌,
}
use lsstack.Prelude.Order.{All-mapped, All-selected, All-unsorted, IsServed, take-IsServed}
use lsstack.Prelude.Table.Laws.{All-map}
use lsstack.Security.Passwords.{now}
use lsstack.Text.{Text, before}
use mathlib.Core.Path.{subst}

-- A message that a claim returned was created earlier than a row, or at the same time with a
-- smaller number.
abbrev pub IsServedBefore : OutboxMessageModel → OutboxMessage → Type 0
IsServedBefore r m = (m.created_at < r.created_at) ⊎ ((m.created_at ≡ r.created_at) × (m.id ≤ r.id))

-- Among the messages of a claim, or behind a full batch of them.
abbrev pub IsServedBy : ℕ → List OutboxMessage → OutboxMessageModel → Type 0
IsServedBy limit ms r =
    (any (λ m. m.id == r.id) ms ≡ true) ⊎ ((length ms ≡ limit) × All (IsServedBefore r) ms)

rows-IsServed :
    (now limit : ℕ) (w : World)
    → All
        (λ r.
          takes w now r ≡ true
          → IsServed (λ (m : OutboxMessageModel). m.id) Outbox.older (chosen now limit w) limit r)
        w.db.outbox
unfolding Outbox.candidates
rows-IsServed now limit w =
    let P = IsServed (λ (m : OutboxMessageModel). m.id) Outbox.older (chosen now limit w) limit in
    let free = select (takes w now) w.db.outbox in
    All-selected P (takes w now) w.db.outbox (
      All-unsorted P Outbox.older free (
        take-IsServed (λ (m : OutboxMessageModel). m.id) Outbox.older limit
          (sort_by Outbox.older free) (candidates-IsSorted w now)))

messages-IsServedBy :
    (owner : Text) (now expires limit : ℕ) (w w' : World) (ms : List OutboxMessage)
    (r : OutboxMessageModel)
    → Outbox.claim_batch owner now expires limit w ≡ (ok ms, w')
    → IsServed (λ (m : OutboxMessageModel). m.id) Outbox.older (chosen now limit w) limit r
    → IsServedBy limit ms r
messages-IsServedBy owner now expires limit w w' ms r h (inl among) =
    inl (ids_of_claim owner now expires limit w ms w' r.id h ∙ among)
messages-IsServedBy owner now expires limit w w' ms r h (inr (full, before)) =
    let same = messages_of_claim owner now expires limit w ms w' h in
    let rows = chosen now limit w in
    inr (
      omega (
        arith,
        full,
        ap length same,
        length-map (map (Outbox.set_lease owner expires) rows) Outbox.message_of_model,
        length-map rows (Outbox.set_lease owner expires),
      ),
      subst (All (IsServedBefore r)) (sym same) (
          All-mapped (IsServedBefore r) Outbox.message_of_model
            (map (Outbox.set_lease owner expires) rows)
            (All-mapped (λ m. IsServedBefore r (Outbox.message_of_model m))
              (Outbox.set_lease owner expires) rows
              (All-map (λ m. Outbox.older m r ≡ true)
                (λ m. IsServedBefore r (Outbox.message_of_model (Outbox.set_lease owner expires m)))
                rows (λ m. older-IsEarlier m r) before))),
    )

-- A claim that returns is fair: a message that is unpublished, under no running lease and locked by
-- nobody else is among those returned, or the batch is full and each message in it was created
-- earlier, or at the same time with a smaller number.
pub claim_batch-serves :
    (owner : Text) (now expires limit : ℕ) (w w' : World) (ms : List OutboxMessage)
    → Outbox.claim_batch owner now expires limit w ≡ (ok ms, w')
    → All (λ r. IsFree now r × (w.locked r.id ≡ false) → IsServedBy limit ms r) w.db.outbox
claim_batch-serves owner now expires limit w w' ms h =
    All-map _ (λ r. IsFree now r × (w.locked r.id ≡ false) → IsServedBy limit ms r) w.db.outbox
      (λ r served v.
        messages-IsServedBy owner now expires limit w w' ms r h
          (served ((takes-IsFree w now r).1 v)))
      (rows-IsServed now limit w)

pub length-claim_batch-le :
    (owner : Text) (now expires limit : ℕ) (w w' : World) (ms : List OutboxMessage)
    → Outbox.claim_batch owner now expires limit w ≡ (ok ms, w')
    → length ms ≤ limit
length-claim_batch-le owner now expires limit w w' ms h = omega (
  arith,
  ap length (messages_of_claim owner now expires limit w ms w' h),
  length-map (map (Outbox.set_lease owner expires) (chosen now limit w)) Outbox.message_of_model,
  length-map (chosen now limit w) (Outbox.set_lease owner expires),
  length-take-le limit (Outbox.candidates w.locked now w.db.outbox),
)
