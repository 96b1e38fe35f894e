-- ===== src/Persistence/Validity/Claims.antt =====
-- A claim keeps the database well formed.
use lsstack.Persistence.Outbox
use lsstack.Exec.Steps.{Steps}
use lsstack.Persistence.Models.{OutboxMessageModel, World}
use lsstack.Persistence.Outbox.Claims.{among-claimable, chosen, claim_batch-cases, leased_world}
use lsstack.Persistence.Validity.{MessageIsValid, Sound, Sound_of_same}
use lsstack.Persistence.Validity.Outbox.{with_outbox}
use lsstack.Prelude.{arith, false, inl, inr, refl, true, ℕ, ◌≡◌}
use lsstack.Prelude.Table.{update_where}
use lsstack.Prelude.Table.Keys.{Unique-update_where}
use lsstack.Prelude.Table.Laws.{All-both, All-update_to}
use lsstack.Security.Passwords.{now}
use lsstack.Text.{Text}

leased-MessageIsValid :
    (n now expires : ℕ) (owner : Text) (r : OutboxMessageModel)
    → MessageIsValid n r
    → Outbox.claimable now r ≡ true
    → MessageIsValid n (Outbox.set_lease owner expires r)
leased-MessageIsValid n now expires owner r m c = record {
  task = m.task;
  task_numbered = m.task_numbered;
  task_below = m.task_below;
  topic = m.topic;
  payload = m.payload;
  paired = refl;
  released = λ h. ground arith;
}

leased_world-Sound :
    (owner : Text) (now expires limit : ℕ) (w : World)
    → Sound w (leased_world owner expires (chosen now limit w) w)
leased_world-Sound owner now expires limit w =
    let models = chosen now limit w in
    record {
      valid = λ v.
          with_outbox w.db
            (update_where (Outbox.among models) (Outbox.set_lease owner expires) w.db.outbox)
            (All-update_to
              (λ r.
                MessageIsValid w.db.last_task_id r
                × (Outbox.among models r ≡ true
                    → (Outbox.claimable now r ≡ true) × (w.locked r.id ≡ false)))
              (MessageIsValid w.db.last_task_id) (Outbox.among models)
              (Outbox.set_lease owner expires) w.db.outbox
              (λ r h t. leased-MessageIsValid w.db.last_task_id now expires owner r h.0 (h.1 t).0)
              (λ r h _. h.0)
              (All-both (MessageIsValid w.db.last_task_id)
                (λ r.
                  Outbox.among models r ≡ true
                  → (Outbox.claimable now r ≡ true) × (w.locked r.id ≡ false))
                w.db.outbox v.messages (among-claimable now limit w v.message_ids)))
            (Unique-update_where (λ (r : OutboxMessageModel). r.id) (Outbox.among models)
              (Outbox.set_lease owner expires) w.db.outbox (λ r. refl) v.message_ids)
            v;
      users_grow = omega arith;
      tasks_grow = omega arith;
    }

pub claim_batch-Sound :
    (owner : Text) (now expires limit : ℕ)
    → Steps Sound (Outbox.claim_batch owner now expires limit)
claim_batch-Sound owner now expires limit = record {
  at = λ w. elim (claim_batch-cases owner now expires limit w) [
    | inl (e, raised) ↦ rw raised (Sound_of_same refl)
    | inr claimed ↦ rw claimed (leased_world-Sound owner now expires limit w)
  ];
}
