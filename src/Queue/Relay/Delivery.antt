-- ===== src/Queue/Relay/Delivery.antt =====
-- What the relay publishes, it has queued: a message is marked in the database only behind a call
-- of the queue for it that returned.
use lsstack.Persistence.Outbox.Marks.{Marks-preorder as marks_preorder}
use lsstack.Application.Outbox.{
  ClaimedMessage, acknowledge_message, claim_messages, fail_message, safe_error,
}
use lsstack.Domain.Outbox.{published}
use lsstack.Exec.{Exec, Result, err, lift, ok}
use lsstack.Exec.Inversion.{bind_ok}
use lsstack.Exec.Steps.{IsPreorder, Steps, Steps-bind, bind_at, steps_rules}
use lsstack.Persistence.Engine.Atomic.{run_cases}
use lsstack.Persistence.Models.{OutboxMessageModel, World}
use lsstack.Persistence.Outbox.Claims.{IsKeyed}
use lsstack.Persistence.Outbox.Marks.{
  Marks, Marks_of_same, claim_batch-Marks, mark_failed-Marks, mark_published-Marks, marks_rules,
  now-Marks,
}
use lsstack.Persistence.Outbox.Published.{row}
use lsstack.Platform.{Platform}
use lsstack.Prelude.{
  ==_iff, ==_refl, Bool, Bool-cases, List, [], any, ap, arith, eq_of_some, false, inl, inr, is_none,
  not_both, refl, some, sym, true, ℕ, ◌+◌, ◌==◌, ◌∙◌, ◌∷◌, ◌≡◌,
}
use lsstack.Prelude.Int.{ℤ}
use lsstack.Queue.Relay.{
  Answer, Broker, Job, accepted, already_queued, answer_job, cancels, describe, enqueue, job_name,
  publish_and_acknowledge, publish_message, raises, relay_message, relay_messages, relay_once,
  settle_message, transact,
}
use lsstack.Queue.Relay.Counts.{answer-ok, settle_message-cases}
use lsstack.System.{done}
use lsstack.Text.{Text}
use mathlib.Core.Path.{subst}

abbrev pub is_queued : ℕ → List Job → Bool
is_queued k jobs = any (λ (j : Job). j.key == k) jobs

-- Every message that became published has its job in the queue by then.
record Delivered (s t : Broker) : Type 0 where
  keyed : IsKeyed s.world → IsKeyed t.world
  present :
      (k : ℕ) (r : OutboxMessageModel)
      → row k s.world ≡ some r
      → (r' : OutboxMessageModel) × (row k t.world ≡ some r')
  kept : (k : ℕ) → is_queued k s.returned ≡ true → is_queued k t.returned ≡ true
  behind :
      (k : ℕ) (r r' : OutboxMessageModel)
      → row k s.world ≡ some r
      → is_none r.published_at ≡ true
      → row k t.world ≡ some r'
      → is_none r'.published_at ≡ false
      → is_queued k t.returned ≡ true

instance abbrev Delivered-preorder : IsPreorder Delivered
Delivered-preorder = record {
  same = λ s. record {
    keyed = λ u. u;
    present = λ k r h. (r, h);
    kept = λ k q. q;
    behind = λ k r r' h free h' done.
        let same : r ≡ r' = eq_of_some (sym h ∙ h') in
        absurd (
          not_both (subst (λ (x : OutboxMessageModel). is_none x.published_at ≡ true) same free)
            done);
  };
  chain = λ s t u h g. record {
    keyed = λ v. g.keyed (h.keyed v);
    present = λ k r e. let (r', e') = h.present k r e in g.present k r' e';
    kept = λ k q. g.kept k (h.kept k q);
    behind = λ k r r'' e free e'' done.
        let (r', e') = h.present k r e in
        elim (Bool-cases (is_none r'.published_at)) [
          | inl free' ↦ g.behind k r' r'' e' free' e'' done
          | inr marked ↦ g.kept k (h.behind k r r' e free e' marked)
        ];
  };
}

ruleset delivered_rules = (steps_rules, Delivered-preorder)

-- A step that leaves the database alone and takes no job away.
Delivered_of_queue :
    (s t : Broker)
    → t.world ≡ s.world
    → ((k : ℕ) → is_queued k s.returned ≡ true → is_queued k t.returned ≡ true)
    → Delivered s t
Delivered_of_queue s t e kept = record {
  keyed = λ u. subst IsKeyed (sym e) u;
  present = λ k r h. (r, ap (row k) e ∙ h);
  kept = kept;
  behind = λ k r r' h free h' done.
      let same : r ≡ r' = eq_of_some (sym h ∙ sym (ap (row k) e) ∙ h') in
      absurd (
        not_both (subst (λ (x : OutboxMessageModel). is_none x.published_at ≡ true) same free)
          done);
}

answer-Delivered : (a : Answer) (job : Job) (b : Broker) → Delivered b (answer_job a job b).1
unfolding answer_job any
answer-Delivered accepted job b = Delivered_of_queue b _ refl (λ k q. ground (arith, q))
answer-Delivered already_queued job b = Delivered_of_queue b _ refl (λ k q. ground (arith, q))
answer-Delivered (raises name message) job b = Delivered_of_queue b _ refl (λ k q. q)
answer-Delivered cancels job b = Delivered_of_queue b _ refl (λ k q. q)

enqueue-Delivered : (job : Job) → Steps Delivered (enqueue job)
unfolding enqueue
enqueue-Delivered job = record { at = λ b. answer-Delivered (b.answers b.enqueues) job b }

publish-Delivered : (m : ClaimedMessage) → Steps Delivered (publish_message m)
unfolding publish_message
publish-Delivered m = search (delivered_rules, enqueue-Delivered)

-- A transaction does to the outbox what its operation does, or nothing.
transact-Marks :
    {A : Type 0} (allowed : ℕ → Bool) (m : Exec World A) (b : Broker)
    → Steps (Marks allowed) m
    → Marks allowed b.world (transact m b).1.world
unfolding transact
transact-Marks allowed m b h = elim (run_cases (b.outcomes b.transactions) m b.world) [
  | inl (returned, same) ↦ subst (λ (x : World). Marks allowed b.world x) (sym same) (h.at b.world)
  | inr (raised, same) ↦ Marks_of_same allowed b.world _ same.outbox
]

-- A transaction that publishes only messages whose jobs are queued.
transact-Delivered :
    {A : Type 0} (allowed : ℕ → Bool) (m : Exec World A) (b : Broker)
    → Steps (Marks allowed) m
    → ((k : ℕ) → allowed k ≡ true → is_queued k b.returned ≡ true)
    → Delivered b (transact m b).1
unfolding transact
transact-Delivered allowed m b h queued =
    let marks = transact-Marks allowed m b h in
    record {
      keyed = marks.keyed;
      present = marks.present;
      kept = λ k q. q;
      behind = λ k r r' e free e' done. elim (Bool-cases (allowed k)) [
        | inl yes_queued ↦ queued k yes_queued
        | inr not_allowed ↦ absurd (not_both (marks.unpublished k r r' not_allowed e free e') done)
      ];
    }

-- A transaction that publishes nothing.
quiet-Delivered :
    {A : Type 0} (m : Exec World A) → Steps (Marks (λ k. false)) m → Steps Delivered (transact m)
quiet-Delivered m h = record { at = λ b. transact-Delivered (λ k. false) m b h (λ k e. cc) }

acknowledge-Marks :
    (p : Platform) (k : ℕ) (owner : Text)
    → Steps (Marks (λ j. j == k)) (acknowledge_message p k owner)
unfolding acknowledge_message
acknowledge-Marks p k owner = search (marks_rules, now-Marks, mark_published-Marks)

fail-Marks : (k : ℕ) (owner error : Text) → Steps (Marks (λ j. false)) (fail_message k owner error)
unfolding fail_message
fail-Marks k owner error = mark_failed-Marks (λ j. false) k owner (safe_error error)

claim-Marks :
    (p : Platform) (owner : Text) (lease limit : ℤ)
    → Steps (Marks (λ j. false)) (claim_messages p owner lease limit)
unfolding claim_messages
claim-Marks p owner lease limit = search (marks_rules, now-Marks, claim_batch-Marks) depth 12

-- A message whose publication returned is queued under its number.
publish-queued :
    (m : ClaimedMessage) (b b' : Broker)
    → publish_message m b ≡ (ok tt, b')
    → is_queued m.id b'.returned ≡ true
unfolding publish_message enqueue any
publish-queued m b b' h =
    let (name, u, named, rest) = bind_ok (lift (job_name m.topic)) _ b b' tt h in
    let job : Job = record { name = name; payload = m.payload; key = m.id } in
    let taken : b'.returned ≡ job ∷ u.returned = answer-ok (u.answers u.enqueues) job u b' rest in
    rw taken (ground (arith, ==_refl m.id))

acknowledged-Delivered :
    (p : Platform) (owner : Text) (m : ClaimedMessage)
    → Steps Delivered (publish_and_acknowledge p owner m)
unfolding publish_and_acknowledge
acknowledged-Delivered p owner m = record {
  at = λ b. bind_at Delivered (publish_message m) _ b ((publish-Delivered m).at b) λ done t sent.
      transact-Delivered (λ j. j == m.id) (acknowledge_message p m.id owner) t
        (acknowledge-Marks p m.id owner)
        (λ k e. rw ((==_iff k m.id).0 e) (publish-queued m b t sent));
}

settle-Delivered :
    (owner : Text) (m : ClaimedMessage) (r : Result Bool)
    → Steps Delivered (settle_message owner m r)
unfolding settle_message
settle-Delivered owner m (ok published) = search delivered_rules
settle-Delivered owner m (err e) = elim (settle_message-cases owner m e) [
  | inl again ↦ rw again (search delivered_rules)
  | inr noted ↦
      rw noted (search (delivered_rules, quiet-Delivered _ (fail-Marks m.id owner (describe e))))
]

relay_message-Delivered :
    (p : Platform) (owner : Text) (m : ClaimedMessage) → Steps Delivered (relay_message p owner m)
unfolding relay_message
relay_message-Delivered p owner m =
    search (delivered_rules, acknowledged-Delivered, settle-Delivered)

relay_messages-Delivered :
    (p : Platform) (owner : Text) (ms : List ClaimedMessage) (n : ℕ)
    → Steps Delivered (relay_messages p owner ms n)
unfolding relay_messages
relay_messages-Delivered p owner [] n = search delivered_rules
relay_messages-Delivered p owner (m ∷ ms) n =
    Steps-bind (relay_message p owner m) _ (relay_message-Delivered p owner m)
      (λ k. relay_messages-Delivered p owner ms (n + k))

-- Whether a run of the relay returns, raises or is cancelled, and however the queue and the
-- transactions answer: for a message that was in the outbox unpublished, and is published behind
-- the run, a call of `enqueue` with its number as the key has returned by then.
pub relay_once-delivers :
    (p : Platform) (owner : Text) (lease_duration batch_size : ℤ) (b : Broker) (k : ℕ)
    (r r' : OutboxMessageModel)
    → row k b.world ≡ some r
    → is_none r.published_at ≡ true
    → row k (relay_once p owner lease_duration batch_size b).1.world ≡ some r'
    → is_none r'.published_at ≡ false
    → is_queued k (relay_once p owner lease_duration batch_size b).1.returned ≡ true
relay_once-delivers p owner lease_duration batch_size b k r r' h free h' done =
    (run.at b).behind k r r' h free h' done
  where
    run : Steps Delivered (relay_once p owner lease_duration batch_size)
    run =
        unfold relay_once in
        Steps-bind (transact (claim_messages p owner lease_duration batch_size)) _
          (quiet-Delivered _ (claim-Marks p owner lease_duration batch_size))
          (λ ms. relay_messages-Delivered p owner ms 0)
