-- ===== src/Queue/Relay/Counts.antt =====
-- The relay counts no message without a call of `enqueue` for it that returned.
use lsstack.Application.Outbox.{ClaimedMessage, claim_messages, fail_message}
use lsstack.Domain.Outbox.{failed, leased, published}
use lsstack.Exec.{
  Error, Exec, Result, attempt, cancelled_error, err, lift, ok, pure, raise, ◌>>=◌, ◌>>◌,
}
use lsstack.Exec.Inversion.{bind_ok, lift_ok}
use lsstack.Exec.Steps.{IsPreorder, Steps, steps_rules}
use lsstack.Persistence.Models.{World}
use lsstack.Platform.{Platform}
use lsstack.Prelude.{
  Bool, List, [], ap, arith, false, inl, inr, length, refl, sym, true, ℕ, ◌+◌, ◌∙◌, ◌∷◌, ◌≡◌, ◌≤◌,
  ◌⊎◌,
}
use lsstack.Prelude.Int.{ℤ}
use lsstack.Queue.Relay.{
  Answer, Broker, Job, accepted, already_queued, answer_job, cancels, count_of, describe, enqueue,
  job_name, publish_and_acknowledge, publish_message, raises, relay_message, relay_messages,
  relay_once, settle_message, transact,
}
use lsstack.System.{done}
use lsstack.Text.{Text}
use mathlib.Core.Path.{subst}

-- No step takes a job out of the queue.
record Grows (s t : Broker) : Type 0 where
  longer : length s.returned ≤ length t.returned

instance abbrev Grows-preorder : IsPreorder Grows
Grows-preorder = record {
  same = λ s. record { longer = omega arith };
  chain = λ s t u h k. record { longer = omega (arith, h.longer, k.longer) };
}

ruleset grows_rules = (steps_rules, Grows-preorder)

answer-grows : (a : Answer) (job : Job) (b : Broker) → Grows b (answer_job a job b).1
unfolding answer_job
answer-grows accepted job b = record { longer = omega arith }
answer-grows already_queued job b = record { longer = omega arith }
answer-grows (raises name message) job b = record { longer = omega arith }
answer-grows cancels job b = record { longer = omega arith }

enqueue-Grows : (job : Job) → Steps Grows (enqueue job)
unfolding enqueue
enqueue-Grows job = record { at = λ b. answer-grows (b.answers b.enqueues) job b }

transact-Grows : {A : Type 0} (m : Exec World A) → Steps Grows (transact m)
unfolding transact
transact-Grows m = record { at = λ b. record { longer = omega arith } }

publish-Grows : (m : ClaimedMessage) → Steps Grows (publish_message m)
unfolding publish_message
publish-Grows m = search (grows_rules, enqueue-Grows)

published-Grows :
    (p : Platform) (owner : Text) (m : ClaimedMessage)
    → Steps Grows (publish_and_acknowledge p owner m)
unfolding publish_and_acknowledge
published-Grows p owner m = search (grows_rules, publish-Grows, transact-Grows)

-- A job that was taken is in the queue.
pub answer-ok :
    (a : Answer) (job : Job) (b b' : Broker)
    → answer_job a job b ≡ (ok tt, b')
    → b'.returned ≡ job ∷ b.returned
unfolding answer_job
answer-ok accepted job b b' h = ap (λ x. x.1.returned) (sym h)
answer-ok already_queued job b b' h = ap (λ x. x.1.returned) (sym h)
answer-ok (raises name message) job b b' h = absurd (ground arith)
answer-ok cancels job b b' h = absurd (ground arith)

publish-ok :
    (m : ClaimedMessage) (b b' : Broker)
    → publish_message m b ≡ (ok tt, b')
    → length b'.returned ≡ length b.returned + 1
unfolding publish_message enqueue
publish-ok m b b' h =
    let (name, u, named, rest) = bind_ok (lift (job_name m.topic)) _ b b' tt h in
    let same : u ≡ b = (lift_ok (job_name m.topic) b u name named).1 in
    let job : Job = record { name = name; payload = m.payload; key = m.id } in
    let taken : b'.returned ≡ job ∷ u.returned = answer-ok (u.answers u.enqueues) job u b' rest in
    let longer : length b'.returned ≡ length (job ∷ u.returned) = ap length taken in
    let before : length u.returned ≡ length b.returned =
      ap (λ (x : Broker). length x.returned) same in
    omega (arith, longer, before)

acknowledged-ok :
    (p : Platform) (owner : Text) (m : ClaimedMessage) (b b' : Broker) (published : Bool)
    → publish_and_acknowledge p owner m b ≡ (ok published, b')
    → length b'.returned ≡ length b.returned + 1
unfolding publish_and_acknowledge transact
acknowledged-ok p owner m b b' published h =
    let (done, u, sent, rest) = bind_ok (publish_message m) _ b b' published h in
    ap (λ x. length x.1.returned) (sym rest) ∙ publish-ok m b u sent

-- What the two `except` clauses add, if they do not raise again: nothing.
failed_message :
    (b u b' : Broker) (m : Exec World Bool) (n : ℕ)
    → length b.returned ≤ length u.returned
    → (transact m >>= λ _. pure 0) u ≡ (ok n, b')
    → length b.returned + n ≤ length b'.returned
unfolding pure transact
failed_message b u b' m n grown h =
    let (failed, v, written, rest) = bind_ok (transact m) _ u b' n h in
    let none_added : n ≡ 0 = ground (arith, rest) in
    let same : length b'.returned ≡ length u.returned =
      ap (λ x. length x.1.returned) (sym rest) ∙ ap (λ x. length x.1.returned) (sym written) in
    omega (arith, none_added, same, grown)

count-le : (published : Bool) → count_of published ≤ 1
count-le true = omega arith
count-le false = omega arith

-- The two `except` clauses: a cancellation is raised again, and any other error is noted.
pub settle_message-cases :
    (owner : Text) (m : ClaimedMessage) (e : Error)
    → (settle_message owner m (err e) ≡ raise cancelled_error)
      ⊎ (settle_message owner m (err e)
          ≡ (do transact (fail_message m.id owner (describe e)); pure 0))
unfolding settle_message
settle_message-cases owner m cancelled_error = inl refl
settle_message-cases owner m _ = inr refl

settled :
    (owner : Text) (m : ClaimedMessage) (b u b' : Broker) (r : Result Bool) (n : ℕ)
    → ((published : Bool) → r ≡ ok published → length u.returned ≡ length b.returned + 1)
      × (length b.returned ≤ length u.returned)
    → settle_message owner m r u ≡ (ok n, b')
    → length b.returned + n ≤ length b'.returned
unfolding settle_message pure raise
settled owner m b u b' (ok done) n h k =
    let same : length b'.returned ≡ length u.returned = ap (λ x. length x.1.returned) (sym k) in
    let counted : n ≡ count_of done = ground (arith, k) in
    omega (arith, same, counted, h.0 done refl, count-le done)
settled owner m b u b' (err e) n h k = elim (settle_message-cases owner m e) [
  | inl again ↦
      let raised : ◌≡◌ {A = Result ℕ × Broker} (err cancelled_error, u) (ok n, b') =
        subst (λ (g : Exec Broker ℕ). g u ≡ (ok n, b')) again k in
      absurd (ground arith)
  | inr noted ↦
      failed_message b u b' (fail_message m.id owner (describe e)) n h.1
        (subst (λ (g : Exec Broker ℕ). g u ≡ (ok n, b')) noted k)
]

relay_message-returned :
    (p : Platform) (owner : Text) (m : ClaimedMessage) (b b' : Broker) (n : ℕ)
    → relay_message p owner m b ≡ (ok n, b')
    → length b.returned + n ≤ length b'.returned
unfolding relay_message attempt ◌>>=◌
relay_message-returned p owner m b b' n h =
    settled owner m b (publish_and_acknowledge p owner m b).1 b'
      (publish_and_acknowledge p owner m b).0 n
      (
        λ published e.
            acknowledged-ok p owner m b _ published
              (λ i. (e i, (publish_and_acknowledge p owner m b).1)),
        ((published-Grows p owner m).at b).longer,
      )
      h

relay_messages-returned :
    (p : Platform) (owner : Text) (ms : List ClaimedMessage) (b b' : Broker) (n k : ℕ)
    → relay_messages p owner ms n b ≡ (ok k, b')
    → length b.returned + k ≤ length b'.returned + n
unfolding relay_messages
relay_messages-returned p owner [] b b' n k h = unfold pure in ground (arith, h)
relay_messages-returned p owner (m ∷ ms) b b' n k h =
    let (j, u, first, rest) = bind_ok (relay_message p owner m) _ b b' k h in
    omega (
      arith,
      relay_message-returned p owner m b u j first,
      relay_messages-returned p owner ms u b' (n + j) k rest,
    )

-- If a run of the relay returns, at least as many of its calls of `enqueue` returned without raising
-- as it counts messages published, however the queue and the transactions answered. Such a call
-- has added a job, or has found one with its key.
pub relay_once-returned :
    (p : Platform) (owner : Text) (lease_duration batch_size : ℤ) (b b' : Broker) (n : ℕ)
    → relay_once p owner lease_duration batch_size b ≡ (ok n, b')
    → length b.returned + n ≤ length b'.returned
unfolding relay_once
relay_once-returned p owner lease_duration batch_size b b' n h =
    let (claimed, u, leased, rest) =
      bind_ok (transact (claim_messages p owner lease_duration batch_size)) _ b b' n h in
    let same : length u.returned ≡ length b.returned =
      unfold transact in ap (λ x. length x.1.returned) (sym leased) in
    omega (arith, relay_messages-returned p owner claimed u b' 0 n rest, same)
