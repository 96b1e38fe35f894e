-- ===== src/Persistence/Outbox/Marks.antt =====
-- Which statements on the outbox publish a message: the acknowledgement of it, and no other.
use lsstack.Persistence.Outbox
use mathlib.Core.Option
use lsstack.Domain.Outbox.{leased}
use lsstack.Exec.Steps.{IsPreorder, Steps, steps_rules}
use lsstack.Persistence.Models.{OutboxMessageModel, World}
use lsstack.Persistence.Outbox.Claims.{IsKeyed, chosen, claim_batch-cases}
use lsstack.Persistence.Outbox.Published.{row}
use lsstack.Platform.{Platform}
use lsstack.Prelude.{
  ==_iff, Bool, Bool-cases, ap, arith, eq_of_some, false, inl, inr, is_none, refl, some, sym, true,
  ℕ, ◌==◌, ◌∙◌, ◌≡◌,
}
use lsstack.Prelude.Table.{find, update_where}
use lsstack.Prelude.Table.Keys.{Unique, Unique-update_where}
use lsstack.Prelude.Table.Laws.{changed, find-update_where, find_sound}
use lsstack.Security.Passwords.{now}
use lsstack.Text.{Text}
use mathlib.Core.Path.{subst}

-- A step that removes no message and publishes none but those allowed.
pub record Marks (allowed : ℕ → Bool) (s t : World) : Type 0 where
  pub keyed : IsKeyed s → IsKeyed t
  pub present :
      (k : ℕ) (r : OutboxMessageModel)
      → row k s ≡ some r
      → (r' : OutboxMessageModel) × (row k t ≡ some r')
  pub unpublished :
      (k : ℕ) (r r' : OutboxMessageModel)
      → allowed k ≡ false
      → row k s ≡ some r
      → is_none r.published_at ≡ true
      → row k t ≡ some r'
      → is_none r'.published_at ≡ true

instance abbrev pub Marks-preorder : {allowed : ℕ → Bool} → IsPreorder (Marks allowed)
Marks-preorder = record {
  same = λ s. record {
    keyed = λ u. u;
    present = λ k r h. (r, h);
    unpublished = λ k r r' a h free h'.
        let same : r ≡ r' = eq_of_some (sym h ∙ h') in
        subst (λ (x : OutboxMessageModel). is_none x.published_at ≡ true) same free;
  };
  chain = λ s t u h g. record {
    keyed = λ v. g.keyed (h.keyed v);
    present = λ k r e. let (r', e') = h.present k r e in g.present k r' e';
    unpublished = λ k r r'' a e free e''.
        let (r', e') = h.present k r e in
        g.unpublished k r' r'' a e' (h.unpublished k r r' a e free e') e'';
  };
}

pub ruleset marks_rules = (steps_rules, Marks-preorder)

-- A step that leaves the outbox alone.
pub Marks_of_same :
    (allowed : ℕ → Bool) (s t : World) → t.db.outbox ≡ s.db.outbox → Marks allowed s t
unfolding row
Marks_of_same allowed s t e = record {
  keyed = λ u. subst (Unique (λ (r : OutboxMessageModel). r.id)) (sym e) u;
  present = λ k r h. (r, ap (find (Outbox.has_id k)) e ∙ h);
  unpublished = λ k r r' a h free h'.
      let same : r ≡ r' = eq_of_some (sym h ∙ sym (ap (find (Outbox.has_id k)) e) ∙ h') in
      subst (λ (x : OutboxMessageModel). is_none x.published_at ≡ true) same free;
}

-- An UPDATE that keeps the numbers, and publishes none but the rows allowed.
updated :
    (allowed : ℕ → Bool) (p : OutboxMessageModel → Bool)
    (f : OutboxMessageModel → OutboxMessageModel) (w : World)
    → ((r : OutboxMessageModel) → (f r).id ≡ r.id)
    → ((r : OutboxMessageModel)
        → allowed r.id ≡ false
        → p r ≡ true
        → is_none (f r).published_at ≡ is_none r.published_at)
    → Marks allowed w (record w { db = record (w.db) { outbox = update_where p f w.db.outbox } })
unfolding row
updated allowed p f w same keep = record {
  keyed = Unique-update_where (λ (r : OutboxMessageModel). r.id) p f w.db.outbox same;
  present = λ k r h. (changed p f r, found k r h);
  unpublished = λ k r r' a h free h'.
      let one : changed p f r ≡ r' = eq_of_some (sym (found k r h) ∙ h') in
      let number : r.id ≡ k = (==_iff r.id k).0 (find_sound (Outbox.has_id k) w.db.outbox r h) in
      subst (λ (x : OutboxMessageModel). is_none x.published_at ≡ true) one
        (kept r (ap allowed number ∙ a) free);
}
  where
    found :
        (k : ℕ) (r : OutboxMessageModel)
        → find (Outbox.has_id k) w.db.outbox ≡ some r
        → find (Outbox.has_id k) (update_where p f w.db.outbox) ≡ some (changed p f r)
    found k r h =
        find-update_where (Outbox.has_id k) p f w.db.outbox (λ x. ap (λ (n : ℕ). n == k) (same x))
        ∙ ap (Option.map (changed p f)) h

    kept :
        (r : OutboxMessageModel)
        → allowed r.id ≡ false
        → is_none r.published_at ≡ true
        → is_none (changed p f r).published_at ≡ true
    kept r a free =
        unfold changed in
        elim (Bool-cases (p r)) [ inl hit ↦ rw hit (keep r a hit ∙ free) | inr miss ↦ rw miss free ]

pub mark_published-Marks :
    (k : ℕ) (owner : Text) (time : ℕ)
    → Steps (Marks (λ j. j == k)) (Outbox.mark_published k owner time)
unfolding Outbox.mark_published
mark_published-Marks k owner time = record {
  at = λ w.
      updated (λ j. j == k) (Outbox.held k owner) (Outbox.set_published time) w (λ r. refl)
        (λ r other hit. absurd (ground (arith, other, hit)));
}

pub mark_failed-Marks :
    (allowed : ℕ → Bool) (k : ℕ) (owner error : Text)
    → Steps (Marks allowed) (Outbox.mark_failed k owner error)
unfolding Outbox.mark_failed
mark_failed-Marks allowed k owner error = record {
  at = λ w.
      updated allowed (Outbox.held k owner) (Outbox.set_failed error) w (λ r. refl)
        (λ r other hit. refl);
}

pub claim_batch-Marks :
    (allowed : ℕ → Bool) (owner : Text) (now expires limit : ℕ)
    → Steps (Marks allowed) (Outbox.claim_batch owner now expires limit)
claim_batch-Marks allowed owner now expires limit = record {
  at = λ w. elim (claim_batch-cases owner now expires limit w) [
    | inl (e, raised) ↦ rw raised (Marks_of_same allowed w w refl)
    | inr leased ↦ rw leased (
        updated allowed (Outbox.among (chosen now limit w)) (Outbox.set_lease owner expires) w
          (λ r. refl) (λ r other hit. refl))
  ];
}

pub now-Marks : (allowed : ℕ → Bool) (p : Platform) → Steps (Marks allowed) (now p)
unfolding now
now-Marks allowed p = record { at = λ w. Marks_of_same allowed w _ refl }
