-- ===== src/Persistence/Outbox/History.antt =====
-- A published message stays as it was published, through every later statement on the outbox.
use lsstack.Persistence.Outbox
use mathlib.Core.Option
use lsstack.Domain.Outbox.{OutboxMessage}
use lsstack.Exec.Steps.{IsPreorder, Steps, steps_rules}
use lsstack.Persistence.Models.{OutboxMessageModel, World, check_message}
use lsstack.Persistence.Outbox.Claims.{IsKeyed, among-claimable, chosen, claim_batch-cases}
use lsstack.Persistence.Outbox.Published.{row}
use lsstack.Persistence.Validity.Outbox.{fresh_message}
use lsstack.Prelude.{
  All, Bool, Bool-cases, List, Option-cases, [], any, ap, arith, false, inl, inr, is_none, refl,
  some, sym, true, ℕ, ◌==◌, ◌∙◌, ◌∷◌, ◌≡◌,
}
use lsstack.Prelude.Table.{find, insert_row, update_where}
use lsstack.Prelude.Table.Keys.{Unique, Unique-insert_row, Unique-update_where}
use lsstack.Prelude.Table.Laws.{All-map, changed, find-All, find-insert_row, find-update_where}
use lsstack.Security.Passwords.{now}
use lsstack.Text.{Text}
use mathlib.Core.Path.{subst}

-- The messages keep distinct numbers, and what is published is never written again.
pub record History (s t : World) : Type 0 where
  pub keyed : IsKeyed s → IsKeyed t
  pub kept :
      IsKeyed s
      → (k : ℕ) (r : OutboxMessageModel) (time : ℕ) → row k s ≡ some r
      → r.published_at ≡ some time
      → row k t ≡ some r

instance abbrev pub History-preorder : IsPreorder History
History-preorder = record {
  same = λ s. record { keyed = λ u. u; kept = λ u k r time h p. h };
  chain = λ s t v g h. record {
    keyed = λ u. h.keyed (g.keyed u);
    kept = λ u k r time e p. h.kept (g.keyed u) k r time (g.kept u k r time e p) p;
  };
}

pub ruleset history_rules = (steps_rules, History-preorder)

row-eq : (k : ℕ) (s t : World) → t.db.outbox ≡ s.db.outbox → row k t ≡ row k s
unfolding row
row-eq k s t e = ap (find (Outbox.has_id k)) e

-- A step that leaves the outbox alone.
pub History_of_same : (s t : World) → t.db.outbox ≡ s.db.outbox → History s t
History_of_same s t e = record {
  keyed = λ u. subst (Unique (λ (r : OutboxMessageModel). r.id)) (sym e) u;
  kept = λ u k r time h p. row-eq k s t e ∙ h;
}

-- An UPDATE that passes over what is published and keeps the numbers.
updated :
    (p : OutboxMessageModel → Bool) (f : OutboxMessageModel → OutboxMessageModel) (w : World)
    → (IsKeyed w → All (λ r. p r ≡ true → is_none r.published_at ≡ true) w.db.outbox)
    → ((r : OutboxMessageModel) → (f r).id ≡ r.id)
    → History w (record w { db = record (w.db) { outbox = update_where p f w.db.outbox } })
unfolding row changed
updated p f w open_only same = record {
  keyed = Unique-update_where (λ (r : OutboxMessageModel). r.id) p f w.db.outbox same;
  kept = λ u k r time h e.
      let passed : p r ≡ true → is_none r.published_at ≡ true =
        find-All (λ (r : OutboxMessageModel). p r ≡ true → is_none r.published_at ≡ true)
          (Outbox.has_id k) w.db.outbox (open_only u) h in
      let left : p r ≡ false = elim (Bool-cases (p r)) [
        | inr n ↦ n
        | inl y ↦ let free = passed y in absurd (ground arith)
      ] in
      find-update_where (Outbox.has_id k) p f w.db.outbox (λ x. ap (λ (n : ℕ). n == k) (same x))
      ∙ ap (Option.map (changed p f)) h
      ∙ ap some (ground arith);
}

pub mark_published-History :
    (k : ℕ) (owner : Text) (time : ℕ) → Steps History (Outbox.mark_published k owner time)
unfolding Outbox.mark_published
mark_published-History k owner time = record {
  at = λ w.
      updated (Outbox.held k owner) (Outbox.set_published time) w (λ u. all_rows w.db.outbox)
        (λ r. refl);
}
  where
    all_rows :
        (rows : List OutboxMessageModel)
        → All (λ r. Outbox.held k owner r ≡ true → is_none r.published_at ≡ true) rows
    all_rows [] = tt
    all_rows (r ∷ rows) = (λ h. ground arith, all_rows rows)

pub mark_failed-History :
    (k : ℕ) (owner error : Text) → Steps History (Outbox.mark_failed k owner error)
unfolding Outbox.mark_failed
mark_failed-History k owner error = record {
  at = λ w.
      updated (Outbox.held k owner) (Outbox.set_failed error) w (λ u. all_rows w.db.outbox)
        (λ r. refl);
}
  where
    all_rows :
        (rows : List OutboxMessageModel)
        → All (λ r. Outbox.held k owner r ≡ true → is_none r.published_at ≡ true) rows
    all_rows [] = tt
    all_rows (r ∷ rows) = (λ h. ground arith, all_rows rows)

claimed_open :
    (now limit : ℕ) (w : World) (u : IsKeyed w)
    → All
        (λ r. Outbox.among (chosen now limit w) r ≡ true → is_none r.published_at ≡ true)
        w.db.outbox
claimed_open now limit w u =
    All-map
      (λ r.
        Outbox.among (chosen now limit w) r ≡ true
        → (Outbox.claimable now r ≡ true) × (w.locked r.id ≡ false))
      (λ r. Outbox.among (chosen now limit w) r ≡ true → is_none r.published_at ≡ true) w.db.outbox
      (λ r h e. let (open_row, unlocked) = h e in ground arith) (among-claimable now limit w u)

pub claim_batch-History :
    (owner : Text) (now expires limit : ℕ)
    → Steps History (Outbox.claim_batch owner now expires limit)
claim_batch-History owner now expires limit = record {
  at = λ w. elim (claim_batch-cases owner now expires limit w) [
    | inl (e, raised) ↦ rw raised (History_of_same w w refl)
    | inr claimed ↦ rw claimed (
        updated (Outbox.among (chosen now limit w)) (Outbox.set_lease owner expires) w
          (claimed_open now limit w) (λ r. refl))
  ];
}

inserted :
    (model : OutboxMessageModel) (w : World)
    → any (Outbox.has_id model.id) w.db.outbox ≡ false
    → History w (record w { db = record (w.db) { outbox = insert_row model w.db.outbox } })
unfolding row
inserted model w free = record {
  keyed = λ u.
      Unique-insert_row (λ (r : OutboxMessageModel). r.id) model w.db.outbox u
        (fresh_message model.id w.db.outbox free);
  kept = λ u k r time h p. rw (find-insert_row (Outbox.has_id k) model w.db.outbox, h);
}

pub add-History : (message : OutboxMessage) → Steps History (Outbox.add message)
unfolding Outbox.add
add-History message = record { at = λ w. at_world (Outbox.model_of_message message) w }
  where
    at_world :
        (model : OutboxMessageModel) (w : World) → History w (Outbox.insert_message model w).1
    at_world model w = elim (Option-cases (check_message model)) [
      | inr (e, h) ↦ rw (h, Outbox.insert_message) (History_of_same w w refl)
      | inl h ↦ elim (Bool-cases (any (Outbox.has_id model.id) w.db.outbox)) [
        | inl taken ↦ rw (h, Outbox.insert_message, taken) (History_of_same w w refl)
        | inr free ↦ rw (h, Outbox.insert_message, free) (inserted model w free)
      ]
    ]
