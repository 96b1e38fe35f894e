-- ===== src/Persistence/Outbox/Claims.antt =====
-- Which messages `claim_batch` takes, and in what order.
use lsstack.Persistence.Outbox
use lsstack.Domain.Outbox.{leased}
use lsstack.Exec.{Error, err, ok}
use lsstack.Persistence.Models.{OutboxMessageModel, World}
use lsstack.Prelude.{
  All, Bool, Bool-cases, List, Option, Option-cases, [], any, arith, false, inl, inr, is_none, ltb,
  map, none, not, refl, select, some, sym, take, true, ℕ, ◌&&◌, ◌<◌, ◌==◌, ◌↔◌, ◌∙◌, ◌∷◌, ◌≡◌, ◌≤◌,
  ◌⊎◌,
}
use lsstack.Prelude.Order.{
  IsSorted, any-sort_by, any-take, passes_of_key, sort_by-IsSorted, sort_by-perm,
}
use lsstack.Prelude.Table.{update_where}
use lsstack.Prelude.Table.Keys.{Unique}
use lsstack.Prelude.Table.Laws.{All-map}
use lsstack.Security.Passwords.{now}
use lsstack.Text.{Text, before}
use mathlib.Core.List.{Perm}

-- The rows that a claim takes.
abbrev pub chosen : ℕ → ℕ → World → List OutboxMessageModel
chosen now limit w = take limit (Outbox.candidates w.locked now w.db.outbox)

-- The database after the claim of some rows.
abbrev pub leased_world : Text → ℕ → List OutboxMessageModel → World → World
leased_world owner expires models w = record w {
  db = record (w.db) {
    outbox = update_where (Outbox.among models) (Outbox.set_lease owner expires) w.db.outbox;
  };
}

-- A claim raises and changes nothing, or leases the rows that it takes and returns them.
pub claim_batch-cases :
    (owner : Text) (now expires limit : ℕ) (w : World)
    → ((e : Error) × (Outbox.claim_batch owner now expires limit w ≡ (err e, w)))
      ⊎ (Outbox.claim_batch owner now expires limit w ≡ (
        ok (
            map Outbox.message_of_model
              (map (Outbox.set_lease owner expires) (chosen now limit w))),
        leased_world owner expires (chosen now limit w) w,
      ))
unfolding Outbox.claim_batch
claim_batch-cases owner now expires limit w =
    elim (Option-cases
      (Outbox.first_error (map (Outbox.set_lease owner expires) (chosen now limit w)))) [
        | inr (e, h) ↦ inl (e, rw (h, Outbox.lease_models))
        | inl h ↦ inr (rw (h, Outbox.lease_models))
      ]

-- The rows that may be taken.
abbrev pub takes : World → ℕ → OutboxMessageModel → Bool
takes w now r = Outbox.claimable now r && not (w.locked r.id)

pub chosen-any :
    (now limit : ℕ) (w : World) (k : ℕ)
    → any (λ m. m.id == k) (chosen now limit w) ≡ true
    → any (λ m. m.id == k) (select (takes w now) w.db.outbox) ≡ true
unfolding Outbox.candidates
chosen-any now limit w k h =
    sym (any-sort_by Outbox.older (λ m. m.id == k) (select (takes w now) w.db.outbox))
    ∙ any-take (λ m. m.id == k) limit (Outbox.candidates w.locked now w.db.outbox) h

-- No two messages have one number.
abbrev pub IsKeyed : World → Type 0
IsKeyed w = Unique (λ (r : OutboxMessageModel). r.id) w.db.outbox

-- What a claim takes is unpublished, has no running lease, and is locked by nobody else.
pub among-claimable :
    (now limit : ℕ) (w : World)
    → IsKeyed w
    → All
        (λ r.
          Outbox.among (chosen now limit w) r ≡ true
          → (Outbox.claimable now r ≡ true) × (w.locked r.id ≡ false))
        w.db.outbox
among-claimable now limit w u =
    All-map
      (λ r.
        any (λ m. m.id == r.id) (select (takes w now) w.db.outbox) ≡ true → takes w now r ≡ true)
      (λ r.
        Outbox.among (chosen now limit w) r ≡ true
        → (Outbox.claimable now r ≡ true) × (w.locked r.id ≡ false))
      w.db.outbox
      (λ r h e. let passed = h (chosen-any now limit w r.id e) in (ground arith, ground arith))
      (passes_of_key (λ (r : OutboxMessageModel). r.id) (takes w now) w.db.outbox u)

older-total : (a b : OutboxMessageModel) → Outbox.older a b ≡ false → Outbox.older b a ≡ true
older-total a b h = ground arith

older-chain :
    (a b c : OutboxMessageModel)
    → Outbox.older a b ≡ true
    → Outbox.older b c ≡ true
    → Outbox.older a c ≡ true
older-chain a b c h k = ground arith

-- A message that is free: unpublished, and not leased or leased no longer than until now.
abbrev pub IsFree : ℕ → OutboxMessageModel → Type 0
IsFree now r =
    (r.published_at ≡ none)
    × ((r.lease_expires_at ≡ none)
        ⊎ ((expires : ℕ) × (r.lease_expires_at ≡ some expires) × (expires ≤ now)))

-- Created earlier, or at the same time with a smaller number.
abbrev pub IsEarlier : OutboxMessageModel → OutboxMessageModel → Type 0
IsEarlier a b = (a.created_at < b.created_at) ⊎ ((a.created_at ≡ b.created_at) × (a.id ≤ b.id))

abbrev pub IsEarliestFirst : List OutboxMessageModel → Type 0
IsEarliestFirst [] = Unit
IsEarliestFirst (r ∷ rows) = All (IsEarlier r) rows × IsEarliestFirst rows

absent : (x : Option ℕ) → is_none x ≡ true → x ≡ none
absent none h = refl
absent (some n) h = absurd (ground (arith, h))

over :
    (now : ℕ) (x : Option ℕ)
    → Outbox.lease_over now x ≡ true
    → (x ≡ none) ⊎ ((expires : ℕ) × (x ≡ some expires) × (expires ≤ now))
over now none h = inl refl
over now (some expires) h = inr (expires, refl, ground (arith, h))

pub takes-IsFree :
    (w : World) (now : ℕ) (r : OutboxMessageModel)
    → (takes w now r ≡ true) ↔ (IsFree now r × (w.locked r.id ≡ false))
takes-IsFree w now r = (
  λ h. (
    (absent r.published_at (ground (arith, h)), over now r.lease_expires_at (ground (arith, h))),
    ground (arith, h),
  ),
  λ v. elim v.0.1 [
    | inl unleased ↦ rw (v.0.0, unleased, v.1) refl
    | inr (expires, leased, past) ↦ rw (v.0.0, leased, v.1) (ground (arith, past))
  ],
)

pub older-IsEarlier : (a b : OutboxMessageModel) → Outbox.older a b ≡ true → IsEarlier a b
older-IsEarlier a b h = elim (Bool-cases (ltb a.created_at b.created_at)) [
  | inl before ↦ inl (ground (arith, before))
  | inr not_before ↦ inr (ground (arith, h, not_before), ground (arith, h, not_before))
]

sorted-IsEarliestFirst :
    (rows : List OutboxMessageModel) → IsSorted Outbox.older rows → IsEarliestFirst rows
sorted-IsEarliestFirst [] h = tt
sorted-IsEarliestFirst (r ∷ rows) h = (
  All-map (λ s. Outbox.older r s ≡ true) (IsEarlier r) rows (older-IsEarlier r) h.0,
  sorted-IsEarliestFirst rows h.1,
)

pub candidates-IsSorted :
    (w : World) (now : ℕ) → IsSorted Outbox.older (Outbox.candidates w.locked now w.db.outbox)
unfolding Outbox.candidates
candidates-IsSorted w now =
    sort_by-IsSorted Outbox.older older-total older-chain (select (takes w now) w.db.outbox)

-- The candidates of a claim are the messages that are unpublished, under no running lease and
-- locked by nobody else, each once, by the time of their creation and then by their number.
pub candidates_lem :
    (w : World) (now : ℕ)
    → ((keep : OutboxMessageModel → Bool) × ((r : OutboxMessageModel)
          → (keep r ≡ true) ↔ (IsFree now r × (w.locked r.id ≡ false)))
        × Perm (Outbox.candidates w.locked now w.db.outbox) (select keep w.db.outbox))
      × IsEarliestFirst (Outbox.candidates w.locked now w.db.outbox)
unfolding Outbox.candidates
candidates_lem w now = (
  (takes w now, takes-IsFree w now, sort_by-perm Outbox.older (select (takes w now) w.db.outbox)),
  sorted-IsEarliestFirst (Outbox.candidates w.locked now w.db.outbox) (candidates-IsSorted w now),
)
