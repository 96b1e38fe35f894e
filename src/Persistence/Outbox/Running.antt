-- ===== src/Persistence/Outbox/Running.antt =====
-- A running lease keeps a message from every other claim, whatever happens to the outbox meanwhile.
use lsstack.Persistence.Outbox
use lsstack.Domain.Outbox.{OutboxMessage, leased, published}
use lsstack.Exec.{Error, err, integrity_error, ok}
use lsstack.Persistence.Models.{OutboxMessageModel, World, check_message}
use lsstack.Persistence.Outbox.{among, held}
use lsstack.Persistence.Outbox.Claims.{chosen, chosen-any, claim_batch-cases, takes}
use lsstack.Persistence.Outbox.Leases.{db_of_claim, ids_of_claim}
use lsstack.Persistence.Validity.Users.{any-insert_row}
use lsstack.Prelude.{
  All, Bool, Bool-cases, List, Option-cases, [], any, arith, false, inl, inr, is_none, refl, select,
  some, sym, true, ℕ, ◌<◌, ◌==◌, ◌∙◌, ◌∷◌, ◌≡◌, ◌≤◌, ◌⊎◌,
}
use lsstack.Prelude.Order.{All-everywhere}
use lsstack.Prelude.Table.{insert_row, update_where}
use lsstack.Prelude.Table.Laws.{All-insert_row, All-update_to, All-update_where}
use lsstack.Security.Passwords.{now}
use lsstack.Text.{Text}
use mathlib.Core.Path.{subst}

-- A call of the repository by any transaction, while other transactions have some rows locked.
pub data OutboxCall : Type 0 where
  adds_message : OutboxMessage → OutboxCall
  claims_messages : Text → ℕ → ℕ → ℕ → (ℕ → Bool) → OutboxCall
  marks_published : ℕ → Text → ℕ → OutboxCall
  marks_failed : ℕ → Text → Text → OutboxCall

unfoldable pub call : OutboxCall → World → World
call (adds_message message) w = (Outbox.add message w).1
call (claims_messages owner now expires limit locked) w =
    (Outbox.claim_batch owner now expires limit (record w { locked = locked })).1
call (marks_published message_id owner time) w = (Outbox.mark_published message_id owner time w).1
call (marks_failed message_id owner error) w = (Outbox.mark_failed message_id owner error w).1

unfoldable pub calls : List OutboxCall → World → World
unfolding call
calls [] w = w
calls (c ∷ cs) w = calls cs (call c w)

-- A claim is made before a time; any other call may be made at any time.
abbrev pub IsBefore : ℕ → OutboxCall → Type 0
IsBefore time (claims_messages owner now expires limit locked) = now < time
IsBefore time _ = Unit

-- Published, or leased for at least as long.
abbrev IsClosed : ℕ → OutboxMessageModel → Type 0
IsClosed time r =
    (is_none r.published_at ≡ false)
    ⊎ ((expires : ℕ) × (r.lease_expires_at ≡ some expires) × (time ≤ expires))

abbrev IsClosedAt : ℕ → ℕ → OutboxMessageModel → Type 0
IsClosedAt k time r = (r.id == k) ≡ true → IsClosed time r

record IsHeld (k time : ℕ) (rows : List OutboxMessageModel) : Type 0 where
  there : any (Outbox.has_id k) rows ≡ true
  closed : All (IsClosedAt k time) rows

not_taken :
    (now time : ℕ) (w : World) (r : OutboxMessageModel)
    → now < time
    → IsClosed time r
    → takes w now r ≡ false
not_taken now time w r early (inl published) = ground (arith, published)
not_taken now time w r early (inr (expires, leased, late)) = rw leased (ground (arith, early, late))

none_taken :
    (k now time : ℕ) (w : World) (rows : List OutboxMessageModel)
    → now < time
    → All (IsClosedAt k time) rows
    → any (λ m. m.id == k) (select (takes w now) rows) ≡ false
unfolding any select
none_taken k now time w [] early h = refl
none_taken k now time w (r ∷ rows) early h = elim (Bool-cases (r.id == k)) [
  | inl hit ↦
      ground (arith, not_taken now time w r early (h.0 hit), none_taken k now time w rows early h.1)
  | inr other ↦ ground (arith, other, none_taken k now time w rows early h.1)
]

none_chosen :
    (k now time limit : ℕ) (w : World)
    → now < time
    → All (IsClosedAt k time) w.db.outbox
    → any (λ m. m.id == k) (chosen now limit w) ≡ false
none_chosen k now time limit w early h =
    elim (Bool-cases (any (λ (m : OutboxMessageModel). m.id == k) (chosen now limit w))) [
      | inr free ↦ free
      | inl taken ↦
          let selected = chosen-any now limit w k taken in
          let shut = none_taken k now time w w.db.outbox early h in
          absurd (ground (arith, selected, shut))
    ]

any-update :
    (k : ℕ) (p : OutboxMessageModel → Bool) (f : OutboxMessageModel → OutboxMessageModel)
    (rows : List OutboxMessageModel)
    → ((r : OutboxMessageModel) → (f r).id ≡ r.id)
    → any (Outbox.has_id k) (update_where p f rows) ≡ any (Outbox.has_id k) rows
unfolding any update_where
any-update k p f [] same = refl
any-update k p f (r ∷ rows) same = ground (arith, same r, any-update k p f rows same)

-- An UPDATE that keeps the numbers and what is closed.
updated-IsHeld :
    (k time : ℕ) (p : OutboxMessageModel → Bool) (f : OutboxMessageModel → OutboxMessageModel)
    (rows : List OutboxMessageModel)
    → ((r : OutboxMessageModel) → (f r).id ≡ r.id)
    → ((r : OutboxMessageModel) → IsClosedAt k time r → p r ≡ true → IsClosedAt k time (f r))
    → IsHeld k time rows
    → IsHeld k time (update_where p f rows)
updated-IsHeld k time p f rows same keep v = record {
  there = any-update k p f rows same ∙ v.there;
  closed = All-update_where (IsClosedAt k time) p f rows keep v.closed;
}

other_number :
    (k j : ℕ) (rows : List OutboxMessageModel)
    → any (Outbox.has_id k) rows ≡ true
    → any (Outbox.has_id j) rows ≡ false
    → (j == k) ≡ true
    → ⊥
other_number k j rows h free hit =
    let same : j ≡ k = ground (arith, hit) in
    let taken : any (Outbox.has_id j) rows ≡ true =
      subst (λ n. any (Outbox.has_id n) rows ≡ true) (sym same) h in
    ground (arith, taken, free)

unchosen :
    (k : ℕ) (models : List OutboxMessageModel) (r : OutboxMessageModel)
    → any (λ m. m.id == k) models ≡ false
    → Outbox.among models r ≡ true
    → (r.id == k) ≡ true
    → ⊥
unchosen k models r missing among hit =
    let same : r.id ≡ k = ground (arith, hit) in
    let found : any (λ (m : OutboxMessageModel). m.id == k) models ≡ true =
      subst (λ n. any (λ (m : OutboxMessageModel). m.id == n) models ≡ true) same among in
    ground (arith, found, missing)

claimed-IsHeld :
    (k time now expires limit : ℕ) (owner : Text) (w : World)
    → now < time
    → IsHeld k time w.db.outbox
    → IsHeld k time (Outbox.claim_batch owner now expires limit w).1.db.outbox
claimed-IsHeld k time now expires limit owner w early v =
    elim (claim_batch-cases owner now expires limit w) [
      | inl (e, raised) ↦ rw raised v
      | inr claimed ↦ rw claimed (
          updated-IsHeld k time (Outbox.among (chosen now limit w)) (Outbox.set_lease owner expires)
            w.db.outbox (λ r. refl)
            (λ r h chosen_one hit. absurd (
              unchosen k (chosen now limit w) r (none_chosen k now time limit w early v.closed)
                chosen_one hit))
            v)
    ]

insert_message-cases :
    (model : OutboxMessageModel) (w : World)
    → ((e : Error) × (Outbox.insert_message model w ≡ (err e, w)))
      ⊎ ((any (Outbox.has_id model.id) w.db.outbox ≡ false)
          × (Outbox.insert_message model w ≡ (
            ok (Outbox.message_of_model model),
            record w { db = record (w.db) { outbox = insert_row model w.db.outbox } },
          )))
unfolding Outbox.insert_message
insert_message-cases model w = elim (Option-cases (check_message model)) [
  | inr (e, h) ↦ inl (e, rw (Outbox.insert_message, h) refl)
  | inl h ↦ elim (Bool-cases (any (Outbox.has_id model.id) w.db.outbox)) [
    | inl taken ↦
        inl (integrity_error "pk_outbox_messages", rw (Outbox.insert_message, h, taken) refl)
    | inr free ↦ inr (free, rw (Outbox.insert_message, h, free) refl)
  ]
]

inserted-IsHeld :
    (k time : ℕ) (model : OutboxMessageModel) (w : World)
    → IsHeld k time w.db.outbox
    → IsHeld k time (Outbox.insert_message model w).1.db.outbox
inserted-IsHeld k time model w v = elim (insert_message-cases model w) [
  | inl (e, raised) ↦ rw raised v
  | inr (free, inserted) ↦ rw inserted (record {
    there = any-insert_row (Outbox.has_id k) model w.db.outbox v.there;
    closed =
        All-insert_row (IsClosedAt k time) model w.db.outbox v.closed
          (λ hit. absurd (other_number k model.id w.db.outbox v.there free hit));
  })
]

call-IsHeld :
    (k time : ℕ) (c : OutboxCall) (w : World)
    → IsBefore time c
    → IsHeld k time w.db.outbox
    → IsHeld k time (call c w).db.outbox
unfolding call Outbox.add Outbox.mark_published Outbox.mark_failed
call-IsHeld k time (adds_message message) w early v =
    inserted-IsHeld k time (Outbox.model_of_message message) w v
call-IsHeld k time (claims_messages owner now expires limit locked) w early v =
    claimed-IsHeld k time now expires limit owner (record w { locked = locked }) early v
call-IsHeld k time (marks_published message_id owner at) w early v =
    updated-IsHeld k time (Outbox.held message_id owner) (Outbox.set_published at) w.db.outbox
      (λ r. refl) (λ r h found hit. inl refl) v
call-IsHeld k time (marks_failed message_id owner error) w early v =
    updated-IsHeld k time (Outbox.held message_id owner) (Outbox.set_failed error) w.db.outbox
      (λ r. refl) (λ r h found hit. h hit) v

calls-IsHeld :
    (k time : ℕ) (cs : List OutboxCall) (w : World)
    → All (IsBefore time) cs
    → IsHeld k time w.db.outbox
    → IsHeld k time (calls cs w).db.outbox
unfolding calls
calls-IsHeld k time [] w early v = v
calls-IsHeld k time (c ∷ cs) w early v =
    calls-IsHeld k time cs (call c w) early.1 (call-IsHeld k time c w early.0 v)

any-selected :
    (p q : OutboxMessageModel → Bool) (rows : List OutboxMessageModel)
    → any p (select q rows) ≡ true
    → any p rows ≡ true
unfolding any select
any-selected p q [] h = h
any-selected p q (r ∷ rows) h = ground (arith, h, any-selected p q rows)

other_row :
    (k : ℕ) (models : List OutboxMessageModel) (r : OutboxMessageModel)
    → any (λ m. m.id == k) models ≡ true
    → Outbox.among models r ≡ false
    → (r.id == k) ≡ true
    → ⊥
other_row k models r found missing hit =
    let same : r.id ≡ k = ground (arith, hit) in
    let lost : any (λ (m : OutboxMessageModel). m.id == k) models ≡ false =
      subst (λ n. any (λ (m : OutboxMessageModel). m.id == n) models ≡ false) same missing in
    ground (arith, found, lost)

-- What a claim returns is held until its lease ends.
start-IsHeld :
    (owner : Text) (now expires limit : ℕ) (w w' : World) (ms : List OutboxMessage) (k : ℕ)
    → Outbox.claim_batch owner now expires limit w ≡ (ok ms, w')
    → any (λ m. m.id == k) ms ≡ true
    → IsHeld k expires w'.db.outbox
start-IsHeld owner now expires limit w w' ms k h held =
    let rows = chosen now limit w in
    let found : any (λ (m : OutboxMessageModel). m.id == k) rows ≡ true =
      sym (ids_of_claim owner now expires limit w ms w' k h) ∙ held in
    subst (IsHeld k expires) (sym (db_of_claim owner now expires limit w ms w' h)) (record {
      there =
          any-update k (Outbox.among rows) (Outbox.set_lease owner expires) w.db.outbox (λ r. refl)
          ∙ any-selected (Outbox.has_id k) (takes w now) w.db.outbox
              (chosen-any now limit w k found);
      closed =
          All-update_to (λ r. Unit {0}) (IsClosedAt k expires) (Outbox.among rows)
            (Outbox.set_lease owner expires) w.db.outbox
            (λ r _ among hit. inr (expires, refl, omega arith))
            (λ r _ missing hit. absurd (other_row k rows r found missing hit))
            (All-everywhere (λ r. Unit {0}) w.db.outbox (λ r. tt));
    })

-- Once a claim has returned a message, no other claim that returns before the lease has run out
-- returns it again: not the same owner's nor another's, whatever messages are added, claimed,
-- published or noted as failed meanwhile, and whichever rows other transactions have locked.
pub claims_disjoint :
    (owner owner' : Text) (now expires limit now' expires' limit' : ℕ) (w w' u : World)
    (ms ns : List OutboxMessage) (cs : List OutboxCall) (locked : ℕ → Bool) (k : ℕ)
    → Outbox.claim_batch owner now expires limit w ≡ (ok ms, w')
    → All (IsBefore expires) cs
    → Outbox.claim_batch owner' now' expires' limit' (record (calls cs w') { locked = locked })
      ≡ (ok ns, u)
    → now' < expires
    → any (λ m. m.id == k) ms ≡ true
    → any (λ m. m.id == k) ns ≡ false
claims_disjoint owner owner' now expires limit now' expires' limit' w w' u ms ns cs locked k h early
      h' lt held =
    let s = record (calls cs w') { locked = locked } in
    let kept =
      calls-IsHeld k expires cs w' early (start-IsHeld owner now expires limit w w' ms k h held) in
    ids_of_claim owner' now' expires' limit' s ns u k h'
    ∙ none_chosen k now' expires limit' s lt kept.closed
