-- ===== src/Persistence/Outbox/Published.antt =====
-- A message is published once, by the owner of its lease, and stays as it was published.
use lsstack.Persistence.Outbox
use mathlib.Core.Option
use lsstack.Exec.{ok}
use lsstack.Persistence.Models.{OutboxMessageModel, World}
use lsstack.Persistence.Outbox.Claims.{IsKeyed}
use lsstack.Prelude.{
  Bool, Option, Option-cases, ap, arith, false, if◌then◌else◌, inl, inr, is_none, none, not, refl,
  some, true, ℕ, ◌&&◌, ◌==◌, ◌∙◌, ◌≡◌,
}
use lsstack.Prelude.Table.{find}
use lsstack.Prelude.Table.Keys.{Unique-update_where, find-key, keep_if}
use lsstack.Prelude.Table.Laws.{changed, find_sound, find-update_where, update_where-none}
use lsstack.Text.{Text}
use mathlib.Core.Path.{subst}

-- The message of a number, if the outbox has one.
unfoldable pub row : ℕ → World → Option OutboxMessageModel
row k w = find (Outbox.has_id k) w.db.outbox

-- The owner of a running or expired lease may settle the message while it is unpublished.
abbrev pub is_held : Text → OutboxMessageModel → Bool
is_held owner r = Outbox.is_owner owner r.lease_owner && is_none r.published_at

found_held :
    (k : ℕ) (owner : Text) (w : World)
    → IsKeyed w
    → find (Outbox.held k owner) w.db.outbox ≡ keep_if (is_held owner) (row k w)
unfolding row
found_held k owner w u = find-key (λ (r : OutboxMessageModel). r.id) k (is_held owner) w.db.outbox u

row_of_found : (k : ℕ) (w : World) (r : OutboxMessageModel) → row k w ≡ some r → (r.id == k) ≡ true
unfolding row
row_of_found k w r h = find_sound (Outbox.has_id k) w.db.outbox r h

row-mark_published :
    (k j : ℕ) (owner : Text) (time : ℕ) (w : World)
    → row j (Outbox.mark_published k owner time w).1
      ≡ Option.map (changed (Outbox.held k owner) (Outbox.set_published time)) (row j w)
unfolding row Outbox.mark_published
row-mark_published k j owner time w =
    find-update_where (Outbox.has_id j) (Outbox.held k owner) (Outbox.set_published time)
      w.db.outbox (λ r. refl)

mark_published-IsKeyed :
    (k : ℕ) (owner : Text) (time : ℕ) (w : World)
    → IsKeyed w
    → IsKeyed (Outbox.mark_published k owner time w).1
unfolding Outbox.mark_published
mark_published-IsKeyed k owner time w u =
    Unique-update_where (λ (r : OutboxMessageModel). r.id) (Outbox.held k owner)
      (Outbox.set_published time) w.db.outbox (λ r. refl) u

-- An acknowledgement by an owner who does not hold the message answers False and changes nothing.
unheld :
    (k : ℕ) (owner : Text) (time : ℕ) (w : World)
    → find (Outbox.held k owner) w.db.outbox ≡ none
    → Outbox.mark_published k owner time w ≡ (ok false, w)
unfolding Outbox.mark_published
unheld k owner time w h =
    rw (h, update_where-none (Outbox.held k owner) (Outbox.set_published time) w.db.outbox h)

answer-mark_published :
    (k : ℕ) (owner : Text) (time : ℕ) (w : World)
    → (Outbox.mark_published k owner time w).0
      ≡ ok (not (is_none (find (Outbox.held k owner) w.db.outbox)))
unfolding Outbox.mark_published
answer-mark_published k owner time w = refl

changed-held :
    (k : ℕ) (owner : Text) (time : ℕ) (r : OutboxMessageModel)
    → (r.id == k) ≡ true
    → changed (Outbox.held k owner) (Outbox.set_published time) r
      ≡ (if is_held owner r then Outbox.set_published time r else r)
unfolding changed
changed-held k owner time r h = ground arith

pub mark_published_lem :
    (k : ℕ) (owner : Text) (time : ℕ) (w : World) (r : OutboxMessageModel)
    → IsKeyed w
    → row k w ≡ some r
    → ((Outbox.mark_published k owner time w).0 ≡ ok (is_held owner r))
      × (row k (Outbox.mark_published k owner time w).1
          ≡ some (if is_held owner r then Outbox.set_published time r else r))
mark_published_lem k owner time w r u h = (
  rw (answer-mark_published k owner time w, found_held k owner w u, h) (ground arith),
  rw (row-mark_published k k owner time w, h)
      (ap some (changed-held k owner time r (row_of_found k w r h))),
)

-- What is accepted was held.
accepted-held :
    (k : ℕ) (owner : Text) (time : ℕ) (w w' : World)
    → IsKeyed w
    → Outbox.mark_published k owner time w ≡ (ok true, w')
    → (r : OutboxMessageModel) × (row k w ≡ some r) × (is_held owner r ≡ true)
accepted-held k owner time w w' u h = elim (Option-cases (row k w)) [
  | inl missing ↦
      let unfound : find (Outbox.held k owner) w.db.outbox ≡ none =
        found_held k owner w u ∙ ap (keep_if (is_held owner)) missing in
      let refused = unheld k owner time w unfound in absurd (ground arith)
  | inr (r, found) ↦ (r, found, ground (arith, mark_published_lem k owner time w r u found))
]

-- In an outbox with distinct numbers, right after an acknowledgement was accepted every other for
-- the message answers False and changes nothing, whoever sends it and for whatever time.
pub published_once :
    (k : ℕ) (owner owner' : Text) (time time' : ℕ) (w w' : World)
    → IsKeyed w
    → Outbox.mark_published k owner time w ≡ (ok true, w')
    → Outbox.mark_published k owner' time' w' ≡ (ok false, w')
published_once k owner owner' time time' w w' u h =
    let (r, found, hold) = accepted-held k owner time w w' u h in
    let after : (Outbox.mark_published k owner time w).1 ≡ w' = ap (λ x. x.1) h in
    let there : row k w' ≡ some (Outbox.set_published time r) =
      subst (λ u. row k u ≡ some (Outbox.set_published time r)) after
        ((mark_published_lem k owner time w r u found).1 ∙ rw hold) in
    let keyed : IsKeyed w' = subst IsKeyed after (mark_published-IsKeyed k owner time w u) in
    unheld k owner' time' w' (found_held k owner' w' keyed ∙ ap (keep_if (is_held owner')) there)
