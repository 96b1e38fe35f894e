-- ===== src/Tools/Seed/Added.antt =====
-- What a creation leaves: the titles that were there, and its own.
use lsstack.Tools.Seed.Kept.{Kept-preorder as kept_preorder}
use lsstack.Persistence.Tasks
use lsstack.Persistence.Outbox
use lsstack.Application.Tasks.{TaskCreatedResult, announce_task, create_task, message_id_or_new}
use lsstack.Domain.Outbox.{OutboxMessage}
use lsstack.Domain.Tasks.{Task, normalize_title}
use lsstack.Exec.{ok}
use lsstack.Exec.Inversion.{bind_ok, lift_ok}
use lsstack.Exec.Steps.{Steps, Steps-bind}
use lsstack.Persistence.Models.{TaskModel, World, check_task}
use lsstack.Platform.{Platform}
use lsstack.Prelude.{
  Bool, List, Option, Option-cases, [], any, any-append, ap, arith, inl, inr, none, refl, some,
  true, ℕ, ◌||◌, ◌∙◌, ◌∷◌, ◌≡◌,
}
use lsstack.Prelude.Table.{insert_row}
use lsstack.Security.Passwords.{new_uuid, now}
use lsstack.Text.{Text, text_eq_refl}
use lsstack.Tools.Seed.Kept.{Kept, Kept_of_same, has_task, is_titled, kept_rules, now-Kept}
use mathlib.Core.Path.{subst}

new_uuid-Kept : (user_id : ℕ) (p : Platform) → Steps (Kept user_id) (new_uuid p)
unfolding new_uuid
new_uuid-Kept user_id p = record { at = λ w. Kept_of_same user_id w _ refl }

message_id-Kept :
    (user_id : ℕ) (p : Platform) (message_id : Option ℕ)
    → Steps (Kept user_id) (message_id_or_new p message_id)
unfolding message_id_or_new
message_id-Kept user_id p none = new_uuid-Kept user_id p
message_id-Kept user_id p (some message_id) = search kept_rules

announced-Kept : (user_id : ℕ) (message : OutboxMessage) → Steps (Kept user_id) (Outbox.add message)
unfolding Outbox.add Outbox.insert_message
announced-Kept user_id message = record { at = λ w. Kept_of_same user_id w _ (ground arith) }

announce_task-Kept :
    (user_id : ℕ) (p : Platform) (message_id : Option ℕ) (time : ℕ) (task : Task)
    → Steps (Kept user_id) (announce_task p message_id time task)
unfolding announce_task
announce_task-Kept user_id p message_id time task =
    search (kept_rules, message_id-Kept, announced-Kept) depth 12

any-insert_row :
    (q : TaskModel → Bool) (a : TaskModel) (rows : List TaskModel)
    → any q (insert_row a rows) ≡ (any q rows || q a)
unfolding any insert_row
any-insert_row q a rows = any-append q rows (a ∷ []) ∙ ground arith

insert-Kept :
    (user_id : ℕ) (model : TaskModel) (w : World) → Kept user_id w (Tasks.insert_task model w).1
unfolding Tasks.insert_task
insert-Kept user_id model w = elim (Option-cases (check_task w.db.users model)) [
  | inr (e, bad) ↦ rw (bad, Tasks.insert_task) (Kept_of_same user_id w _ refl)
  | inl fits ↦
      rw (fits, Tasks.insert_task)
        (record {
          kept = λ title h. any-insert_row (is_titled user_id title) model w.db.tasks ∙ (rw h refl);
        })
]

add-Kept : (user_id : ℕ) (task : Task) → Steps (Kept user_id) (Tasks.add task)
unfolding Tasks.add
add-Kept user_id task = record { at = λ w. insert-Kept user_id _ w }

create_task-Kept :
    (p : Platform) (user_id : ℕ) (title : Text) (description : Option Text) (message_id : Option ℕ)
    → Steps (Kept user_id) (create_task p user_id title description message_id)
unfolding create_task
create_task-Kept p user_id title description message_id =
    Steps-bind (now p) _ (now-Kept user_id p) λ time. Steps-bind _ _ (search kept_rules) λ t.
      Steps-bind _ _ (search kept_rules)
        λ d. Steps-bind _ _ (add-Kept user_id _) (announce_task-Kept user_id p message_id time)

-- A task that goes in is there.
insert-titled :
    (user_id : ℕ) (model : TaskModel) (w w' : World) (task : Task)
    → Tasks.insert_task model w ≡ (ok task, w')
    → model.user_id ≡ user_id
    → has_task user_id model.title w' ≡ true
unfolding Tasks.insert_task
insert-titled user_id model w w' task h mine = elim (Option-cases (check_task w.db.users model)) [
  | inr (e, bad) ↦ let k = rw (bad, Tasks.insert_task) at h in absurd (ground arith)
  | inl fits ↦
      let k = rw (fits, Tasks.insert_task) at h in
      subst (λ (u : World). has_task user_id model.title u ≡ true) (ap (λ x. x.1) k)
        (any-insert_row (is_titled user_id model.title) model w.db.tasks
          ∙ (ground (arith, mine, text_eq_refl model.title)))
]

-- A creation that returns leaves a task with the title that was given, when that is stored as it is.
pub create_task-titled :
    (p : Platform) (user_id : ℕ) (title : Text) (description : Option Text) (message_id : Option ℕ)
    (w w' : World) (created : TaskCreatedResult)
    → create_task p user_id title description message_id w ≡ (ok created, w')
    → normalize_title title ≡ ok title
    → (has_task user_id title w' ≡ true) × Kept user_id w w'
unfolding create_task Tasks.add
create_task-titled p user_id title description message_id w w' created h stored =
    let steps = (create_task-Kept p user_id title description message_id).at w in
    let (time, w1, _, k1) = bind_ok _ _ w w' created h in
    let (title', w2, named, k2) = bind_ok _ _ w1 w' created k1 in
    let (description', w3, _, k3) = bind_ok _ _ w2 w' created k2 in
    let (task, w4, added, k4) = bind_ok _ _ w3 w' created k3 in
    let same : title' ≡ title = ground (arith, (lift_ok _ w1 w2 title' named).0, stored) in
    let there = insert-titled user_id _ w3 w4 task added refl in
    let announced = (announce_task-Kept user_id p message_id time task).at w4 in
    (
      subst (λ (x : World). has_task user_id title x ≡ true) (ap (λ x. x.1) k4)
          (announced.kept title (subst (λ t. has_task user_id t w4 ≡ true) same there)),
      subst (Kept user_id w) (ap (λ x. x.1) h) steps,
    )
