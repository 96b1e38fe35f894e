-- ===== src/Tools/Seed/Kept.antt =====
-- A title that a user has a task of stays one when a task is created or toggled.
use lsstack.Persistence.Tasks
use lsstack.Application.Tasks.{result_of_task, toggle_task}
use lsstack.Domain.Tasks.{Task, with_completion}
use lsstack.Exec.{lift, ◌>>=◌}
use lsstack.Exec.Steps.{IsPreorder, Steps, bind_at, steps_rules}
use lsstack.Persistence.Models.{TaskModel, World, check_task}
use lsstack.Platform.{Platform}
use lsstack.Prelude.{
  All, Bool, Bool-cases, List, Option-cases, [], any, ap, arith, inl, inr, not, refl, some, sym,
  true, ℕ, ◌&&◌, ◌+◌, ◌∙◌, ◌∷◌, ◌≡◌, ◌≢◌,
}
use lsstack.Prelude.Table.{find, update_where}
use lsstack.Prelude.Table.Keys.{Unique}
use lsstack.Prelude.Table.Laws.{All-map, find-All, find_sound}
use lsstack.Security.Passwords.{now}
use lsstack.Text.{Text, text_eq}
use mathlib.Core.Path.{subst}

abbrev pub is_titled : ℕ → Text → TaskModel → Bool
is_titled user_id title r = Tasks.owned_by user_id r && text_eq r.title title

abbrev pub has_task : ℕ → Text → World → Bool
has_task user_id title w = any (is_titled user_id title) w.db.tasks

-- The titles of the tasks of a user are there still.
pub record Kept (user_id : ℕ) (s t : World) : Type 0 where
  pub kept : (title : Text) → has_task user_id title s ≡ true → has_task user_id title t ≡ true

instance abbrev pub Kept-preorder : {user_id : ℕ} → IsPreorder (Kept user_id)
Kept-preorder = record {
  same = λ s. record { kept = λ title h. h };
  chain = λ s t u h k. record { kept = λ title there. k.kept title (h.kept title there) };
}

pub ruleset kept_rules = (steps_rules, Kept-preorder)

pub Kept_of_same : (user_id : ℕ) (s t : World) → t.db.tasks ≡ s.db.tasks → Kept user_id s t
Kept_of_same user_id s t e = record { kept = λ title h. ap (any (is_titled user_id title)) e ∙ h }

-- With distinct numbers, a row that has the number of one that was found is that one.
found_row :
    (p : TaskModel → Bool) (task_id : ℕ) (rows : List TaskModel) (model : TaskModel)
    → Unique (λ (r : TaskModel). r.id) rows
    → ((r : TaskModel) → p r ≡ true → r.id ≡ task_id)
    → find p rows ≡ some model
    → All (λ r. Tasks.has_id task_id r ≡ true → r ≡ model) rows
unfolding find
found_row p task_id [] model u id h = tt
found_row p task_id (x ∷ xs) model (fresh, u) id h = elim (Bool-cases (p x)) [
  | inl hit ↦
      let same : x ≡ model = ground (arith, h, hit) in
      (
        λ _. same,
        All-map (λ y. y.id ≢ x.id) (λ r. Tasks.has_id task_id r ≡ true → r ≡ model) xs
            (λ y differs here. absurd (differs (ground (arith, here, id x hit)))) fresh,
      )
  | inr miss ↦
      let later : find p xs ≡ some model = ground (arith, h, miss) in
      (
        λ here. absurd (
            find-All (λ y. y.id ≢ x.id) p xs fresh later
              (ground (arith, here, id model (find_sound p xs model later)))),
        found_row p task_id xs model u id later,
      )
]

any-update_where :
    (q p : TaskModel → Bool) (f : TaskModel → TaskModel) (rows : List TaskModel)
    → All (λ r. p r ≡ true → q (f r) ≡ q r) rows
    → any q (update_where p f rows) ≡ any q rows
unfolding any update_where
any-update_where q p f [] h = refl
any-update_where q p f (r ∷ rows) h = ground (arith, h.0, any-update_where q p f rows h.1)

flush-Kept :
    (user_id task_id : ℕ) (task : Task) (model : TaskModel) (w : World)
    → All (λ r. Tasks.has_id task_id r ≡ true → r ≡ model) w.db.tasks
    → task.title ≡ model.title
    → Kept user_id w (Tasks.flush_task task_id task model w).1
unfolding Tasks.flush_task
flush-Kept user_id task_id task model w only titled =
    elim (Option-cases (check_task w.db.users (Tasks.set_task task model))) [
      | inr (e, bad) ↦ rw (bad, Tasks.flush_task) (Kept_of_same user_id w w refl)
      | inl fits ↦
          rw (fits, Tasks.flush_task)
            (record {
              kept = λ title h.
                  any-update_where (is_titled user_id title) (Tasks.has_id task_id)
                    (Tasks.set_task task) w.db.tasks
                    (All-map (λ r. Tasks.has_id task_id r ≡ true → r ≡ model)
                      (λ r.
                        Tasks.has_id task_id r ≡ true
                        → is_titled user_id title (Tasks.set_task task r)
                          ≡ is_titled user_id title r)
                      w.db.tasks
                      (λ r same here.
                        let back : task.title ≡ r.title =
                          titled ∙ ap (λ (m : TaskModel). m.title) (sym (same here)) in
                        ap (λ t. Tasks.owned_by user_id r && text_eq t title) back)
                      only)
                  ∙ h;
            })
    ]

-- An UPDATE of a task that was found, which writes its title back.
update-Kept :
    (user_id task_id : ℕ) (task : Task) (model : TaskModel) (w : World)
    → Unique (λ (r : TaskModel). r.id) w.db.tasks
    → find (Tasks.owned_query task_id user_id) w.db.tasks ≡ some model
    → task.id ≡ some task_id
    → task.user_id ≡ user_id
    → task.title ≡ model.title
    → Kept user_id w (Tasks.update task w).1
unfolding Tasks.update ◌>>=◌
update-Kept user_id task_id task model w u found numbered mine titled =
    let found' : find (Tasks.owned_query task_id task.user_id) w.db.tasks ≡ some model =
      subst (λ k. find (Tasks.owned_query task_id k) w.db.tasks ≡ some model) (sym mine) found in
    let only =
      found_row (Tasks.owned_query task_id user_id) task_id w.db.tasks model u
        (λ r h. ground (arith, h)) found in
    rw (numbered, found') (flush-Kept user_id task_id task model w only titled)

pub now-Kept : (user_id : ℕ) (p : Platform) → Steps (Kept user_id) (now p)
unfolding now
now-Kept user_id p = record { at = λ w. Kept_of_same user_id w _ refl }

-- The task that a toggle found, written back.
toggled :
    (p : Platform) (user_id task_id : ℕ) (model : TaskModel) (w : World)
    → Unique (λ (r : TaskModel). r.id) w.db.tasks
    → find (Tasks.owned_query task_id user_id) w.db.tasks ≡ some model
    → Kept user_id w
        (((now p) >>= λ time.
            Tasks.update (with_completion (Tasks.task_of_model model) (not model.is_completed) time)
            >>= λ saved. lift (result_of_task saved))
          w).1
unfolding with_completion now ◌>>=◌
toggled p user_id task_id model w u found =
    let sound = find_sound (Tasks.owned_query task_id user_id) w.db.tasks model found in
    let time = p.utc_now w.readings in
    let later : World = record w { readings = w.readings + 1 } in
    let task = with_completion (Tasks.task_of_model model) (not model.is_completed) time in
    let steps =
      bind_at (Kept user_id) (Tasks.update task) (λ saved. lift (result_of_task saved)) later
        (update-Kept user_id task_id task model later u found (ap some (ground (arith, sound)))
          (ground (arith, sound)) refl)
        (λ saved t _. Kept_of_same user_id t _ refl) in
    record { kept = λ title h. steps.kept title h }

-- A toggle keeps the titles of a database whose tasks have distinct numbers.
pub toggle_task-Kept :
    (p : Platform) (user_id task_id : ℕ) (w : World)
    → Unique (λ (r : TaskModel). r.id) w.db.tasks
    → Kept user_id w (toggle_task p user_id task_id w).1
unfolding toggle_task Tasks.get_owned ◌>>=◌ now with_completion
toggle_task-Kept p user_id task_id w u =
    elim (Option-cases (find (Tasks.owned_query task_id user_id) w.db.tasks)) [
      | inl missing ↦ rw missing (Kept_of_same user_id w w refl)
      | inr (model, found) ↦ rw found (toggled p user_id task_id model w u found)
    ]
