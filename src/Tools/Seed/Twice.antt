-- ===== src/Tools/Seed/Twice.antt =====
-- Seeding twice is seeding once.
use lsstack.Persistence.Tasks
use lsstack.Application.Ownership.{Private-preorder as private_preorder}
use lsstack.Tools.Seed.Kept.{Kept-preorder as kept_preorder}
use lsstack.Application.Ownership.{IsNumbered, Private, Private_of_same}
use lsstack.Application.Privacy.{create_task-Private, toggle_task-Private}
use lsstack.Application.Tasks.{toggle_task}
use lsstack.Domain.Tasks.{Task, normalize_title}
use lsstack.Exec.{Exec, ok, pure, ◌>>=◌}
use lsstack.Exec.Inversion.{bind_ok}
use lsstack.Exec.Steps.{bind_at}
use lsstack.Persistence.Models.{TaskModel, World}
use lsstack.Platform.{Platform}
use lsstack.Prelude.{
  All, Bool, Bool-cases, List, [], any, ap, arith, false, inl, inr, map, none, refl, select, some,
  sort_by, sym, true, ℕ, ◌&&◌, ◌+◌, ◌∙◌, ◌∷◌, ◌≡◌,
}
use lsstack.Prelude.Order.{any-map, any-sort_by}
use lsstack.Prelude.Table.Laws.{All-map}
use lsstack.Text.{Text, is_space, lstrip, rstrip, strip, text_eq}
use lsstack.Tools.Seed.{
  SeedTask, complete_task, create_sample, create_samples, has_title, seed_samples, seed_tasks,
}
use lsstack.Tools.Seed.Added.{create_task-titled}
use lsstack.Tools.Seed.Kept.{Kept, Kept_of_same, has_task, is_titled, toggle_task-Kept}
use mathlib.Core.Path.{subst}

any-select :
    (q p : TaskModel → Bool) (rows : List TaskModel)
    → any q (select p rows) ≡ any (λ r. p r && q r) rows
unfolding any select
any-select q p [] = refl
any-select q p (r ∷ rows) = ground (arith, any-select q p rows)

-- The titles that are listed are those of the user's rows.
titles_listed :
    (user_id : ℕ) (title : Text) (rows : List TaskModel)
    → has_title title
        (map Tasks.task_of_model (sort_by Tasks.newer (select (Tasks.owned_by user_id) rows)))
      ≡ any (is_titled user_id title) rows
titles_listed user_id title rows =
    any-map (λ task. text_eq task.title title) Tasks.task_of_model
      (sort_by Tasks.newer (select (Tasks.owned_by user_id) rows))
    ∙ any-sort_by Tasks.newer (λ r. text_eq r.title title) (select (Tasks.owned_by user_id) rows)
    ∙ any-select (λ r. text_eq r.title title) (Tasks.owned_by user_id) rows

complete_task-Kept :
    (p : Platform) (user_id task_id : ℕ) (completed : Bool) (w : World)
    → IsNumbered w.db
    → Kept user_id w (complete_task p user_id task_id completed w).1
      × IsNumbered (complete_task p user_id task_id completed w).1.db
unfolding complete_task pure
complete_task-Kept p user_id task_id false w v = (Kept_of_same user_id w w refl, v)
complete_task-Kept p user_id task_id true w v = (
  bind_at (Kept user_id) (toggle_task p user_id task_id) _ w
      (toggle_task-Kept p user_id task_id w v.distinct) (λ a t _. Kept_of_same user_id t t refl),
  (bind_at (Private user_id) (toggle_task p user_id task_id) _ w
        ((toggle_task-Private p user_id task_id).at w)
        (λ a t _. Private_of_same user_id t t refl refl refl)).numbered
      v,
)

-- What one round of the loop leaves.
create_sample-done :
    (p : Platform) (user_id : ℕ) (sample : SeedTask) (w w' : World) (a : Unit {0})
    → create_sample p user_id sample w ≡ (ok a, w')
    → normalize_title sample.title ≡ ok sample.title
    → IsNumbered w.db
    → (has_task user_id sample.title w' ≡ true) × Kept user_id w w' × IsNumbered w'.db
unfolding create_sample
create_sample-done p user_id sample w w' a h stored v =
    let (created, w1, first, k) = bind_ok _ _ w w' a h in
    let (there, kept) =
      create_task-titled p user_id sample.title _ none w w1 created first stored in
    let v1 : IsNumbered w1.db =
      subst (λ (x : World). IsNumbered x.db) (ap (λ x. x.1) first)
        (((create_task-Private p user_id sample.title (some sample.description) none).at w).numbered
          v) in
    let (kept1, v2) = complete_task-Kept p user_id created.task.id sample.completed w1 v1 in
    let last = ap (λ x. x.1) k in
    (
      subst (λ (x : World). has_task user_id sample.title x ≡ true) last
          (kept1.kept sample.title there),
      record {
        kept = λ title h.
            subst (λ (x : World). has_task user_id title x ≡ true) last
              (kept1.kept title (kept.kept title h));
      },
      subst (λ (x : World). IsNumbered x.db) last v2,
    )

-- The rest of the loop, behind which a task is counted.
counted :
    (rest : Exec World ℕ) (w w' : World) (n : ℕ)
    → (rest >>= λ created. pure (created + 1)) w ≡ (ok n, w')
    → (m : ℕ) × (rest w ≡ (ok m, w'))
unfolding pure
counted rest w w' n h =
    let (m, t, first, k) = bind_ok rest _ w w' n h in (m, first ∙ ap (λ x. (ok m, x.1)) k)

-- What the whole loop leaves: a task for every sample.
create_samples-done :
    (p : Platform) (user_id : ℕ) (existing : List Task) (samples : List SeedTask) (w w' : World)
    (n : ℕ)
    → create_samples p user_id existing samples w ≡ (ok n, w')
    → All (λ sample. normalize_title sample.title ≡ ok sample.title) samples
    → IsNumbered w.db
    → ((title : Text) → has_title title existing ≡ true → has_task user_id title w ≡ true)
    → All (λ sample. has_task user_id sample.title w' ≡ true) samples × Kept user_id w w'
unfolding create_samples pure
create_samples-done p user_id existing [] w w' n h stored v listed =
    (tt, Kept_of_same user_id w w' (ap (λ x. x.1.db.tasks) (sym h)))
create_samples-done p user_id existing (sample ∷ samples) w w' n h (one, stored) v listed =
    elim (Bool-cases (has_title sample.title existing)) [
      | inl there ↦
          let (rest, kept) =
            create_samples-done p user_id existing samples w w' n (rw there at h) stored v listed in
          ((kept.kept sample.title (listed sample.title there), rest), kept)
      | inr missing ↦
          let k = rw missing at h in
          let (a, w1, first, k1) = bind_ok _ _ w w' n k in
          let (m, second) = counted (create_samples p user_id existing samples) w1 w' n k1 in
          let (here, kept1, v1) = create_sample-done p user_id sample w w1 a first one v in
          let (rest, kept) =
            create_samples-done p user_id existing samples w1 w' m second stored v1
              (λ title h. kept1.kept title (listed title h)) in
          (
            (kept.kept sample.title here, rest),
            record { kept = λ title h. kept.kept title (kept1.kept title h) },
          )
    ]

create_samples-none :
    (p : Platform) (user_id : ℕ) (existing : List Task) (samples : List SeedTask) (w : World)
    → All (λ sample. has_title sample.title existing ≡ true) samples
    → create_samples p user_id existing samples w ≡ (ok 0, w)
unfolding create_samples pure
create_samples-none p user_id existing [] w h = refl
create_samples-none p user_id existing (sample ∷ samples) w (h, hs) =
    rw h (create_samples-none p user_id existing samples w hs)

-- The titles of the samples are stored as they are.
samples_stored : All (λ sample. normalize_title sample.title ≡ ok sample.title) seed_tasks
unfolding normalize_title strip lstrip rstrip is_space
samples_stored = (refl, (refl, (refl, tt)))

abbrev tasks_of : ℕ → World → List Task
tasks_of user_id w =
    map Tasks.task_of_model (sort_by Tasks.newer (select (Tasks.owned_by user_id) w.db.tasks))

seed_samples-loop :
    (p : Platform) (user_id : ℕ) (w : World)
    → seed_samples p user_id w ≡ create_samples p user_id (tasks_of user_id w) seed_tasks w
unfolding seed_samples Tasks.list_owned ◌>>=◌
seed_samples-loop p user_id w = refl

-- Once the samples of an account are seeded, seeding them again creates nothing and changes
-- nothing.
pub seed_samples_twice :
    (p : Platform) (user_id : ℕ) (w w' : World) (n : ℕ)
    → IsNumbered w.db
    → seed_samples p user_id w ≡ (ok n, w')
    → seed_samples p user_id w' ≡ (ok 0, w')
seed_samples_twice p user_id w w' n v h =
    let loop = sym (seed_samples-loop p user_id w) ∙ h in
    let (there, _) =
      create_samples-done p user_id (tasks_of user_id w) seed_tasks w w' n loop samples_stored v
        (λ title listed. sym (titles_listed user_id title w.db.tasks) ∙ listed) in
    let listed =
      All-map (λ sample. has_task user_id sample.title w' ≡ true)
        (λ sample. has_title sample.title (tasks_of user_id w') ≡ true) seed_tasks
        (λ sample h. titles_listed user_id sample.title w'.db.tasks ∙ h) there in
    seed_samples-loop p user_id w'
    ∙ create_samples-none p user_id (tasks_of user_id w') seed_tasks w' listed
