-- ===== src/Application/Ownership.antt =====
-- Tasks are private to their owner: a use case of one user neither changes nor tells of the tasks of
-- another.
use lsstack.Persistence.Tasks
use lsstack.Domain.Tasks.{Task}
use lsstack.Exec.{◌>>=◌}
use lsstack.Exec.Steps.{IsPreorder, Steps, steps_rules}
use lsstack.Persistence.Models.{Database, TaskModel, World, check_task}
use lsstack.Prelude.{
  All, Bool, List, Option-cases, [], any, ap, arith, false, inl, inr, not, refl, select, some, sym,
  true, ℕ, ◌+◌, ◌==◌, ◌∙◌, ◌∷◌, ◌≡◌, ◌≤◌,
}
use lsstack.Prelude.Order.{passes_of_key}
use lsstack.Prelude.Table.{find}
use lsstack.Prelude.Table.Keys.{Unique, Unique-delete_where, Unique-insert_row, Unique-update_where}
use lsstack.Prelude.Table.Laws.{
  All-delete_where, All-insert_row, All-map, All-update_where, select-delete_where,
  select-insert_row, select-update_rows,
}
use mathlib.Core.Path.{subst}

-- The rows that belong to other users.
abbrev pub foreign : ℕ → TaskModel → Bool
foreign user_id r = not (Tasks.owned_by user_id r)

-- Tasks have distinct numbers, none above the last one drawn.
pub record IsNumbered (db : Database) : Type 0 where
  pub distinct : Unique (λ (r : TaskModel). r.id) db.tasks
  pub drawn : All (λ (r : TaskModel). r.id ≤ db.last_task_id) db.tasks

-- A step of one user: the users and the tasks of everybody else stay as they are.
pub record Private (user_id : ℕ) (s t : World) : Type 0 where
  pub numbered : IsNumbered s.db → IsNumbered t.db
  pub others :
      IsNumbered s.db → select (foreign user_id) t.db.tasks ≡ select (foreign user_id) s.db.tasks
  pub users : t.db.users ≡ s.db.users

instance abbrev pub Private-preorder : {user_id : ℕ} → IsPreorder (Private user_id)
Private-preorder = record {
  same = λ s. record { numbered = λ v. v; others = λ v. refl; users = refl };
  chain = λ s t u h k. record {
    numbered = λ v. k.numbered (h.numbered v);
    others = λ v. k.others (h.numbered v) ∙ h.others v;
    users = k.users ∙ h.users;
  };
}

pub ruleset private_rules = (steps_rules, Private-preorder)

-- A step that leaves the tasks and the users alone.
pub Private_of_same :
    (user_id : ℕ) (s t : World)
    → t.db.tasks ≡ s.db.tasks
    → t.db.last_task_id ≡ s.db.last_task_id
    → t.db.users ≡ s.db.users
    → Private user_id s t
Private_of_same user_id s t tasks last users = record {
  numbered = λ v. record { distinct = rw tasks v.distinct; drawn = rw (tasks, last) v.drawn };
  others = λ v. ap (select (foreign user_id)) tasks;
  users = users;
}

find-any : {A : Type 0} (p : A → Bool) (xs : List A) (a : A) → find p xs ≡ some a → any p xs ≡ true
unfolding find any
find-any p [] a h = cc
find-any p (x ∷ xs) a h = ground (arith, find-any p xs a)

any-select :
    (task_id user_id : ℕ) (rows : List TaskModel)
    → any (Tasks.owned_query task_id user_id) rows
      ≡ any (Tasks.has_id task_id) (select (Tasks.owned_by user_id) rows)
unfolding any select
any-select task_id user_id [] = refl
any-select task_id user_id (r ∷ rows) = ground (arith, any-select task_id user_id rows)

-- With distinct numbers, every row with the number of an owned task is that user's.
owned_rows :
    (task_id user_id : ℕ) (rows : List TaskModel) (model : TaskModel)
    → Unique (λ (r : TaskModel). r.id) rows
    → find (Tasks.owned_query task_id user_id) rows ≡ some model
    → All (λ r. Tasks.has_id task_id r ≡ true → foreign user_id r ≡ false) rows
owned_rows task_id user_id rows model u h =
    All-map
      (λ r.
        any (λ m. m.id == r.id) (select (Tasks.owned_by user_id) rows) ≡ true
        → Tasks.owned_by user_id r ≡ true)
      (λ r. Tasks.has_id task_id r ≡ true → foreign user_id r ≡ false) rows
      (λ r passes hit.
        let same : task_id ≡ r.id = ground arith in
        let here : any (λ (m : TaskModel). m.id == task_id) (select (Tasks.owned_by user_id) rows)
            ≡ true =
          sym (any-select task_id user_id rows)
          ∙ find-any (Tasks.owned_query task_id user_id) rows model h in
        let mine = passes (
          subst
            (λ k. any (λ (m : TaskModel). m.id == k) (select (Tasks.owned_by user_id) rows) ≡ true)
            same here) in
        ground arith)
      (passes_of_key (λ (r : TaskModel). r.id) (Tasks.owned_by user_id) rows u)

-- An UPDATE of the task of a user, which keeps its number and its owner.
saved :
    (task_id user_id : ℕ) (task : Task) (model : TaskModel) (w : World)
    → find (Tasks.owned_query task_id user_id) w.db.tasks ≡ some model
    → Private user_id w (Tasks.flush_task task_id task model w).1
unfolding Tasks.flush_task
saved task_id user_id task model w found =
    elim (Option-cases (check_task w.db.users (Tasks.set_task task model))) [
      | inr (e, h) ↦ rw (h, Tasks.flush_task) (Private_of_same user_id w w refl refl refl)
      | inl h ↦
          rw (h, Tasks.flush_task)
            (record {
              numbered = λ v. record {
                distinct =
                    Unique-update_where (λ (r : TaskModel). r.id) (Tasks.has_id task_id)
                      (Tasks.set_task task) w.db.tasks (λ r. refl) v.distinct;
                drawn =
                    All-update_where (λ (r : TaskModel). r.id ≤ w.db.last_task_id)
                      (Tasks.has_id task_id) (Tasks.set_task task) w.db.tasks (λ r le _. le)
                      v.drawn;
              };
              others = λ v.
                  select-update_rows (foreign user_id) (Tasks.has_id task_id) (Tasks.set_task task)
                    w.db.tasks (owned_rows task_id user_id w.db.tasks model v.distinct found)
                    (λ r. refl);
              users = refl;
            })
    ]

pub update-Private :
    (user_id : ℕ) (task : Task)
    → task.user_id ≡ user_id
    → Steps (Private user_id) (Tasks.update task)
unfolding Tasks.update ◌>>=◌
update-Private user_id task mine = record {
  at = λ w. elim (Option-cases task.id) [
    | inl missing ↦ rw missing (Private_of_same user_id w w refl refl refl)
    | inr (task_id, there) ↦
        elim (Option-cases (find (Tasks.owned_query task_id task.user_id) w.db.tasks)) [
          | inl missing ↦ rw (there, missing) (Private_of_same user_id w w refl refl refl)
          | inr (model, found) ↦
              rw (there, found)
                (saved task_id user_id task model w (
                  subst (λ u. find (Tasks.owned_query task_id u) w.db.tasks ≡ some model) mine
                    found))
        ]
  ];
}

-- A new task of the user, with a number that was not drawn before.
added :
    (user_id : ℕ) (model : TaskModel) (w : World)
    → model.id ≡ w.db.last_task_id + 1
    → model.user_id ≡ user_id
    → Private user_id w (Tasks.insert_task model w).1
unfolding Tasks.insert_task
added user_id model w numbered mine = elim (Option-cases (check_task w.db.users model)) [
  | inr (e, h) ↦
      rw (h, Tasks.insert_task)
        (record {
          numbered = λ v. record {
            distinct = v.distinct;
            drawn =
                All-map (λ (r : TaskModel). r.id ≤ w.db.last_task_id) _ w.db.tasks
                  (λ r le. omega (arith, le)) v.drawn;
          };
          others = λ v. refl;
          users = refl;
        })
  | inl h ↦
      rw (h, Tasks.insert_task)
        (record {
          numbered = λ v. record {
            distinct =
                Unique-insert_row (λ (r : TaskModel). r.id) model w.db.tasks v.distinct
                  (All-map (λ (r : TaskModel). r.id ≤ w.db.last_task_id) _ w.db.tasks
                    (λ r le same. omega (arith, le, same, numbered)) v.drawn);
            drawn =
                All-insert_row (λ (r : TaskModel). r.id ≤ w.db.last_task_id + 1) model w.db.tasks
                  (All-map (λ (r : TaskModel). r.id ≤ w.db.last_task_id) _ w.db.tasks
                    (λ r le. omega (arith, le)) v.drawn)
                  (omega (arith, numbered));
          };
          others = λ v. select-insert_row (foreign user_id) model w.db.tasks (ground (arith, mine));
          users = refl;
        })
]

pub add-Private :
    (user_id : ℕ) (task : Task) → task.user_id ≡ user_id → Steps (Private user_id) (Tasks.add task)
unfolding Tasks.add
add-Private user_id task mine = record { at = λ w. added user_id _ w refl mine }

pub delete_owned-Private :
    (user_id task_id : ℕ) → Steps (Private user_id) (Tasks.delete_owned task_id user_id)
unfolding Tasks.delete_owned
delete_owned-Private user_id task_id = record {
  at = λ w. record {
    numbered = λ v. record {
      distinct =
          Unique-delete_where (λ (r : TaskModel). r.id) (Tasks.owned_query task_id user_id)
            w.db.tasks v.distinct;
      drawn =
          All-delete_where (λ (r : TaskModel). r.id ≤ w.db.last_task_id)
            (Tasks.owned_query task_id user_id) w.db.tasks v.drawn;
    };
    others = λ v.
        select-delete_where (foreign user_id) (Tasks.owned_query task_id user_id) w.db.tasks
          (λ r h. ground (arith, h));
    users = refl;
  };
}
