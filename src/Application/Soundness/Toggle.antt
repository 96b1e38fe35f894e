-- ===== src/Application/Soundness/Toggle.antt =====
-- Toggling a task keeps the database well formed: the stored title and description are written
-- back as they were read.
use lsstack.Persistence.Validity.{Sound-preorder as sound_preorder}
use lsstack.Persistence.Tasks
use lsstack.Application.Soundness.{now-Sound}
use lsstack.Application.Tasks.{toggle_task}
use lsstack.Domain.Tasks.{Task, with_completion}
use lsstack.Domain.Validation.{IsOptionalDescription, IsTitle}
use lsstack.Exec.{Error, ok, or_raise, task_not_found_error}
use lsstack.Exec.Steps.{IsPreorder, Steps, Steps-bind, Steps-or_raise, bind_at, steps_rules}
use lsstack.Persistence.Models.{TaskModel, World}
use lsstack.Persistence.Validity.{IsValid, Sound, TaskIsValid, sound_rules}
use lsstack.Persistence.Validity.Tasks.{get_owned-Sound, save_task-Sound}
use lsstack.Platform.{Platform}
use lsstack.Prelude.{Option, Option-cases, arith, inl, inr, none, not, refl, some, sym, ℕ, ◌∙◌, ◌≡◌}
use lsstack.Prelude.Table.{find}
use lsstack.Prelude.Table.Laws.{find-All}
use lsstack.Security.Passwords.{now}
use mathlib.Core.Path.{subst}

-- A step that draws no number.
record Undrawn (s t : World) : Type 0 where
  same_users : t.db.last_user_id ≡ s.db.last_user_id
  same_tasks : t.db.last_task_id ≡ s.db.last_task_id

instance abbrev Undrawn-preorder : IsPreorder Undrawn
Undrawn-preorder = record {
  same = λ s. record { same_users = refl; same_tasks = refl };
  chain = λ s t u h k. record {
    same_users = k.same_users ∙ h.same_users;
    same_tasks = k.same_tasks ∙ h.same_tasks;
  };
}

ruleset undrawn_rules = (steps_rules, Undrawn-preorder)

now-Undrawn : (p : Platform) → Steps Undrawn (now p)
unfolding now
now-Undrawn p = record { at = λ w. record { same_users = refl; same_tasks = refl } }

get_owned-Undrawn : (task_id user_id : ℕ) → Steps Undrawn (Tasks.get_owned task_id user_id)
unfolding Tasks.get_owned
get_owned-Undrawn task_id user_id = record {
  at = λ w. record { same_users = refl; same_tasks = refl };
}

flush_task-Undrawn :
    (task_id : ℕ) (task : Task) (model : TaskModel)
    → Steps Undrawn (Tasks.flush_task task_id task model)
unfolding Tasks.flush_task
flush_task-Undrawn task_id task model = record {
  at = λ w. record { same_users = ground arith; same_tasks = ground arith };
}

update-Undrawn : (task : Task) → Steps Undrawn (Tasks.update task)
unfolding Tasks.update
update-Undrawn task = search (undrawn_rules, flush_task-Undrawn)

toggle_task-Undrawn :
    (p : Platform) (user_id task_id : ℕ) → Steps Undrawn (toggle_task p user_id task_id)
unfolding toggle_task
toggle_task-Undrawn p user_id task_id =
    search (undrawn_rules, get_owned-Undrawn, now-Undrawn, update-Undrawn)

-- What `get_owned` finds in a well-formed database has a title and a description that may be stored.
found-valid :
    (task_id user_id : ℕ) (w t : World) (found : Option Task) (task : Task)
    → IsValid w.db
    → Tasks.get_owned task_id user_id w ≡ (ok found, t)
    → found ≡ some task
    → IsTitle task.title × IsOptionalDescription task.description
unfolding Tasks.get_owned
found-valid task_id user_id w t found task v h e =
    elim (Option-cases (find (Tasks.owned_query task_id user_id) w.db.tasks)) [
      | inl missing ↦ absurd (ground arith)
      | inr (r, there) ↦
          let row =
            find-All (TaskIsValid w.db.last_task_id w.db.users) (Tasks.owned_query task_id user_id)
              w.db.tasks v.tasks there in
          let same : task ≡ Tasks.task_of_model r = ground arith in
          (
            subst (λ (x : Task). IsTitle x.title) (sym same) row.title,
            subst (λ (x : Task). IsOptionalDescription x.description) (sym same) row.description,
          )
    ]

pub or_raise-ok :
    (found : Option Task) (e : Error) (task : Task) (s t : World)
    → or_raise found e s ≡ (ok task, t)
    → found ≡ some task
unfolding or_raise
or_raise-ok none e task s t h = absurd (ground arith)
or_raise-ok (some x) e task s t h = ground arith

toggled-Sound :
    (p : Platform) (user_id task_id : ℕ) (w : World)
    → IsValid w.db
    → Sound w (toggle_task p user_id task_id w).1
unfolding toggle_task
toggled-Sound p user_id task_id w v =
    bind_at Sound (Tasks.get_owned task_id user_id) _ w ((get_owned-Sound task_id user_id).at w)
      λ found t got.
        bind_at Sound (or_raise found task_not_found_error) _ t
          ((Steps-or_raise {R = Sound} found task_not_found_error).at t)
          λ task u taken.
            let (title, description) =
              found-valid task_id user_id w t found task v got
                (or_raise-ok found task_not_found_error task t u taken) in
            (Steps-bind (now p) _ (now-Sound p) λ time.
                Steps-bind _ _
                  (save_task-Sound (with_completion task (not task.is_completed) time)
                    (unfold with_completion in title) (unfold with_completion in description))
                  (λ saved. search sound_rules)).at
              u

pub toggle_task-Sound :
    (p : Platform) (user_id task_id : ℕ) → Steps Sound (toggle_task p user_id task_id)
toggle_task-Sound p user_id task_id = record {
  at = λ w.
      let drawn = (toggle_task-Undrawn p user_id task_id).at w in
      record {
        valid = λ v. (toggled-Sound p user_id task_id w v).valid v;
        users_grow = omega (arith, drawn.same_users);
        tasks_grow = omega (arith, drawn.same_tasks);
      };
}
