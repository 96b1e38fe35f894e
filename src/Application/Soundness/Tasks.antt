-- ===== src/Application/Soundness/Tasks.antt =====
-- The use cases of tasks and of the outbox keep the database well formed.
use lsstack.Persistence.Validity.{Sound-preorder as sound_preorder}
use lsstack.Persistence.Tasks
use lsstack.Persistence.Outbox
use lsstack.Application.Outbox.{acknowledge_message, claim_messages, fail_message}
use lsstack.Application.Soundness.{now-Sound, platform_rules}
use lsstack.Application.Tasks.{
  TaskResult, announce_task, create_task, delete_task, get_task, list_tasks, message_id_or_new,
  process_task_created, result_of_option, result_of_task, task_created_payload, task_created_topic,
  update_task,
}
use lsstack.Domain.Outbox.{OutboxMessage}
use lsstack.Domain.Tasks.{Task, edited, normalize_description, normalize_title}
use lsstack.Domain.Validation.{
  IsOptionalDescription, IsTitle, normalize_description-IsOptionalDescription, normalize_title_iff,
}
use lsstack.Exec.{Result, err, lift, ok, pure}
use lsstack.Exec.Steps.{Steps, Steps-bind, Steps-bind-lift, bind_at}
use lsstack.Persistence.Models.{Database, World}
use lsstack.Persistence.Validity.{Sound, Sound_of_same, sound_rules}
use lsstack.Persistence.Validity.Outbox.{add_message-Sound}
use lsstack.Persistence.Validity.Tasks.{add_task-Sound, get_owned-Sound, save_task-Sound}
use lsstack.Platform.{Platform}
use lsstack.Prelude.{Option, ap, arith, none, refl, some, sym, ℕ, ◌+◌, ◌∙◌, ◌≡◌, ◌≤◌}
use lsstack.Prelude.Int.{ℤ}
use lsstack.Security.Passwords.{new_uuid}
use lsstack.Text.{Text}
use mathlib.Core.Path.{subst}

-- `Tasks.add` returns a task with the number that the sequence gives next.
added_task :
    (task added : Task) (w w' : World)
    → Tasks.add task w ≡ (ok added, w')
    → (added.id ≡ some (w.db.last_task_id + 1)) × (w'.db.last_task_id ≡ w.db.last_task_id + 1)
unfolding Tasks.add
added_task task added w w' h = ground arith

message_id_or_new-same :
    (p : Platform) (message_id : Option ℕ) (w : World)
    → (message_id_or_new p message_id w).1.db ≡ w.db
unfolding message_id_or_new
message_id_or_new-same p none w = unfold new_uuid in refl
message_id_or_new-same p (some n) w = unfold pure in refl

-- The message that a new task leaves in the outbox.
abbrev created_message : ℕ → ℕ → ℕ → OutboxMessage
created_message outbox_id task_id time = record {
  id = outbox_id;
  topic = task_created_topic;
  payload = task_created_payload task_id;
  created_at = time;
  published_at = none;
  lease_owner = none;
  lease_expires_at = none;
  attempt_count = 0;
  last_error = none;
}

message-Sound :
    (outbox_id task_id time : ℕ) (w : World)
    → 1 ≤ task_id
    → task_id ≤ w.db.last_task_id
    → Sound w (Outbox.add (created_message outbox_id task_id time) w).1
message-Sound outbox_id task_id time w numbered below =
    add_message-Sound (created_message outbox_id task_id time) w (record {
      task = task_id;
      task_numbered = numbered;
      task_below = below;
      topic = refl;
      payload = refl;
      paired = refl;
      released = λ h. refl;
    })

result-id :
    (task : Task) (result : TaskResult) (task_id : ℕ)
    → task.id ≡ some task_id
    → result_of_task task ≡ ok result
    → result.id ≡ task_id
unfolding result_of_task
result-id task result task_id h e = ground arith

drawn-same :
    (p : Platform) (message_id : Option ℕ) (outbox_id : ℕ) (t u : World)
    → message_id_or_new p message_id t ≡ (ok outbox_id, u)
    → u.db ≡ t.db
drawn-same p message_id outbox_id t u h =
    ap (λ x. x.1.db) (sym h) ∙ message_id_or_new-same p message_id t

announce_task-Sound :
    (p : Platform) (message_id : Option ℕ) (time task_id : ℕ) (task : Task) (w : World)
    → task.id ≡ some task_id
    → 1 ≤ task_id
    → task_id ≤ w.db.last_task_id
    → Sound w (announce_task p message_id time task w).1
unfolding announce_task pure lift
announce_task-Sound p message_id time task_id task w numbered first below =
    bind_at Sound (lift (result_of_task task)) _ w (Sound_of_same refl) λ result t same_result.
      let named : result.id ≡ task_id =
        result-id task result task_id numbered (ap (λ x. x.0) same_result) in
      let here : t ≡ w = sym (ap (λ x. x.1) same_result) in
      bind_at Sound (message_id_or_new p message_id) _ t
        (Sound_of_same (message_id_or_new-same p message_id t))
        λ outbox_id u drawn.
          let same : u.db ≡ w.db =
            drawn-same p message_id outbox_id t u drawn ∙ ap (λ (x : World). x.db) here in
          let last : u.db.last_task_id ≡ w.db.last_task_id =
            ap (λ (d : Database). d.last_task_id) same in
          bind_at Sound (Outbox.add (created_message outbox_id result.id time)) _ u
            (message-Sound outbox_id result.id time u (omega arith) (omega arith))
            (λ m v added. Sound_of_same refl)

pub create_task-Sound :
    (p : Platform) (user_id : ℕ) (title : Text) (description : Option Text) (message_id : Option ℕ)
    → Steps Sound (create_task p user_id title description message_id)
unfolding create_task
create_task-Sound p user_id title description message_id = Steps-bind _ _ (now-Sound p) λ time.
    Steps-bind-lift (normalize_title title) _ λ title' titled.
      Steps-bind-lift (normalize_description description) _ λ description' described. record {
        at = λ w.
            bind_at Sound (Tasks.add _) _ w
              ((add_task-Sound _ ((normalize_title_iff title title').0 titled).1 (
                  normalize_description-IsOptionalDescription description description'
                    described)).at
                w)
              λ task t added.
                let (numbered, last) = added_task _ task w t added in
                announce_task-Sound p message_id time (w.db.last_task_id + 1) task t numbered
                  (omega arith) (omega arith);
      }

edited-valid :
    (task task' : Task) (title : Text) (description : Option Text) (time : ℕ)
    → edited task title description time ≡ ok task'
    → (t : Text) × (d : Option Text) × (normalize_title title ≡ ok t)
      × (normalize_description description ≡ ok d)
      × (task'.title ≡ t)
      × (task'.description ≡ d)
unfolding edited
edited-valid task task' title description time h =
    both (normalize_title title) refl (normalize_description description) refl
  where
    both :
        (a : Result Text)
        → normalize_title title ≡ a
        → (b : Result (Option Text)) → normalize_description description ≡ b
        → (t : Text) × (d : Option Text) × (normalize_title title ≡ ok t)
          × (normalize_description description ≡ ok d)
          × (task'.title ≡ t)
          × (task'.description ≡ d)
    both (ok t) e (ok d) f = (t, d, e, f, ground arith, ground arith)
    both (ok t) e (err x) f = absurd (ground arith)
    both (err x) e b f = absurd (ground arith)

pub update_task-Sound :
    (p : Platform) (user_id task_id : ℕ) (title : Text) (description : Option Text)
    → Steps Sound (update_task p user_id task_id title description)
unfolding update_task
update_task-Sound p user_id task_id title description =
    Steps-bind _ _ (get_owned-Sound task_id user_id) λ found.
      Steps-bind _ _ (search sound_rules) λ task. Steps-bind _ _ (now-Sound p) λ time.
        Steps-bind-lift (edited task title description time) _ λ task' ok_edit.
          let (t, d, titled, described, same_title, same_description) =
            edited-valid task task' title description time ok_edit in
          Steps-bind _ _
            (save_task-Sound task'
              (subst IsTitle (sym same_title) ((normalize_title_iff title t).0 titled).1)
              (subst IsOptionalDescription (sym same_description)
                (normalize_description-IsOptionalDescription description d described)))
            (λ saved. search sound_rules)

pub get_task-Sound : (user_id task_id : ℕ) → Steps Sound (get_task user_id task_id)
unfolding get_task
get_task-Sound user_id task_id = search platform_rules

pub list_tasks-Sound : (user_id : ℕ) → Steps Sound (list_tasks user_id)
unfolding list_tasks
list_tasks-Sound user_id = search platform_rules

pub delete_task-Sound : (user_id task_id : ℕ) → Steps Sound (delete_task user_id task_id)
unfolding delete_task
delete_task-Sound user_id task_id = search platform_rules

result_of_option-Sound : (task : Option Task) → Steps Sound (result_of_option task)
unfolding result_of_option
result_of_option-Sound none = search platform_rules
result_of_option-Sound (some task) = search platform_rules

pub process_task_created-Sound :
    (p : Platform) (task_id : ℕ) → Steps Sound (process_task_created p task_id)
unfolding process_task_created
process_task_created-Sound p task_id = search (platform_rules, result_of_option-Sound)

pub claim_messages-Sound :
    (p : Platform) (owner : Text) (lease limit : ℤ)
    → Steps Sound (claim_messages p owner lease limit)
unfolding claim_messages
claim_messages-Sound p owner lease limit = search platform_rules depth 10

pub acknowledge_message-Sound :
    (p : Platform) (message_id : ℕ) (owner : Text)
    → Steps Sound (acknowledge_message p message_id owner)
unfolding acknowledge_message
acknowledge_message-Sound p message_id owner = search platform_rules

pub fail_message-Sound :
    (message_id : ℕ) (owner error : Text) → Steps Sound (fail_message message_id owner error)
unfolding fail_message
fail_message-Sound message_id owner error = search platform_rules
