-- ===== src/Domain/Tasks.antt =====
-- src/app/domain/tasks.py
use lsstack.Exec.{Result, err, ok, validation_error}
use lsstack.Prelude.{Bool, Option, if◌then◌else◌, is_empty, is_none, length, ltb, none, some, ℕ}
use lsstack.Text.{Text, or_none, strip}

abbrev pub max_task_title_length : ℕ
max_task_title_length = 200

abbrev pub max_task_description_length : ℕ
max_task_description_length = 5000

unfoldable pub normalize_title : Text → Result Text
normalize_title value =
    let title = strip value in
    if is_empty title
    then err (validation_error "title" "A task title is required.")
    else if ltb max_task_title_length (length title)
    then err (validation_error "title" "Task titles may not exceed 200 characters.")
    else ok title

normalize_some : Text → Result (Option Text)
normalize_some value =
    let description = strip value in
    if ltb max_task_description_length (length description)
    then err (validation_error "description" "Task descriptions may not exceed 5000 characters.")
    else ok (or_none description)

unfoldable pub normalize_description : Option Text → Result (Option Text)
unfolding normalize_some
normalize_description none = ok none
normalize_description (some value) = normalize_some value

pub record Task : Type 0 where
  pub id : Option ℕ
  pub user_id : ℕ
  pub title : Text
  pub description : Option Text
  pub is_completed : Bool
  pub background_processed_at : Option ℕ
  pub created_at : ℕ
  pub updated_at : ℕ

unfoldable pub edited : Task → Text → Option Text → ℕ → Result Task
edited task title description changed_at = elim (normalize_title title) [
  | err e ↦ err e
  | ok title' ↦ elim (normalize_description description) [
    | err e ↦ err e
    | ok description' ↦
        ok (record task { title = title'; description = description'; updated_at = changed_at })
  ]
]

unfoldable pub with_completion : Task → Bool → ℕ → Task
with_completion task completed changed_at = record task {
  is_completed = completed;
  updated_at = changed_at;
}

unfoldable pub with_background_processed : Task → ℕ → Task
with_background_processed task processed_at =
    if is_none task.background_processed_at
    then record task { background_processed_at = some processed_at; updated_at = processed_at }
    else task
