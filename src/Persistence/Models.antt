-- ===== src/Persistence/Models.antt =====
-- src/app/adapters/persistence/models.py: the rows of the three tables, with the constraints that the
-- database checks when a row is written.
use lsstack.Exec.{Error, data_error, integrity_error}
use lsstack.Prelude.{
  Bool, List, Option, any, false, if◌then◌else◌, is_empty, length, ltb, none, not, some, ℕ, ◌==◌,
  ◌||◌,
}
use lsstack.Text.{Text}
use lsstack.Values.{Fields}

pub record UserModel : Type 0 where
  pub id : ℕ
  pub email_normalized : Text
  pub password_hash : Text
  pub session_version : ℕ
  pub created_at : ℕ
  pub updated_at : ℕ

pub record TaskModel : Type 0 where
  pub id : ℕ
  pub user_id : ℕ
  pub title : Text
  pub description : Option Text
  pub is_completed : Bool
  pub background_processed_at : Option ℕ
  pub created_at : ℕ
  pub updated_at : ℕ

pub record OutboxMessageModel : Type 0 where
  pub id : ℕ
  pub topic : Text
  pub payload : Fields
  pub created_at : ℕ
  pub published_at : Option ℕ
  pub lease_owner : Option Text
  pub lease_expires_at : Option ℕ
  pub attempt_count : ℕ
  pub last_error : Option Text

-- The schema `app`, with the last number that each sequence has drawn: users and tasks are
-- numbered from 1.
pub record Database : Type 0 where
  pub users : List UserModel
  pub tasks : List TaskModel
  pub outbox : List OutboxMessageModel
  pub last_user_id : ℕ
  pub last_task_id : ℕ

-- What a call runs on: the database as its transaction sees it; the outbox rows that other open
-- transactions have locked; how often the clock, the salt or a UUID was read; and how many
-- passwords were checked.
pub record World : Type 0 where
  pub db : Database
  pub locked : ℕ → Bool
  pub readings : ℕ
  pub verifications : ℕ

-- The largest value of an `Integer` column.
abbrev pub max_integer : ℕ
max_integer = 2147483647

abbrev too_long : ℕ → Text → Bool
too_long n t = ltb n (length t)

abbrev pub too_long? : ℕ → Option Text → Bool
too_long? n none = false
too_long? n (some t) = too_long n t

-- What a statement that writes the row answers: an error of the column types, or else of the CHECK
-- and FOREIGN KEY constraints.
unfoldable pub check_user : UserModel → Option Error
check_user r =
    if too_long 320 r.email_normalized
    then some (data_error "users")
    else if ltb max_integer r.session_version
    then some (data_error "users")
    else none

unfoldable pub check_task : List UserModel → TaskModel → Option Error
check_task users r =
    if too_long 200 r.title || too_long? 5000 r.description
    then some (data_error "tasks")
    else if is_empty r.title
    then some (integrity_error "title_length")
    else if not (any (λ u. u.id == r.user_id) users)
    then some (integrity_error "fk_tasks_user_id_users")
    else none

unfoldable pub check_message : OutboxMessageModel → Option Error
check_message r =
    if too_long 200 r.topic || too_long? 200 r.lease_owner
    then some (data_error "outbox_messages")
    else if ltb max_integer r.attempt_count
    then some (data_error "outbox_messages")
    else none
