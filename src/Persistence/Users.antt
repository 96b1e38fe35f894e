-- ===== src/Persistence/Users.antt =====
-- SqlAlchemyUserRepository of src/app/adapters/persistence/repositories.py.
use mathlib.Core.Option
use lsstack.Domain.Users.{User}
use lsstack.Exec.{Exec, duplicate_email_error, err, gets, ok, or_raise, value_error, ◌>>=◌}
use lsstack.Persistence.Models.{UserModel, World, check_user}
use lsstack.Prelude.{Bool, Option, any, if◌then◌else◌, none, some, ℕ, ◌+◌, ◌==◌}
use lsstack.Prelude.Table.{find, insert_row, update_where}
use lsstack.Text.{Text, text_eq}

-- `_user`
abbrev pub user_of_model : UserModel → User
user_of_model model = record {
  id = some model.id;
  email_normalized = model.email_normalized;
  password_hash = model.password_hash;
  session_version = model.session_version;
  created_at = model.created_at;
  updated_at = model.updated_at;
}

abbrev pub has_id : ℕ → UserModel → Bool
has_id user_id r = r.id == user_id

abbrev pub has_email : Text → UserModel → Bool
has_email email r = text_eq r.email_normalized email

-- The flush of `add`: the sequence is read whether or not the row goes in, and the only UNIQUE
-- constraint that a new row can break is the one whose name has "email" in it.
unfoldable pub insert_user : UserModel → Exec World User
insert_user model w =
    let w' = record w { db = record (w.db) { last_user_id = w.db.last_user_id + 1 } } in
    elim (check_user model) [
      | some e ↦ (err e, w')
      | none ↦
          if any (has_email model.email_normalized) w.db.users
          then (err duplicate_email_error, w')
          else (
            ok (user_of_model model),
            record w' { db = record (w'.db) { users = insert_row model w.db.users } },
          )
    ]

unfoldable pub add : User → Exec World User
unfolding insert_user
add user w =
    insert_user
      (record {
        id = w.db.last_user_id + 1;
        email_normalized = user.email_normalized;
        password_hash = user.password_hash;
        session_version = user.session_version;
        created_at = user.created_at;
        updated_at = user.updated_at;
      })
      w

unfoldable pub get_by_id : ℕ → Exec World (Option User)
get_by_id user_id w = (ok (Option.map user_of_model (find (has_id user_id) w.db.users)), w)

unfoldable pub get_by_id_for_update : ℕ → Exec World (Option User)
get_by_id_for_update user_id w =
    (ok (Option.map user_of_model (find (has_id user_id) w.db.users)), w)

unfoldable pub get_by_email_for_update : Text → Exec World (Option User)
get_by_email_for_update email w =
    (ok (Option.map user_of_model (find (has_email email) w.db.users)), w)

abbrev pub set_credentials : User → UserModel → UserModel
set_credentials user model = record model {
  password_hash = user.password_hash;
  session_version = user.session_version;
  updated_at = user.updated_at;
}

unfoldable pub flush_credentials : ℕ → User → UserModel → Exec World User
flush_credentials user_id user model w = elim (check_user (set_credentials user model)) [
  | some e ↦ (err e, w)
  | none ↦ (
    ok (user_of_model (set_credentials user model)),
    record w {
      db = record (w.db) {
        users = update_where (has_id user_id) (set_credentials user) w.db.users;
      };
    },
  )
]

unfoldable pub update_credentials : User → Exec World User
unfolding flush_credentials
update_credentials user = do
  user_id ← or_raise user.id (value_error "Cannot update an unpersisted user.")
  found ← gets (λ w. find (has_id user_id) w.db.users)
  model ← or_raise found (value_error "Cannot update a missing user.")
  flush_credentials user_id user model
