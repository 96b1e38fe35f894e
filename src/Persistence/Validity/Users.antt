-- ===== src/Persistence/Validity/Users.antt =====
-- The user repository keeps the database well formed.
use lsstack.Persistence.Users
use lsstack.Domain.Emails.{IsEmail}
use lsstack.Domain.Users.{User}
use lsstack.Exec.Steps.{Steps}
use lsstack.Persistence.Models.{Database, UserModel, World, check_user}
use lsstack.Persistence.Validity.{
  IsValid, Sound, Sound_of_same, TaskIsValid, UserIsValid, sound_rules, users_below_mono,
}
use lsstack.Prelude.{
  All, Bool, Bool-cases, List, Option-cases, [], any, arith, false, inl, inr, refl, true, ℕ, ◌+◌,
  ◌==◌, ◌∙◌, ◌∷◌, ◌≡◌, ◌≢◌,
}
use lsstack.Prelude.Table.{insert_row, update_where}
use lsstack.Prelude.Table.Keys.{Unique-insert_row, Unique-update_where}
use lsstack.Prelude.Table.Laws.{All-insert_row, All-map, All-update_where}
use lsstack.Text.{Text, text_eq, text_eq_refl}

pub any-insert_row :
    {A : Type 0} (p : A → Bool) (a : A) (xs : List A)
    → any p xs ≡ true
    → any p (insert_row a xs) ≡ true
unfolding any insert_row
any-insert_row p a [] h = cc
any-insert_row p a (x ∷ xs) h = ground (arith, any-insert_row p a xs)

pub any-update_where :
    {A : Type 0} (q p : A → Bool) (f : A → A) (xs : List A)
    → ((x : A) → q (f x) ≡ q x)
    → any q (update_where p f xs) ≡ any q xs
unfolding any update_where
any-update_where q p f [] keep = refl
any-update_where q p f (x ∷ xs) keep = ground (arith, keep x, any-update_where q p f xs keep)

-- No row with the email means that every row has another.
fresh_email :
    (email : Text) (rows : List UserModel)
    → any (Users.has_email email) rows ≡ false
    → All (λ (r : UserModel). r.email_normalized ≢ email) rows
unfolding any
fresh_email email [] h = tt
fresh_email email (r ∷ rows) h = (
  λ e.
      let same : text_eq r.email_normalized email ≡ true = rw e (text_eq_refl email) in
      ground arith,
  fresh_email email rows (ground arith),
)

fresh_id :
    (n : ℕ) (rows : List UserModel)
    → All (UserIsValid n) rows
    → All (λ (r : UserModel). r.id ≢ n + 1) rows
fresh_id n rows =
    All-map (UserIsValid n) (λ (r : UserModel). r.id ≢ n + 1) rows (λ r v. omega (arith, v.below))

-- A new user who has the next number, a free email and no tasks yet.
insert_user-IsValid :
    (db : Database) (model : UserModel)
    → model.id ≡ db.last_user_id + 1
    → IsEmail model.email_normalized
    → any (Users.has_email model.email_normalized) db.users ≡ false
    → IsValid db
    → IsValid (record db { last_user_id = db.last_user_id + 1; users = insert_row model db.users })
insert_user-IsValid db model numbered email free v = record {
  users =
      All-insert_row (UserIsValid (db.last_user_id + 1)) model db.users
        (users_below_mono db.last_user_id (db.last_user_id + 1) db.users (omega arith) v.users)
        (record { numbered = omega arith; below = omega arith; email = email });
  user_ids =
      Unique-insert_row (λ (r : UserModel). r.id) model db.users v.user_ids
        (rw numbered (fresh_id db.last_user_id db.users v.users));
  emails =
      Unique-insert_row (λ (r : UserModel). r.email_normalized) model db.users v.emails
        (fresh_email model.email_normalized db.users free);
  tasks =
      All-map (TaskIsValid db.last_task_id db.users)
        (TaskIsValid db.last_task_id (insert_row model db.users)) db.tasks
        (λ r t. record {
          numbered = t.numbered;
          below = t.below;
          title = t.title;
          description = t.description;
          owner = any-insert_row (λ u. u.id == r.user_id) model db.users t.owner;
        })
        v.tasks;
  task_ids = v.task_ids;
  messages = v.messages;
  message_ids = v.message_ids;
}

drawn : (db : Database) → IsValid db → IsValid (record db { last_user_id = db.last_user_id + 1 })
drawn db v = record {
  users = users_below_mono db.last_user_id (db.last_user_id + 1) db.users (omega arith) v.users;
  user_ids = v.user_ids;
  emails = v.emails;
  tasks = v.tasks;
  task_ids = v.task_ids;
  messages = v.messages;
  message_ids = v.message_ids;
}

drawn_only :
    (w : World) → Sound w (record w { db = record (w.db) { last_user_id = w.db.last_user_id + 1 } })
drawn_only w = record { valid = drawn w.db; users_grow = omega arith; tasks_grow = omega arith }

insert_user-Sound :
    (model : UserModel) (w : World)
    → model.id ≡ w.db.last_user_id + 1
    → IsEmail model.email_normalized
    → Sound w (Users.insert_user model w).1
unfolding Users.insert_user
insert_user-Sound model w numbered email = elim (Option-cases (check_user model)) [
  | inr (e, h) ↦ rw (h, Users.insert_user) (drawn_only w)
  | inl h ↦ elim (Bool-cases (any (Users.has_email model.email_normalized) w.db.users)) [
    | inl taken ↦ rw (h, Users.insert_user, taken) (drawn_only w)
    | inr free ↦
        rw (h, Users.insert_user, free)
          (record {
            valid = insert_user-IsValid w.db model numbered email free;
            users_grow = omega arith;
            tasks_grow = omega arith;
          })
  ]
]

-- A user is added under a canonical email.
pub add_user-Sound : (user : User) → IsEmail user.email_normalized → Steps Sound (Users.add user)
unfolding Users.add
add_user-Sound user email = record { at = λ w. insert_user-Sound _ w refl email }

set_credentials-IsValid :
    (db : Database) (user_id : ℕ) (user : User)
    → IsValid db
    → IsValid (record db {
      users = update_where (Users.has_id user_id) (Users.set_credentials user) db.users;
    })
set_credentials-IsValid db user_id user v = record {
  users =
      All-update_where (UserIsValid db.last_user_id) (Users.has_id user_id)
        (Users.set_credentials user) db.users
        (λ r u _. record { numbered = u.numbered; below = u.below; email = u.email }) v.users;
  user_ids =
      Unique-update_where (λ (r : UserModel). r.id) (Users.has_id user_id)
        (Users.set_credentials user) db.users (λ r. refl) v.user_ids;
  emails =
      Unique-update_where (λ (r : UserModel). r.email_normalized) (Users.has_id user_id)
        (Users.set_credentials user) db.users (λ r. refl) v.emails;
  tasks =
      All-map (TaskIsValid db.last_task_id db.users)
        (TaskIsValid db.last_task_id
          (update_where (Users.has_id user_id) (Users.set_credentials user) db.users))
        db.tasks
        (λ r t. record {
          numbered = t.numbered;
          below = t.below;
          title = t.title;
          description = t.description;
          owner =
              any-update_where (λ u. u.id == r.user_id) (Users.has_id user_id)
                (Users.set_credentials user) db.users (λ u. refl)
              ∙ t.owner;
        })
        v.tasks;
  task_ids = v.task_ids;
  messages = v.messages;
  message_ids = v.message_ids;
}

flush_credentials-Sound :
    (user_id : ℕ) (user : User) (model : UserModel)
    → Steps Sound (Users.flush_credentials user_id user model)
unfolding Users.flush_credentials
flush_credentials-Sound user_id user model = record {
  at = λ w. elim (Option-cases (check_user (Users.set_credentials user model))) [
    | inr (e, h) ↦ rw (h, Users.flush_credentials) (Sound_of_same refl)
    | inl h ↦
        rw (h, Users.flush_credentials)
          (record {
            valid = set_credentials-IsValid w.db user_id user;
            users_grow = omega arith;
            tasks_grow = omega arith;
          })
  ];
}

pub update_credentials-Sound : (user : User) → Steps Sound (Users.update_credentials user)
unfolding Users.update_credentials
update_credentials-Sound user = search (sound_rules, flush_credentials-Sound)

pub get_by_id-Sound : (user_id : ℕ) → Steps Sound (Users.get_by_id user_id)
unfolding Users.get_by_id
get_by_id-Sound user_id = record { at = λ w. Sound_of_same refl }

pub get_by_id_for_update-Sound : (user_id : ℕ) → Steps Sound (Users.get_by_id_for_update user_id)
unfolding Users.get_by_id_for_update
get_by_id_for_update-Sound user_id = record { at = λ w. Sound_of_same refl }

pub get_by_email_for_update-Sound :
    (email : Text) → Steps Sound (Users.get_by_email_for_update email)
unfolding Users.get_by_email_for_update
get_by_email_for_update-Sound email = record { at = λ w. Sound_of_same refl }
