-- ===== src/Application/Auth/RoundTrip.antt =====
-- Who registered can sign in.
use lsstack.Persistence.Users
use lsstack.Application.Auth.{
  AuthResult, auth_result, authenticate, authenticate_email, register, upgrade_hash,
}
use lsstack.Domain.Users.{User, normalize_email}
use lsstack.Exec.{lift, ok, ◌>>=◌}
use lsstack.Exec.Inversion.{Returns, Returns-bind, bind_ok, lift_ok}
use lsstack.Persistence.Models.{UserModel, World, check_user}
use lsstack.Platform.{Platform}
use lsstack.Prelude.{
  Bool-cases, Option-cases, any, ap, arith, inl, inr, none, refl, some, sym, true, ℕ, ◌+◌, ◌≡◌,
}
use lsstack.Prelude.Table.{find}
use lsstack.Prelude.Table.Laws.{find-insert_row, find-none}
use lsstack.Security.Passwords.{hash, verify}
use lsstack.Text.{Text, text_eq_refl}
use mathlib.Core.Path.{subst}

-- The account that a registration stored.
record Stored (p : Platform) (email password : Text) (auth : AuthResult) (w : World) : Type 0 where
  model : UserModel
  there : find (Users.has_email email) w.db.users ≡ some model
  answer : auth ≡ record {
    user_id = model.id;
    email_normalized = model.email_normalized;
    session_version = model.session_version;
  }
  reading : ℕ
  hashed : model.password_hash ≡ p.password_hash reading password

inserted-ok :
    (model : UserModel) (w w' : World) (user : User)
    → Users.insert_user model w ≡ (ok user, w')
    → (find (Users.has_email model.email_normalized) w'.db.users ≡ some model)
      × (user ≡ Users.user_of_model model)
unfolding Users.insert_user
inserted-ok model w w' user h = elim (Option-cases (check_user model)) [
  | inr (e, bad) ↦ let k = rw (bad, Users.insert_user) at h in absurd (ground arith)
  | inl fits ↦ elim (Bool-cases (any (Users.has_email model.email_normalized) w.db.users)) [
    | inl taken ↦ let k = rw (fits, taken, Users.insert_user) at h in absurd (ground arith)
    | inr free ↦
        let k = rw (fits, free, Users.insert_user) at h in
        (
          subst
              (λ (u : World). find (Users.has_email model.email_normalized) u.db.users ≡ some model)
              (ap (λ x. x.1) k)
              (rw
                (
                  find-insert_row (Users.has_email model.email_normalized) model w.db.users,
                  find-none (Users.has_email model.email_normalized) w.db.users free,
                  text_eq_refl model.email_normalized,
                )
                refl),
          ground (arith, k),
        )
  ]
]

answered :
    (user : User) (model : UserModel) (w w' : World) (auth : AuthResult)
    → user ≡ Users.user_of_model model
    → auth_result user w ≡ (ok auth, w')
    → (auth ≡ record {
      user_id = model.id;
      email_normalized = model.email_normalized;
      session_version = model.session_version;
    })
      × (w' ≡ w)
unfolding auth_result ◌>>=◌
answered user model w w' auth same h =
    let k = subst (λ x. auth_result x w ≡ (ok auth, w')) same h in
    (ground (arith, k), ap (λ x. x.1) (sym k))

hashed_by :
    (p : Platform) (password : Text) (w w' : World) (hashed : Text)
    → hash p password w ≡ (ok hashed, w')
    → hashed ≡ p.password_hash w.readings password
unfolding hash
hashed_by p password w w' hashed h = ground (arith, h)

-- `register` from the reading of the clock.
Stored-Returns :
    (p : Platform) (e password : Text) (time : ℕ)
    → Returns (Stored p e password) (do
      hashed ← hash p password
      user ← Users.add (record {
        id = none;
        email_normalized = e;
        password_hash = hashed;
        session_version = 0;
        created_at = time;
        updated_at = time;
      })
      auth_result user)
unfolding Users.add
Stored-Returns p e password time = record {
  ends = λ c w' auth k2.
      let (hashed, d, salted, k3) = bind_ok (hash p password) _ c w' auth k2 in
      let (user, f, inserted, k4) = bind_ok _ _ d w' auth k3 in
      let model : UserModel = record {
        id = d.db.last_user_id + 1;
        email_normalized = e;
        password_hash = hashed;
        session_version = 0;
        created_at = time;
        updated_at = time;
      } in
      let (there, same) = inserted-ok model d f user inserted in
      let (answer, left) = answered user model f w' auth same k4 in
      record {
        model = model;
        there =
            subst (λ (x : World). find (Users.has_email e) x.db.users ≡ some model) (sym left)
              there;
        answer = answer;
        reading = c.readings;
        hashed = hashed_by p password c d hashed salted;
      };
}

-- What a registration that returned has stored.
register-Stored :
    (p : Platform) (email password : Text) (w w' : World) (auth : AuthResult)
    → register p email password w ≡ (ok auth, w')
    → (e : Text) × (normalize_email p email ≡ ok e) × Stored p e password auth w'
unfolding register
register-Stored p email password w w' auth h =
    let (e, a, normal, k) = bind_ok (lift (normalize_email p email)) _ w w' auth h in
    (
      e,
      (lift_ok (normalize_email p email) w a e normal).0,
      (Returns-bind _ _ _
            λ strong. Returns-bind _ _ _ λ time. Stored-Returns p e password time).ends
          a w' auth k,
    )

-- A sign-in with the password of a stored account.
Stored-authenticate :
    (p : Platform) (e password : Text) (w u : World) (auth : AuthResult)
    → ((n m : ℕ) → p.verify_and_update n password (p.password_hash m password) ≡ (true, none))
    → u.db.users ≡ w.db.users
    → Stored p e password auth w
    → (authenticate_email p password (ok e) u).0 ≡ ok auth
unfolding authenticate_email Users.get_by_email_for_update verify upgrade_hash auth_result ◌>>=◌
Stored-authenticate p e password w u auth law same s =
    let found : find (Users.has_email e) u.db.users ≡ some s.model = rw same s.there in
    rw (found, s.hashed, law u.readings s.reading) (sym (ap ok s.answer))

-- A registration that returned can be signed in with, by the same email and password and with the
-- same answer, for as long as the accounts stay as they are, if the hasher verifies what it hashed
-- and asks for no upgrade of it.
pub register-authenticate :
    (p : Platform) (email password : Text) (w w' u : World) (auth : AuthResult)
    → ((n m : ℕ) → p.verify_and_update n password (p.password_hash m password) ≡ (true, none))
    → register p email password w ≡ (ok auth, w')
    → u.db.users ≡ w'.db.users
    → (authenticate p email password u).0 ≡ ok auth
unfolding authenticate
register-authenticate p email password w w' u auth law h same =
    let (e, normal, stored) = register-Stored p email password w w' auth h in
    rw normal (Stored-authenticate p e password w' u auth law same stored)
