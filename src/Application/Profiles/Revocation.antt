-- ===== src/Application/Profiles/Revocation.antt =====
-- A change of password ends the sessions of the account.
use lsstack.Persistence.Users
use mathlib.Core.Option
use lsstack.Application.Auth.{SessionClaims, get_user_session, revalidate_session, session_of_user}
use lsstack.Application.Profiles.{change_password}
use lsstack.Domain.Users.{User, validate_password, with_password}
use lsstack.Exec.{
  current_password_mismatch_error, err, gets, invalid_session_error, lift, ok, or_raise, pure,
  raise_if, validation_error, ◌>>=◌, ◌>>◌,
}
use lsstack.Exec.Inversion.{Returns, Returns-bind, bind_ok, or_raise_ok}
use lsstack.Persistence.Models.{UserModel, World, check_user}
use lsstack.Platform.{Platform}
use lsstack.Prelude.{
  Bool-cases, Option, Option-cases, ap, arith, inl, inr, leb, not, refl, some, sym, true, ℕ, ◌+◌,
  ◌==◌, ◌∙◌, ◌≡◌, ◌≢◌, ◌≤◌,
}
use lsstack.Prelude.Table.{find}
use lsstack.Prelude.Table.Laws.{changed, find-update_where, find_sound}
use lsstack.Security.Passwords.{hash, now, verify}
use lsstack.Text.{Text, text_eq}
use mathlib.Core.Path.{subst}

-- The version that the sessions of an account must have, if the account is there.
abbrev version_of : ℕ → World → Option ℕ
version_of user_id w =
    Option.map (λ (r : UserModel). r.session_version) (find (Users.has_id user_id) w.db.users)

changed_version :
    (user_id : ℕ) (user : User) (model : UserModel)
    → Users.has_id user_id model ≡ true
    → (changed (Users.has_id user_id) (Users.set_credentials user) model).session_version
      ≡ user.session_version
unfolding changed
changed_version user_id user model h = ground (arith, h)

flush-ok :
    (user_id : ℕ) (user updated : User) (model : UserModel) (w w' : World)
    → find (Users.has_id user_id) w.db.users ≡ some model
    → Users.flush_credentials user_id user model w ≡ (ok updated, w')
    → (updated.session_version ≡ user.session_version)
      × (version_of user_id w' ≡ some user.session_version)
unfolding Users.flush_credentials
flush-ok user_id user updated model w w' found h =
    elim (Option-cases (check_user (Users.set_credentials user model))) [
      | inr (e, bad) ↦ let k = rw (bad, Users.flush_credentials) at h in absurd (ground arith)
      | inl fits ↦
          let k = rw (fits, Users.flush_credentials) at h in
          (
            ground (arith, k),
            subst (λ (u : World). version_of user_id u ≡ some user.session_version)
                (ap (λ x. x.1) k)
                (rw
                  (
                    find-update_where (Users.has_id user_id) (Users.has_id user_id)
                        (Users.set_credentials user) w.db.users (λ r. refl),
                    found,
                  )
                  (ap some (
                    changed_version user_id user model
                      (find_sound (Users.has_id user_id) w.db.users model found)))),
          )
    ]

update-ok :
    (user_id : ℕ) (user updated : User) (w w' : World)
    → user.id ≡ some user_id
    → Users.update_credentials user w ≡ (ok updated, w')
    → (updated.session_version ≡ user.session_version)
      × (version_of user_id w' ≡ some user.session_version)
unfolding Users.update_credentials gets
update-ok user_id user updated w w' there h =
    let (k, a, taken, rest) = bind_ok (or_raise user.id _) _ w w' updated h in
    let (found, b, seen, rest') = bind_ok _ _ a w' updated rest in
    let (model, c, got, rest'') = bind_ok _ _ b w' updated rest' in
    let here = or_raise_ok user.id _ w a k taken in
    let hit = or_raise_ok found _ b c model got in
    let same : k ≡ user_id = ground (arith, here.0, there) in
    let row : find (Users.has_id k) c.db.users ≡ some model =
      ap (λ (x : World). find (Users.has_id k) x.db.users) (hit.1 ∙ ap (λ x. x.1) (sym seen))
      ∙ ground (arith, hit.0, seen) in
    subst
      (λ j.
        (updated.session_version ≡ user.session_version)
        × (version_of j w' ≡ some user.session_version))
      same (flush-ok k user updated model c w' row rest'')

revalidate-stale :
    (p : Platform) (claims : SessionClaims) (version : ℕ) (w : World)
    → version_of claims.user_id w ≡ some version
    → claims.session_version ≢ version
    → (revalidate_session p claims w).0 ≡ err invalid_session_error
unfolding revalidate_session get_user_session session_of_user Users.get_by_id now ◌>>=◌
revalidate-stale p claims version w h stale =
    elim (Bool-cases (leb claims.expires_at (p.utc_now w.readings))) [
      | inl over ↦ rw over refl
      | inr runs ↦ elim (Option-cases (find (Users.has_id claims.user_id) w.db.users)) [
        | inl missing ↦ absurd (ground (arith, h, missing))
        | inr (r, found) ↦
            let same : r.session_version ≡ version = ground (arith, h, found) in
            rw (runs, found) (ground (arith, same, stale))
      ]
    ]

-- The last two steps of `change_password`.
stored_version :
    (user_id : ℕ) (user : User)
    → user.id ≡ some user_id
    → Returns
        (λ v w. (v ≡ user.session_version) × (version_of user_id w ≡ some v))
        (Users.update_credentials user >>= λ updated. pure updated.session_version)
unfolding pure
stored_version user_id user named = record {
  ends = λ s t v h.
      let (updated, u, wrote, last) = bind_ok (Users.update_credentials user) _ s t v h in
      let (same, there) = update-ok user_id user updated s u named wrote in
      let answer : updated.session_version ≡ v = ground (arith, last) in
      let left : u ≡ t = ap (λ x. x.1) last in
      (sym answer ∙ same, ap (version_of user_id) (sym left) ∙ there ∙ ap some (sym same ∙ answer));
}

-- `change_password` from the check of the current password.
checked_change :
    (p : Platform) (user_id : ℕ) (current new again : Text) (user : User)
    → user.id ≡ some user_id
    → Returns
        (λ v w. (v ≡ user.session_version + 1) × (version_of user_id w ≡ some v))
        (do
          verification ← verify p current user.password_hash
          raise_if (not verification.valid) current_password_mismatch_error
          raise_if
              (not (text_eq new again))
              (validation_error "new_password_confirmation" "Passwords do not match.")
          lift (validate_password p new user.email_normalized)
          hashed ← hash p new
          time ← now p
          updated ← Users.update_credentials (with_password user hashed time)
          pure updated.session_version)
unfolding with_password
checked_change p user_id current new again user named = Returns-bind _ _ _ λ verification.
    Returns-bind _ _ _ λ _. Returns-bind _ _ _ λ _. Returns-bind _ _ _ λ _.
      Returns-bind _ _ _ λ hashed.
        Returns-bind _ _ _ λ time. stored_version user_id (with_password user hashed time) named

-- A change that returns has raised the version by one.
change_password-ok :
    (p : Platform) (user_id : ℕ) (current new again : Text) (w w' : World) (version : ℕ)
    (r : UserModel)
    → find (Users.has_id user_id) w.db.users ≡ some r
    → change_password p user_id current new again w ≡ (ok version, w')
    → (version ≡ r.session_version + 1) × (version_of user_id w' ≡ some version)
unfolding change_password with_password
change_password-ok p user_id current new again w w' version r there h =
    let (found, a, seen, k) = bind_ok (Users.get_by_id_for_update user_id) _ w w' version h in
    let (user, b, got, k') = bind_ok (or_raise found _) _ a w' version k in
    let taken = or_raise_ok found _ a b user got in
    let same : user ≡ Users.user_of_model r =
      unfold Users.get_by_id_for_update in ground (arith, taken.0, seen, there) in
    let numbered : (r.id == user_id) ≡ true =
      find_sound (Users.has_id user_id) w.db.users r there in
    let named : user.id ≡ some user_id = ground (arith, same, numbered) in
    let raised : user.session_version ≡ r.session_version =
      ap (λ (x : User). x.session_version) same in
    let (v, stored) =
      (checked_change p user_id current new again user named).ends b w' version k' in
    (omega (arith, v, raised), stored)

-- After a change of password that returned, every session of the account that was issued for the
-- version stored before, or an earlier one, is invalid, for as long as the accounts stay as they
-- are; the new version is one more than the stored one.
pub change_password-revokes :
    (p : Platform) (user_id : ℕ) (current new again : Text) (w w' u : World) (version : ℕ)
    (r : UserModel) (claims : SessionClaims)
    → find (Users.has_id user_id) w.db.users ≡ some r
    → change_password p user_id current new again w ≡ (ok version, w')
    → u.db.users ≡ w'.db.users
    → claims.user_id ≡ user_id
    → claims.session_version ≤ r.session_version
    → ((revalidate_session p claims u).0 ≡ err invalid_session_error)
      × (version ≡ r.session_version + 1)
change_password-revokes p user_id current new again w w' u version r claims there h same mine old =
    let (raised, stored) = change_password-ok p user_id current new again w w' version r there h in
    let known : version_of claims.user_id u ≡ some version = rw (mine, same) stored in
    (revalidate-stale p claims version u known (λ e. omega (arith, e, raised, old)), raised)
