-- ===== src/Exec.antt =====
-- How a call of the program runs: it reads and changes a state, and returns or raises. What was
-- written before a raise stays written, so the state comes back beside the error too. The one
-- place that undoes writes is the transaction runner, in Persistence.
pub mod Steps
pub mod Inversion
use lsstack.Prelude.{Bool, Option, String, if◌then◌else◌, inl, inr, none, refl, some, ◌≡◌, ◌⊎◌}

-- src/app/domain/errors.py, and the other exceptions that the modelled code raises
pub data Error : Type 0 where
  validation_error : String → String → Error
  duplicate_email_error : Error
  invalid_credentials_error : Error
  invalid_session_error : Error
  current_password_mismatch_error : Error
  task_not_found_error : Error
  value_error : String → Error
  runtime_error : String → Error
  type_error : String → Error
  integrity_error : String → Error
  data_error : String → Error
  cancelled_error : Error
  -- any other exception, by the name of its class and its text
  other_error : String → String → Error

pub data Result {ℓ} (A : Type ℓ) : Type ℓ where
  ok : A → Result A
  err : Error → Result A

abbrev pub Exec : Type 0 → Type 0 → Type 0
Exec S A = S → Result A × S

module _ {S A : Type 0} where
  unfoldable pub pure : A → Exec S A
  pure a s = (ok a, s)

  unfoldable pub raise : Error → Exec S A
  raise e s = (err e, s)

  -- a pure function that may raise
  unfoldable pub lift : Result A → Exec S A
  lift r s = (r, s)

  unfoldable pub gets : (S → A) → Exec S A
  gets f s = (ok (f s), s)

  -- `if x is None: raise`
  unfoldable pub or_raise : Option A → Error → Exec S A
  unfolding pure raise
  or_raise none e = raise e
  or_raise (some a) e = pure a

unfoldable pub modify : {S : Type 0} → (S → S) → Exec S (Unit {0})
modify f s = (ok tt, f s)

unfoldable pub raise_if : {S : Type 0} → Bool → Error → Exec S (Unit {0})
raise_if c e s = (if c then err e else ok tt, s)

abbrev pub continue : {S A B : Type 0} → Result A → (A → Exec S B) → Exec S B
continue (ok a) f s = f a s
continue (err e) f s = (err e, s)

infixl 5 ◌>>=◌ ◌>>◌
-- Opening this opens the actions above too.
unfoldable pub ◌>>=◌ : {S A B : Type 0} → Exec S A → (A → Exec S B) → Exec S B
unfolding pure raise lift gets or_raise modify raise_if
◌>>=◌ m f s = let (r, s') = m s in continue r f s'

abbrev pub ◌>>◌ : {S A B : Type 0} → Exec S A → Exec S B → Exec S B
m >> k = m >>= λ _. k

-- `try`: what the body raised is handed on as a value, and what it wrote stays written.
unfoldable pub attempt : {S A : Type 0} → Exec S A → Exec S (Result A)
attempt m s = let (r, s') = m s in (ok r, s')

pub Result-cases {ℓ} :
    {A : Type ℓ} (r : Result A) → ((e : Error) × (r ≡ err e)) ⊎ ((a : A) × (r ≡ ok a))
Result-cases (err e) = inl (e, refl)
Result-cases (ok a) = inr (a, refl)
