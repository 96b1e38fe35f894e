-- ===== src/Exec/Steps.antt =====
-- What an action does to the state, whether it returns or raises, as a relation between the state
-- before and the state after. One rule for each way to build an action.
use lsstack.Exec.{
  Error, Exec, Result, attempt, continue, err, gets, lift, ok, or_raise, pure, raise, raise_if,
  ◌>>=◌,
}
use lsstack.Prelude.{Bool, Option, false, if◌then◌else◌, none, refl, some, true, ◌≡◌}

pub record IsPreorder {S : Type 0} (R : S → S → Type 0) : Type 0 where
  pub same : (s : S) → R s s
  pub chain : (s t u : S) → R s t → R t u → R s u

pub record Steps {S A : Type 0} (R : S → S → Type 0) (m : Exec S A) : Type 0 where
  pub at : (s : S) → R s (m s).1

module _ {S A : Type 0} {R : S → S → Type 0} ⦃o : IsPreorder R⦄ where
  pub Steps-pure : (a : A) → Steps R (pure a)
  unfolding pure
  Steps-pure a = record { at = o.same }

  pub Steps-raise : (e : Error) → Steps R (raise {A = A} e)
  unfolding raise
  Steps-raise e = record { at = o.same }

  pub Steps-lift : (r : Result A) → Steps R (lift r)
  unfolding lift
  Steps-lift r = record { at = o.same }

  pub Steps-gets : (f : S → A) → Steps R (gets f)
  unfolding gets
  Steps-gets f = record { at = o.same }

  pub Steps-or_raise : (found : Option A) (e : Error) → Steps R (or_raise found e)
  unfolding or_raise
  Steps-or_raise none e = record { at = o.same }
  Steps-or_raise (some a) e = record { at = o.same }

  pub Steps-if : (b : Bool) (m n : Exec S A) → Steps R m → Steps R n → Steps R (if b then m else n)
  Steps-if true m n km kn = km
  Steps-if false m n km kn = kn

  pub Steps-attempt : (m : Exec S A) → Steps R m → Steps R (attempt m)
  unfolding attempt
  Steps-attempt m km = record { at = km.at }

pub Steps-raise_if :
    {S : Type 0} {R : S → S → Type 0} ⦃o : IsPreorder R⦄ (b : Bool) (e : Error)
    → Steps R (raise_if b e)
unfolding raise_if
Steps-raise_if ⦃o⦄ b e = record { at = o.same }

module _ {S A B : Type 0} {R : S → S → Type 0} ⦃o : IsPreorder R⦄ where
  Steps-continue :
      (r : Result A) (f : A → Exec S B) (s t : S)
      → R s t
      → ((a : A) → r ≡ ok a → Steps R (f a))
      → R s (continue r f t).1
  Steps-continue (ok a) f s t h kf = o.chain s t _ h ((kf a refl).at t)
  Steps-continue (err e) f s t h kf = h

  pub Steps-bind :
      (m : Exec S A) (f : A → Exec S B) → Steps R m → ((a : A) → Steps R (f a)) → Steps R (m >>= f)
  unfolding ◌>>=◌
  Steps-bind m f km kf = record {
    at = λ s. let (r, t) = m s in Steps-continue r f s t (km.at s) (λ a _. kf a);
  }

  -- Behind a pure check the rest may use that the check passed.
  pub Steps-bind-lift :
      (r : Result A) (f : A → Exec S B)
      → ((a : A) → r ≡ ok a → Steps R (f a))
      → Steps R (lift r >>= f)
  unfolding ◌>>=◌
  Steps-bind-lift r f kf = record { at = λ s. Steps-continue r f s s (o.same s) kf }

-- The same from one state, where the rest may use what the first action did.
pub bind_at :
    {S A B : Type 0} (R : S → S → Type 0) ⦃o : IsPreorder R⦄ (m : Exec S A) (f : A → Exec S B)
    (s : S)
    → R s (m s).1
    → ((a : A) (t : S) → m s ≡ (ok a, t) → R t (f a t).1)
    → R s ((m >>= f) s).1
unfolding ◌>>=◌
bind_at {S} {A} {B} R ⦃o⦄ m f s h k = finish (m s).0 refl
  where
    finish : (r : Result A) → (m s).0 ≡ r → R s (continue r f (m s).1).1
    finish (ok a) e = o.chain s (m s).1 _ h (k a (m s).1 (λ i. (e i, (m s).1)))
    finish (err x) e = h

pub ruleset steps_rules = (
  Steps-pure, Steps-raise, Steps-lift, Steps-gets, Steps-or_raise, Steps-if, Steps-attempt,
  Steps-raise_if, Steps-bind,
)
