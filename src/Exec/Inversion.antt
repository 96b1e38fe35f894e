-- ===== src/Exec/Inversion.antt =====
-- What is known of the parts of an action that returned.
-- A chain returned: its first action returned, and so did the rest from there.
use lsstack.Exec.{Error, Exec, Result, continue, err, lift, ok, or_raise, raise_if, ◌>>=◌}
use lsstack.Prelude.{Bool, Option, ap, arith, false, inl, inr, none, refl, some, sym, ◌≡◌, ◌⊎◌}
use mathlib.Core.Path.{subst}

pub bind_ok :
    {S A B : Type 0} (m : Exec S A) (f : A → Exec S B) (s t : S) (b : B)
    → (m >>= f) s ≡ (ok b, t)
    → (a : A) × (u : S) × (m s ≡ (ok a, u)) × (f a u ≡ (ok b, t))
unfolding ◌>>=◌
bind_ok {S} {A} {B} m f s t b h = split (m s).0 refl
  where
    split :
        (r : Result A) → (m s).0 ≡ r → (a : A) × (u : S) × (m s ≡ (ok a, u)) × (f a u ≡ (ok b, t))
    split (ok a) e =
        (a, (m s).1, (λ i. (e i, (m s).1)), (subst (λ r. continue r f (m s).1 ≡ (ok b, t)) e h))
    split (err x) e =
        absurd (ok_err b x t (m s).1 (subst (λ r. continue r f (m s).1 ≡ (ok b, t)) e h))
      where
        ok_err : (b : B) (x : Error) (t u : S) → ◌≡◌ {A = Result B × S} (err x, u) (ok b, t) → ⊥
        ok_err b x t u k = cc

-- A chain ends where its first action raises, and goes on from there when it returns.
pub bind_cases :
    {S A B : Type 0} (m : Exec S A) (f : A → Exec S B) (s : S)
    → ((m >>= f) s).1 ≡ (m s).1
      ⊎ ((a : A) × (u : S) × (m s ≡ (ok a, u)) × (((m >>= f) s).1 ≡ (f a u).1))
unfolding ◌>>=◌
bind_cases {S} {A} {B} m f s = split (m s).0 refl
  where
    split :
        (r : Result A)
        → (m s).0 ≡ r
        → (continue (m s).0 f (m s).1).1 ≡ (m s).1
          ⊎ ((a : A) × (u : S) × (m s ≡ (ok a, u)) × ((continue (m s).0 f (m s).1).1 ≡ (f a u).1))
    split (err x) e = inl (ap (λ r. (continue r f (m s).1).1) e)
    split (ok a) e = inr (a, (m s).1, (λ i. (e i, (m s).1)), ap (λ r. (continue r f (m s).1).1) e)

pub raise_if_ok :
    {S : Type 0} (c : Bool) (e : Error) (s t : S) (a : Unit {0})
    → raise_if c e s ≡ (ok a, t)
    → (c ≡ false) × (t ≡ s)
unfolding raise_if
raise_if_ok c e s t a h = (ground (arith, h), ground (arith, h))

pub or_raise_ok :
    {S A : Type 0} (found : Option A) (e : Error) (s t : S) (a : A)
    → or_raise found e s ≡ (ok a, t)
    → (found ≡ some a) × (t ≡ s)
unfolding or_raise
or_raise_ok none e s t a h = absurd (ground arith)
or_raise_ok (some x) e s t a h = (ground (arith, h), ground (arith, h))

pub lift_ok :
    {S A : Type 0} (r : Result A) (s t : S) (a : A) → lift r s ≡ (ok a, t) → (r ≡ ok a) × (t ≡ s)
unfolding lift
lift_ok r s t a h = (ap (λ x. x.0) h, ap (λ x. x.1) (sym h))

-- Whatever an action returns, and the state it leaves, have a property.
pub record Returns {S A : Type 0} (P : A → S → Type 0) (m : Exec S A) : Type 0 where
  pub ends : (s t : S) (a : A) → m s ≡ (ok a, t) → P a t

pub Returns-bind :
    {S A B : Type 0} (P : B → S → Type 0) (m : Exec S A) (f : A → Exec S B)
    → ((a : A) → Returns P (f a))
    → Returns P (m >>= f)
Returns-bind P m f rest = record {
  ends = λ s t b h. let (a, u, first, then) = bind_ok m f s t b h in (rest a).ends u t b then;
}
