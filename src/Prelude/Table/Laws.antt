-- ===== src/Prelude/Table/Laws.antt =====
-- The laws of the statements on a table.
use mathlib.Core.Option
use lsstack.Prelude.Lists.{All, any, select}
use lsstack.Prelude.Table.{delete_where, find, insert_row, update_where}
use lsstack.Prelude.Tests.{Bool-cases, if◌then◌else◌}
use mathlib.Core.Bool.{Bool, false, true}
use mathlib.Core.List.{List, [], ◌∷◌}
use mathlib.Core.Logic.{inl, inr}
use mathlib.Core.Option.{Option, none, some}
use mathlib.Core.Path.{refl, subst, ◌≡◌}
use native.Mathlib.Omega.{arith}

-- The rows that are there still after a statement, found by a test.
module _ {ℓ} {A : Type ℓ} where
  unfoldable pub changed : (A → Bool) → (A → A) → A → A
  changed p f x = if p x then f x else x

  pub find_sound : (p : A → Bool) (xs : List A) (a : A) → find p xs ≡ some a → p a ≡ true
  unfolding find
  find_sound p [] a h = cc
  find_sound p (x ∷ xs) a h = ground (arith, find_sound p xs a)

  pub find-update_where :
      (q p : A → Bool) (f : A → A) (xs : List A)
      → ((x : A) → q (f x) ≡ q x)
      → find q (update_where p f xs) ≡ Option.map (changed p f) (find q xs)
  unfolding find update_where changed
  find-update_where q p f [] keep = refl
  find-update_where q p f (x ∷ xs) keep = ground (arith, keep x, find-update_where q p f xs keep)

  pub select-update_where :
      (q p : A → Bool) (f : A → A) (xs : List A)
      → ((x : A) → p x ≡ true → q x ≡ false)
      → ((x : A) → p x ≡ true → q (f x) ≡ false)
      → select q (update_where p f xs) ≡ select q xs
  unfolding select update_where
  select-update_where q p f [] out out' = refl
  select-update_where q p f (x ∷ xs) out out' =
      ground (arith, out x, out' x, select-update_where q p f xs out out')

  pub select-delete_where :
      (q p : A → Bool) (xs : List A)
      → ((x : A) → p x ≡ true → q x ≡ false)
      → select q (delete_where p xs) ≡ select q xs
  unfolding select delete_where
  select-delete_where q p [] out = refl
  select-delete_where q p (x ∷ xs) out = ground (arith, out x, select-delete_where q p xs out)

  pub select-insert_row :
      (q : A → Bool) (a : A) (xs : List A) → q a ≡ false → select q (insert_row a xs) ≡ select q xs
  unfolding select insert_row
  select-insert_row q a [] h = ground arith
  select-insert_row q a (x ∷ xs) h = ground (arith, select-insert_row q a xs h)

  pub find-delete_where : (p : A → Bool) (xs : List A) → find p (delete_where p xs) ≡ none
  unfolding find delete_where
  find-delete_where p [] = refl
  find-delete_where p (x ∷ xs) = ground (arith, find-delete_where p xs)

  pub find-insert_row :
      (q : A → Bool) (a : A) (xs : List A)
      → find q (insert_row a xs)
        ≡ elim (find q xs) [ none ↦ if q a then some a else none | some x ↦ some x ]
  unfolding find insert_row
  find-insert_row q a [] = refl
  find-insert_row q a (x ∷ xs) = ground (arith, find-insert_row q a xs)

  -- What a test finds depends on the rows that the wider test keeps.
  pub find-select :
      (q r : A → Bool) (xs : List A)
      → ((x : A) → q x ≡ true → r x ≡ true)
      → find q (select r xs) ≡ find q xs
  unfolding find select
  find-select q r [] sub = refl
  find-select q r (x ∷ xs) sub = ground (arith, sub x, find-select q r xs sub)

module _ {ℓ κ} {A : Type ℓ} (P : A → Type κ) where
  pub find-All : (p : A → Bool) (xs : List A) {a : A} → All P xs → find p xs ≡ some a → P a
  unfolding find
  find-All p [] h e = cc
  find-All p (x ∷ xs) {a} h e = elim (Bool-cases (p x)) [
    | inl t ↦ let same : x ≡ a = ground arith in subst P same h.0
    | inr t ↦ find-All p xs h.1 (rw t at e)
  ]

  pub All-update_where :
      (p : A → Bool) (f : A → A) (xs : List A)
      → ((x : A) → P x → p x ≡ true → P (f x))
      → All P xs
      → All P (update_where p f xs)
  unfolding update_where
  All-update_where p f [] keep h = h
  All-update_where p f (x ∷ xs) keep h = (
    elim (Bool-cases (p x)) [ inl t ↦ rw t (keep x h.0 t) | inr t ↦ rw t h.0 ],
    All-update_where p f xs keep h.1,
  )

  pub All-delete_where : (p : A → Bool) (xs : List A) → All P xs → All P (delete_where p xs)
  unfolding delete_where
  All-delete_where p [] h = h
  All-delete_where p (x ∷ xs) h = elim (Bool-cases (p x)) [
    | inl t ↦ rw t (All-delete_where p xs h.1)
    | inr t ↦ rw t (h.0, All-delete_where p xs h.1)
  ]

  pub All-insert_row : (a : A) (xs : List A) → All P xs → P a → All P (insert_row a xs)
  unfolding insert_row
  All-insert_row a [] h pa = (pa, h)
  All-insert_row a (x ∷ xs) h pa = (h.0, All-insert_row a xs h.1 pa)

pub All-map {ℓ κ μ} :
    {A : Type ℓ} (P : A → Type κ) (Q : A → Type μ) (xs : List A)
    → ((x : A) → P x → Q x)
    → All P xs
    → All Q xs
All-map P Q [] f h = tt
All-map P Q (x ∷ xs) f h = (f x h.0, All-map P Q xs f h.1)

-- An update that turns one property of the rows into another.
pub All-update_to {ℓ κ μ} :
    {A : Type ℓ} (P : A → Type κ) (Q : A → Type μ) (p : A → Bool) (f : A → A) (xs : List A)
    → ((x : A) → P x → p x ≡ true → Q (f x))
    → ((x : A) → P x → p x ≡ false → Q x)
    → All P xs
    → All Q (update_where p f xs)
unfolding update_where
All-update_to P Q p f [] hit miss h = tt
All-update_to P Q p f (x ∷ xs) hit miss h = (
  elim (Bool-cases (p x)) [ inl t ↦ rw t (hit x h.0 t) | inr t ↦ rw t (miss x h.0 t) ],
  All-update_to P Q p f xs hit miss h.1,
)

pub All-both {ℓ κ μ} :
    {A : Type ℓ} (P : A → Type κ) (Q : A → Type μ) (xs : List A)
    → All P xs
    → All Q xs
    → All (λ x. P x × Q x) xs
All-both P Q [] h k = tt
All-both P Q (x ∷ xs) h k = ((h.0, k.0), All-both P Q xs h.1 k.1)

-- An update that finds no row.
pub update_where-none {ℓ} :
    {A : Type ℓ} (p : A → Bool) (f : A → A) (xs : List A)
    → find p xs ≡ none
    → update_where p f xs ≡ xs
unfolding find update_where
update_where-none p f [] h = refl
update_where-none p f (x ∷ xs) h = ground (arith, update_where-none p f xs)

-- An update of rows that a test does not keep, before or after.
pub select-update_rows {ℓ} :
    {A : Type ℓ} (q p : A → Bool) (f : A → A) (xs : List A)
    → All (λ x. p x ≡ true → q x ≡ false) xs
    → ((x : A) → q (f x) ≡ q x)
    → select q (update_where p f xs) ≡ select q xs
unfolding select update_where
select-update_rows q p f [] out same = refl
select-update_rows q p f (x ∷ xs) out same =
    ground (arith, out.0, same x, select-update_rows q p f xs out.1 same)

pub find-none {ℓ} : {A : Type ℓ} (p : A → Bool) (xs : List A) → any p xs ≡ false → find p xs ≡ none
unfolding find any
find-none p [] h = refl
find-none p (x ∷ xs) h = ground (arith, find-none p xs)
