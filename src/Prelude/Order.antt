-- ===== src/Prelude/Order.antt =====
-- What sorting, LIMIT and WHERE keep of a list of rows.
use mathlib.Core.List.Perm
use Prim.Native.Nat.{suc, zero, ℕ, ◌+◌}
use lsstack.Prelude.Lists.{All, any, insert_by, length, select, sort_by, take}
use lsstack.Prelude.Table.Keys.{Unique}
use lsstack.Prelude.Table.Laws.{All-map}
use lsstack.Prelude.Tests.{==_refl, Bool-cases, ◌==◌}
use mathlib.Core.Bool.{Bool, false, true, ◌||◌}
use mathlib.Core.List.{List, Perm, [], map, ◌∷◌}
use mathlib.Core.Logic.{inl, inr, ◌≢◌, ◌⊎◌}
use mathlib.Core.Path.{ap, refl, ◌∙◌, ◌≡◌}
use native.Mathlib.Omega.{arith}

module _ {ℓ} {A : Type ℓ} where
  pub any-take : (p : A → Bool) (n : ℕ) (xs : List A) → any p (take n xs) ≡ true → any p xs ≡ true
  unfolding any
  any-take p zero xs h = cc
  any-take p (suc n) [] h = cc
  any-take p (suc n) (x ∷ xs) h = ground (arith, any-take p n xs)

  pub any-congr : (p q : A → Bool) (xs : List A) → ((x : A) → p x ≡ q x) → any p xs ≡ any q xs
  unfolding any
  any-congr p q [] h = refl
  any-congr p q (x ∷ xs) h = ground (arith, h x, any-congr p q xs h)

module _ {ℓ} {A : Type ℓ} (precedes : A → A → Bool) where
  any-insert_by :
      (p : A → Bool) (a : A) (xs : List A) → any p (insert_by precedes a xs) ≡ (p a || any p xs)
  unfolding any insert_by
  any-insert_by p a [] = refl
  any-insert_by p a (x ∷ xs) = ground (arith, any-insert_by p a xs)

  pub any-sort_by : (p : A → Bool) (xs : List A) → any p (sort_by precedes xs) ≡ any p xs
  unfolding any sort_by
  any-sort_by p [] = refl
  any-sort_by p (x ∷ xs) =
      any-insert_by p x (sort_by precedes xs) ∙ ap (λ b. p x || b) (any-sort_by p xs)

  insert_by-perm : (a : A) (xs : List A) → Perm (insert_by precedes a xs) (a ∷ xs)
  unfolding insert_by
  insert_by-perm a [] = Perm.refl (a ∷ [])
  insert_by-perm a (x ∷ xs) = elim (Bool-cases (precedes a x)) [
    | inl t ↦ rw t (Perm.refl (a ∷ x ∷ xs))
    | inr f ↦ rw f (Perm.trans (Perm.cons x (insert_by-perm a xs)) (Perm.swap a x xs))
  ]

  pub sort_by-perm : (xs : List A) → Perm (sort_by precedes xs) xs
  unfolding sort_by
  sort_by-perm [] = Perm.refl []
  sort_by-perm (x ∷ xs) =
      Perm.trans (insert_by-perm x (sort_by precedes xs)) (Perm.cons x (sort_by-perm xs))

  -- Each row may stand before all that follow it.
  abbrev pub IsSorted : List A → Type 0
  IsSorted [] = Unit
  IsSorted (x ∷ xs) = All (λ y. precedes x y ≡ true) xs × IsSorted xs

  module _ (total : (x y : A) → precedes x y ≡ false → precedes y x ≡ true)
      (chain : (x y z : A) → precedes x y ≡ true → precedes y z ≡ true → precedes x z ≡ true) where
    All-insert_by :
        (b a : A) (xs : List A)
        → precedes b a ≡ true
        → All (λ y. precedes b y ≡ true) xs
        → All (λ y. precedes b y ≡ true) (insert_by precedes a xs)
    unfolding insert_by
    All-insert_by b a [] h k = (h, k)
    All-insert_by b a (x ∷ xs) h k = elim (Bool-cases (precedes a x)) [
      | inl t ↦ rw t (h, k)
      | inr f ↦ rw f (k.0, All-insert_by b a xs h k.1)
    ]

    insert_by-IsSorted : (a : A) (xs : List A) → IsSorted xs → IsSorted (insert_by precedes a xs)
    unfolding insert_by
    insert_by-IsSorted a [] h = (tt, tt)
    insert_by-IsSorted a (x ∷ xs) h = elim (Bool-cases (precedes a x)) [
      | inl t ↦ rw t (
        (
          t,
          All-map (λ y. precedes x y ≡ true) (λ y. precedes a y ≡ true) xs (λ y. chain a x y t) h.0,
        ),
        h,
      )
      | inr f ↦ rw f (All-insert_by x a xs (total a x f) h.0, insert_by-IsSorted a xs h.1)
    ]

    pub sort_by-IsSorted : (xs : List A) → IsSorted (sort_by precedes xs)
    unfolding sort_by
    sort_by-IsSorted [] = tt
    sort_by-IsSorted (x ∷ xs) = insert_by-IsSorted x (sort_by precedes xs) (sort_by-IsSorted xs)

-- In a table with unique keys, a row passes a test if its key is among the rows that pass it.
module _ {ℓ} {A : Type ℓ} (key : A → ℕ) (q : A → Bool) where
  no_key :
      (k : ℕ) (xs : List A) → All (λ y. key y ≢ k) xs → any (λ m. key m == k) (select q xs) ≡ false
  unfolding any select
  no_key k [] h = refl
  no_key k (x ∷ xs) h = ground (arith, h.0, no_key k xs h.1)

  later :
      (x : A) (xs ys : List A)
      → All (λ y. key y ≢ key x) ys
      → All (λ r. any (λ m. key m == key r) (select q xs) ≡ true → q r ≡ true) ys
      → All (λ r. any (λ m. key m == key r) (select q (x ∷ xs)) ≡ true → q r ≡ true) ys
  unfolding any select
  later x xs [] h k = tt
  later x xs (y ∷ ys) h k = (
    λ e. k.0 (elim (Bool-cases (q x)) [
      | inl t ↦ let e' = rw t at e in ground (arith, h.0)
      | inr f ↦ rw f at e
    ]),
    later x xs ys h.1 k.1,
  )

  pub passes_of_key :
      (xs : List A)
      → Unique key xs
      → All (λ r. any (λ m. key m == key r) (select q xs) ≡ true → q r ≡ true) xs
  unfolding any select
  passes_of_key [] h = tt
  passes_of_key (x ∷ xs) h =
      (λ e. ground (arith, no_key (key x) xs h.0), later x xs xs h.0 (passes_of_key xs h.1))

pub any-map {ℓ κ} :
    {A : Type ℓ} {B : Type κ} (p : B → Bool) (f : A → B) (xs : List A)
    → any p (map f xs) ≡ any (λ x. p (f x)) xs
unfolding any
any-map p f [] = refl
any-map p f (x ∷ xs) = ap (λ b. p (f x) || b) (any-map p f xs)

module _ {ℓ} {A : Type ℓ} (precedes : A → A → Bool) where
  length-insert_by : (a : A) (xs : List A) → length (insert_by precedes a xs) ≡ length xs + 1
  unfolding insert_by
  length-insert_by a [] = omega arith
  length-insert_by a (x ∷ xs) = ground (arith, length-insert_by a xs)

  pub length-sort_by : (xs : List A) → length (sort_by precedes xs) ≡ length xs
  unfolding sort_by
  length-sort_by [] = refl
  length-sort_by (x ∷ xs) =
      omega (arith, length-insert_by x (sort_by precedes xs), length-sort_by xs)

-- What holds of all rows of a sorted or selected table, on the rows themselves.
module _ {ℓ κ} {A : Type ℓ} (P : A → Type κ) where
  All-inserted :
      (precedes : A → A → Bool) (a : A) (xs : List A)
      → All P (insert_by precedes a xs)
      → P a × All P xs
  unfolding insert_by
  All-inserted precedes a [] h = h
  All-inserted precedes a (x ∷ xs) h = elim (Bool-cases (precedes a x)) [
    | inl t ↦ rw t at h
    | inr f ↦
        let (first, rest) : P x × All P (insert_by precedes a xs) = rw f at h in
        let (inserted, others) = All-inserted precedes a xs rest in (inserted, (first, others))
  ]

  pub All-unsorted :
      (precedes : A → A → Bool) (xs : List A) → All P (sort_by precedes xs) → All P xs
  unfolding sort_by
  All-unsorted precedes [] h = tt
  All-unsorted precedes (x ∷ xs) h =
      let (first, rest) = All-inserted precedes x (sort_by precedes xs) h in
      (first, All-unsorted precedes xs rest)

  pub All-selected :
      (q : A → Bool) (xs : List A) → All P (select q xs) → All (λ x. q x ≡ true → P x) xs
  unfolding select
  All-selected q [] h = tt
  All-selected q (x ∷ xs) h = elim (Bool-cases (q x)) [
    | inl t ↦
        let both : P x × All P (select q xs) = rw t at h in (λ e. both.0, All-selected q xs both.1)
    | inr f ↦ (λ e. absurd (ground (arith, e, f)), All-selected q xs (rw f at h))
  ]

  pub All-everywhere : (xs : List A) → ((x : A) → P x) → All P xs
  All-everywhere [] h = tt
  All-everywhere (x ∷ xs) h = (h x, All-everywhere xs h)

pub All-mapped {ℓ κ μ} :
    {A : Type ℓ} {B : Type κ} (P : B → Type μ) (f : A → B) (xs : List A)
    → All (λ x. P (f x)) xs
    → All P (map f xs)
All-mapped P f [] h = tt
All-mapped P f (x ∷ xs) h = (h.0, All-mapped P f xs h.1)

pub All-zip {ℓ κ μ ν} :
    {A : Type ℓ} (P : A → Type κ) (Q : A → Type μ) (R : A → Type ν) (xs : List A)
    → ((x : A) → P x → Q x → R x)
    → All P xs
    → All Q xs
    → All R xs
All-zip P Q R [] f h k = tt
All-zip P Q R (x ∷ xs) f h k = (f x h.0 k.0, All-zip P Q R xs f h.1 k.1)

-- LIMIT n behind ORDER BY: a row is among the first n, by its key, or n rows are there and none of
-- them comes after it.
module _ {ℓ} {A : Type ℓ} (key : A → ℕ) (precedes : A → A → Bool) where
  abbrev pub IsServed : List A → ℕ → A → Type 0
  IsServed first n r =
      (any (λ m. key m == key r) first ≡ true)
      ⊎ ((length first ≡ n) × All (λ m. precedes m r ≡ true) first)

  pub take-IsServed : (n : ℕ) (xs : List A) → IsSorted precedes xs → All (IsServed (take n xs) n) xs
  unfolding any
  take-IsServed zero xs h = All-everywhere (IsServed [] 0) xs (λ r. inr (refl, tt))
  take-IsServed (suc n) [] h = tt
  take-IsServed (suc n) (x ∷ xs) h = (
    inl (ground (arith, ==_refl (key x))),
    All-zip (λ y. precedes x y ≡ true) (IsServed (take n xs) n) (IsServed (x ∷ take n xs) (suc n))
        xs
        (λ r before there. elim there [
          | inl among ↦ inl (ground (arith, among))
          | inr (full, all_before) ↦ inr (omega (arith, full), (before, all_before))
        ])
        h.0 (take-IsServed n xs h.1),
  )
