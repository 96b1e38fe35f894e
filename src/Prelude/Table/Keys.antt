-- ===== src/Prelude/Table/Keys.antt =====
-- Columns that hold no value twice.
-- A column with no value twice: a primary key, or a UNIQUE constraint.
use Prim.Native.Nat.{ℕ}
use lsstack.Prelude.Lists.{All}
use lsstack.Prelude.Table.{delete_where, find, insert_row, update_where}
use lsstack.Prelude.Table.Laws.{All-delete_where, All-insert_row, All-update_where}
use lsstack.Prelude.Tests.{Bool-cases, if◌then◌else◌, ◌==◌}
use mathlib.Core.Bool.{Bool, ◌&&◌}
use mathlib.Core.List.{List, [], ◌∷◌}
use mathlib.Core.Logic.{inl, inr, ◌≢◌}
use mathlib.Core.Option.{Option, none, some}
use mathlib.Core.Path.{refl, subst, sym, ◌≡◌}
use native.Mathlib.Omega.{arith}

module _ {ℓ κ} {A : Type ℓ} {K : Type κ} (key : A → K) where
  abbrev pub Unique : List A → Type κ
  Unique [] = Unit
  Unique (x ∷ xs) = All (λ y. key y ≢ key x) xs × Unique xs

  pub Unique-update_where :
      (p : A → Bool) (f : A → A) (xs : List A)
      → ((x : A) → key (f x) ≡ key x)
      → Unique xs
      → Unique (update_where p f xs)
  unfolding update_where
  Unique-update_where p f [] keep h = h
  Unique-update_where p f (x ∷ xs) keep h = (
    elim (Bool-cases (p x)) [
      | inl t ↦ rw (t, keep x) (others (key x) xs h.0)
      | inr t ↦ rw t (others (key x) xs h.0)
    ],
    Unique-update_where p f xs keep h.1,
  )
    where
      others :
          (k : K) (ys : List A)
          → All (λ y. key y ≢ k) ys
          → All (λ y. key y ≢ k) (update_where p f ys)
      others k ys g = All-update_where (λ y. key y ≢ k) p f ys (λ y n _. rw (keep y) n) g

  pub Unique-delete_where : (p : A → Bool) (xs : List A) → Unique xs → Unique (delete_where p xs)
  unfolding delete_where
  Unique-delete_where p [] h = h
  Unique-delete_where p (x ∷ xs) h = elim (Bool-cases (p x)) [
    | inl t ↦ rw t (Unique-delete_where p xs h.1)
    | inr t ↦ rw t (All-delete_where (λ y. key y ≢ key x) p xs h.0, Unique-delete_where p xs h.1)
  ]

  pub Unique-insert_row :
      (a : A) (xs : List A) → Unique xs → All (λ y. key y ≢ key a) xs → Unique (insert_row a xs)
  unfolding insert_row
  Unique-insert_row a [] h fresh = (tt, tt)
  Unique-insert_row a (x ∷ xs) h fresh = (
    All-insert_row (λ y. key y ≢ key x) a xs h.0 (λ e. fresh.0 (sym e)),
    Unique-insert_row a xs h.1 fresh.1,
  )

abbrev pub keep_if {ℓ} : {A : Type ℓ} → (A → Bool) → Option A → Option A
keep_if q none = none
keep_if q (some x) = if q x then some x else none

-- A search by the key and a test is a search by the key.
module _ {ℓ} {A : Type ℓ} (key : A → ℕ) where
  find-absent :
      (k : ℕ) (q : A → Bool) (xs : List A)
      → All (λ y. key y ≢ k) xs
      → find (λ x. key x == k && q x) xs ≡ none
  unfolding find
  find-absent k q [] h = refl
  find-absent k q (x ∷ xs) h = ground (arith, h.0, find-absent k q xs h.1)

  pub find-key :
      (k : ℕ) (q : A → Bool) (xs : List A)
      → Unique key xs
      → find (λ x. key x == k && q x) xs ≡ keep_if q (find (λ x. key x == k) xs)
  unfolding find
  find-key k q [] h = refl
  find-key k q (x ∷ xs) h = elim (Bool-cases (key x == k)) [
    | inr other ↦ ground (arith, find-key k q xs h.1)
    | inl hit ↦
        let same : key x ≡ k = ground arith in
        ground (arith, find-absent k q xs (subst (λ j. All (λ y. key y ≢ j) xs) same h.0))
  ]
