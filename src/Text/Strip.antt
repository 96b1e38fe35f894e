-- ===== src/Text/Strip.antt =====
-- What `strip` does to a text: it is no longer, its ends are no whitespace, and once is enough.
use lsstack.Prelude.{
  Bool, [], ap, arith, false, is_empty, length, refl, sym, ℕ, ◌++◌, ◌∙◌, ◌∷◌, ◌≡◌, ◌≤◌,
}
use lsstack.Text.{Text, is_space, lstrip, rstrip, strip}

length-lstrip-le : (s : Text) → length (lstrip s) ≤ length s
unfolding lstrip
length-lstrip-le [] = omega arith
length-lstrip-le (c ∷ s) = ground (arith, length-lstrip-le s)

length-rstrip-le : (s : Text) → length (rstrip s) ≤ length s
unfolding rstrip
length-rstrip-le [] = omega arith
length-rstrip-le (c ∷ s) = ground (arith, length-rstrip-le s)

pub length-strip-le : (s : Text) → length (strip s) ≤ length s
unfolding strip
length-strip-le s = omega (arith, length-rstrip-le (lstrip s), length-lstrip-le s)

-- A text whose first character is no whitespace, or that has none.
abbrev head_space : Text → Bool
head_space [] = false
head_space (c ∷ s) = is_space c

head_space-lstrip : (s : Text) → head_space (lstrip s) ≡ false
unfolding lstrip
head_space-lstrip [] = refl
head_space-lstrip (c ∷ s) = ground (arith, head_space-lstrip s)

head_space-rstrip : (s : Text) → head_space s ≡ false → head_space (rstrip s) ≡ false
unfolding rstrip
head_space-rstrip [] h = refl
head_space-rstrip (c ∷ s) h = ground arith

lstrip_of_head : (s : Text) → head_space s ≡ false → lstrip s ≡ s
unfolding lstrip
lstrip_of_head [] h = refl
lstrip_of_head (c ∷ s) h = ground arith

rstrip_idem : (s : Text) → rstrip (rstrip s) ≡ rstrip s
unfolding rstrip
rstrip_idem [] = refl
rstrip_idem (c ∷ s) = ground (arith, rstrip_idem s)

pub strip_idem : (s : Text) → strip (strip s) ≡ strip s
unfolding strip
strip_idem s =
    rw (lstrip_of_head (rstrip (lstrip s)) (head_space-rstrip (lstrip s) (head_space-lstrip s)))
      (rstrip_idem (lstrip s))

-- A text that `strip` keeps begins with no whitespace and ends with none.
pub head_space-stripped : (s : Text) → strip s ≡ s → head_space s ≡ false
unfolding strip
head_space-stripped s h = ap head_space (sym h) ∙ head_space-rstrip (lstrip s) (head_space-lstrip s)

rstrip-stripped : (s : Text) → strip s ≡ s → rstrip s ≡ s
unfolding strip
rstrip-stripped s h = ap rstrip (sym h) ∙ rstrip_idem (lstrip s) ∙ h

is_empty-append : (s : Text) (c : ℕ) (t : Text) → is_empty (s ++ c ∷ t) ≡ false
is_empty-append [] c t = refl
is_empty-append (d ∷ s) c t = refl

rstrip-append :
    (s : Text) (c : ℕ) (t : Text)
    → is_space c ≡ false
    → rstrip t ≡ t
    → rstrip (s ++ c ∷ t) ≡ s ++ c ∷ t
unfolding rstrip
rstrip-append [] c t h k = rw (h, k) refl
rstrip-append (d ∷ s) c t h k = rw (rstrip-append s c t h k, is_empty-append s c t) (ground arith)

-- Two stripped texts with a character between them that is no whitespace.
pub strip-between :
    (s : Text) (c : ℕ) (t : Text)
    → strip s ≡ s
    → is_space c ≡ false
    → strip t ≡ t
    → strip (s ++ c ∷ t) ≡ s ++ c ∷ t
unfolding strip
strip-between s c t hs h ht =
    rw (lstrip_of_head (s ++ c ∷ t) (head_space-append s (head_space-stripped s hs)))
      (rstrip-append s c t h (rstrip-stripped t ht))
  where
    head_space-append : (s : Text) → head_space s ≡ false → head_space (s ++ c ∷ t) ≡ false
    head_space-append [] k = h
    head_space-append (d ∷ s) k = k
