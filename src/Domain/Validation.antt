-- ===== src/Domain/Validation.antt =====
-- What the validators of src/app/domain accept.
use lsstack.Domain.Tasks.{normalize_description, normalize_title}
use lsstack.Exec.{ok}
use lsstack.Prelude.{
  Option, [], arith, false, is_empty, length, none, refl, some, sym, ◌↔◌, ◌∷◌, ◌≡◌, ◌≤◌,
}
use lsstack.Text.{Text, or_none, strip}
use lsstack.Text.Strip.{strip_idem}
use mathlib.Core.Path.{subst}

-- A title that may be stored: not blank, at most 200 characters, and no whitespace at its ends.
pub record IsTitle (t : Text) : Type 0 where
  pub present : is_empty t ≡ false
  pub short : length t ≤ 200
  pub stripped : strip t ≡ t

-- A description that may be stored: none, or a non-blank stripped text of at most 5000 characters.
pub record IsDescription (t : Text) : Type 0 where
  pub present : is_empty t ≡ false
  pub short : length t ≤ 5000
  pub stripped : strip t ≡ t

abbrev pub IsOptionalDescription : Option Text → Type 0
IsOptionalDescription none = Unit
IsOptionalDescription (some t) = IsDescription t

-- A title is accepted exactly when its stripped form may be stored, and is then that form.
pub normalize_title_iff :
    (value t : Text) → (normalize_title value ≡ ok t) ↔ ((t ≡ strip value) × IsTitle t)
unfolding normalize_title
normalize_title_iff value t = (
  λ h.
      let same : t ≡ strip value = ground arith in
      (
        same,
        record {
          present = ground arith;
          short = ground arith;
          stripped = rw same (strip_idem value);
        },
      ),
  λ h. ground (arith, h.1.present, h.1.short),
)

or_none-IsDescription :
    (t : Text) → length t ≤ 5000 → strip t ≡ t → IsOptionalDescription (or_none t)
or_none-IsDescription [] short stripped = tt
or_none-IsDescription (c ∷ t) short stripped = record {
  present = refl;
  short = short;
  stripped = stripped;
}

or_none-short : (t : Text) → IsOptionalDescription (or_none t) → length t ≤ 5000
or_none-short [] h = omega arith
or_none-short (c ∷ t) h = h.short

-- The form in which a description is stored, if it is: stripped, and none in place of a blank one.
abbrev pub stored_form : Option Text → Option Text
stored_form none = none
stored_form (some value) = or_none (strip value)

-- A description is accepted exactly when its stored form may be stored, and is then that form.
pub normalize_description_iff :
    (value d : Option Text)
    → (normalize_description value ≡ ok d) ↔ ((d ≡ stored_form value) × IsOptionalDescription d)
unfolding normalize_description
normalize_description_iff none d = (
  λ h. let same : d ≡ none = ground (arith, h) in (same, subst IsOptionalDescription (sym same) tt),
  λ h. rw (h.0) refl,
)
normalize_description_iff (some value) d = (
  λ h.
      let same : d ≡ or_none (strip value) = ground arith in
      (
        same,
        subst IsOptionalDescription (sym same)
            (or_none-IsDescription (strip value) (ground arith) (strip_idem value)),
      ),
  λ h.
      let short = or_none-short (strip value) (subst IsOptionalDescription h.0 h.1) in
      ground (arith, h.0, short),
)

pub normalize_description-IsOptionalDescription :
    (value d : Option Text) → normalize_description value ≡ ok d → IsOptionalDescription d
normalize_description-IsOptionalDescription value d h = ((normalize_description_iff value d).0 h).1

-- A stored title is its own normal form.
pub normalize_title-IsTitle : (t : Text) → IsTitle t → normalize_title t ≡ ok t
normalize_title-IsTitle t h = (normalize_title_iff t t).1 (sym h.stripped, h)
