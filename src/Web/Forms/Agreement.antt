-- ===== src/Web/Forms/Agreement.antt =====
-- What the task form accepts, the domain accepts.
use lsstack.Domain.Tasks.{normalize_description, normalize_title}
use lsstack.Exec.{ok}
use lsstack.Prelude.{List, String, [], arith, is_empty, refl, true, ◌++◌, ◌∷◌, ◌≡◌}
use lsstack.Text.{Text, or_none, strip}
use lsstack.Text.Strip.{strip_idem}
use lsstack.Values.{Fields}
use lsstack.Web.Forms.{description_errors, task_form, text, title_errors, value_at}

title-accepted :
    (s : Text) → is_empty (title_errors (strip s)) ≡ true → normalize_title (strip s) ≡ ok (strip s)
unfolding title_errors normalize_title
title-accepted s h = rw (strip_idem s) (ground (arith, h))

description-accepted :
    (t : Text)
    → strip t ≡ t
    → is_empty (description_errors t) ≡ true
    → normalize_description (or_none t) ≡ ok (or_none t)
unfolding description_errors normalize_description
description-accepted [] stripped h = refl
description-accepted (c ∷ t) stripped h = rw stripped (ground (arith, h))

is_empty-append :
    (xs ys : List String) → is_empty (xs ++ ys) ≡ true → (is_empty xs ≡ true) × (is_empty ys ≡ true)
is_empty-append [] ys h = (refl, h)
is_empty-append (x ∷ xs) ys h = cc

-- A form without errors carries a title and a description that the domain stores as they are.
pub task_form-accepted :
    (form : Fields)
    → is_empty (task_form form).errors ≡ true
    → (normalize_title (value_at (task_form form).values "title") ≡ ok (strip (text form "title")))
      × (normalize_description (or_none (value_at (task_form form).values "description"))
          ≡ ok (or_none (strip (text form "description"))))
unfolding task_form
task_form-accepted form h =
    let (t, d) =
      is_empty-append (title_errors (strip (text form "title")))
        (description_errors (strip (text form "description"))) h in
    (
      title-accepted (text form "title") t,
      description-accepted (strip (text form "description")) (strip_idem (text form "description"))
          d,
    )
