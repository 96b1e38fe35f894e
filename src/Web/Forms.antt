-- ===== src/Web/Forms.antt =====
-- src/app/adapters/web/forms.py. A form maps names to texts and uploads.
pub mod Agreement
use lsstack.Prelude.{
  List, Option, String, [], if◌then◌else◌, is_empty, length, ltb, some, str_eq, ◌++◌, ◌∷◌,
}
use lsstack.Text.{Text, strip, text_eq}
use lsstack.Values.{Fields, Value, get, str}

pub record FormValues : Type 0 where
  pub values : List (String × Text)
  pub errors : List String

-- form.get(key, "") where it is a str
text_of : Option Value → Text
text_of (some (str s)) = s
text_of _ = []

unfoldable pub text : Fields → String → Text
unfolding text_of
text form key = text_of (get form key)

-- submitted.values[key], for a key that the form function wrote
abbrev pub value_at : List (String × Text) → String → Text
value_at [] key = []
value_at ((k, v) ∷ rest) key = if str_eq k key then v else value_at rest key

unfoldable pub title_errors : Text → List String
title_errors title =
    if is_empty title
    then "Title is required." ∷ []
    else if ltb 200 (length title)
    then "Title must be 200 characters or fewer." ∷ []
    else []

unfoldable pub description_errors : Text → List String
description_errors description =
    if ltb 5000 (length description)
    then "Description must be 5,000 characters or fewer." ∷ []
    else []

unfoldable pub task_form : Fields → FormValues
unfolding title_errors description_errors
task_form form =
    let title = strip (text form "title") in
    let description = strip (text form "description") in
    record {
      values = ("title", title) ∷ ("description", description) ∷ [];
      errors = title_errors title ++ description_errors description;
    }

unfoldable pub registration_form : Fields → FormValues
registration_form form =
    let email = strip (text form "email") in
    let password = text form "password" in
    let confirmation = text form "password_confirmation" in
    record {
      values =
          ("email", email) ∷ ("password", password) ∷ ("password_confirmation", confirmation) ∷ [];
      errors = if text_eq password confirmation then [] else "The passwords do not match." ∷ [];
    }

unfoldable pub password_change_form : Fields → FormValues
password_change_form form =
    let current = text form "current_password" in
    let new = text form "new_password" in
    let confirmation = text form "new_password_confirmation" in
    record {
      values =
          ("current_password", current)
          ∷ ("new_password", new)
          ∷ ("new_password_confirmation", confirmation)
          ∷ [];
      errors = if text_eq new confirmation then [] else "The new passwords do not match." ∷ [];
    }
