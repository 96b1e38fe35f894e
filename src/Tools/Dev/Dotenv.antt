-- ===== src/Tools/Dev/Dotenv.antt =====
-- read_dotenv and write_dotenv of tools/dev.py. A file is its text, as read_text gives it.
pub mod RoundTrip
use lsstack.Prelude.{
  Bool, List, Option, [], any, false, if◌then◌else◌, is_empty, leb, none, not, some, ℕ, ◌&&◌, ◌++◌,
  ◌==◌, ◌||◌, ◌∷◌,
}
use lsstack.Text.{Text, before, behind, codes, prepend, starts_with, strip, text_eq}
use lsstack.Tools.HookPolicy.{behind_first}

-- The characters at which str.splitlines() ends a line; read_text leaves no carriage return.
abbrev pub ends_line : ℕ → Bool
ends_line c = leb 10 c && leb c 13 || leb 28 c && leb c 30 || c == 133 || c == 8232 || c == 8233

unfoldable pub split_lines : Text → List Text
split_lines [] = []
split_lines (c ∷ s) = let rest = split_lines s in if ends_line c then [] ∷ rest else prepend c rest

abbrev without_last : Text → Text
without_last [] = []
without_last (c ∷ []) = []
without_last (c ∷ d ∷ s) = c ∷ without_last (d ∷ s)

abbrev last_is : ℕ → Text → Bool
last_is q [] = false
last_is q (c ∷ []) = c == q
last_is q (c ∷ d ∷ s) = last_is q (d ∷ s)

-- value[0] == value[-1] and value.startswith(("'", '"')), of a value of two characters or more
abbrev pub is_quoted : Text → Bool
is_quoted [] = false
is_quoted (c ∷ s) = last_is c s && (c == 39 || c == 34)

-- value[1:-1] of a quoted value
abbrev pub unquote : Text → Text
unquote value = if is_quoted value then without_last (behind_first value) else value

-- not line or line.startswith("#") or "=" not in line
abbrev pub is_skipped : Text → Bool
is_skipped line = is_empty line || starts_with (codes "#") line || not (any (λ d. b'=' == d) line)

abbrev pub entry_of_stripped : Text → Option (Text × Text)
entry_of_stripped line =
    if is_skipped line
    then none
    else some (strip (before b'=' line), unquote (strip (behind b'=' line)))

-- The key and the value of a line, `none` for a line that is skipped.
unfoldable pub entry_of_line : Text → Option (Text × Text)
entry_of_line raw = entry_of_stripped (strip raw)

-- values[key] = value
unfoldable pub set_value : Text × Text → List (Text × Text) → List (Text × Text)
set_value entry [] = entry ∷ []
set_value entry (other ∷ values) =
    let rest = set_value entry values in
    if text_eq other.0 entry.0 then entry ∷ values else other ∷ rest

abbrev pub set_entry : Option (Text × Text) → List (Text × Text) → List (Text × Text)
set_entry none values = values
set_entry (some entry) values = set_value entry values

unfoldable pub read_lines : List (Text × Text) → List Text → List (Text × Text)
unfolding entry_of_line set_value
read_lines values [] = values
read_lines values (raw ∷ lines) = read_lines (set_entry (entry_of_line raw) values) lines

-- `none` for a file that does not exist
unfoldable pub read_dotenv : Option Text → List (Text × Text)
unfolding split_lines read_lines
read_dotenv none = []
read_dotenv (some content) = read_lines [] (split_lines content)

abbrev pub line_of_entry : Text × Text → Text
line_of_entry (key, value) = key ++ b'=' ∷ value

unfoldable pub write_dotenv : List (Text × Text) → Text
write_dotenv [] = []
write_dotenv (entry ∷ values) = line_of_entry entry ++ 10 ∷ write_dotenv values
