-- ===== src/Tools/Dev/Dotenv/RoundTrip.antt =====
-- What is written is read back.
use lsstack.Prelude.{
  ==_refl, All, List, [], any, any-append, ap, arith, false, refl, some, sym, true, ℕ, ◌++◌, ◌==◌,
  ◌∙◌, ◌∷◌, ◌≡◌,
}
use lsstack.Text.{Text, before, behind, codes, is_space, starts_with, strip, text_eq}
use lsstack.Text.Strip.{strip-between}
use lsstack.Tools.Dev.Dotenv.{
  ends_line, entry_of_line, entry_of_stripped, is_quoted, is_skipped, line_of_entry, read_dotenv,
  read_lines, set_entry, set_value, split_lines, write_dotenv,
}
use lsstack.Tools.Dev.Worktrees.{entry}
use mathlib.Core.List.{append-nil, append_assoc}

-- An entry that a line can hold: no line break, no whitespace at the ends, a key that is not read
-- as a comment and holds no `=`, and a value that is not in quotes.
pub record IsEntry (entry : Text × Text) : Type 0 where
  pub key_line : any ends_line entry.0 ≡ false
  pub value_line : any ends_line entry.1 ≡ false
  pub key_stripped : strip entry.0 ≡ entry.0
  pub value_stripped : strip entry.1 ≡ entry.1
  pub no_comment : starts_with (codes "#") entry.0 ≡ false
  pub no_equals : any (λ d. 61 == d) entry.0 ≡ false
  pub unquoted : is_quoted entry.1 ≡ false

-- The keys of later entries differ from this one's.
abbrev pub IsNew : Text × Text → List (Text × Text) → Type 0
IsNew entry values = All (λ other. text_eq entry.0 other.0 ≡ false) values

abbrev pub IsDistinct : List (Text × Text) → Type 0
IsDistinct [] = Unit
IsDistinct (entry ∷ values) = IsNew entry values × IsDistinct values

split_lines-line :
    (line rest : Text)
    → any ends_line line ≡ false
    → split_lines (line ++ 10 ∷ rest) ≡ line ∷ split_lines rest
unfolding split_lines any
split_lines-line [] rest h = refl
split_lines-line (c ∷ line) rest h =
    rw (split_lines-line line rest (ground (arith, h))) (ground (arith, h))

before-between : (c : ℕ) (s t : Text) → any (λ d. c == d) s ≡ false → before c (s ++ c ∷ t) ≡ s
unfolding before any
before-between c [] t h = ground (arith, ==_refl c)
before-between c (d ∷ s) t h = ground (arith, before-between c s t, h)

behind-between : (c : ℕ) (s t : Text) → any (λ d. c == d) s ≡ false → behind c (s ++ c ∷ t) ≡ t
unfolding behind any
behind-between c [] t h = ground (arith, ==_refl c)
behind-between c (d ∷ s) t h = ground (arith, behind-between c s t, h)

any-between : (s t : Text) → any (λ d. 61 == d) (s ++ 61 ∷ t) ≡ true
unfolding any
any-between [] t = refl
any-between (d ∷ s) t = ground (arith, any-between s t)

not_skipped :
    (key value : Text)
    → starts_with (codes "#") key ≡ false
    → is_skipped (key ++ b'=' ∷ value) ≡ false
unfolding starts_with any
not_skipped [] value h = refl
not_skipped (c ∷ key) value h = ground (arith, h, any-between key value)

entry_of_line-of_entry :
    (entry : Text × Text) → IsEntry entry → entry_of_line (line_of_entry entry) ≡ some entry
unfolding entry_of_line is_space
entry_of_line-of_entry (key, value) v =
    ap entry_of_stripped (strip-between key b'=' value v.key_stripped refl v.value_stripped)
    ∙ (rw
        (
          not_skipped key value v.no_comment,
          before-between b'=' key value v.no_equals,
          behind-between b'=' key value v.no_equals,
          v.key_stripped,
          v.value_stripped,
          v.unquoted,
        )
        refl)

set_value-new :
    (entry : Text × Text) (values : List (Text × Text))
    → All (λ other. text_eq other.0 entry.0 ≡ false) values
    → set_value entry values ≡ values ++ entry ∷ []
unfolding set_value
set_value-new entry [] h = refl
set_value-new entry (other ∷ values) (h, hs) =
    rw h (ap (λ vs. other ∷ vs) (set_value-new entry values hs))

-- No entry of one list has the key of an entry of the other.
abbrev IsApart : List (Text × Text) → List (Text × Text) → Type 0
IsApart values [] = Unit
IsApart values (entry ∷ rest) =
    All (λ other. text_eq other.0 entry.0 ≡ false) values × IsApart values rest

All-snoc :
    (P : Text × Text → Type 0) (values : List (Text × Text)) (entry : Text × Text)
    → All P values
    → P entry
    → All P (values ++ entry ∷ [])
All-snoc P [] entry h k = (k, tt)
All-snoc P (other ∷ values) entry (h, hs) k = (h, All-snoc P values entry hs k)

IsApart-snoc :
    (values : List (Text × Text)) (entry : Text × Text) (rest : List (Text × Text))
    → IsApart values rest
    → IsNew entry rest
    → IsApart (values ++ entry ∷ []) rest
IsApart-snoc values entry [] h k = tt
IsApart-snoc values entry (other ∷ rest) (h, hs) (k, ks) = (
  All-snoc (λ e. text_eq e.0 other.0 ≡ false) values entry h k,
  IsApart-snoc values entry rest hs ks,
)

line_of-any : (entry : Text × Text) → IsEntry entry → any ends_line (line_of_entry entry) ≡ false
unfolding any
line_of-any entry v =
    ground (arith, any-append ends_line entry.0 (b'=' ∷ entry.1), v.key_line, v.value_line)

read_lines-write_dotenv :
    (earlier values : List (Text × Text))
    → All IsEntry values
    → IsDistinct values
    → IsApart earlier values
    → read_lines earlier (split_lines (write_dotenv values)) ≡ earlier ++ values
unfolding read_lines write_dotenv split_lines
read_lines-write_dotenv earlier [] v d a = sym (append-nil earlier)
read_lines-write_dotenv earlier (entry ∷ values) (v, vs) (d, ds) (a, rest_apart) =
    let lines = split_lines (write_dotenv values) in
    ap (read_lines earlier)
      (split_lines-line (line_of_entry entry) (write_dotenv values) (line_of-any entry v))
    ∙ ap (λ e. read_lines (set_entry e earlier) lines) (entry_of_line-of_entry entry v)
    ∙ ap (λ vs. read_lines vs lines) (set_value-new entry earlier a)
    ∙ read_lines-write_dotenv (earlier ++ entry ∷ []) values vs ds
        (IsApart-snoc earlier entry values rest_apart d)
    ∙ append_assoc earlier (entry ∷ []) values

IsApart-empty : (values : List (Text × Text)) → IsApart [] values
IsApart-empty [] = tt
IsApart-empty (entry ∷ values) = (tt, IsApart-empty values)

-- Entries that lines can hold, with different keys, are read back from the file that is written of
-- them.
pub read_dotenv-write_dotenv :
    (values : List (Text × Text))
    → All IsEntry values
    → IsDistinct values
    → read_dotenv (some (write_dotenv values)) ≡ values
unfolding read_dotenv
read_dotenv-write_dotenv values v d = read_lines-write_dotenv [] values v d (IsApart-empty values)
