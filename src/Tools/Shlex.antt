-- ===== src/Tools/Shlex.antt =====
-- The words of a shell command, as tools/hook_policy.py reads them: Python's
-- shlex.shlex(command, posix=True, punctuation_chars=";&|") with whitespace_split set and no
-- commenters. One character at a time; a character that ends a word and belongs to the next is
-- read in the same step.
use lsstack.Prelude.{
  Bool, List, Option, [], if◌then◌else◌, none, some, ℕ, ◌&&◌, ◌++◌, ◌==◌, ◌||◌, ◌∷◌,
}
use lsstack.Text.{Text}

-- What the lexer is in: between words, in a word, in a run of punctuation, in quotes, or behind a
-- backslash, in quotes or not.
pub data Lexing : Type 0 where
  between_words : Lexing
  in_word in_operator : Text → Lexing
  in_quotes : ℕ → Text → Lexing
  in_escape : Option ℕ → Text → Lexing

abbrev pub is_blank : ℕ → Bool
is_blank c = c == b' ' || c == 9 || c == 10 || c == 13

abbrev pub is_quote : ℕ → Bool
is_quote c = c == 34 || c == 39

-- c in ";&|"
abbrev pub is_punctuation : ℕ → Bool
is_punctuation c = c == b';' || c == b'&' || c == b'|'

unfoldable pub start : ℕ → Lexing
start c =
    if is_blank c
    then between_words
    else if c == 92
    then in_escape none []
    else if is_punctuation c
    then in_operator (c ∷ [])
    else if is_quote c
    then in_quotes c []
    else in_word (c ∷ [])

-- The words that end before a character, and where the lexer is behind it.
unfoldable pub step : Lexing → ℕ → List Text × Lexing
unfolding start
step between_words c = ([], start c)
step (in_word token) c =
    if is_blank c
    then (token ∷ [], between_words)
    else if is_quote c
    then ([], in_quotes c token)
    else if c == 92
    then ([], in_escape none token)
    else if is_punctuation c
    then (token ∷ [], start c)
    else ([], in_word (token ++ c ∷ []))
step (in_operator token) c =
    if is_punctuation c then ([], in_operator (token ++ c ∷ [])) else (token ∷ [], start c)
step (in_quotes q token) c =
    if c == q
    then ([], in_word token)
    else if c == 92 && q == 34
    then ([], in_escape (some q) token)
    else ([], in_quotes q (token ++ c ∷ []))
step (in_escape none token) c = ([], in_word (token ++ c ∷ []))
step (in_escape (some q) token) c =
    if c == 92 || c == q
    then ([], in_quotes q (token ++ c ∷ []))
    else ([], in_quotes q (token ++ 92 ∷ c ∷ []))

abbrev prefixed : List Text → Option (List Text) → Option (List Text)
prefixed out none = none
prefixed out (some rest) = some (out ++ rest)

-- `none` for a ValueError: a quotation or an escape that does not end.
unfoldable pub lex : Lexing → Text → Option (List Text)
unfolding step
lex between_words [] = some []
lex (in_word token) [] = some (token ∷ [])
lex (in_operator token) [] = some (token ∷ [])
lex (in_quotes q token) [] = none
lex (in_escape q token) [] = none
lex state (c ∷ s) = let (out, next) = step state c in prefixed out (lex next s)
