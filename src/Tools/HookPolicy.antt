-- ===== src/Tools/HookPolicy.antt =====
-- tools/hook_policy.py: which shell commands an agent may run.
pub mod Chunks
pub mod Blocked
use lsstack.Prelude.{
  Bool, List, Option, String, [], all, any, false, if◌then◌else◌, is_empty, none, not, select, some,
  ℕ, ◌&&◌, ◌++◌, ◌==◌, ◌||◌, ◌∷◌,
}
use lsstack.Text.{Text, codes, split_on, starts_with, text_eq}
use lsstack.Tools.Shlex.{between_words, is_punctuation, lex}

-- token in SHELL_SEPARATORS or set(token) <= set(";&|"); the first is a case of the second, and
-- so is an empty token
abbrev pub is_separator : Text → Bool
is_separator token = all is_punctuation token

-- A chunk that ends, before the others; an empty one is dropped.
abbrev pub ended : List Text → List (List Text) → List (List Text)
ended [] chunks = chunks
ended (t ∷ ts) chunks = (t ∷ ts) ∷ chunks

-- The loop over the tokens, with the chunk that is being read.
unfoldable pub chunks_of : List Text → List Text → List (List Text)
chunks_of chunk [] = ended chunk []
chunks_of chunk (token ∷ tokens) =
    let rest = chunks_of (if is_separator token then [] else chunk ++ token ∷ []) tokens in
    if is_separator token then ended chunk rest else rest

-- `none` for a ValueError of the lexer
abbrev pub chunks_of_tokens : Option (List Text) → Option (List (List Text))
chunks_of_tokens none = none
chunks_of_tokens (some tokens) = some (chunks_of [] tokens)

unfoldable pub chunks : Text → Option (List (List Text))
unfolding chunks_of
chunks command = chunks_of_tokens (lex between_words command)

abbrev pub final : List Text → Text
final [] = []
final (part ∷ []) = part
final (part ∷ next ∷ rest) = final (next ∷ rest)

-- Path(token).name: the last part of a path, where empty parts and `.` do not count
unfoldable pub path_name : Text → Text
path_name token =
    final
      (select (λ part. not (is_empty part) && not (text_eq part (codes "."))) (split_on b'/' token))

-- The tokens behind the first that passes a test, `none` when none does.
unfoldable pub behind_match : (Text → Bool) → List Text → Option (List Text)
behind_match test [] = none
behind_match test (token ∷ tokens) =
    let found = behind_match test tokens in if test token then some tokens else found

abbrev pub is_tool : Text → Text → Bool
is_tool name token = text_eq (path_name token) name

-- tokens[_find_tool(tokens, name) + 1 :]
abbrev pub arguments_of : Text → List Text → Option (List Text)
arguments_of name tokens = behind_match (is_tool name) tokens

-- value in arguments
abbrev pub has_argument : String → List Text → Bool
has_argument value arguments = any (λ argument. text_eq argument (codes value)) arguments

-- arguments[arguments.index(value) + 1 :]
abbrev pub behind_argument : String → List Text → Option (List Text)
behind_argument value arguments =
    behind_match (λ argument. text_eq argument (codes value)) arguments

abbrev pub behind_first : Text → Text
behind_first [] = []
behind_first (c ∷ s) = s

abbrev pub is_short_flag : ℕ → Text → Bool
is_short_flag flag token =
    starts_with (codes "-") token
    && not (starts_with (codes "--") token)
    && any (λ c. c == flag) (behind_first token)

abbrev pub has_short_flag : List Text → ℕ → Bool
has_short_flag tokens flag = any (is_short_flag flag) tokens

-- The loop over the positions of the arguments.
unfoldable pub merges : List Text → Bool
merges [] = false
merges (argument ∷ arguments) =
    text_eq argument (codes "pr") && has_argument "merge" arguments || merges arguments

abbrev pub github_arguments_reason : Option (List Text) → Option String
github_arguments_reason none = none
github_arguments_reason (some arguments) =
    if merges arguments
    then some "`gh pr merge` is a human-only action in this repository."
    else none

unfoldable pub github_reason : List Text → Option String
unfolding behind_match path_name merges
github_reason tokens = github_arguments_reason (arguments_of (codes "gh") tokens)

-- argument in {"--force", "--force-with-lease", "--force-if-includes"}
abbrev pub is_long_force : Text → Bool
is_long_force argument =
    text_eq argument (codes "--force")
    || text_eq argument (codes "--force-with-lease")
    || text_eq argument (codes "--force-if-includes")

abbrev pub forces_push : List Text → Bool
forces_push arguments =
    any is_long_force arguments
    || has_short_flag arguments b'f'
    || any (starts_with (codes "+")) arguments

abbrev pub deletes_remote : List Text → Bool
deletes_remote arguments =
    has_argument "--delete" arguments
    || has_short_flag arguments b'd'
    || any (starts_with (codes ":")) arguments

abbrev pub pushed_reason : Option (List Text) → Option String
pushed_reason none = none
pushed_reason (some push_arguments) =
    if forces_push push_arguments
    then some "Force-pushing is blocked by repository policy."
    else if deletes_remote push_arguments
    then some "Deleting remote branches is blocked by repository policy."
    else none

-- The five checks of the arguments of git, each with what it answers.
unfoldable pub push_reason : List Text → Option String
unfolding behind_match
push_reason arguments = pushed_reason (behind_argument "push" arguments)

unfoldable pub reset_reason : List Text → Option String
reset_reason arguments =
    if has_argument "reset" arguments && has_argument "--hard" arguments
    then some "`git reset --hard` is blocked because it discards local work."
    else none

unfoldable pub clean_reason : List Text → Option String
unfolding behind_match
clean_reason arguments = elim (behind_argument "clean" arguments) [
  | none ↦ none
  | some clean_arguments ↦
      if has_argument "--force" clean_arguments || has_short_flag clean_arguments b'f'
      then some "Forced `git clean` is blocked because it deletes untracked files."
      else none
]

unfoldable pub branch_reason : List Text → Option String
unfolding behind_match
branch_reason arguments = elim (behind_argument "branch" arguments) [
  | none ↦ none
  | some branch_arguments ↦
      if has_argument "-D" branch_arguments
        || has_argument "--delete" branch_arguments && has_argument "--force" branch_arguments
      then some "Forced local branch deletion is blocked by repository policy."
      else none
]

unfoldable pub worktree_reason : List Text → Option String
unfolding behind_match
worktree_reason arguments =
    if has_argument "worktree" arguments
    then elim (behind_argument "remove" arguments) [
      | none ↦ none
      | some remove_arguments ↦
          if has_argument "--force" remove_arguments
          then some "Forced worktree removal is blocked by repository policy."
          else none
    ]
    else none

-- The first of the checks that answers.
abbrev pub or_else : Option String → Option String → Option String
or_else none b = b
or_else (some a) b = some a

abbrev pub argument_reason : List Text → Option String
argument_reason arguments = or_else (push_reason arguments) (
    or_else (reset_reason arguments) (
      or_else (clean_reason arguments)
        (or_else (branch_reason arguments) (worktree_reason arguments))))

abbrev pub git_arguments_reason : Option (List Text) → Option String
git_arguments_reason none = none
git_arguments_reason (some arguments) = argument_reason arguments

unfoldable pub git_reason : List Text → Option String
unfolding behind_match path_name push_reason reset_reason clean_reason branch_reason worktree_reason
git_reason tokens = git_arguments_reason (arguments_of (codes "git") tokens)

unfoldable pub chunks_reason : List (List Text) → Option String
unfolding github_reason git_reason
chunks_reason [] = none
chunks_reason (tokens ∷ rest) =
    or_else (or_else (github_reason tokens) (git_reason tokens)) (chunks_reason rest)

-- `none` allows the command.
abbrev pub reason_of_chunks : Option (List (List Text)) → Option String
reason_of_chunks none = some "Refusing a malformed shell command that could not be inspected."
reason_of_chunks (some found) = chunks_reason found

unfoldable pub blocked_reason : Text → Option String
unfolding chunks chunks_reason
blocked_reason command = reason_of_chunks (chunks command)
