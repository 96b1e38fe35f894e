-- ===== src/Tools/HookPolicy/Chunks.antt =====
-- The chunks of a command hold its words, and nothing is left out of the inspection.
use lsstack.Prelude.{
  All, Bool-cases, List, [], ap, false, inl, inr, is_empty, not, refl, select, some, ◌++◌, ◌∙◌, ◌∷◌,
  ◌≡◌,
}
use lsstack.Text.{Text}
use lsstack.Tools.HookPolicy.{chunks, chunks_of, ended, is_separator}
use lsstack.Tools.Shlex.{between_words, lex}
use mathlib.Core.List.{append_assoc}

abbrev pub joined : List (List Text) → List Text
joined [] = []
joined (chunk ∷ rest) = chunk ++ joined rest

abbrev pub words_of : List Text → List Text
words_of tokens = select (λ token. not (is_separator token)) tokens

joined-ended :
    (chunk : List Text) (rest : List (List Text)) → joined (ended chunk rest) ≡ chunk ++ joined rest
joined-ended [] rest = refl
joined-ended (t ∷ ts) rest = refl

joined-chunks_of :
    (chunk tokens : List Text) → joined (chunks_of chunk tokens) ≡ chunk ++ words_of tokens
unfolding chunks_of select
joined-chunks_of chunk [] = joined-ended chunk []
joined-chunks_of chunk (token ∷ tokens) = elim (Bool-cases (is_separator token)) [
  | inl h ↦ rw h (
      joined-ended chunk (chunks_of [] tokens)
      ∙ ap (λ ws. chunk ++ ws) (joined-chunks_of [] tokens))
  | inr h ↦ rw h (
      joined-chunks_of (chunk ++ token ∷ []) tokens
      ∙ append_assoc chunk (token ∷ []) (words_of tokens))
]

filled :
    (chunk : List Text) (rest : List (List Text))
    → All (λ c. is_empty c ≡ false) rest
    → All (λ c. is_empty c ≡ false) (ended chunk rest)
filled [] rest h = h
filled (t ∷ ts) rest h = (refl, h)

chunks_filled : (chunk tokens : List Text) → All (λ c. is_empty c ≡ false) (chunks_of chunk tokens)
unfolding chunks_of
chunks_filled chunk [] = filled chunk [] tt
chunks_filled chunk (token ∷ tokens) = elim (Bool-cases (is_separator token)) [
  | inl h ↦ rw h (filled chunk (chunks_of [] tokens) (chunks_filled [] tokens))
  | inr h ↦ rw h (chunks_filled (chunk ++ token ∷ []) tokens)
]

-- The chunks of a command that the lexer reads hold, in their order, each of its words that is no
-- separator and no others, and none of them is empty.
pub chunks_complete :
    (command : Text) (tokens : List Text)
    → lex between_words command ≡ some tokens
    → (found : List (List Text)) × (chunks command ≡ some found)
      × (joined found ≡ words_of tokens)
      × All (λ chunk. is_empty chunk ≡ false) found
unfolding chunks
chunks_complete command tokens h =
    (chunks_of [] tokens, rw h refl, joined-chunks_of [] tokens, chunks_filled [] tokens)
