-- ===== src/Tools/HookPolicy/Blocked.antt =====
-- Which forced pushes are blocked, whatever other words stand around them.
use lsstack.Prelude.{
  ==_refl, All, Bool, Bool-cases, List, Option, String, [], all, any, any-append, ap, arith, false,
  inl, inr, is_empty, is_none, none, refl, some, sym, true, ℕ, ◌++◌, ◌==◌, ◌∙◌, ◌∷◌, ◌≡◌, ◌≢◌, ◌⊎◌,
}
use lsstack.Prelude.Table.Laws.{All-map}
use lsstack.Text.{Text, before, codes, starts_with, text_eq}
use lsstack.Tools.HookPolicy.{
  argument_reason, behind_match, blocked_reason, chunks, chunks_of, chunks_reason, ended,
  forces_push, git_reason, github_reason, is_long_force, is_separator, is_short_flag, is_tool,
  or_else, push_reason,
}
use lsstack.Tools.Shlex.{between_words, lex}
use mathlib.Core.List.{append-nil, append_assoc}

behind_match-found :
    (test : Text → Bool) (front : List Text) (word : Text) (back : List Text)
    → test word ≡ true
    → (more : List Text) × (behind_match test (front ++ word ∷ back) ≡ some (more ++ back))
unfolding behind_match
behind_match-found test [] word back h = ([], rw h refl)
behind_match-found test (x ∷ front) word back h = elim (Bool-cases (test x)) [
  | inl found ↦ (front ++ word ∷ [], rw found (ap some (sym (append_assoc front (word ∷ []) back))))
  | inr other ↦ let (more, e) = behind_match-found test front word back h in (more, rw other e)
]

-- A word behind `push` that makes it a forced one: one of three long options, a bundle of short
-- ones with `f` in it, or a reference behind `+`.
pub data Forcing (word : Text) : Type 0 where
  long_force : word ≡ codes "--force" → Forcing word
  with_lease : word ≡ codes "--force-with-lease" → Forcing word
  if_includes : word ≡ codes "--force-if-includes" → Forcing word
  short_force : (flags : Text) → word ≡ b'-' ∷ b'f' ∷ flags → Forcing word
  among_flags :
      (c : ℕ) (others flags : Text)
      → c ≢ b'-'
      → word ≡ b'-' ∷ c ∷ (others ++ b'f' ∷ flags)
      → Forcing word
  plus_reference : (reference : Text) → word ≡ b'+' ∷ reference → Forcing word

-- A word that is not made of `;`, `&` and `|` alone, and is not empty.
abbrev pub IsWord : Text → Type 0
IsWord [] = ⊥
IsWord (c ∷ s) = ((c ≢ b';') × (c ≢ b'&') × (c ≢ b'|')) ⊎ IsWord s

word-no-separator : (word : Text) → IsWord word → is_separator word ≡ false
unfolding all
word-no-separator [] w = absurd w
word-no-separator (c ∷ s) (inl (a, b, d)) = ground (arith, a, b, d)
word-no-separator (c ∷ s) (inr w) = ground (arith, word-no-separator s w)

any-inside :
    (test : Text → Bool) (front : List Text) (word : Text) (back : List Text)
    → test word ≡ true
    → any test (front ++ word ∷ back) ≡ true
unfolding any
any-inside test front word back h = ground (arith, any-append test front (word ∷ back))

flag-inside : (c : ℕ) (before flags : Text) → any (λ d. d == c) (before ++ c ∷ flags) ≡ true
unfolding any
flag-inside c [] flags = ground (arith, ==_refl c)
flag-inside c (d ∷ before) flags = ground (arith, flag-inside c before flags)

long-forces :
    (front : List Text) (word : Text) (back : List Text)
    → is_long_force word ≡ true
    → forces_push (front ++ word ∷ back) ≡ true
long-forces front word back h = ground (arith, any-inside is_long_force front word back h)

short-forces :
    (front : List Text) (word : Text) (back : List Text)
    → is_short_flag b'f' word ≡ true
    → forces_push (front ++ word ∷ back) ≡ true
short-forces front word back h = ground (arith, any-inside (is_short_flag b'f') front word back h)

plus-forces :
    (front : List Text) (word : Text) (back : List Text)
    → starts_with (codes "+") word ≡ true
    → forces_push (front ++ word ∷ back) ≡ true
plus-forces front word back h =
    ground (arith, any-inside (starts_with (codes "+")) front word back h)

forces_push-inside :
    (front : List Text) (word : Text) (back : List Text)
    → Forcing word
    → forces_push (front ++ word ∷ back) ≡ true
unfolding text_eq starts_with any
forces_push-inside front word back (long_force e) = long-forces front word back (rw e refl)
forces_push-inside front word back (with_lease e) = long-forces front word back (rw e refl)
forces_push-inside front word back (if_includes e) = long-forces front word back (rw e refl)
forces_push-inside front word back (short_force flags e) = short-forces front word back (rw e refl)
forces_push-inside front word back (among_flags c others flags other e) =
    short-forces front word back (rw e (ground (arith, other, flag-inside b'f' others flags)))
forces_push-inside front word back (plus_reference reference e) =
    plus-forces front word back (rw e refl)

-- The words of a forced push: git by whatever path, then `push`, then a forcing word, with any
-- others before, between and behind.
abbrev pub push_words : List Text → Text → List Text → List Text
push_words c force d = codes "push" ∷ (c ++ force ∷ d)

push_reason-forced :
    (b c d : List Text) (force : Text)
    → Forcing force
    → is_none (push_reason (b ++ push_words c force d)) ≡ false
unfolding push_reason text_eq
push_reason-forced b c d force h =
    let (more, found) =
      behind_match-found (λ w. text_eq w (codes "push")) b (codes "push") (c ++ force ∷ d) refl in
    let forced : forces_push (more ++ (c ++ force ∷ d)) ≡ true =
      ap forces_push (sym (append_assoc more c (force ∷ d)))
      ∙ forces_push-inside (more ++ c) force d h in
    rw found (rw forced refl)

-- The words of a forced push: git by whatever path, `push` and a forcing word, in this order, with
-- any others before, between and behind.
abbrev pub forced_push : List Text → Text → List Text → List Text → Text → List Text → List Text
forced_push a git b c force d = a ++ git ∷ (b ++ push_words c force d)

or_else-first : (a b : Option String) → is_none a ≡ false → is_none (or_else a b) ≡ false
or_else-first none b h = absurd (ground (arith, h))
or_else-first (some a) b h = refl

or_else-second : (a b : Option String) → is_none b ≡ false → is_none (or_else a b) ≡ false
or_else-second none b h = h
or_else-second (some a) b h = refl

argument_reason-forced :
    (arguments : List Text)
    → is_none (push_reason arguments) ≡ false
    → is_none (argument_reason arguments) ≡ false
argument_reason-forced arguments h = or_else-first (push_reason arguments) _ h

git_reason-forced :
    (a b c d : List Text) (git force : Text)
    → is_tool (codes "git") git ≡ true
    → Forcing force
    → is_none (git_reason (forced_push a git b c force d)) ≡ false
unfolding git_reason
git_reason-forced a b c d git force tool h =
    let (more, found) =
      behind_match-found (is_tool (codes "git")) a git (b ++ push_words c force d) tool in
    let forced : is_none (push_reason (more ++ (b ++ push_words c force d))) ≡ false =
      ap (λ ws. is_none (push_reason ws)) (sym (append_assoc more b (push_words c force d)))
      ∙ push_reason-forced (more ++ b) c d force h in
    rw found (argument_reason-forced (more ++ (b ++ push_words c force d)) forced)

is_empty-append : (xs ys : List Text) → is_empty ys ≡ false → is_empty (xs ++ ys) ≡ false
is_empty-append [] ys h = h
is_empty-append (x ∷ xs) ys h = refl

chunks_of-run :
    (chunk stretch back : List Text)
    → All (λ token. is_separator token ≡ false) stretch
    → chunks_of chunk (stretch ++ back) ≡ chunks_of (chunk ++ stretch) back
unfolding chunks_of
chunks_of-run chunk [] back h = ap (λ c. chunks_of c back) (sym (append-nil chunk))
chunks_of-run chunk (word ∷ stretch) back (h, hs) = rw h (
    chunks_of-run (chunk ++ word ∷ []) stretch back hs
    ∙ ap (λ c. chunks_of c back) (append_assoc chunk (word ∷ []) stretch))

chunks_of-held :
    (chunk back : List Text)
    → is_empty chunk ≡ false
    → (more : List Text) × (rest : List (List Text)) × (chunks_of chunk back
        ≡ (chunk ++ more) ∷ rest)
unfolding chunks_of
chunks_of-held [] back h = absurd (ground (arith, h))
chunks_of-held (c ∷ chunk) [] h = ([], [], ap (λ ws. (c ∷ ws) ∷ []) (sym (append-nil chunk)))
chunks_of-held (c ∷ chunk) (word ∷ back) h = elim (Bool-cases (is_separator word)) [
  | inl separator ↦ (
    [],
    chunks_of [] back,
    rw separator (ap (λ ws. (c ∷ ws) ∷ chunks_of [] back) (sym (append-nil chunk))),
  )
  | inr plain ↦
      let (more, rest, e) = chunks_of-held (c ∷ (chunk ++ word ∷ [])) back refl in
      (
        word ∷ more,
        rest,
        rw plain (e ∙ ap (λ ws. (c ∷ ws) ∷ rest) (append_assoc chunk (word ∷ []) more)),
      )
]

ended-blocked :
    (chunk : List Text) (rest : List (List Text))
    → is_none (chunks_reason rest) ≡ false
    → is_none (chunks_reason (ended chunk rest)) ≡ false
unfolding chunks_reason
ended-blocked [] rest h = h
ended-blocked (t ∷ ts) rest h = or_else-second _ (chunks_reason rest) h

-- A chunk that is blocked, whatever stands around a stretch of its words.
chunks_reason-inside :
    (stretch : List Text)
    → is_empty stretch ≡ false
    → All (λ token. is_separator token ≡ false) stretch
    → ((a d : List Text) → is_none (git_reason (a ++ stretch ++ d)) ≡ false)
    → (chunk front back : List Text)
    → is_none (chunks_reason (chunks_of chunk (front ++ (stretch ++ back)))) ≡ false
unfolding chunks_of chunks_reason
chunks_reason-inside stretch some_words words blocked chunk [] back =
    let (more, rest, e) =
      chunks_of-held (chunk ++ stretch) back (is_empty-append chunk stretch some_words) in
    rw (chunks_of-run chunk stretch back words, e)
      (or_else-first _ (chunks_reason rest)
        (or_else-second (github_reason (chunk ++ stretch ++ more)) _ (blocked chunk more)))
chunks_reason-inside stretch some_words words blocked chunk (word ∷ front) back =
    elim (Bool-cases (is_separator word)) [
      | inl separator ↦ rw separator (
          ended-blocked chunk _
            (chunks_reason-inside stretch some_words words blocked [] front back))
      | inr plain ↦
          rw plain
            (chunks_reason-inside stretch some_words words blocked (chunk ++ word ∷ []) front back)
    ]

forced_push_around :
    (x y a b c d : List Text) (git force : Text)
    → x ++ forced_push a git b c force d ++ y ≡ forced_push (x ++ a) git b c force (d ++ y)
forced_push_around x y a b c d git force = simp (append_assoc)

-- A command line is blocked when its tokens hold git, by whatever path, then `push`, then
-- `--force`, `--force-with-lease`, `--force-if-includes`, a bundle of short options with `f` in it
-- or a reference behind `+`, whatever tokens stand before, between and behind these. None of the
-- tokens from git on to the end of this stretch may be empty or made of `;`, `&` and `|` alone.
pub forced_push-blocked :
    (command : Text) (front a b c d back : List Text) (git force : Text)
    → lex between_words command ≡ some (front ++ (forced_push a git b c force d ++ back))
    → All IsWord (forced_push a git b c force d)
    → is_tool (codes "git") git ≡ true
    → Forcing force
    → is_none (blocked_reason command) ≡ false
unfolding blocked_reason chunks
forced_push-blocked command front a b c d back git force lexed words tool forcing = rw lexed (
    chunks_reason-inside (forced_push a git b c force d) (is_empty-append a _ refl)
      (All-map IsWord (λ token. is_separator token ≡ false) (forced_push a git b c force d)
        word-no-separator words)
      (λ x y.
        ap (λ ws. is_none (git_reason ws)) (forced_push_around x y a b c d git force)
        ∙ git_reason-forced (x ++ a) b c (d ++ y) git force tool forcing)
      [] front back)
