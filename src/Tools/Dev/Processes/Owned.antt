-- ===== src/Tools/Dev/Processes/Owned.antt =====
-- What pid_owned of tools/dev.py knows of a process that it accepts.
use lsstack.Exec.{ok, pure}
use lsstack.Exec.Inversion.{bind_ok}
use lsstack.Exec.Steps.{IsPreorder, Steps, steps_rules}
use lsstack.Prelude.{
  Bool-cases, Option, ap, arith, false, inl, inr, is_empty, none, refl, some, true, ℕ, ◌∙◌, ◌≡◌,
  ◌⊎◌,
}
use lsstack.Prelude.Int.{ℤ}
use lsstack.Text.{Text, contains, strip, text_eq, text_eq→eq}
use lsstack.Tools.Dev.Processes.{
  Desk, Machine, ProcessName, ask, expected_command, has_signature, owns_pid, pid_alive,
  pid_command, pid_owned, pid_started_signature, runs_command, target_group,
}
use lsstack.Tools.Dev.Worktrees.{pid_of}
use lsstack.Values.{Fields, as_str, as_str_lem, get, str}

-- A process that was seen alive, with the start that was recorded for it and the command of its
-- name.
pub record IsOwned (m : Machine) (name : ProcessName) (metadata : Fields) (pid : ℤ) : Type 0 where
  pub numbered : pid_of (get metadata "pid") ≡ some pid
  pub seen_alive : (n : ℕ) × (m.alive n pid ≡ true)
  pub signature : Text
  pub signed : get metadata "started_signature" ≡ some (str signature)
  pub not_blank : is_empty signature ≡ false
  pub seen_started : (n : ℕ) × (strip (m.started n pid) ≡ signature)
  pub seen_running : (n : ℕ) × (contains (expected_command name) (strip (m.command n pid)) ≡ true)

-- The group that was recorded, or else the one that the system answers.
abbrev pub IsGroup : Machine → Fields → ℤ → ℤ → Type 0
IsGroup m metadata pid group =
    (pid_of (get metadata "pgid") ≡ some group) ⊎ ((n : ℕ) × (m.group n pid ≡ some group))

-- A step that sends no signal.
pub record Quiet (s t : Desk) : Type 0 where
  pub kept : t.signals ≡ s.signals

instance abbrev pub Quiet-preorder : IsPreorder Quiet
Quiet-preorder = record {
  same = λ s. record { kept = refl };
  chain = λ s t u h k. record { kept = k.kept ∙ h.kept };
}

pub ruleset quiet_rules = (steps_rules, Quiet-preorder)

pub ask-Quiet : {A : Type 0} (answer : ℕ → A) → Steps Quiet (ask answer)
unfolding ask
ask-Quiet answer = record { at = λ s. record { kept = refl } }

-- The questions of `pid_owned`, and what its answer tells.
runs_command-Quiet :
    (m : Machine) (name : ProcessName) (pid : ℤ) → Steps Quiet (runs_command m name pid)
unfolding runs_command pid_command
runs_command-Quiet m name pid = search (quiet_rules, ask-Quiet)

has_signature-Quiet :
    (m : Machine) (name : ProcessName) (pid : ℤ) (found : Option Text)
    → Steps Quiet (has_signature m name pid found)
unfolding has_signature pid_started_signature
has_signature-Quiet m name pid none = search quiet_rules
has_signature-Quiet m name pid (some signature) =
    search (quiet_rules, ask-Quiet, runs_command-Quiet)

pub pid_owned-Quiet :
    (m : Machine) (name : ProcessName) (metadata : Fields) → Steps Quiet (pid_owned m name metadata)
unfolding pid_owned
pid_owned-Quiet m name metadata = owns-Quiet (pid_of (get metadata "pid"))
  where
    owns-Quiet : (found : Option ℤ) → Steps Quiet (owns_pid m name metadata found)
    owns-Quiet none = unfold owns_pid in search quiet_rules
    owns-Quiet (some pid) =
        unfold owns_pid in unfold pid_alive in search (quiet_rules, ask-Quiet, has_signature-Quiet)

pub target_group-Quiet :
    (m : Machine) (pid : ℤ) (found : Option ℤ) → Steps Quiet (target_group m pid found)
target_group-Quiet m pid (some pgid) = unfold target_group in search quiet_rules
target_group-Quiet m pid none = unfold target_group in search (quiet_rules, ask-Quiet)

-- A question answers what the system says at its number.
pub asked :
    {A : Type 0} (answer : ℕ → A) (s t : Desk) (a : A)
    → ask answer s ≡ (ok a, t)
    → answer s.questions ≡ a
unfolding ask
asked answer s t a h = ground (arith, h)

runs_command-seen :
    (m : Machine) (name : ProcessName) (pid : ℤ) (s t : Desk)
    → runs_command m name pid s ≡ (ok true, t)
    → (n : ℕ) × (contains (expected_command name) (strip (m.command n pid)) ≡ true)
unfolding runs_command pid_command pure
runs_command-seen m name pid s t h =
    let (command, u, first, last) = bind_ok (ask (λ n. strip (m.command n pid))) _ s t true h in
    (
      s.questions,
      ap (contains (expected_command name)) (asked (λ n. strip (m.command n pid)) s u command first)
          ∙ ground (arith, last),
    )

-- What is known of a process that answered the recorded signature.
abbrev IsSigned : Machine → ProcessName → ℤ → Option Text → Type 0
IsSigned m name pid found =
    (signature : Text) × (found ≡ some signature)
    × (is_empty signature ≡ false)
    × ((n : ℕ) × (strip (m.started n pid) ≡ signature))
    × ((n : ℕ) × (contains (expected_command name) (strip (m.command n pid)) ≡ true))

text-IsSigned :
    (m : Machine) (name : ProcessName) (pid : ℤ) (signature : Text) (s t : Desk)
    → has_signature m name pid (some signature) s ≡ (ok true, t)
    → IsSigned m name pid (some signature)
unfolding has_signature pid_started_signature pure
text-IsSigned m name pid signature s t h = elim (Bool-cases (is_empty signature)) [
  | inl blank ↦ let k = rw blank at h in absurd (ground (arith, k))
  | inr filled ↦
      let k = rw filled at h in
      let (current, u, first, rest) = bind_ok (ask (λ n. strip (m.started n pid))) _ s t true k in
      elim (Bool-cases (text_eq current signature)) [
        | inr other ↦ let k' = rw other at rest in absurd (ground (arith, k'))
        | inl same ↦
            let k' = rw same at rest in
            (
              signature,
              refl,
              filled,
              (
                s.questions,
                asked (λ n. strip (m.started n pid)) s u current first
                    ∙ text_eq→eq current signature same,
              ),
              runs_command-seen m name pid u t k',
            )
      ]
]

found-IsSigned :
    (m : Machine) (name : ProcessName) (pid : ℤ) (found : Option Text) (s t : Desk)
    → has_signature m name pid found s ≡ (ok true, t)
    → IsSigned m name pid found
unfolding has_signature pure
found-IsSigned m name pid none s t h = absurd (ground (arith, h))
found-IsSigned m name pid (some signature) s t h = text-IsSigned m name pid signature s t h

pub pid_owned-IsOwned :
    (m : Machine) (name : ProcessName) (metadata : Fields) (pid : ℤ) (s t : Desk)
    → pid_of (get metadata "pid") ≡ some pid
    → pid_owned m name metadata s ≡ (ok true, t)
    → IsOwned m name metadata pid
unfolding pid_owned owns_pid pure pid_alive
pid_owned-IsOwned m name metadata pid s t numbered h =
    let k = rw (numbered, owns_pid) at h in
    let (is_alive, u, first, rest) = bind_ok (ask (λ n. m.alive n pid)) _ s t true k in
    elim (Bool-cases is_alive) [
      | inr gone ↦ let k' = rw gone at rest in absurd (ground (arith, k'))
      | inl alive ↦
          let k' = rw alive at rest in
          let (signature, signed, filled, started, running) =
            found-IsSigned m name pid (as_str (get metadata "started_signature")) u t k' in
          record {
            numbered = numbered;
            seen_alive = (s.questions, asked (λ n. m.alive n pid) s u is_alive first ∙ alive);
            signature = signature;
            signed = as_str_lem (get metadata "started_signature") signature signed;
            not_blank = filled;
            seen_started = started;
            seen_running = running;
          }
    ]
