-- ===== src/Tools/Dev/Start/Signals.antt =====
-- A start signals at most the group of the process that it has spawned.
use lsstack.Tools.Dev.Processes.Signals.{OnlyTo-preorder as only_to_preorder}
use lsstack.Tools.Dev.Processes.Owned.{Quiet-preorder as quiet_preorder}
use lsstack.Exec.{Exec, Result, ok, raise, runtime_error, ◌>>=◌, ◌>>◌}
use lsstack.Exec.Inversion.{bind_cases}
use lsstack.Exec.Steps.{Steps, Steps-bind}
use lsstack.Prelude.{
  Bool, Option, ap, arith, false, if◌then◌else◌, inl, inr, is_empty, none, refl, some, sym, true, ℕ,
  ◌++◌, ◌+◌, ◌∙◌, ◌≡◌, ◌⊎◌,
}
use lsstack.Prelude.Int.{ℤ}
use lsstack.Text.{Text, strip}
use lsstack.Tools.Dev.Processes.{
  Desk, Machine, ProcessName, ask, forget, key_of, killpg, pid_alive, pid_owned,
  pid_started_signature, sigterm, target_group,
}
use lsstack.Tools.Dev.Processes.Careful.{target-IsGroup}
use lsstack.Tools.Dev.Processes.Owned.{
  Quiet, ask-Quiet, pid_owned-Quiet, quiet_rules, target_group-Quiet,
}
use lsstack.Tools.Dev.Processes.Signals.{OnlyTo, group_rules}
use lsstack.Tools.Dev.Start.{
  Launch, Started, discard_child, keep_owned, record_child, remember, start_child, start_if_gone,
  start_pid, start_process, start_recorded,
}
use lsstack.Tools.Dev.Worktrees.{pid_of}
use lsstack.Tools.HookPolicy.{ended}
use lsstack.Values.{Fields, as_dict, end, get}

-- Signals were sent to the group of a process that was just started.
pub record ChildSignalled (m : Machine) (s t : Desk) : Type 0 where
  pub child : ℤ
  pub group : ℤ
  pub spawned_here : (n : ℕ) × (m.spawned n ≡ child)
  pub targeted : (n : ℕ) × (m.group n child ≡ some group)
  pub only : OnlyTo group s t

remember-Quiet : (name : ProcessName) (metadata : Fields) → Steps Quiet (remember name metadata)
unfolding remember
remember-Quiet name metadata = record { at = λ s. record { kept = refl } }

forget-Quiet : (name : ProcessName) → Steps Quiet (forget name)
unfolding forget
forget-Quiet name = record { at = λ s. record { kept = refl } }

record_child-Quiet :
    (m : Machine) (name : ProcessName) (launch : Launch) (child : ℤ) (signature : Text)
    → Steps Quiet (record_child m name launch child signature)
unfolding record_child
record_child-Quiet m name launch child signature =
    search (quiet_rules, target_group-Quiet, remember-Quiet, forget-Quiet, ask-Quiet) depth 12

discard-OnlyTo :
    (m : Machine) (group : ℤ)
    → Steps (OnlyTo group) (
        killpg m group sigterm
        >> raise {A = Started} (runtime_error "Could not record an ownership signature."))
discard-OnlyTo m group = search group_rules

-- What a step that keeps the signals leaves, whatever it answers.
same_signals :
    {A : Type 0} (m : Exec Desk A) (u x : Desk) (a : A)
    → Steps Quiet m
    → m u ≡ (ok a, x)
    → x.signals ≡ u.signals
same_signals {A} m u x a quiet h =
    ap (λ (r : Result A × Desk). r.1.signals) (sym h) ∙ (quiet.at u).kept

answered_group :
    (m : Machine) (child group : ℤ) (u x : Desk)
    → target_group m child none u ≡ (ok group, x)
    → (n : ℕ) × (m.group n child ≡ some group)
unfolding get
answered_group m child group u x h = elim (target-IsGroup m end child group none u x refl h) [
  | inl recorded ↦ absurd (ground (arith, recorded))
  | inr answered ↦ answered
]

discard_child-signals :
    (m : Machine) (child : ℤ) (s u : Desk)
    → ((n : ℕ) × (m.spawned n ≡ child))
    → u.signals ≡ s.signals
    → (discard_child m child u).1.signals ≡ s.signals
      ⊎ ChildSignalled m s (discard_child m child u).1
unfolding discard_child
discard_child-signals m child s u spawned kept = elim (bind_cases (target_group m child none) _ u) [
  | inl ended ↦
      inl
        (ap (λ (d : Desk). d.signals) ended ∙ ((target_group-Quiet m child none).at u).kept ∙ kept)
  | inr (group, x, there, went_on) ↦
      let sent = (discard-OnlyTo m group).at x in
      let same =
        same_signals (target_group m child none) u x group (target_group-Quiet m child none) there
        ∙ kept in
      inr (record {
        child = child;
        group = group;
        spawned_here = spawned;
        targeted = answered_group m child group u x there;
        only = record {
          sent = sent.sent;
          behind =
              ap (λ (d : Desk). d.signals) went_on
              ∙ sent.behind
              ∙ ap (λ signals. sent.sent ++ signals) same;
          there = sent.there;
        };
      })
]

child-signals :
    (m : Machine) (name : ProcessName) (launch : Launch) (child : ℤ) (signature : Text)
    (is_blank : Bool) (s u : Desk)
    → ((n : ℕ) × (m.spawned n ≡ child))
    → u.signals ≡ s.signals
    → ((if is_blank then discard_child m child else record_child m name launch child signature)
          u).1.signals
        ≡ s.signals
      ⊎ ChildSignalled m s
          ((if is_blank then discard_child m child else record_child m name launch child signature)
            u).1
child-signals m name launch child signature true s u spawned kept =
    discard_child-signals m child s u spawned kept
child-signals m name launch child signature false s u spawned kept =
    inl (((record_child-Quiet m name launch child signature).at u).kept ∙ kept)

start_child-signals :
    (m : Machine) (name : ProcessName) (launch : Launch) (s u : Desk)
    → u.signals ≡ s.signals
    → (start_child m name launch u).1.signals ≡ s.signals
      ⊎ ChildSignalled m s (start_child m name launch u).1
unfolding start_child ◌>>=◌ ask pid_started_signature
start_child-signals m name launch s u kept =
    let child = m.spawned u.questions in
    let signature = strip (m.started (u.questions + 1) child) in
    child-signals m name launch child signature (is_empty signature) s
      (record u { questions = u.questions + 1 + 1 }) (u.questions, refl) kept

keep_owned-Quiet : (is_owned : Bool) → Steps Quiet (keep_owned is_owned)
unfolding keep_owned
keep_owned-Quiet true = search quiet_rules
keep_owned-Quiet false = search quiet_rules

kept-Quiet :
    (m : Machine) (name : ProcessName) (metadata : Fields) (launch : Launch)
    → Steps Quiet (start_if_gone m name metadata launch true)
unfolding start_if_gone
kept-Quiet m name metadata launch =
    Steps-bind (pid_owned m name metadata) _ (pid_owned-Quiet m name metadata) keep_owned-Quiet

gone-signals :
    (m : Machine) (name : ProcessName) (metadata : Fields) (launch : Launch) (is_alive : Bool)
    (s u : Desk)
    → u.signals ≡ s.signals
    → (start_if_gone m name metadata launch is_alive u).1.signals ≡ s.signals
      ⊎ ChildSignalled m s (start_if_gone m name metadata launch is_alive u).1
gone-signals m name metadata launch true s u kept =
    inl (((kept-Quiet m name metadata launch).at u).kept ∙ kept)
gone-signals m name metadata launch false s u kept =
    unfold start_if_gone in
    unfold ◌>>=◌ in unfold forget in start_child-signals m name launch s _ kept

pid-signals :
    (m : Machine) (name : ProcessName) (metadata : Fields) (launch : Launch) (found : Option ℤ)
    (s : Desk)
    → (start_pid m name metadata launch found s).1.signals ≡ s.signals
      ⊎ ChildSignalled m s (start_pid m name metadata launch found s).1
unfolding start_pid ◌>>=◌ forget pid_alive
pid-signals m name metadata launch none s = start_child-signals m name launch s _ refl
pid-signals m name metadata launch (some pid) s =
    gone-signals m name metadata launch (m.alive s.questions pid) s _ refl

-- Starting a process, however the system answers, sends no signal, or sends signals only to the
-- group that the system answers for the process that was just started.
pub start_process-ChildSignalled :
    (m : Machine) (name : ProcessName) (launch : Launch) (s : Desk)
    → (start_process m name launch s).1.signals ≡ s.signals
      ⊎ ChildSignalled m s (start_process m name launch s).1
unfolding start_process
start_process-ChildSignalled m name launch s =
    recorded-signals (as_dict (get s.recorded (key_of name)))
  where
    recorded-signals :
        (found : Option Fields)
        → (start_recorded m name launch found s).1.signals ≡ s.signals
          ⊎ ChildSignalled m s (start_recorded m name launch found s).1
    recorded-signals none = unfold start_recorded in start_child-signals m name launch s s refl
    recorded-signals (some metadata) =
        unfold start_recorded in pid-signals m name metadata launch (pid_of (get metadata "pid")) s
