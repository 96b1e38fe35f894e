-- ===== src/Tools/Dev/Processes/Signals.antt =====
-- The signals that stopping a process sends all go to its group.
use lsstack.Exec.Steps.{IsPreorder, Steps, Steps-bind, Steps-if, steps_rules}
use lsstack.Prelude.{
  All, Bool-cases, List, [], ap, inl, inr, refl, suc, sym, zero, ℕ, ◌++◌, ◌∙◌, ◌∷◌, ◌≡◌,
}
use lsstack.Prelude.Int.{ℤ}
use lsstack.Tools.Dev.Processes.{
  Desk, Machine, ProcessName, Signal, forget, killpg, pid_alive, stop_group, wait,
}
use mathlib.Core.List.{append_assoc}

-- The signals that a step sends go to one group.
pub record OnlyTo (group : ℤ) (s t : Desk) : Type 0 where
  pub sent : List (ℤ × Signal)
  pub behind : t.signals ≡ sent ++ s.signals
  pub there : All (λ signal. signal.0 ≡ group) sent

pub All-append :
    (P : ℤ × Signal → Type 0) (xs ys : List (ℤ × Signal)) → All P xs → All P ys → All P (xs ++ ys)
All-append P [] ys h k = k
All-append P (x ∷ xs) ys (h, hs) k = (h, All-append P xs ys hs k)

instance abbrev pub OnlyTo-preorder : {group : ℤ} → IsPreorder (OnlyTo group)
OnlyTo-preorder {group} = record {
  same = λ s. record { sent = []; behind = refl; there = tt };
  chain = λ s t u h k. record {
    sent = k.sent ++ h.sent;
    behind =
        k.behind
        ∙ ap (λ sent. k.sent ++ sent) h.behind
        ∙ sym (append_assoc k.sent h.sent s.signals);
    there = All-append (λ signal. signal.0 ≡ group) k.sent h.sent k.there h.there;
  };
}

OnlyTo_of_quiet : (group : ℤ) (s t : Desk) → t.signals ≡ s.signals → OnlyTo group s t
OnlyTo_of_quiet group s t h = record { sent = []; behind = h; there = tt }

pub alive-OnlyTo : (group : ℤ) (m : Machine) (pid : ℤ) → Steps (OnlyTo group) (pid_alive m pid)
unfolding pid_alive
alive-OnlyTo group m pid = record { at = λ s. OnlyTo_of_quiet group s _ refl }

pub killpg-OnlyTo :
    (group : ℤ) (m : Machine) (signal : Signal) → Steps (OnlyTo group) (killpg m group signal)
unfolding killpg
killpg-OnlyTo group m signal = record {
  at = λ s. elim (Bool-cases (m.lost s.questions group)) [
    | inl lost ↦ rw lost (OnlyTo_of_quiet group s _ refl)
    | inr found ↦
        rw found (record { sent = (group, signal) ∷ []; behind = refl; there = (refl, tt) })
  ];
}

pub forget-OnlyTo : (group : ℤ) (name : ProcessName) → Steps (OnlyTo group) (forget name)
unfolding forget
forget-OnlyTo group name = record { at = λ s. OnlyTo_of_quiet group s _ refl }

pub ruleset group_rules = (steps_rules, OnlyTo-preorder, alive-OnlyTo, killpg-OnlyTo, forget-OnlyTo)

wait-OnlyTo :
    (group : ℤ) (m : Machine) (pid : ℤ) (rounds : ℕ) → Steps (OnlyTo group) (wait m pid rounds)
unfolding wait
wait-OnlyTo group m pid zero = search group_rules
wait-OnlyTo group m pid (suc rounds) =
    Steps-bind (pid_alive m pid) _ (alive-OnlyTo group m pid)
      λ is_alive. Steps-if is_alive _ _ (wait-OnlyTo group m pid rounds) (search group_rules)

pub stop_group-OnlyTo :
    (m : Machine) (name : ProcessName) (pid group : ℤ) (rounds : ℕ)
    → Steps (OnlyTo group) (stop_group m name pid group rounds)
unfolding stop_group
stop_group-OnlyTo m name pid group rounds = search (group_rules, wait-OnlyTo) depth 12
