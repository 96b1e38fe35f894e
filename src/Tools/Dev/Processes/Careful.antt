-- ===== src/Tools/Dev/Processes/Careful.antt =====
-- Stopping a process signals the group of that process or nothing.
use lsstack.Exec.{Result, ok, pure, raise, ◌>>=◌}
use lsstack.Exec.Inversion.{bind_cases, bind_ok, or_raise_ok}
use lsstack.Prelude.{
  Bool, Option, ap, arith, false, inl, inr, none, refl, some, sym, true, ℕ, ◌++◌, ◌∙◌, ◌≡◌, ◌⊎◌,
}
use lsstack.Prelude.Int.{ℤ}
use lsstack.Tools.Dev.Processes.{
  Desk, Machine, ProcessName, ask, forget, key_of, pid_alive, pid_owned, stop_group, stop_if_alive,
  stop_if_owned, stop_owned, stop_pid, stop_process, stop_recorded, target_group,
}
use lsstack.Tools.Dev.Processes.Owned.{
  IsGroup, IsOwned, asked, pid_owned-IsOwned, pid_owned-Quiet, target_group-Quiet,
}
use lsstack.Tools.Dev.Processes.Signals.{OnlyTo, stop_group-OnlyTo}
use lsstack.Tools.Dev.Worktrees.{pid_of}
use lsstack.Tools.HookPolicy.{ended}
use lsstack.Values.{Fields, as_dict, as_dict_lem, dict, get}
use mathlib.Core.Path.{subst}

-- No signal was sent, or only some to the group of a process that was found to be owned.
abbrev IsCareful : Machine → ProcessName → Fields → Desk → Desk → Type 0
IsCareful m name metadata s t =
    t.signals ≡ s.signals
    ⊎ ((pid : ℤ) × (group : ℤ) × IsOwned m name metadata pid
        × IsGroup m metadata pid group
        × OnlyTo group s t)

pub target-IsGroup :
    (m : Machine) (metadata : Fields) (pid group : ℤ) (found : Option ℤ) (s t : Desk)
    → pid_of (get metadata "pgid") ≡ found
    → target_group m pid found s ≡ (ok group, t)
    → IsGroup m metadata pid group
unfolding target_group pure
target-IsGroup m metadata pid group (some pgid) s t e h = inl (e ∙ ground (arith, h))
target-IsGroup m metadata pid group none s t e h =
    let (found, u, first, last) = bind_ok (ask (λ n. m.group n pid)) _ s t group h in
    inr (
      s.questions,
      asked (λ n. m.group n pid) s u found first ∙ (or_raise_ok found _ u t group last).0,
    )

-- Behind the check of ownership.
signalled :
    (m : Machine) (name : ProcessName) (metadata : Fields) (pid : ℤ) (rounds : ℕ) (s u : Desk)
    → IsOwned m name metadata pid
    → u.signals ≡ s.signals
    → IsCareful m name metadata s
        ((target_group m pid (pid_of (get metadata "pgid")) >>= λ group.
            stop_group m name pid group rounds)
          u).1
signalled m name metadata pid rounds s u v kept =
    let found = pid_of (get metadata "pgid") in
    let quiet = (target_group-Quiet m pid found).at u in
    elim (bind_cases (target_group m pid found) (λ group. stop_group m name pid group rounds) u) [
      | inl ended ↦ inl (ap (λ (d : Desk). d.signals) ended ∙ quiet.kept ∙ kept)
      | inr (group, x, there, went_on) ↦
          let sent = (stop_group-OnlyTo m name pid group rounds).at x in
          let same : x.signals ≡ s.signals =
            ap (λ (r : Result ℤ × Desk). r.1.signals) (sym there) ∙ quiet.kept ∙ kept in
          inr (
            pid,
            group,
            v,
            target-IsGroup m metadata pid group found u x refl there,
            record {
              sent = sent.sent;
              behind =
                  ap (λ (d : Desk). d.signals) went_on
                  ∙ sent.behind
                  ∙ ap (λ signals. sent.sent ++ signals) same;
              there = sent.there;
            },
          )
    ]

refused_unless :
    (m : Machine) (name : ProcessName) (metadata : Fields) (pid : ℤ) (rounds : ℕ) (s x : Desk)
    (is_owned : Bool)
    → (is_owned ≡ true → IsOwned m name metadata pid)
    → x.signals ≡ s.signals
    → IsCareful m name metadata s (stop_if_owned m name metadata pid rounds is_owned x).1
unfolding stop_if_owned raise
refused_unless m name metadata pid rounds s x false v kept = inl kept
refused_unless m name metadata pid rounds s x true v kept =
    signalled m name metadata pid rounds s x (v refl) kept

stop_owned-IsCareful :
    (m : Machine) (name : ProcessName) (metadata : Fields) (pid : ℤ) (rounds : ℕ) (s u : Desk)
    → pid_of (get metadata "pid") ≡ some pid
    → u.signals ≡ s.signals
    → IsCareful m name metadata s (stop_owned m name metadata pid rounds u).1
unfolding stop_owned
stop_owned-IsCareful m name metadata pid rounds s u numbered kept =
    let quiet = (pid_owned-Quiet m name metadata).at u in
    elim (bind_cases (pid_owned m name metadata) _ u) [
      | inl ended ↦ inl (ap (λ (d : Desk). d.signals) ended ∙ quiet.kept ∙ kept)
      | inr (is_owned, x, there, went_on) ↦
          let same : x.signals ≡ s.signals =
            ap (λ (r : Result Bool × Desk). r.1.signals) (sym there) ∙ quiet.kept ∙ kept in
          subst (IsCareful m name metadata s) (sym went_on) (
            refused_unless m name metadata pid rounds s x is_owned
              (λ yes.
                pid_owned-IsOwned m name metadata pid u x numbered
                  (subst (λ b. pid_owned m name metadata u ≡ (ok b, x)) yes there))
              same)
    ]

stop_alive-IsCareful :
    (m : Machine) (name : ProcessName) (metadata : Fields) (pid : ℤ) (rounds : ℕ) (s u : Desk)
    (is_alive : Bool)
    → pid_of (get metadata "pid") ≡ some pid
    → u.signals ≡ s.signals
    → IsCareful m name metadata s (stop_if_alive m name metadata pid rounds is_alive u).1
unfolding stop_if_alive ◌>>=◌ forget
stop_alive-IsCareful m name metadata pid rounds s u false numbered kept = inl kept
stop_alive-IsCareful m name metadata pid rounds s u true numbered kept =
    stop_owned-IsCareful m name metadata pid rounds s u numbered kept

stop_pid-IsCareful :
    (m : Machine) (name : ProcessName) (metadata : Fields) (rounds : ℕ) (s : Desk)
    (found : Option ℤ)
    → pid_of (get metadata "pid") ≡ found
    → IsCareful m name metadata s (stop_pid m name metadata found rounds s).1
unfolding stop_pid ◌>>=◌ forget pid_alive
stop_pid-IsCareful m name metadata rounds s none e = inl refl
stop_pid-IsCareful m name metadata rounds s (some pid) e =
    stop_alive-IsCareful m name metadata pid rounds s _ (m.alive s.questions pid) e refl

-- Signals were sent to the group of a process that is recorded and was found to be owned.
pub record Signalled (m : Machine) (name : ProcessName) (s t : Desk) : Type 0 where
  pub metadata : Fields
  pub pid : ℤ
  pub group : ℤ
  pub recorded : get s.recorded (key_of name) ≡ some (dict metadata)
  pub owned : IsOwned m name metadata pid
  pub targeted : IsGroup m metadata pid group
  pub only : OnlyTo group s t

recorded-Signalled :
    (m : Machine) (name : ProcessName) (rounds : ℕ) (s : Desk) (found : Option Fields)
    → as_dict (get s.recorded (key_of name)) ≡ found
    → (stop_recorded m name found rounds s).1.signals ≡ s.signals
      ⊎ Signalled m name s (stop_recorded m name found rounds s).1
unfolding stop_recorded pure
recorded-Signalled m name rounds s none e = inl refl
recorded-Signalled m name rounds s (some metadata) e =
    elim (stop_pid-IsCareful m name metadata rounds s (pid_of (get metadata "pid")) refl) [
      | inl quiet ↦ inl quiet
      | inr (pid, group, owned, targeted, only) ↦ inr (record {
        metadata = metadata;
        pid = pid;
        group = group;
        recorded = as_dict_lem (get s.recorded (key_of name)) metadata e;
        owned = owned;
        targeted = targeted;
        only = only;
      })
    ]

-- Stopping a process, however the system answers and however long it takes, sends no signal, or
-- sends signals to one group only: the one that is recorded for the process, or that the system
-- answers for it where none is recorded. Then the process was seen alive, with the start that is
-- recorded for it and with the command of its name.
pub stop_process-Signalled :
    (m : Machine) (name : ProcessName) (rounds : ℕ) (s : Desk)
    → (stop_process m name rounds s).1.signals ≡ s.signals
      ⊎ Signalled m name s (stop_process m name rounds s).1
unfolding stop_process
stop_process-Signalled m name rounds s =
    recorded-Signalled m name rounds s (as_dict (get s.recorded (key_of name))) refl
