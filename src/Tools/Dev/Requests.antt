-- ===== src/Tools/Dev/Requests.antt =====
-- The coordinator of tools/dev.py over a whole session: any sequence of starts and stops, whose
-- errors end the request and leave what was written.
use lsstack.Prelude.{All, List, [], inl, inr, some, sym, ℕ, ◌++◌, ◌∷◌, ◌≡◌}
use lsstack.Prelude.Int.{ℤ}
use lsstack.Prelude.Table.Laws.{All-map}
use lsstack.System.Ownership.{request}
use lsstack.Tools.Dev.Processes.{Desk, Machine, ProcessName, Signal, key_of, stop_process}
use lsstack.Tools.Dev.Processes.Careful.{stop_process-Signalled}
use lsstack.Tools.Dev.Processes.Owned.{IsGroup, IsOwned}
use lsstack.Tools.Dev.Processes.Signals.{OnlyTo}
use lsstack.Tools.Dev.Start.{Launch, start_process}
use lsstack.Tools.Dev.Start.Signals.{start_process-ChildSignalled}
use lsstack.Values.{Fields, dict, get}
use mathlib.Core.Path.{subst}

pub data Request : Type 0 where
  starts : ProcessName → Launch → Request
  stops : ProcessName → ℕ → Request

unfoldable pub perform_request : Machine → Request → Desk → Desk
perform_request m (starts name launch) s = (start_process m name launch s).1
perform_request m (stops name rounds) s = (stop_process m name rounds s).1

-- A group that may be signalled for a request in a state: a start may signal the group that the
-- system answers for a process that it spawned, and a stop the group of the process that is
-- recorded in the state under the name of the request, when that process was found to be owned.
abbrev pub MaySignal : Machine → Request → Desk → ℤ → Type 0
MaySignal m (starts name launch) s group =
    (pid : ℤ) × ((n : ℕ) × (m.spawned n ≡ pid)) × ((n : ℕ) × (m.group n pid ≡ some group))
MaySignal m (stops name rounds) s group =
    (metadata : Fields) × (pid : ℤ) × (get s.recorded (key_of name) ≡ some (dict metadata))
    × IsOwned m name metadata pid
    × IsGroup m metadata pid group

-- What a request sent since a state, all of it allowed in that state.
pub record Allowed (m : Machine) (request : Request) (s t : Desk) : Type 0 where
  pub sent : List (ℤ × Signal)
  pub behind : t.signals ≡ sent ++ s.signals
  pub allowed : All (λ signal. MaySignal m request s signal.0) sent

-- Every request of a session sends what is allowed in the state that it meets.
abbrev pub AllAllowed : Machine → List Request → Desk → Type 0
AllAllowed m [] s = Unit
AllAllowed m (request ∷ requests) s =
    Allowed m request s (perform_request m request s)
    × AllAllowed m requests (perform_request m request s)

only-Allowed :
    (m : Machine) (request : Request) (group : ℤ) (s t : Desk)
    → MaySignal m request s group
    → OnlyTo group s t
    → Allowed m request s t
only-Allowed m request group s t may only = record {
  sent = only.sent;
  behind = only.behind;
  allowed =
      All-map (λ signal. signal.0 ≡ group) (λ signal. MaySignal m request s signal.0) only.sent
        (λ signal e. subst (MaySignal m request s) (sym e) may) only.there;
}

request-Allowed :
    (m : Machine) (request : Request) (s : Desk) → Allowed m request s (perform_request m request s)
unfolding perform_request
request-Allowed m (starts name launch) s = elim (start_process-ChildSignalled m name launch s) [
  | inl quiet ↦ record { sent = []; behind = quiet; allowed = tt }
  | inr v ↦
      only-Allowed m (starts name launch) v.group s _ (v.child, v.spawned_here, v.targeted) v.only
]
request-Allowed m (stops name rounds) s = elim (stop_process-Signalled m name rounds s) [
  | inl quiet ↦ record { sent = []; behind = quiet; allowed = tt }
  | inr v ↦
      only-Allowed m (stops name rounds) v.group s _
        (v.metadata, v.pid, v.recorded, v.owned, v.targeted) v.only
]

-- Whatever the coordinator is asked to start and stop, and however the system answers: every signal
-- that a start sends goes to the group that the system answers for a process that was spawned, and
-- every signal that a stop sends goes to the group of the process that is recorded under its name
-- when it begins, which was seen alive with the start recorded there and the command of its name.
pub perform_requests-AllAllowed :
    (m : Machine) (requests : List Request) (s : Desk) → AllAllowed m requests s
perform_requests-AllAllowed m [] s = tt
perform_requests-AllAllowed m (request ∷ requests) s = (
  request-Allowed m request s,
  perform_requests-AllAllowed m requests (perform_request m request s),
)
