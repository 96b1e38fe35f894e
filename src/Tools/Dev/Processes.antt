-- ===== src/Tools/Dev/Processes.antt =====
-- pid_owned and _stop_process of tools/dev.py, with the signals that are sent. What the operating
-- system answers may differ from one question to the next, so questions are counted; the messages
-- of errors leave out the numbers of processes.
pub mod Signals
pub mod Owned
pub mod Careful
use lsstack.Exec.{Exec, err, ok, or_raise, pure, raise, runtime_error, ◌>>=◌, ◌>>◌}
use lsstack.Prelude.{
  Bool, List, Option, String, false, if◌then◌else◌, is_empty, none, some, str_eq, suc, true, zero,
  ℕ, ◌+◌, ◌∷◌,
}
use lsstack.Prelude.Int.{ℤ}
use lsstack.Text.{Text, codes, contains, strip, text_eq}
use lsstack.Tools.Dev.Worktrees.{pid_of}
use lsstack.Values.{Fields, as_dict, as_str, end, field, get}

pub data ProcessName : Type 0 where
  app worker : ProcessName

abbrev pub key_of : ProcessName → String
key_of app = "app"
key_of worker = "worker"

-- " ".join(PROCESS_COMMANDS[name][2:])
abbrev pub expected_command : ProcessName → Text
expected_command app = codes "litestar run"
expected_command worker = codes "litestar workers run"

pub data Signal : Type 0 where
  sigterm sigkill : Signal

-- The answers of the operating system to the question of each number.
pub record Machine : Type 0 where
  -- os.kill(pid, 0)
  pub alive : ℕ → ℤ → Bool
  -- ps -o lstart= and ps -o command=, an empty text when ps fails
  pub started : ℕ → ℤ → Text
  pub command : ℕ → ℤ → Text
  -- os.getpgid, `none` for a ProcessLookupError
  pub group : ℕ → ℤ → Option ℤ
  -- whether os.killpg raises a ProcessLookupError
  pub lost : ℕ → ℤ → Bool
  -- subprocess.Popen, which answers the number of the new process, and whether poll() then answers
  -- that it has ended
  pub spawned : ℕ → ℤ
  pub exited : ℕ → ℤ → Bool

-- The processes of processes.json, the signals that were sent, the last one first, and how many
-- questions were asked.
pub record Desk : Type 0 where
  pub recorded : Fields
  pub signals : List (ℤ × Signal)
  pub questions : ℕ

unfoldable pub ask : {A : Type 0} → (ℕ → A) → Exec Desk A
ask answer s = (ok (answer s.questions), record s { questions = s.questions + 1 })

-- pid_alive, _pid_started_signature and _pid_command
unfoldable pub pid_alive : Machine → ℤ → Exec Desk Bool
unfolding ask
pid_alive m pid = ask (λ n. m.alive n pid)

unfoldable pub pid_started_signature : Machine → ℤ → Exec Desk Text
unfolding ask
pid_started_signature m pid = ask (λ n. strip (m.started n pid))

unfoldable pub pid_command : Machine → ℤ → Exec Desk Text
unfolding ask
pid_command m pid = ask (λ n. strip (m.command n pid))

-- The last test of `pid_owned`.
unfoldable pub runs_command : Machine → ProcessName → ℤ → Exec Desk Bool
runs_command m name pid = do
  command ← pid_command m pid
  pure (contains (expected_command name) command)

-- The test of the signature, which is a text that is not empty.
unfoldable pub has_signature : Machine → ProcessName → ℤ → Option Text → Exec Desk Bool
unfolding runs_command
has_signature m name pid (some signature) = if is_empty signature then pure false else (do
  current ← pid_started_signature m pid
  if text_eq current signature then runs_command m name pid else pure false)
has_signature m name pid none = pure false

unfoldable pub owns_pid : Machine → ProcessName → Fields → Option ℤ → Exec Desk Bool
unfolding has_signature get
owns_pid m name metadata none = pure false
owns_pid m name metadata (some pid) = do
  is_alive ← pid_alive m pid
  if is_alive
      then has_signature m name pid (as_str (get metadata "started_signature"))
      else pure false

unfoldable pub pid_owned : Machine → ProcessName → Fields → Exec Desk Bool
unfolding owns_pid get
pid_owned m name metadata = owns_pid m name metadata (pid_of (get metadata "pid"))

-- os.killpg
unfoldable pub killpg : Machine → ℤ → Signal → Exec Desk (Unit {0})
killpg m group signal s =
    if m.lost s.questions group
    then (err (runtime_error "ProcessLookupError"), record s { questions = s.questions + 1 })
    else (ok tt, record s { questions = s.questions + 1; signals = (group, signal) ∷ s.signals })

-- processes.pop(name, None), and _save_processes
abbrev pub without : String → Fields → Fields
without name end = end
without name (field key value rest) =
    let others = without name rest in if str_eq key name then others else field key value others

unfoldable pub forget : ProcessName → Exec Desk (Unit {0})
forget name s = (ok tt, record s { recorded = without (key_of name) s.recorded })

-- `pgid if isinstance(pgid, int) else os.getpgid(pid)`
unfoldable pub target_group : Machine → ℤ → Option ℤ → Exec Desk ℤ
unfolding ask
target_group m pid (some pgid) = pure pgid
target_group m pid none = do
  found ← ask (λ n. m.group n pid)
  or_raise found (runtime_error "ProcessLookupError")

-- The loop that waits, with the number of rounds until the deadline.
unfoldable pub wait : Machine → ℤ → ℕ → Exec Desk (Unit {0})
unfolding pid_alive
wait m pid zero = do pid_alive m pid; pure tt
wait m pid (suc rounds) = do
  is_alive ← pid_alive m pid
  if is_alive then wait m pid rounds else pure tt

pub data Stopped : Type 0 where
  not_recorded malformed stale stopped : Stopped

-- What is done to a process that is owned.
unfoldable pub stop_group : Machine → ProcessName → ℤ → ℤ → ℕ → Exec Desk Stopped
unfolding killpg wait pid_alive forget
stop_group m name pid group rounds = do
  killpg m group sigterm
  wait m pid rounds
  is_alive ← pid_alive m pid
  (if is_alive then killpg m group sigkill else pure tt)
  forget name
  pure stopped

-- Behind the check of ownership, and the call with it.
unfoldable pub stop_if_owned : Machine → ProcessName → Fields → ℤ → ℕ → Bool → Exec Desk Stopped
unfolding target_group stop_group get
stop_if_owned m name metadata pid rounds false =
    raise (runtime_error "The recorded PID no longer matches; refusing to kill it.")
stop_if_owned m name metadata pid rounds true = do
  group ← target_group m pid (pid_of (get metadata "pgid"))
  stop_group m name pid group rounds

unfoldable pub stop_owned : Machine → ProcessName → Fields → ℤ → ℕ → Exec Desk Stopped
unfolding pid_owned stop_if_owned
stop_owned m name metadata pid rounds = do
  is_owned ← pid_owned m name metadata
  stop_if_owned m name metadata pid rounds is_owned

-- The same for the first question whether the process is alive.
unfoldable pub stop_if_alive : Machine → ProcessName → Fields → ℤ → ℕ → Bool → Exec Desk Stopped
unfolding stop_owned forget
stop_if_alive m name metadata pid rounds false = do forget name; pure stale
stop_if_alive m name metadata pid rounds true = stop_owned m name metadata pid rounds

unfoldable pub stop_pid : Machine → ProcessName → Fields → Option ℤ → ℕ → Exec Desk Stopped
unfolding pid_alive stop_if_alive forget
stop_pid m name metadata none rounds = do forget name; pure malformed
stop_pid m name metadata (some pid) rounds = do
  is_alive ← pid_alive m pid
  stop_if_alive m name metadata pid rounds is_alive

unfoldable pub stop_recorded : Machine → ProcessName → Option Fields → ℕ → Exec Desk Stopped
unfolding stop_pid get
stop_recorded m name none rounds = pure not_recorded
stop_recorded m name (some metadata) rounds =
    stop_pid m name metadata (pid_of (get metadata "pid")) rounds

unfoldable pub stop_process : Machine → ProcessName → ℕ → Exec Desk Stopped
unfolding stop_recorded get
stop_process m name rounds s =
    stop_recorded m name (as_dict (get s.recorded (key_of name))) rounds s
