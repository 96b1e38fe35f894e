-- ===== src/Tools/Dev/Start.antt =====
-- _start_process of tools/dev.py, on the processes and the machine of Processes.
pub mod Signals
use lsstack.Exec.{Exec, ok, pure, raise, runtime_error, ◌>>=◌, ◌>>◌}
use lsstack.Prelude.{Bool, Option, String, false, if◌then◌else◌, is_empty, none, some, str_eq, true}
use lsstack.Prelude.Int.{ℤ}
use lsstack.Text.{Text}
use lsstack.Tools.Dev.Processes.{
  Desk, Machine, ProcessName, ask, forget, key_of, killpg, pid_alive, pid_owned,
  pid_started_signature, sigterm, target_group,
}
use lsstack.Tools.Dev.Worktrees.{pid_of}
use lsstack.Values.{Fields, Items, Value, as_dict, dict, end, field, get, int, list, str}

-- The command line, the time of the start and the path of the log, which are recorded.
pub record Launch : Type 0 where
  pub command : Items
  pub started_at : Text
  pub log : Text

-- processes[name] = metadata
abbrev pub set_field : String → Value → Fields → Fields
set_field key value end = field key value end
set_field key value (field k v rest) =
    let others = set_field key value rest in
    if str_eq k key then field k value rest else field k v others

unfoldable pub remember : ProcessName → Fields → Exec Desk (Unit {0})
remember name metadata s =
    (ok tt, record s { recorded = set_field (key_of name) (dict metadata) s.recorded })

abbrev pub metadata_of_child : Launch → ℤ → ℤ → Text → Fields
metadata_of_child launch child group signature = field "pid" (int child) (
    field "pgid" (int group) (
      field "command" (list launch.command) (
        field "started_signature" (str signature)
          (field "started_at" (str launch.started_at) (field "log" (str launch.log) end)))))

pub data Started : Type 0 where
  already_running now_running : Started

-- A child whose start cannot be read is told to end.
unfoldable pub discard_child : Machine → ℤ → Exec Desk Started
unfolding target_group killpg
discard_child m child = do
  group ← target_group m child none
  killpg m group sigterm
  raise (runtime_error "Could not record an ownership signature.")

unfoldable pub record_child : Machine → ProcessName → Launch → ℤ → Text → Exec Desk Started
unfolding target_group remember forget ask
record_child m name launch child signature = do
  group ← target_group m child none
  remember name (metadata_of_child launch child group signature)
  has_ended ← ask (λ n. m.exited n child)
  if has_ended
      then (do forget name; raise (runtime_error "The process exited during startup."))
      else pure now_running

unfoldable pub start_child : Machine → ProcessName → Launch → Exec Desk Started
unfolding ask pid_started_signature discard_child record_child
start_child m name launch = do
  child ← ask m.spawned
  signature ← pid_started_signature m child
  if is_empty signature then discard_child m child else record_child m name launch child signature

-- Behind the two questions about a recorded process: is it alive, and is it owned.
unfoldable pub keep_owned : Bool → Exec Desk Started
keep_owned true = pure already_running
keep_owned false =
    raise (runtime_error "The recorded PID is a foreign process; refusing to replace or stop it.")

unfoldable pub start_if_gone : Machine → ProcessName → Fields → Launch → Bool → Exec Desk Started
unfolding pid_owned keep_owned forget start_child
start_if_gone m name metadata launch true = do
  is_owned ← pid_owned m name metadata
  keep_owned is_owned
start_if_gone m name metadata launch false = do forget name; start_child m name launch

unfoldable pub start_pid : Machine → ProcessName → Fields → Launch → Option ℤ → Exec Desk Started
unfolding pid_alive start_if_gone forget start_child
start_pid m name metadata launch none = do forget name; start_child m name launch
start_pid m name metadata launch (some pid) = do
  is_alive ← pid_alive m pid
  start_if_gone m name metadata launch is_alive

unfoldable pub start_recorded : Machine → ProcessName → Launch → Option Fields → Exec Desk Started
unfolding start_pid start_child get
start_recorded m name launch none = start_child m name launch
start_recorded m name launch (some metadata) =
    start_pid m name metadata launch (pid_of (get metadata "pid"))

unfoldable pub start_process : Machine → ProcessName → Launch → Exec Desk Started
unfolding start_recorded get
start_process m name launch s =
    start_recorded m name launch (as_dict (get s.recorded (key_of name))) s
