-- ===== src/Tools/Dev/Worktrees/Guards.antt =====
-- What a cleanup removes.
use lsstack.Prelude.{Option, false, is_empty, none, some, true, ◌≡◌}
use lsstack.System.Ownership.{request}
use lsstack.Text.{Text, codes, strip, text_eq}
use lsstack.Tools.Dev.{tool_ok}
use lsstack.Tools.Dev.Dotenv.{read_dotenv}
use lsstack.Tools.Dev.Worktrees.{
  Checkouts, Removal, entry, is_merged, is_running, pid_of, processes_of, project_of, target_path,
  worktree_of_branch, worktrees,
}
use lsstack.Values.{Fields, Value, dict, end, field, get}

-- Metadata of a process that does not run.
abbrev pub IsStopped : Checkouts → Value → Type 0
IsStopped m metadata =
    (recorded : Fields) × (metadata ≡ dict recorded)
    × (is_running m (pid_of (get recorded "pid")) ≡ false)

abbrev pub AllStopped : Checkouts → Fields → Type 0
AllStopped m end = Unit
AllStopped m (field name metadata rest) = IsStopped m metadata × AllStopped m rest

-- The file of the processes of a worktree, when there is one, records none that runs.
abbrev pub NoProcess : Checkouts → Option (Option Value) → Type 0
NoProcess m none = Unit
NoProcess m (some content) =
    (payload : Fields) × (recorded : Fields) × (content ≡ some (dict payload))
    × (processes_of (get payload "processes") ≡ tool_ok recorded)
    × AllStopped m recorded

-- The Compose project of a worktree, when it has one, is known to have no containers.
abbrev pub NoContainers : Checkouts → Option Text → Type 0
NoContainers m none = Unit
NoContainers m (some content) =
    let project = project_of (entry (codes "COMPOSE_PROJECT_NAME") (read_dotenv (some content))) in
    (is_empty project ≡ false)
    × (m.has_docker ≡ true)
    × ((m.containers project).succeeded ≡ true)
    × (is_empty (strip (m.containers project).stdout) ≡ true)

-- A removal that discards nothing.
pub record IsSafe (m : Checkouts) (branch : Text) (removal : Removal) : Type 0 where
  pub listed : target_path m (worktree_of_branch branch (worktrees m)) ≡ tool_ok removal.path
  pub same_branch : removal.branch ≡ branch
  pub not_main : text_eq branch (codes "main") ≡ false
  pub not_master : text_eq branch (codes "master") ≡ false
  pub elsewhere : text_eq removal.path (m.resolve m.current_root) ≡ false
  pub merged : (pr : Fields) × (m.request branch ≡ (true, some (dict pr))) × (is_merged pr ≡ true)
  pub unchanged : is_empty (strip (m.git_status removal.path)) ≡ true
  pub stopped : NoProcess m (m.process_file removal.path)
  pub emptied : NoContainers m (m.stack_file removal.path)
