-- ===== src/Tools/Dev/Worktrees.antt =====
-- clean_worktree of tools/dev.py: what is removed, up to the three git commands that remove it.
-- What git, gh, docker, ps and the file system answer is the record Checkouts.
pub mod Guards
use lsstack.Prelude.{
  Bool, List, Option, [], false, if◌then◌else◌, is_empty, none, not, some, true, ◌&&◌, ◌++◌, ◌==◌,
  ◌||◌, ◌∷◌,
}
use lsstack.Prelude.Int.{eqb_ℤ, pos, ℤ}
use lsstack.System.Ownership.{request}
use lsstack.Text.{Text, before, behind, codes, prepend, strip, text_eq}
use lsstack.Tools.Dev.{
  ToolError, ToolResult, current_checkout, local_changes, no_docker, no_project, no_worktree,
  primary_branch, running_stack, still_running, tool_error, tool_ok, unexpected_form,
  unmerged_request, unverified_request, unverified_stack,
}
use lsstack.Tools.Dev.Dotenv.{read_dotenv, set_value, split_lines}
use lsstack.Values.{
  Fields, Value, as_dict, as_str, bool, dict, end, field, finite, float, get, int, item, list, nil,
  null, str,
}

-- The answer of a command: its return code is 0 or not, and what it printed.
pub record Answer : Type 0 where
  pub succeeded : Bool
  pub stdout : Text

pub record Checkouts : Type 0 where
  -- the current checkout, and Path.resolve
  pub current_root : Text
  pub resolve : Text → Text
  -- git worktree list --porcelain, and git status --porcelain of a path
  pub worktree_list : Text
  pub git_status : Text → Text
  -- gh pr view: whether it succeeded, and its output as JSON
  pub request : Text → Bool × Option Value
  -- .run/processes.json of a path: `none` without the file, and what it parses to
  pub process_file : Text → Option (Option Value)
  -- os.kill(pid, 0)
  pub is_alive : ℤ → Bool
  -- .run/stack.env of a path
  pub stack_file : Text → Option Text
  pub has_docker : Bool
  -- docker ps of a project
  pub containers : Text → Answer

-- str.split("\n\n"), where `pending` holds behind a newline that may begin a pair
unfoldable pub split_blocks : Bool → Text → List Text
split_blocks pending [] = (if pending then 10 ∷ [] else []) ∷ []
split_blocks true (c ∷ s) =
    let rest = split_blocks false s in if c == 10 then [] ∷ rest else prepend 10 (prepend c rest)
split_blocks false (c ∷ s) =
    let rest = split_blocks (c == 10) s in if c == 10 then rest else prepend c rest

-- record[key] = value for each line of a block
unfoldable pub record_of_lines : List (Text × Text) → List Text → List (Text × Text)
unfolding set_value
record_of_lines entries [] = entries
record_of_lines entries (line ∷ lines) =
    record_of_lines (set_value (before b' ' line, behind b' ' line) entries) lines

unfoldable pub parsed_blocks : List Text → List (List (Text × Text))
unfolding record_of_lines split_lines
parsed_blocks [] = []
parsed_blocks (block ∷ blocks) =
    let entries = record_of_lines [] (split_lines block) in
    let rest = parsed_blocks blocks in if is_empty entries then rest else entries ∷ rest

unfoldable pub worktrees : Checkouts → List (List (Text × Text))
unfolding parsed_blocks split_blocks
worktrees m = parsed_blocks (split_blocks false (strip m.worktree_list))

-- entries.get(key)
unfoldable pub entry : Text → List (Text × Text) → Option Text
entry key [] = none
entry key ((k, value) ∷ entries) =
    let rest = entry key entries in if text_eq k key then some value else rest

abbrev pub is_text : Option Text → Text → Bool
is_text none t = false
is_text (some s) t = text_eq s t

-- next(… if entry.get("branch") == f"refs/heads/{branch}")
unfoldable pub worktree_of_branch : Text → List (List (Text × Text)) → Option (List (Text × Text))
unfolding entry
worktree_of_branch branch [] = none
worktree_of_branch branch (w ∷ ws) =
    let rest = worktree_of_branch branch ws in
    if is_text (entry (codes "branch") w) (codes "refs/heads/" ++ branch) then some w else rest

-- bool(value)
abbrev pub is_truthy : Option Value → Bool
is_truthy none = false
is_truthy (some null) = false
is_truthy (some (bool b)) = b
is_truthy (some (int n)) = not (eqb_ℤ n (pos 0))
is_truthy (some (float (finite n))) = not (eqb_ℤ n (pos 0))
is_truthy (some (float _)) = true
is_truthy (some (str s)) = not (is_empty s)
is_truthy (some (list nil)) = false
is_truthy (some (list (item _ _))) = true
is_truthy (some (dict end)) = false
is_truthy (some (dict (field _ _ _))) = true

-- `pr.get("state") != "MERGED" or not pr.get("mergedAt")`, refused
unfoldable pub is_merged : Fields → Bool
unfolding get
is_merged pr = is_text (as_str (get pr "state")) (codes "MERGED") && is_truthy (get pr "mergedAt")

abbrev pub check_merged : Option Fields → ToolResult (Unit {0})
check_merged none = tool_error unexpected_form
check_merged (some pr) = if is_merged pr then tool_ok tt else tool_error unmerged_request

abbrev pub check_request : Bool × Option Value → ToolResult (Unit {0})
check_request (false, _) = tool_error unverified_request
check_request (true, pr) = check_merged (as_dict pr)

-- isinstance(pid, int), which a bool is too
abbrev pub pid_of : Option Value → Option ℤ
pid_of (some (int pid)) = some pid
pid_of (some (bool true)) = some (pos 1)
pid_of (some (bool false)) = some (pos 0)
pid_of _ = none

abbrev pub is_running : Checkouts → Option ℤ → Bool
is_running m none = false
is_running m (some pid) = m.is_alive pid

infixl 5 ◌>?=◌
abbrev pub ◌>?=◌ {ℓ κ} :
    {A : Type ℓ} {B : Type κ} → ToolResult A → (A → ToolResult B) → ToolResult B
tool_ok a >?= f = f a
tool_error e >?= f = tool_error e

infixr 5 ◌>?>◌
abbrev pub ◌>?>◌ : {B : Type 0} → ToolResult (Unit {0}) → ToolResult B → ToolResult B
r >?> next = r >?= λ _. next

abbrev pub refuse_if : Bool → ToolError → ToolResult (Unit {0})
refuse_if true e = tool_error e
refuse_if false e = tool_ok tt

abbrev pub check_metadata : Checkouts → Option Fields → ToolResult (Unit {0})
check_metadata m none = tool_error unexpected_form
check_metadata m (some metadata) =
    refuse_if (is_running m (pid_of (get metadata "pid"))) still_running

unfoldable pub check_processes : Checkouts → Fields → ToolResult (Unit {0})
unfolding get
check_processes m end = tool_ok tt
check_processes m (field name metadata rest) =
    check_metadata m (as_dict (some metadata)) >?> check_processes m rest

abbrev pub require_dict : Option Fields → ToolResult Fields
require_dict none = tool_error unexpected_form
require_dict (some fields) = tool_ok fields

-- process_payload.get("processes", {}).items()
abbrev pub processes_of : Option Value → ToolResult Fields
processes_of none = tool_ok end
processes_of (some value) = require_dict (as_dict (some value))

abbrev pub check_process_file : Checkouts → Option (Option Value) → ToolResult (Unit {0})
check_process_file m none = tool_ok tt
check_process_file m (some content) = require_dict (as_dict content) >?= λ payload.
    processes_of (get payload "processes") >?= λ recorded. check_processes m recorded

-- `not project`, of a value that may be missing
abbrev pub project_of : Option Text → Text
project_of none = []
project_of (some project) = project

abbrev pub check_containers : Answer → ToolResult (Unit {0})
check_containers answer =
    if not answer.succeeded
    then tool_error unverified_stack
    else if not (is_empty (strip answer.stdout))
    then tool_error running_stack
    else tool_ok tt

abbrev pub check_project : Checkouts → Text → ToolResult (Unit {0})
check_project m project =
    if is_empty project
    then tool_error no_project
    else if not m.has_docker
    then tool_error no_docker
    else check_containers (m.containers project)

abbrev pub check_stack_file : Checkouts → Option Text → ToolResult (Unit {0})
check_stack_file m none = tool_ok tt
check_stack_file m (some content) =
    check_project m (project_of (entry (codes "COMPOSE_PROJECT_NAME") (read_dotenv (some content))))

-- The worktree and the branch that are removed.
pub record Removal : Type 0 where
  pub path : Text
  pub branch : Text

-- The checks that follow the choice of the worktree.
abbrev pub check_target : Checkouts → Text → Text → ToolResult Removal
check_target m branch path =
    refuse_if (text_eq path (m.resolve m.current_root)) current_checkout
    >?> check_request (m.request branch)
    >?> refuse_if (not (is_empty (strip (m.git_status path)))) local_changes
    >?> check_process_file m (m.process_file path)
    >?> check_stack_file m (m.stack_file path)
    >?> tool_ok (record { path = path; branch = branch })

-- Path(target["worktree"]).resolve()
abbrev pub target_path : Checkouts → Option (List (Text × Text)) → ToolResult Text
target_path m none = tool_error no_worktree
target_path m (some w) = elim (entry (codes "worktree") w) [
  | none ↦ tool_error unexpected_form
  | some path ↦ tool_ok (m.resolve path)
]

unfoldable pub clean_worktree : Checkouts → Text → ToolResult Removal
unfolding check_processes is_merged entry worktree_of_branch worktrees
clean_worktree m branch =
    if text_eq branch (codes "main") || text_eq branch (codes "master")
    then tool_error primary_branch
    else target_path m (worktree_of_branch branch (worktrees m)) >?= λ path.
        check_target m branch path
