-- ===== src/Tools/Dev.antt =====
-- tools/dev.py: the parts of the development coordinator that compute. What it asks of the machine
-- (which ports are free, what a file holds) is an argument.
pub mod Ports
pub mod Dotenv
pub mod Worktrees
pub mod Processes
pub mod Stack
pub mod Start
pub mod Requests
use lsstack.Prelude.{List, ℕ}

-- The cases in which the modelled functions raise a ToolError.
pub data ToolError : Type 0 where
  base_not_integer base_out_of_range no_free_block : ToolError
  busy_ports : List ℕ → ToolError
  primary_branch no_worktree current_checkout unverified_request : ToolError
  unmerged_request local_changes still_running no_project : ToolError
  no_docker unverified_stack running_stack : ToolError
  incomplete_config other_worktree : ToolError
  -- the exception of another class that JSON or a listing of an unexpected form causes
  unexpected_form : ToolError

pub data ToolResult {ℓ} (A : Type ℓ) : Type ℓ where
  tool_ok : A → ToolResult A
  tool_error : ToolError → ToolResult A
