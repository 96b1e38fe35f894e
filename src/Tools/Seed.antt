-- ===== src/Tools/Seed.antt =====
-- tools/seed.py: the demo account and its sample tasks.
pub mod Kept
pub mod Added
pub mod Twice
use lsstack.Persistence.Users
use lsstack.Persistence.Tasks
use lsstack.Application.Auth.{register}
use lsstack.Application.Tasks.{create_task, toggle_task}
use lsstack.Config.{Environment, Settings, Url, development_env, local_env}
use lsstack.Domain.Tasks.{Task}
use lsstack.Domain.Users.{User, with_password, with_rehashed_password}
use lsstack.Exec.{
  Exec, Result, err, lift, ok, or_raise, pure, runtime_error, value_error, ◌>>=◌, ◌>>◌,
}
use lsstack.Persistence.Engine.{Outcome, run}
use lsstack.Persistence.Models.{World}
use lsstack.Platform.{Platform}
use lsstack.Prelude.{
  Bool, List, Option, [], any, false, if◌then◌else◌, none, not, some, true, ℕ, ◌+◌, ◌||◌, ◌∷◌,
}
use lsstack.Security.Passwords.{PasswordVerification, hash, now, verify}
use lsstack.Text.{Text, codes, text_eq}

pub record SeedTask : Type 0 where
  pub title : Text
  pub description : Text
  pub completed : Bool

abbrev pub seed_tasks : List SeedTask
seed_tasks =
    record {
      title = codes "Review the agent workflow";
      description = codes "Explore the Justfile and AGENTS.md.";
      completed = false;
    }
    ∷ record {
      title = codes "Inspect observability traces";
      description = codes "Follow a request through the local stack.";
      completed = false;
    }
    ∷ record {
      title = codes "Run the fast test suite";
      description = codes "Use `just test-fast` before committing.";
      completed = true;
    }
    ∷ []

pub record SeedResult : Type 0 where
  pub email : Text
  pub user_created : Bool
  pub password_repaired : Bool
  pub tasks_created : ℕ

abbrev is_seedable : Environment → Bool
is_seedable local_env = true
is_seedable development_env = true
is_seedable _ = false

-- hostname in {"127.0.0.1", "localhost"}
abbrev is_loopback : Option Text → Bool
is_loopback none = false
is_loopback (some host) = text_eq host (codes "127.0.0.1") || text_eq host (codes "localhost")

-- `urlparse` may raise a ValueError.
abbrev check_hostname : Option Url → Result (Unit {0})
check_hostname none = err (value_error "urlparse")
check_hostname (some parsed) =
    if is_loopback parsed.hostname
    then ok tt
    else err (runtime_error "Database seeding requires DATABASE_URL to use localhost or 127.0.0.1.")

unfoldable pub validate_seed_target : (Text → Option Url) → Settings → Result (Unit {0})
validate_seed_target urlparse settings =
    if not (is_seedable settings.environment)
    then err
        (runtime_error "Database seeding is allowed only when APP_ENV is local or development.")
    else check_hostname (urlparse settings.database_url)

-- The user whose credentials are current, and whether the password was repaired.
unfoldable pub repair_credentials :
    Platform → Text → User → PasswordVerification → Exec World (User × Bool)
repair_credentials p password user verification =
    if not verification.valid
    then (do
      hashed ← hash p password
      time ← now p
      repaired ← Users.update_credentials (with_password user hashed time)
      pure (repaired, true))
    else elim verification.replacement_hash [
      | none ↦ pure (user, false)
      | some replacement ↦ do
        time ← now p
        rehashed ← Users.update_credentials (with_rehashed_password user replacement time)
        pure (rehashed, false)
    ]

-- The number of the user, whether it was created, and whether its password was repaired.
unfoldable pub seed_user : Platform → Text → Text → Option User → Exec World (ℕ × (Bool × Bool))
unfolding repair_credentials
seed_user p email password none = do
  auth ← register p email password
  pure (auth.user_id, (true, false))
seed_user p email password (some user) = do
  or_raise user.id (runtime_error "Seed user unexpectedly has no persisted ID.")
  verification ← verify p password user.password_hash
  current ← repair_credentials p password user verification
  user_id ← or_raise (current.0).id (runtime_error "Seed user unexpectedly lost its persisted ID.")
  pure (user_id, (false, current.1))

-- `if completed: toggle_task(…)`
unfoldable pub complete_task : Platform → ℕ → ℕ → Bool → Exec World (Unit {0})
complete_task p user_id task_id false = pure tt
complete_task p user_id task_id true = do toggle_task p user_id task_id; pure tt

-- One round of the loop, behind its `continue`.
unfoldable pub create_sample : Platform → ℕ → SeedTask → Exec World (Unit {0})
unfolding complete_task
create_sample p user_id sample = do
  created ← create_task p user_id sample.title (some sample.description) none
  complete_task p user_id created.task.id sample.completed

-- title in existing_titles
abbrev pub has_title : Text → List Task → Bool
has_title title tasks = any (λ task. text_eq task.title title) tasks

-- The loop, which counts the tasks that it creates.
unfoldable pub create_samples : Platform → ℕ → List Task → List SeedTask → Exec World ℕ
unfolding create_sample
create_samples p user_id existing [] = pure 0
create_samples p user_id existing (sample ∷ samples) =
    let rest = create_samples p user_id existing samples in
    if has_title sample.title existing
    then rest
    else (do create_sample p user_id sample; created ← rest; pure (created + 1))

-- The tasks of the account, from `existing_titles` on.
unfoldable pub seed_samples : Platform → ℕ → Exec World ℕ
unfolding create_samples
seed_samples p user_id = do
  existing ← Tasks.list_owned user_id
  create_samples p user_id existing seed_tasks

unfoldable pub seed_operation : Platform → Text → Text → Exec World SeedResult
unfolding seed_user seed_samples
seed_operation p email password = do
  user ← Users.get_by_email_for_update (p.casefold email)
  seeded ← seed_user p email password user
  tasks_created ← seed_samples p seeded.0
  pure (record {
    email = p.casefold email;
    user_created = (seeded.1).0;
    password_repaired = (seeded.1).1;
    tasks_created = tasks_created;
  })

-- seed(), once the settings are loaded.
unfoldable pub seed :
    Platform → (Text → Option Url) → Settings → Text → Text → Outcome → Exec World SeedResult
unfolding validate_seed_target seed_operation
seed p urlparse settings email password outcome = do
  lift (validate_seed_target urlparse settings)
  run outcome (seed_operation p email password)
