-- ===== src/Tests/Tools.antt =====
-- The theorems on the tools at small inputs.
use lsstack.Exec.{ok}
use lsstack.Persistence.Models.{World}
use lsstack.Prelude.{
  All, Bool, List, Option, [], all, any, arith, false, inl, is_none, ltb, map, none, not, refl,
  some, true, ℕ, ◌+◌, ◌-◌, ◌∷◌, ◌≡◌,
}
use lsstack.Prelude.Int.{pos, pos_part}
use lsstack.System.{empty_database, fresh_world}
use lsstack.Tests.{plain_platform}
use lsstack.Text.{Text, codes, is_space, lstrip, rstrip, starts_with, strip, text_eq}
use lsstack.Tools.Dev.{tool_ok}
use lsstack.Tools.Dev.Dotenv.{read_dotenv, write_dotenv}
use lsstack.Tools.Dev.Dotenv.RoundTrip.{read_dotenv-write_dotenv}
use lsstack.Tools.Dev.Ports.{Checkout, allocate_ports, port_block}
use lsstack.Tools.Dev.Ports.Complete.{allocate_ports-found}
use lsstack.Tools.Dev.Ports.Free.{IsUsable, allocate_ports-IsUsable}
use lsstack.Tools.Dev.Processes.{Desk, Machine, app}
use lsstack.Tools.Dev.Requests.{AllAllowed, Request, perform_requests-AllAllowed, starts, stops}
use lsstack.Tools.Dev.Stack.{StackConfig, Surroundings, load_config, ports_of}
use lsstack.Tools.Dev.Stack.Again.{IsPlain, load_config-again}
use lsstack.Tools.Dev.Stack.Entries.{IsValue}
use lsstack.Tools.Dev.Worktrees.{Checkouts}
use lsstack.Tools.HookPolicy.{blocked_reason}
use lsstack.Tools.HookPolicy.Blocked.{IsWord, among_flags, forced_push-blocked}
use lsstack.Tools.Seed.{seed_samples}
use lsstack.Tools.Seed.Twice.{seed_samples_twice}
use lsstack.Tools.Shlex.{lex}
use lsstack.Values.{Value, dict, end, field, int, nil, str}

push_words-IsWord :
    All IsWord (codes "/bin/git" ∷ codes "-v" ∷ codes "push" ∷ codes "origin" ∷ codes "-uf" ∷ [])
push_words-IsWord = (
  inl (omega arith, omega arith, omega arith),
  (
    inl (omega arith, omega arith, omega arith),
    (
      inl (omega arith, omega arith, omega arith),
      (
        inl (omega arith, omega arith, omega arith),
        (inl (omega arith, omega arith, omega arith), tt),
      ),
    ),
  ),
)

forced_push-blocked_example :
    is_none (blocked_reason (codes "cd x && /bin/git -v push origin -uf")) ≡ false
unfolding lex text_eq all lsstack.Tools.HookPolicy.path_name lsstack.Prelude.select
    lsstack.Text.split_on starts_with any
forced_push-blocked_example =
    forced_push-blocked (codes "cd x && /bin/git -v push origin -uf")
      (codes "cd" ∷ codes "x" ∷ codes "&&" ∷ []) [] (codes "-v" ∷ []) (codes "origin" ∷ []) [] []
      (codes "/bin/git") (codes "-uf") refl push_words-IsWord refl
      (among_flags b'u' [] [] (omega arith) refl)

abbrev linked : Checkout
linked = record { override = none; is_primary = true; resolved_digest = 7; root_digest = 9 }

-- Everything up to 44000 is in use.
abbrev from_44000 : ℕ → Bool
from_44000 port = not (ltb port 44000)

allocate_ports-IsUsable_example : IsUsable from_44000 (port_block 44009)
unfolding allocate_ports all
allocate_ports-IsUsable_example = allocate_ports-IsUsable from_44000 linked (port_block 44009) refl

allocate_ports-found_example : (ports : List ℕ) × (allocate_ports from_44000 linked ≡ tool_ok ports)
unfolding all
allocate_ports-found_example = allocate_ports-found from_44000 linked 450 refl (omega arith) refl

abbrev entries : List (Text × Text)
entries = (codes "APP_PORT", codes "8000") ∷ (codes "NAME", codes "a = b") ∷ []

read_dotenv-write_dotenv_example : read_dotenv (some (write_dotenv entries)) ≡ entries
unfolding any strip lstrip rstrip is_space text_eq starts_with
read_dotenv-write_dotenv_example =
    read_dotenv-write_dotenv entries
      (
        record {
          key_line = refl;
          value_line = refl;
          key_stripped = refl;
          value_stripped = refl;
          no_comment = refl;
          no_equals = refl;
          unquoted = refl;
        },
        (
          record {
            key_line = refl;
            value_line = refl;
            key_stripped = refl;
            value_stripped = refl;
            no_comment = refl;
            no_equals = refl;
            unquoted = refl;
          },
          tt,
        ),
      )
      ((refl, tt), (tt, tt))

abbrev merged_request : Bool × Option Value
merged_request = (
  true,
  some (dict (field "state" (str (codes "MERGED")) (field "mergedAt" (str (codes "now")) end))),
)

abbrev two_checkouts : Checkouts
two_checkouts = record {
  current_root = codes "/a";
  resolve = λ path. path;
  worktree_list = codes "worktree /a\nbranch refs/heads/main\n\nworktree /b\nbranch refs/heads/x\n";
  git_status = λ path. [];
  request = λ branch. merged_request;
  process_file = λ path. none;
  is_alive = λ pid. false;
  stack_file = λ path. none;
  has_docker = false;
  containers = λ project. record { succeeded = true; stdout = [] };
}

abbrev ada_alone : World
ada_alone = record fresh_world {
  db = record empty_database {
    users =
        record {
          id = 1;
          email_normalized = codes "ada@example.org";
          password_hash = [];
          session_version = 0;
          created_at = 10;
          updated_at = 10;
        }
        ∷ [];
    last_user_id = 1;
  };
}

abbrev seeded : World
seeded = (seed_samples plain_platform 1 ada_alone).1

seed_samples_twice_example : seed_samples plain_platform 1 seeded ≡ (ok 0, seeded)
unfolding seed_samples lsstack.Exec.◌>>=◌ lsstack.Persistence.Tasks.list_owned any
    lsstack.Prelude.sort_by lsstack.Prelude.select lsstack.Application.Tasks.create_task
    lsstack.Security.Passwords.now lsstack.Domain.Tasks.normalize_title strip rstrip lstrip is_space
    lsstack.Domain.Tasks.normalize_description lsstack.Persistence.Tasks.add
    lsstack.Persistence.Models.check_task lsstack.Application.Tasks.result_of_task
    lsstack.Security.Passwords.new_uuid lsstack.Application.Tasks.announce_task
    lsstack.Application.Tasks.message_id_or_new lsstack.Application.Tasks.toggle_task
    lsstack.Domain.Tasks.with_completion lsstack.Persistence.Models.check_message
    lsstack.Persistence.Outbox.add lsstack.Persistence.Tasks.get_owned
    lsstack.Persistence.Tasks.update lsstack.Prelude.Table.find lsstack.Prelude.Table.insert_row
    lsstack.Prelude.Table.update_where text_eq
seed_samples_twice_example =
    seed_samples_twice plain_platform 1 ada_alone seeded 3 (record { distinct = tt; drawn = tt })
      refl

abbrev live_app : Machine
live_app = record {
  alive = λ n pid. true;
  started = λ n pid. codes "Mon";
  command = λ n pid. codes "uv run litestar run";
  group = λ n pid. some pid;
  lost = λ n group. false;
  spawned = λ n. pos 9;
  exited = λ n pid. false;
}

abbrev one_app : Desk
one_app = record {
  recorded =
      field "app"
        (dict (field "pid" (int (pos 7)) (field "started_signature" (str (codes "Mon")) end))) end;
  signals = [];
  questions = 0;
}

abbrev restart : List Request
restart =
    stops app 3
    ∷ starts app (record { command = nil; started_at = codes "now"; log = codes "app.log" })
    ∷ []

perform_requests-AllAllowed_example : AllAllowed live_app restart one_app
perform_requests-AllAllowed_example = perform_requests-AllAllowed live_app restart one_app

-- A number is the one character after 1000000 others.
abbrev plain_stack : Surroundings
plain_stack = record {
  int_of = λ s. elim s [ [] ↦ none | c ∷ rest ↦ some (pos (c - 1000000)) ];
  str_of = λ n. (1000000 + pos_part n) ∷ [];
  resolve = λ path. path;
  hexdigest = λ s. codes "0123456789abcdef";
  this_root = codes "/home/ada/lsstack";
  is_free = from_44000;
  checkout = linked;
}

plain_stack-number : (n : ℕ) → IsValue (plain_stack.str_of (pos n))
unfolding any strip lstrip rstrip is_space
plain_stack-number n = record {
  value_line = ground arith;
  value_stripped = ground arith;
  unquoted = ground arith;
}

plain_stack-IsPlain : IsPlain plain_stack
unfolding any strip lstrip rstrip is_space
plain_stack-IsPlain = record {
  reads_back = λ n h. grind arith;
  number = λ n h. plain_stack-number n;
  root_value = record { value_line = refl; value_stripped = refl; unquoted = refl };
  project_value = record { value_line = refl; value_stripped = refl; unquoted = refl };
  resolved = refl;
}

load_config-again_example :
    (config : StackConfig) × (file : Text) × (ports_of config ≡ map pos (port_block 44009))
    × (load_config plain_stack true none ≡ (tool_ok (some config), some file))
    × (load_config plain_stack true (some file) ≡ (tool_ok (some config), some file))
unfolding allocate_ports all
load_config-again_example =
    load_config-again plain_stack (port_block 44009) plain_stack-IsPlain refl
