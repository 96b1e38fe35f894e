-- ===== src/Tools/Dev/Stack.antt =====
-- StackConfig, _config_from_values and load_config of tools/dev.py. `int_of` and `str_of` are int()
-- and str() of Python, and `resolve` is Path.resolve.
pub mod Entries
pub mod Again
use lsstack.Exec.{◌>>◌}
use lsstack.Prelude.{
  Bool, List, Option, String, [], false, if◌then◌else◌, none, some, take, true, ℕ, ◌++◌, ◌∷◌,
}
use lsstack.Prelude.Int.{pos, ℤ}
use lsstack.Text.{Text, codes, text_eq}
use lsstack.Tools.Dev.{
  ToolResult, incomplete_config, other_worktree, tool_error, tool_ok, unexpected_form,
}
use lsstack.Tools.Dev.Dotenv.{read_dotenv, write_dotenv}
use lsstack.Tools.Dev.Ports.{Checkout, allocate_ports}
use lsstack.Tools.Dev.Worktrees.{entry}

pub record StackConfig : Type 0 where
  pub stack_root : Text
  pub project : Text
  pub app_port : ℤ
  pub postgres_port : ℤ
  pub nginx_port : ℤ
  pub grafana_port : ℤ
  pub otlp_grpc_port : ℤ
  pub otlp_http_port : ℤ

abbrev pub int_entry : (Text → Option ℤ) → String → List (Text × Text) → Option ℤ
int_entry int_of key values = elim (entry (codes key) values) [ none ↦ none | some s ↦ int_of s ]

infixl 5 ◌>>=◌
abbrev ◌>>=◌ : {A B : Type 0} → Option A → (A → Option B) → Option B
none >>= f = none
some a >>= f = f a

-- `none` for a KeyError or a ValueError
unfoldable pub parsed_config : (Text → Option ℤ) → List (Text × Text) → Option StackConfig
unfolding entry
parsed_config int_of values = do
  stack_root ← entry (codes "LSSTACK_ROOT") values
  project ← entry (codes "COMPOSE_PROJECT_NAME") values
  app_port ← int_entry int_of "APP_PORT" values
  postgres_port ← int_entry int_of "POSTGRES_PORT" values
  nginx_port ← int_entry int_of "NGINX_PORT" values
  grafana_port ← int_entry int_of "GRAFANA_PORT" values
  otlp_grpc_port ← int_entry int_of "OTLP_GRPC_PORT" values
  otlp_http_port ← int_entry int_of "OTLP_HTTP_PORT" values
  some (record {
    stack_root = stack_root;
    project = project;
    app_port = app_port;
    postgres_port = postgres_port;
    nginx_port = nginx_port;
    grafana_port = grafana_port;
    otlp_grpc_port = otlp_grpc_port;
    otlp_http_port = otlp_http_port;
  })

-- The test that the configuration is of this worktree.
abbrev pub check_root : (Text → Text) → Text → Option StackConfig → ToolResult StackConfig
check_root resolve folder none = tool_error incomplete_config
check_root resolve folder (some config) =
    if text_eq (resolve config.stack_root) (resolve folder)
    then tool_ok config
    else tool_error other_worktree

unfoldable pub config_from_values :
    (Text → Option ℤ) → (Text → Text) → Text → List (Text × Text) → ToolResult StackConfig
unfolding parsed_config
config_from_values int_of resolve folder values =
    check_root resolve folder (parsed_config int_of values)

-- StackConfig.ports
abbrev pub ports_of : StackConfig → List ℤ
ports_of config =
    config.app_port ∷ config.postgres_port ∷ config.nginx_port ∷ config.grafana_port
    ∷ config.otlp_grpc_port ∷ config.otlp_http_port ∷ []

-- The entries that are written.
abbrev pub config_values : (ℤ → Text) → StackConfig → List (Text × Text)
config_values str_of config =
    (codes "LSSTACK_ROOT", config.stack_root)
    ∷ (codes "COMPOSE_PROJECT_NAME", config.project)
    ∷ (codes "APP_PORT", str_of config.app_port)
    ∷ (codes "POSTGRES_PORT", str_of config.postgres_port)
    ∷ (codes "NGINX_PORT", str_of config.nginx_port)
    ∷ (codes "GRAFANA_PORT", str_of config.grafana_port)
    ∷ (codes "OTLP_GRPC_PORT", str_of config.otlp_grpc_port)
    ∷ (codes "OTLP_HTTP_PORT", str_of config.otlp_http_port)
    ∷ []

-- ports[0] to ports[5] in a new configuration; `none` for an IndexError.
abbrev pub new_config : Text → Text → List ℕ → Option StackConfig
new_config folder project (a ∷ b ∷ c ∷ d ∷ e ∷ f ∷ _) = some (record {
  stack_root = folder;
  project = project;
  app_port = pos a;
  postgres_port = pos b;
  nginx_port = pos c;
  grafana_port = pos d;
  otlp_grpc_port = pos e;
  otlp_http_port = pos f;
})
new_config folder project _ = none

-- What load_config depends on, beside the file: `hexdigest` is hashlib.sha256(…).hexdigest() of a
-- text in UTF-8.
pub record Surroundings : Type 0 where
  pub int_of : Text → Option ℤ
  pub str_of : ℤ → Text
  pub resolve : Text → Text
  pub hexdigest : Text → Text
  pub this_root : Text
  pub is_free : ℕ → Bool
  pub checkout : Checkout

abbrev pub project_name : Surroundings → Text
project_name m = codes "lsstack-" ++ take 10 (m.hexdigest (m.resolve m.this_root))

abbrev found_config : ToolResult StackConfig → ToolResult (Option StackConfig)
found_config (tool_ok config) = tool_ok (some config)
found_config (tool_error e) = tool_error e

-- The configuration, and the file that holds it.
abbrev pub write_config :
    Surroundings → Option StackConfig → ToolResult (Option StackConfig) × Option Text
write_config m none = (tool_error unexpected_form, none)
write_config m (some config) =
    (tool_ok (some config), some (write_dotenv (config_values m.str_of config)))

abbrev pub create_config :
    Surroundings → ToolResult (List ℕ) → ToolResult (Option StackConfig) × Option Text
create_config m (tool_error e) = (tool_error e, none)
create_config m (tool_ok ports) =
    write_config m (new_config (m.resolve m.this_root) (project_name m) ports)

unfoldable pub load_config :
    Surroundings → Bool → Option Text → ToolResult (Option StackConfig) × Option Text
unfolding config_from_values allocate_ports read_dotenv write_dotenv
load_config m creates_it (some content) = (
  found_config (config_from_values m.int_of m.resolve m.this_root (read_dotenv (some content))),
  some content,
)
load_config m false none = (tool_ok none, none)
load_config m true none = create_config m (allocate_ports m.is_free m.checkout)
