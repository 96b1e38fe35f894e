-- ===== src/Tools/Dev/Stack/Entries.antt =====
-- What is written to .run/stack.env for a configuration are entries that read_dotenv gives back.
use lsstack.Prelude.{All, List, [], any, false, refl, some, ◌==◌, ◌∷◌, ◌≡◌}
use lsstack.Prelude.Int.{ℤ}
use lsstack.Text.{Text, codes, is_space, lstrip, rstrip, starts_with, strip, text_eq}
use lsstack.Tools.Dev.Dotenv.{ends_line, is_quoted}
use lsstack.Tools.Dev.Dotenv.RoundTrip.{IsDistinct, IsEntry}
use lsstack.Tools.Dev.Stack.{StackConfig, Surroundings, config_values, ports_of}

-- A value that a line of the file can hold.
pub record IsValue (value : Text) : Type 0 where
  pub value_line : any ends_line value ≡ false
  pub value_stripped : strip value ≡ value
  pub unquoted : is_quoted value ≡ false

-- The names of the settings are keys that a line can hold.
record IsKey (key : Text) : Type 0 where
  key_line : any ends_line key ≡ false
  key_stripped : strip key ≡ key
  no_comment : starts_with (codes "#") key ≡ false
  no_equals : any (λ d. 61 == d) key ≡ false

pair-IsEntry : (key value : Text) → IsKey key → IsValue value → IsEntry (key, value)
pair-IsEntry key value k v = record {
  key_line = k.key_line;
  value_line = v.value_line;
  key_stripped = k.key_stripped;
  value_stripped = v.value_stripped;
  no_comment = k.no_comment;
  no_equals = k.no_equals;
  unquoted = v.unquoted;
}

abbrev keys : List Text
keys =
    codes "LSSTACK_ROOT"
    ∷ codes "COMPOSE_PROJECT_NAME"
    ∷ codes "APP_PORT"
    ∷ codes "POSTGRES_PORT"
    ∷ codes "NGINX_PORT"
    ∷ codes "GRAFANA_PORT"
    ∷ codes "OTLP_GRPC_PORT"
    ∷ codes "OTLP_HTTP_PORT"
    ∷ []

keys-IsKey : All IsKey keys
unfolding any strip lstrip rstrip is_space starts_with
keys-IsKey = (
  record { key_line = refl; key_stripped = refl; no_comment = refl; no_equals = refl },
  (
    record { key_line = refl; key_stripped = refl; no_comment = refl; no_equals = refl },
    (
      record { key_line = refl; key_stripped = refl; no_comment = refl; no_equals = refl },
      (
        record { key_line = refl; key_stripped = refl; no_comment = refl; no_equals = refl },
        (
          record { key_line = refl; key_stripped = refl; no_comment = refl; no_equals = refl },
          (
            record { key_line = refl; key_stripped = refl; no_comment = refl; no_equals = refl },
            (
              record { key_line = refl; key_stripped = refl; no_comment = refl; no_equals = refl },
              (
                record {
                  key_line = refl;
                  key_stripped = refl;
                  no_comment = refl;
                  no_equals = refl;
                },
                tt,
              ),
            ),
          ),
        ),
      ),
    ),
  ),
)

pub values-IsDistinct :
    (str_of : ℤ → Text) (config : StackConfig) → IsDistinct (config_values str_of config)
unfolding text_eq
values-IsDistinct str_of config = (
  (refl, (refl, (refl, (refl, (refl, (refl, (refl, tt))))))),
  (
    (refl, (refl, (refl, (refl, (refl, (refl, tt)))))),
    (
      (refl, (refl, (refl, (refl, (refl, tt))))),
      (
        (refl, (refl, (refl, (refl, tt)))),
        ((refl, (refl, (refl, tt))), ((refl, (refl, tt)), ((refl, tt), (tt, tt)))),
      ),
    ),
  ),
)

-- A configuration that its file gives back.
pub record IsStored (m : Surroundings) (config : StackConfig) : Type 0 where
  pub stored_value : IsValue config.stack_root
  pub stored_project : IsValue config.project
  pub stored_resolved : m.resolve config.stack_root ≡ m.resolve m.this_root
  pub stored_ports :
      All
        (λ port. (m.int_of (m.str_of port) ≡ some port) × IsValue (m.str_of port))
        (ports_of config)

pub values-IsEntry :
    (m : Surroundings) (config : StackConfig)
    → IsStored m config
    → All IsEntry (config_values m.str_of config)
values-IsEntry m config v = (
  pair-IsEntry _ _ keys-IsKey.0 (v.stored_value),
  (
    pair-IsEntry _ _ keys-IsKey.1.0 (v.stored_project),
    (
      pair-IsEntry _ _ keys-IsKey.1.1.0 (v.stored_ports.0.1),
      (
        pair-IsEntry _ _ keys-IsKey.1.1.1.0 (v.stored_ports.1.0.1),
        (
          pair-IsEntry _ _ keys-IsKey.1.1.1.1.0 (v.stored_ports.1.1.0.1),
          (
            pair-IsEntry _ _ keys-IsKey.1.1.1.1.1.0 (v.stored_ports.1.1.1.0.1),
            (
              pair-IsEntry _ _ keys-IsKey.1.1.1.1.1.1.0 (v.stored_ports.1.1.1.1.0.1),
              (pair-IsEntry _ _ keys-IsKey.1.1.1.1.1.1.1.0 (v.stored_ports.1.1.1.1.1.0.1), tt),
            ),
          ),
        ),
      ),
    ),
  ),
)
