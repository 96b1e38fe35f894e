-- ===== src/Tools/Dev/Stack/Again.antt =====
-- What a first call of load_config writes, a second call reads.
use lsstack.Prelude.{All, List, [], arith, length, map, none, refl, some, true, ℕ, ◌∷◌, ◌≡◌, ◌≤◌}
use lsstack.Prelude.Int.{pos}
use lsstack.Text.{Text, text_eq, text_eq_refl}
use lsstack.Tools.Dev.{tool_ok}
use lsstack.Tools.Dev.Dotenv.{write_dotenv}
use lsstack.Tools.Dev.Dotenv.RoundTrip.{read_dotenv-write_dotenv}
use lsstack.Tools.Dev.Ports.{allocate_ports}
use lsstack.Tools.Dev.Ports.Free.{allocate_ports-IsUsable}
use lsstack.Tools.Dev.Stack.{
  StackConfig, Surroundings, config_from_values, config_values, load_config, new_config,
  parsed_config, ports_of, project_name, write_config,
}
use lsstack.Tools.Dev.Stack.Entries.{IsStored, IsValue, values-IsDistinct, values-IsEntry}
use lsstack.Tools.Dev.Worktrees.{entry}

-- What int() and str(), the names of files and the digest are relied on for.
pub record IsPlain (m : Surroundings) : Type 0 where
  pub reads_back : (n : ℕ) → n ≤ 65535 → m.int_of (m.str_of (pos n)) ≡ some (pos n)
  pub number : (n : ℕ) → n ≤ 65535 → IsValue (m.str_of (pos n))
  pub root_value : IsValue (m.resolve m.this_root)
  pub project_value : IsValue (project_name m)
  pub resolved : m.resolve (m.resolve m.this_root) ≡ m.resolve m.this_root

parsed-values :
    (m : Surroundings) (config : StackConfig)
    → IsStored m config
    → parsed_config m.int_of (config_values m.str_of config) ≡ some config
unfolding parsed_config entry text_eq
parsed-values m config v =
    rw
      (
        v.stored_ports.0.0, v.stored_ports.1.0.0, v.stored_ports.1.1.0.0, v.stored_ports.1.1.1.0.0,
        v.stored_ports.1.1.1.1.0.0, v.stored_ports.1.1.1.1.1.0.0,
      )
      refl

-- The file that is written for a configuration is read as it.
write_config-again :
    (m : Surroundings) (config : StackConfig)
    → IsStored m config
    → load_config m true (write_config m (some config)).1 ≡ write_config m (some config)
unfolding load_config config_from_values
write_config-again m config v =
    rw
      (
        read_dotenv-write_dotenv (config_values m.str_of config) (values-IsEntry m config v)
            (values-IsDistinct m.str_of config),
        parsed-values m config v,
        v.stored_resolved,
        text_eq_refl (m.resolve m.this_root),
      )
      refl

stored_port :
    (m : Surroundings) (n : ℕ)
    → IsPlain m
    → (1024 ≤ n) × (n ≤ 65535)
    → (m.int_of (m.str_of (pos n)) ≡ some (pos n)) × IsValue (m.str_of (pos n))
stored_port m n v range = (v.reads_back n range.1, v.number n range.1)

-- Six ports give a configuration of them.
new_config-IsStored :
    (m : Surroundings) (ports : List ℕ)
    → IsPlain m
    → length ports ≡ 6
    → All (λ port. (1024 ≤ port) × (port ≤ 65535)) ports
    → (config : StackConfig) × (new_config (m.resolve m.this_root) (project_name m) ports
        ≡ some config)
      × (ports_of config ≡ map pos ports)
      × IsStored m config
new_config-IsStored m (a ∷ b ∷ c ∷ d ∷ e ∷ f ∷ []) v six r = (
  _,
  refl,
  refl,
  record {
    stored_resolved = v.resolved;
    stored_value = v.root_value;
    stored_project = v.project_value;
    stored_ports = (
      stored_port m a v r.0,
      (
        stored_port m b v r.1.0,
        (
          stored_port m c v r.1.1.0,
          (
            stored_port m d v r.1.1.1.0,
            (stored_port m e v r.1.1.1.1.0, (stored_port m f v r.1.1.1.1.1.0, tt)),
          ),
        ),
      ),
    );
  },
)
new_config-IsStored m _ v six r = absurd (omega (arith, six))

-- Whenever ports are found, a first call of load_config returns a configuration for them and leaves
-- a file, and a second call on the file returns the same configuration and leaves the file as it
-- is. It is stated for ports that are read back as they were printed, for a root and a project that
-- a line of the file holds, and for a root that is resolved already once it was resolved.
pub load_config-again :
    (m : Surroundings) (ports : List ℕ)
    → IsPlain m
    → allocate_ports m.is_free m.checkout ≡ tool_ok ports
    → (config : StackConfig) × (file : Text) × (ports_of config ≡ map pos ports)
      × (load_config m true none ≡ (tool_ok (some config), some file))
      × (load_config m true (some file) ≡ (tool_ok (some config), some file))
unfolding load_config
load_config-again m ports v h =
    let usable = allocate_ports-IsUsable m.is_free m.checkout ports h in
    let stored = new_config-IsStored m ports v usable.six usable.in_range in
    (
      stored.0,
      write_dotenv (config_values m.str_of stored.0),
      stored.2,
      rw (h, stored.1) refl,
      write_config-again m stored.0 stored.3,
    )
