-- ===== src/Config/Load.antt =====
-- Settings as a whole: the bounds of its numbers and the validators of its fields, then the
-- validator of the model. pydantic reports every field that fails; here the first one stands for
-- them.
use lsstack.Config.{
  Settings, Url, admin_database, main_database, otlp, proxy_base, public_base, saq_database,
  test_database, validate_postgres_url, validate_security_configuration, validate_service_url,
  validate_sqids_alphabet, validate_sqids_salt,
}
use lsstack.Exec.{Error, Result, err, ok, value_error}
use lsstack.Platform.{Platform}
use lsstack.Prelude.{List, Option, [], if◌then◌else◌, none, not, some, ℕ, ◌&&◌, ◌∷◌}
use lsstack.Prelude.Int.{leb_ℤ, pos, ℤ}
use lsstack.Text.{Text}
use lsstack.Values.{Float, finite, float_le, scaled}

abbrev pub failure {ℓ} : {A : Type ℓ} → Result A → Option Error
failure (ok a) = none
failure (err e) = some e

abbrev pub first_failure : List (Option Error) → Option Error
first_failure [] = none
first_failure (none ∷ rest) = first_failure rest
first_failure (some e ∷ rest) = some e

-- Field(ge=…, le=…)
abbrev pub within : ℤ → ℕ → ℕ → Option Error
within n low high =
    if leb_ℤ (pos low) n && leb_ℤ n (pos high)
    then none
    else some (value_error "Input is out of range.")

-- Field(gt=0, le=30) of a float: the cleanup timeout
abbrev pub timely : Float → Option Error
timely x =
    if not (float_le x (finite (pos 0))) && float_le x (finite (scaled (pos 30)))
    then none
    else some (value_error "Input is out of range.")

abbrev pub field_failures : (Text → Option Url) → Settings → List (Option Error)
field_failures urlparse s =
    failure (validate_postgres_url urlparse main_database s.database_url)
    ∷ failure (validate_postgres_url urlparse admin_database s.admin_database_url)
    ∷ failure (validate_postgres_url urlparse test_database s.test_database_url)
    ∷ failure (validate_postgres_url urlparse saq_database s.saq_database_url)
    ∷ within s.session_lifetime_seconds 1 43200
    ∷ failure (validate_sqids_salt s.sqids_salt)
    ∷ failure (validate_sqids_alphabet s.sqids_alphabet)
    ∷ within s.sqids_min_length 1 64
    ∷ failure (validate_service_url urlparse public_base s.public_base_url)
    ∷ failure (validate_service_url urlparse proxy_base s.proxy_base_url)
    ∷ failure (validate_service_url urlparse otlp s.otlp_endpoint)
    ∷ timely s.transaction_cleanup_timeout_seconds
    ∷ within s.outbox_lease_seconds 1 3600
    ∷ within s.outbox_batch_size 1 1000
    ∷ []

unfoldable pub load_settings : Platform → (Text → Option Url) → Settings → Result Settings
load_settings p urlparse s = elim (first_failure (field_failures urlparse s)) [
  | some e ↦ err e
  | none ↦ validate_security_configuration p urlparse s
]
