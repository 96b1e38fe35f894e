-- ===== src/Tests/Settings.antt =====
-- The theorems on the configuration at the settings of a small deployment.
use lsstack.Application.Auth.{SessionClaims, issue_session}
use lsstack.Application.Outbox.{claim_messages}
use lsstack.Config.{Settings, Url, no_port, production_env, validate_security_configuration}
use lsstack.Config.Fit.{claim_batch_now, load_settings-fits}
use lsstack.Config.Load.{load_settings}
use lsstack.Config.Security.{IsDeployable, validate_security_configuration_iff}
use lsstack.Exec.{ok}
use lsstack.Prelude.{Option, [], false, if◌then◌else◌, none, refl, some, true, ◌↔◌, ◌∷◌, ◌≡◌}
use lsstack.Prelude.Int.{pos}
use lsstack.Security.PublicIds.{SqidsPublicIdCodec, new_codec}
use lsstack.System.{fresh_world}
use lsstack.Tests.{ada, plain_platform}
use lsstack.Text.{Text, codes, text_eq}
use lsstack.Values.{finite, scaled}

-- A parser of two URLs, which the settings hold.
abbrev parse_two : Text → Option Url
parse_two value = some (record {
  scheme =
      if text_eq value (codes "db")
      then codes "postgresql+psycopg"
      else if text_eq value (codes "saq")
      then codes "postgresql"
      else codes "https";
  hostname = some (codes "localhost");
  username = if text_eq value (codes "web") then none else some (codes "app");
  password = none;
  path = codes "/app";
  query = [];
  fragment = [];
  port = no_port;
})

abbrev deployment : Settings
deployment = record {
  environment = production_env;
  debug = false;
  database_url = codes "db";
  admin_database_url = codes "db";
  test_database_url = codes "db";
  saq_database_url = codes "saq";
  session_secret = codes "0123456789abcdef0123456789abcdef";
  csrf_secret = codes "fedcba9876543210fedcba9876543210";
  session_cookie_secure = true;
  session_lifetime_seconds = pos 3600;
  sqids_salt = codes "salt";
  sqids_alphabet = codes "abc";
  sqids_min_length = pos 8;
  public_base_url = codes "web";
  proxy_base_url = codes "web";
  trusted_hosts = codes "example.org" ∷ [];
  otlp_endpoint = codes "web";
  transaction_cleanup_timeout_seconds = finite (scaled (pos 5));
  outbox_lease_seconds = pos 30;
  outbox_batch_size = pos 100;
}

validate_security_configuration_iff_example :
    (validate_security_configuration plain_platform parse_two deployment ≡ ok deployment)
    ↔ IsDeployable plain_platform parse_two deployment
validate_security_configuration_iff_example =
    validate_security_configuration_iff plain_platform parse_two deployment refl

load_settings-fits_example :
    ((c : SqidsPublicIdCodec) × (new_codec plain_platform (codes "salt") (codes "abc") 8 ≡ ok c))
    × ((claims : SessionClaims) × ((issue_session plain_platform
            (record { user_id = 1; email_normalized = ada; session_version = 0 })
            (pos 3600000000)
            fresh_world).0
          ≡ ok claims))
    × (claim_messages plain_platform (codes "relay") (pos 30000000) (pos 100) fresh_world
        ≡ claim_batch_now plain_platform (codes "relay") (pos 30000000) (pos 100) fresh_world)
unfolding load_settings lsstack.Config.validate_postgres_url text_eq lsstack.Prelude.all
    lsstack.Config.validate_sqids_salt lsstack.Text.strip lsstack.Text.rstrip lsstack.Text.lstrip
    lsstack.Text.is_space lsstack.Config.validate_sqids_alphabet lsstack.Prelude.any
    lsstack.Config.validate_service_url lsstack.Values.float_le scaled
    validate_security_configuration lsstack.Text.starts_with lsstack.Text.contains
load_settings-fits_example =
    load_settings-fits plain_platform parse_two deployment deployment
      (record { user_id = 1; email_normalized = ada; session_version = 0 }) (codes "relay")
      fresh_world refl refl (λ permuted h. refl)
