-- ===== src/Config.antt =====
-- src/app/config.py: the checks that Settings makes of its values. Reading the environment and
-- converting it to these types is pydantic's work, and `urlparse` is a parameter.
pub mod Security
pub mod Load
pub mod Fit
use Prim.Native.String.{◌++◌ as ◌<>◌}
use lsstack.Exec.{Result, err, ok, value_error}
use lsstack.Platform.{Platform}
use lsstack.Prelude.{
  Bool, List, Option, String, [], all, any, false, if◌then◌else◌, is_empty, length, ltb, map, none,
  not, select, some, true, ℕ, ◌*◌, ◌+◌, ◌==◌, ◌||◌, ◌∷◌,
}
use lsstack.Prelude.Int.{negsuc, pos, ℤ}
use lsstack.Security.PublicIds.{repeats}
use lsstack.Text.{Text, codes, contains, split_on, starts_with, strip, text_eq}
use lsstack.Values.{Float}

pub data Environment : Type 0 where
  local_env test_env development_env production_env : Environment

-- parsed.port, which raises a ValueError, or is None, or a number
pub data Port : Type 0 where
  bad_port no_port : Port
  port_number : ℕ → Port

-- What urlparse makes of a text; a missing part of the authority is None.
pub record Url : Type 0 where
  pub scheme : Text
  pub hostname : Option Text
  pub username : Option Text
  pub password : Option Text
  pub path : Text
  pub query : Text
  pub fragment : Text
  pub port : Port

-- The fields that the checks read.
pub record Settings : Type 0 where
  pub environment : Environment
  pub debug : Bool
  pub database_url : Text
  pub admin_database_url : Text
  pub test_database_url : Text
  pub saq_database_url : Text
  pub session_secret : Text
  pub csrf_secret : Text
  pub session_cookie_secure : Bool
  pub session_lifetime_seconds : ℤ
  pub sqids_salt : Text
  pub sqids_alphabet : Text
  pub sqids_min_length : ℤ
  pub public_base_url : Text
  pub proxy_base_url : Text
  pub trusted_hosts : List Text
  pub otlp_endpoint : Text
  pub transaction_cleanup_timeout_seconds : Float
  pub outbox_lease_seconds : ℤ
  pub outbox_batch_size : ℤ

-- The fields that each of the two URL validators is for.
pub data DatabaseField : Type 0 where
  main_database admin_database test_database saq_database : DatabaseField

pub data ServiceField : Type 0 where
  public_base proxy_base otlp : ServiceField

-- field_name.upper()
abbrev database_name : DatabaseField → String
database_name main_database = "DATABASE_URL"
database_name admin_database = "ADMIN_DATABASE_URL"
database_name test_database = "TEST_DATABASE_URL"
database_name saq_database = "SAQ_DATABASE_URL"

abbrev service_name : ServiceField → String
service_name public_base = "PUBLIC_BASE_URL"
service_name proxy_base = "PROXY_BASE_URL"
service_name otlp = "OTLP_ENDPOINT"

-- `not text` of a part that may be None
abbrev pub is_missing : Option Text → Bool
is_missing none = true
is_missing (some s) = is_empty s

-- port is not None and port < 1
abbrev pub is_zero_port : Port → Bool
is_zero_port (port_number n) = ltb n 1
is_zero_port _ = false

-- `parsed = urlparse(value); port = parsed.port`, `none` for a ValueError
unfoldable pub parse_url : (Text → Option Url) → Text → Option Url
parse_url urlparse value = elim (urlparse value) [
  | none ↦ none
  | some parsed ↦ elim parsed.port [ bad_port ↦ none | _ ↦ some parsed ]
]

-- The scheme that a database URL must have, and what is said of another.
abbrev pub database_scheme : DatabaseField → Text
database_scheme saq_database = codes "postgresql"
database_scheme _ = codes "postgresql+psycopg"

abbrev scheme_message : DatabaseField → String
scheme_message saq_database =
    "SAQ_DATABASE_URL must start with postgresql://; +psycopg is an SQLAlchemy-only driver suffix."
scheme_message name = database_name name <> " must start with postgresql+psycopg://."

-- not parsed.hostname or not parsed.username or not parsed.path.strip("/") or parsed.fragment or …
abbrev pub is_incomplete : Url → Bool
is_incomplete parsed =
    is_missing parsed.hostname
    || is_missing parsed.username
    || all (λ c. c == b'/') parsed.path
    || not (is_empty parsed.fragment)
    || is_zero_port parsed.port

unfoldable pub validate_postgres_url : (Text → Option Url) → DatabaseField → Text → Result Text
unfolding parse_url
validate_postgres_url urlparse name value = elim (parse_url urlparse value) [
  | none ↦ err (value_error (database_name name <> " contains an invalid host or port."))
  | some parsed ↦
      if not (text_eq parsed.scheme (database_scheme name))
      then err (value_error (scheme_message name))
      else if is_incomplete parsed
      then err (
          value_error
            "Database URLs require a user, host, valid port, and database name and must not contain a fragment.")
      else ok value
]

unfoldable pub validate_sqids_alphabet : Text → Result Text
unfolding repeats
validate_sqids_alphabet value =
    if ltb (length value) 3 || repeats value
    then err (value_error "SQIDS_ALPHABET requires at least 3 unique characters.")
    else ok value

unfoldable pub validate_sqids_salt : Text → Result Text
validate_sqids_salt value =
    if is_empty (strip value) then err (value_error "SQIDS_SALT must not be empty.") else ok value

abbrev pub has_extras : Url → Bool
has_extras parsed =
    not (is_missing parsed.username)
    || not (is_missing parsed.password)
    || not (is_empty parsed.query)
    || not (is_empty parsed.fragment)
    || is_zero_port parsed.port

unfoldable pub validate_service_url : (Text → Option Url) → ServiceField → Text → Result Text
unfolding parse_url
validate_service_url urlparse name value = elim (parse_url urlparse value) [
  | none ↦ err (value_error (service_name name <> " contains an invalid host or port."))
  | some parsed ↦
      if not (text_eq parsed.scheme (codes "http") || text_eq parsed.scheme (codes "https"))
        || is_missing parsed.hostname
      then err (value_error (service_name name <> " must be an absolute HTTP(S) URL with a host."))
      else if has_extras parsed
      then err (
          value_error (
            service_name name
            <> " must use a valid port and must not contain credentials, a query, or a fragment."))
      else ok value
]

-- parse_trusted_hosts of a str; any other value is left to pydantic
unfoldable pub parse_trusted_hosts : Text → List Text
parse_trusted_hosts value = select (λ part. not (is_empty part)) (map strip (split_on b',' value))

abbrev pub is_local : Environment → Bool
is_local production_env = false
is_local _ = true

abbrev pub placeholder_markers : List Text
placeholder_markers = codes "change-me" ∷ codes "changeme" ∷ codes "placeholder" ∷ []

-- len(secret) < 32 or lowered.startswith("local-") or any(marker in lowered …)
abbrev pub is_weak : Platform → Text → Bool
is_weak p secret =
    ltb (length secret) 32
    || starts_with (codes "local-") (p.casefold secret)
    || any (λ marker. contains marker (p.casefold secret)) placeholder_markers

abbrev secret_message : String → String
secret_message name =
    name <> " must be a non-placeholder value of at least 32 characters outside local environments."

-- urlparse(url).scheme, `none` for a ValueError
abbrev pub scheme_of : (Text → Option Url) → Text → Option Text
scheme_of urlparse value = elim (urlparse value) [ none ↦ none | some parsed ↦ some parsed.scheme ]

-- The test on the public address; `urlparse` may raise a ValueError of its own.
unfoldable pub check_https : Option Text → Result (Unit {0})
check_https none = err (value_error "urlparse")
check_https (some scheme) =
    if text_eq scheme (codes "https")
    then ok tt
    else err (value_error "PUBLIC_BASE_URL must use HTTPS outside local environments.")

-- The checks outside local environments.
unfoldable pub check_deployed : Platform → (Text → Option Url) → Settings → Result (Unit {0})
unfolding check_https
check_deployed p urlparse s =
    if s.debug
    then err (value_error "DEBUG must be false outside local environments.")
    else if is_weak p s.session_secret
    then err (value_error (secret_message "SESSION_SECRET"))
    else if is_weak p s.csrf_secret
    then err (value_error (secret_message "CSRF_SECRET"))
    else if text_eq s.session_secret s.csrf_secret
    then err (
        value_error
          "SESSION_SECRET and CSRF_SECRET must be independent values outside local environments.")
    else if not s.session_cookie_secure
    then err (value_error "SESSION_COOKIE_SECURE must be true outside local environments.")
    else check_https (scheme_of urlparse s.public_base_url)

unfoldable pub check_environment : Platform → (Text → Option Url) → Settings → Result (Unit {0})
unfolding check_deployed
check_environment p urlparse s =
    if is_local s.environment then ok tt else check_deployed p urlparse s

-- The test on the hosts, behind the others.
unfoldable pub require_hosts : Settings → Result (Unit {0}) → Result Settings
require_hosts s (err e) = err e
require_hosts s (ok _) =
    if is_empty s.trusted_hosts
    then err (value_error "TRUSTED_HOSTS must contain at least one host.")
    else ok s

unfoldable pub validate_security_configuration :
    Platform → (Text → Option Url) → Settings → Result Settings
unfolding check_environment require_hosts
validate_security_configuration p urlparse s = require_hosts s (check_environment p urlparse s)

-- timedelta(seconds=n), in microseconds
abbrev pub microseconds : ℤ → ℤ
microseconds (pos n) = pos (n * 1000000)
microseconds (negsuc n) = negsuc (n * 1000000 + 999999)
