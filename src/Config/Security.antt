-- ===== src/Config/Security.antt =====
-- What the settings of a deployed service guarantee.
-- A secret that is long enough and no placeholder.
use lsstack.Config.{
  Settings, Url, check_deployed, check_environment, check_https, is_local, is_weak,
  placeholder_markers, require_hosts, scheme_of, validate_security_configuration,
}
use lsstack.Exec.{Result, err, ok}
use lsstack.Platform.{Platform}
use lsstack.Prelude.{
  Bool-cases, Option, any, ap, arith, false, inl, inr, is_empty, length, none, refl, some, sym,
  true, ◌↔◌, ◌∙◌, ◌≡◌, ◌≤◌,
}
use lsstack.Text.{Text, codes, contains, starts_with, text_eq, text_eq→eq}

record IsSecret (p : Platform) (secret : Text) : Type 0 where
  long : 32 ≤ length secret
  not_local : starts_with (codes "local-") (p.casefold secret) ≡ false
  unmarked : any (λ marker. contains marker (p.casefold secret)) placeholder_markers ≡ false

-- What must hold outside local environments.
pub record IsDeployable (p : Platform) (urlparse : Text → Option Url) (s : Settings) : Type 0 where
  no_debug : s.debug ≡ false
  session : IsSecret p s.session_secret
  csrf : IsSecret p s.csrf_secret
  independent : text_eq s.session_secret s.csrf_secret ≡ false
  secure_cookie : s.session_cookie_secure ≡ true
  https : scheme_of urlparse s.public_base_url ≡ some (codes "https")
  hosts : is_empty s.trusted_hosts ≡ false

strong-IsSecret : (p : Platform) (secret : Text) → is_weak p secret ≡ false → IsSecret p secret
strong-IsSecret p secret h = record {
  long = ground (arith, h);
  not_local = ground (arith, h);
  unmarked = ground (arith, h);
}

IsSecret-strong : (p : Platform) (secret : Text) → IsSecret p secret → is_weak p secret ≡ false
IsSecret-strong p secret v = ground (arith, v.long, v.not_local, v.unmarked)

checked_scheme : (found : Option Text) → check_https found ≡ ok tt → found ≡ some (codes "https")
unfolding check_https
checked_scheme none h = absurd (ground arith)
checked_scheme (some s) h = ap some (text_eq→eq s (codes "https") (ground arith))

deployed-checks :
    (p : Platform) (urlparse : Text → Option Url) (s : Settings)
    → check_deployed p urlparse s ≡ ok tt
    → is_empty s.trusted_hosts ≡ false
    → IsDeployable p urlparse s
unfolding check_deployed
deployed-checks p urlparse s h hosts = elim (Bool-cases (is_weak p s.session_secret)) [
  | inl weak ↦ absurd (ground (arith, h, weak))
  | inr strong ↦ elim (Bool-cases (is_weak p s.csrf_secret)) [
    | inl weak ↦ absurd (ground (arith, h, weak))
    | inr strong' ↦ record {
      no_debug = ground (arith, h);
      session = strong-IsSecret p s.session_secret strong;
      csrf = strong-IsSecret p s.csrf_secret strong';
      independent = ground (arith, h);
      secure_cookie = ground (arith, h);
      https = checked_scheme (scheme_of urlparse s.public_base_url) (ground (arith, h));
      hosts = hosts;
    }
  ]
]

checks-deployed :
    (p : Platform) (urlparse : Text → Option Url) (s : Settings)
    → IsDeployable p urlparse s
    → check_deployed p urlparse s ≡ ok tt
unfolding check_deployed
checks-deployed p urlparse s v =
    rw
      (
        v.no_debug,
        IsSecret-strong p s.session_secret v.session,
        IsSecret-strong p s.csrf_secret v.csrf,
        v.independent,
        v.secure_cookie,
        v.https,
      )
      (unfold text_eq in refl)

required :
    (s t : Settings) (r : Result (Unit {0}))
    → require_hosts s r ≡ ok t
    → (r ≡ ok tt) × (is_empty s.trusted_hosts ≡ false) × (t ≡ s)
unfolding require_hosts
required s t (err e) h = absurd (ground arith)
required s t (ok tt) h = (refl, ground (arith, h), ground (arith, h))

-- Outside local environments the settings are accepted exactly when they are deployable.
pub validate_security_configuration_iff :
    (p : Platform) (urlparse : Text → Option Url) (s : Settings)
    → is_local s.environment ≡ false
    → (validate_security_configuration p urlparse s ≡ ok s) ↔ IsDeployable p urlparse s
unfolding validate_security_configuration
validate_security_configuration_iff p urlparse s deployed =
    let same : check_environment p urlparse s ≡ check_deployed p urlparse s =
      unfold check_environment in rw deployed refl in
    (
      λ h.
          let (checked, hosts, unchanged) = required s s (check_environment p urlparse s) h in
          deployed-checks p urlparse s (sym same ∙ checked) hosts,
      λ v.
          ap (require_hosts s) (same ∙ checks-deployed p urlparse s v)
          ∙ (unfold require_hosts in rw (v.hosts) refl),
    )
