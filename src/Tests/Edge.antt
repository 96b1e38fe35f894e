-- ===== src/Tests/Edge.antt =====
-- The theorems on texts, forms and headers at small inputs.
use lsstack.Application.Auth.{SessionClaims}
use lsstack.Domain.Emails.{IsEmail, IsPassword, normalize_email_iff, validate_password_iff}
use lsstack.Domain.Tasks.{normalize_description, normalize_title}
use lsstack.Domain.Users.{normalize_email, validate_password}
use lsstack.Domain.Validation.{
  IsOptionalDescription, IsTitle, normalize_description_iff, normalize_title_iff, stored_form,
}
use lsstack.Exec.{ok}
use lsstack.Persistence.Engine.{commits}
use lsstack.Prelude.{
  All, List, [], arith, inl, inr, length, none, refl, some, ◌++◌, ◌↔◌, ◌∷◌, ◌≡◌, ◌≤◌, ◌⊎◌,
}
use lsstack.Prelude.Int.{pos}
use lsstack.Security.PublicIds.{SqidsPublicIdCodec, decode, encode}
use lsstack.Security.PublicIds.Canonical.{IsSqids, decode_iff_encode}
use lsstack.Security.Sessions.{claims_from_session, claims_to_session}
use lsstack.Security.Sessions.RoundTrip.{claims-round_trip}
use lsstack.Tests.{one_task, plain_platform}
use lsstack.Text.{codes, is_space, lstrip, or_none, rstrip, strip}
use lsstack.Values.{Fields, dict, end, field, float_le, get, int, str}
use lsstack.Web.Anonymous.{Refused, decoded_of, deletes_task, handle, protected-anonymous}
use lsstack.Web.Forms.{task_form, text, value_at}
use lsstack.Web.Forms.Agreement.{task_form-accepted}
use lsstack.Web.Middleware.{Header, resolve_request_id, response_headers}
use lsstack.Web.Middleware.Headers.{
  IsRequestId, IsSent, IsUnusable, expected_headers, resolve_request_id-IsRequestId,
  response_headers_complete,
}
use lsstack.Web.Views.{Server, WebDependencies}
use mathlib.Core.Path.{subst}

normalize_title_iff_example :
    (normalize_title (codes " a ") ≡ ok (codes "a"))
    ↔ ((codes "a" ≡ strip (codes " a ")) × IsTitle (codes "a"))
normalize_title_iff_example = normalize_title_iff (codes " a ") (codes "a")

normalize_description_iff_example :
    (normalize_description (some (codes " b ")) ≡ ok (some (codes "b"))) ↔ (
      (some (codes "b") ≡ stored_form (some (codes " b ")))
      × IsOptionalDescription (some (codes "b")))
normalize_description_iff_example =
    normalize_description_iff (some (codes " b ")) (some (codes "b"))

normalize_email_iff_example :
    (normalize_email plain_platform (codes " a@b.c") ≡ ok (codes "a@b.c")) ↔ (
      (codes "a@b.c" ≡ plain_platform.casefold (strip (plain_platform.nfkc (codes " a@b.c"))))
      × IsEmail (codes "a@b.c"))
normalize_email_iff_example = normalize_email_iff plain_platform (codes " a@b.c") (codes "a@b.c")

validate_password_iff_example :
    (validate_password plain_platform (codes "correct horse battery") (codes "a@b.c") ≡ ok tt)
    ↔ IsPassword plain_platform (codes "correct horse battery") (codes "a@b.c")
validate_password_iff_example =
    validate_password_iff plain_platform (codes "correct horse battery") (codes "a@b.c")

abbrev titled : Fields
titled = field "title" (str (codes " a ")) end

task_form-accepted_example :
    (normalize_title (value_at (task_form titled).values "title")
      ≡ ok (strip (text titled "title")))
    × (normalize_description (or_none (value_at (task_form titled).values "description"))
        ≡ ok (or_none (strip (text titled "description"))))
unfolding task_form text get strip lstrip rstrip is_space
task_form-accepted_example = task_form-accepted titled refl

abbrev codec : SqidsPublicIdCodec
codec = record { alphabet = codes "abc"; min_length = 1 }

plain-IsSqids : IsSqids plain_platform codec
plain-IsSqids = record {
  read_back = λ n s h. ground arith;
  long_enough = λ n s h.
      (let same : n ∷ [] ≡ s = ground arith in subst (λ t. 1 ≤ length t) same (omega arith));
}

decode_iff_encode_example :
    (decode plain_platform codec (5 ∷ []) ≡ ok (some 5))
    ↔ (encode plain_platform codec 5 ≡ ok (5 ∷ []))
decode_iff_encode_example =
    decode_iff_encode plain_platform codec (5 ∷ []) 5 plain-IsSqids (omega arith)

abbrev framed : List Header
framed = (codes "X-Frame-Options", codes "SAMEORIGIN") ∷ []

response_headers_complete_example :
    All (IsSent framed (response_headers (codes "r1") framed)) expected_headers
    × IsSent framed (response_headers (codes "r1") framed) (codes "x-request-id", codes "r1")
    × ((added : List Header) × (response_headers (codes "r1") framed ≡ framed ++ added))
response_headers_complete_example = response_headers_complete (codes "r1") framed

resolve_request_id-IsRequestId_example :
    IsRequestId (resolve_request_id (codes "f0") (some (codes "no spaces, please")))
    × ((some (codes "no spaces, please")
          ≡ some (resolve_request_id (codes "f0") (some (codes "no spaces, please"))))
        ⊎ (IsUnusable (some (codes "no spaces, please"))
            × (resolve_request_id (codes "f0") (some (codes "no spaces, please")) ≡ codes "f0")))
resolve_request_id-IsRequestId_example =
    resolve_request_id-IsRequestId (codes "f0") (some (codes "no spaces, please")) (
      inr (inr (omega arith, omega arith)),
      (inl (inl (omega arith, omega arith)), tt),
      omega arith,
    )

abbrev plain_web : WebDependencies
plain_web = record { platform = plain_platform; public_ids = codec; session_lifetime_seconds = 60 }

abbrev stranger : Server
stranger = record {
  world = one_task;
  session = field "user_id" (int (pos 1)) end;
  outcomes = λ n. commits;
  transactions = 0;
}

protected-anonymous_example :
    Refused
      (decoded_of plain_web (deletes_task none (1 ∷ [])))
      stranger
      (handle plain_web (deletes_task none (1 ∷ [])) stranger)
protected-anonymous_example =
    protected-anonymous plain_web (deletes_task none (1 ∷ [])) stranger
      (unfold claims_from_session get in refl)

abbrev claims : SessionClaims
claims = record { user_id = 1; session_version = 0; issued_at = 10; expires_at = 20 }

claims-round_trip_example :
    claims_from_session plain_platform (dict (claims_to_session plain_platform claims))
    ≡ some claims
claims-round_trip_example =
    claims-round_trip plain_platform claims (ground arith) refl refl (unfold float_le in refl)
