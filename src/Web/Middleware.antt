-- ===== src/Web/Middleware.antt =====
-- src/app/adapters/web/middleware.py: the request identifier and the response headers. Header names
-- and values are bytes.
pub mod Headers
use lsstack.Prelude.{
  Bool, List, Option, [], all, any, false, if◌then◌else◌, leb, length, ltb, map, none, not, select,
  some, ℕ, ◌&&◌, ◌++◌, ◌+◌, ◌==◌, ◌||◌, ◌∷◌,
}
use lsstack.Text.{Text, codes, text_eq}

unfoldable pub is_letter_or_digit : ℕ → Bool
is_letter_or_digit c =
    leb b'A' c && leb c b'Z' || leb b'a' c && leb c b'z' || leb b'0' c && leb c b'9'

unfoldable pub is_tail_character : ℕ → Bool
unfolding is_letter_or_digit
is_tail_character c = is_letter_or_digit c || c == b'.' || c == b'_' || c == b'-'

-- _VALID_REQUEST_ID.fullmatch: ^[A-Za-z0-9][A-Za-z0-9._-]{0,127}$
unfoldable pub is_request_id : Text → Bool
unfolding is_letter_or_digit is_tail_character
is_request_id [] = false
is_request_id (c ∷ s) = is_letter_or_digit c && all is_tail_character s && leb (length s) 127

-- `fresh` is uuid.uuid4().hex
unfoldable pub resolve_request_id : Text → Option Text → Text
resolve_request_id fresh none = fresh
resolve_request_id fresh (some raw) = if is_request_id raw then raw else fresh

abbrev pub Header : Type 0
Header = Text × Text

abbrev pub request_id_header : Text
request_id_header = codes "x-request-id"

abbrev pub security_headers : List Header
security_headers =
    (
      codes "content-security-policy",
      codes
          "default-src 'self'; base-uri 'self'; form-action 'self'; frame-ancestors 'none'; object-src 'none'; script-src 'self'; style-src 'self'; img-src 'self'; connect-src 'self'",
    )
    ∷ (codes "x-content-type-options", codes "nosniff")
    ∷ (codes "x-frame-options", codes "DENY")
    ∷ (codes "referrer-policy", codes "no-referrer")
    ∷ (
      codes "permissions-policy",
      codes "camera=(), display-capture=(), geolocation=(), microphone=(), payment=(), usb=()",
    )
    ∷ []

-- bytes.lower() of one byte, and of a name
lower_byte : ℕ → ℕ
lower_byte c = if leb b'A' c && leb c b'Z' then c + 32 else c

unfoldable pub lower : Text → Text
unfolding lower_byte
lower name = map lower_byte name

-- value.decode("ascii", errors="ignore")
unfoldable pub decode_ascii : Text → Text
decode_ascii value = select (λ c. ltb c 128) value

-- The loop over the request headers, up to the first with the name.
unfoldable pub raw_request_id : List Header → Option Text
raw_request_id [] = none
raw_request_id ((name, value) ∷ rest) =
    if text_eq (lower name) request_id_header
    then some (decode_ascii value)
    else raw_request_id rest

-- name in existing_names
unfoldable pub has_header : List Header → Text → Bool
has_header headers name = any (λ h. text_eq (lower h.0) name) headers

-- `send_with_headers` on the headers of http.response.start
unfoldable pub response_headers : Text → List Header → List Header
response_headers request_id headers =
    (headers
      ++ (if has_header headers request_id_header
          then []
          else (request_id_header, request_id) ∷ []))
    ++ select (λ h. not (has_header headers h.0)) security_headers

-- What the middleware makes of one request: the identifier, and the headers of the answer.
unfoldable pub handle_headers : Text → List Header → List Header → List Header
handle_headers fresh request_headers headers =
    response_headers (resolve_request_id fresh (raw_request_id request_headers)) headers
