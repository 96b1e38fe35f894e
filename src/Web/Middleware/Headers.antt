-- ===== src/Web/Middleware/Headers.antt =====
-- What the middleware promises of every answer.
use lsstack.Prelude.{
  All, Bool, Bool-cases, List, Option, [], all, arith, false, if◌then◌else◌, inl, inr, leb, length,
  none, not, refl, select, some, sym, true, ℕ, ◌&&◌, ◌++◌, ◌==◌, ◌∷◌, ◌≡◌, ◌≤◌, ◌⊎◌,
}
use lsstack.Prelude.Table.Laws.{All-map}
use lsstack.Text.{Text, codes}
use lsstack.Web.Middleware.{
  Header, has_header, is_letter_or_digit, is_request_id, is_tail_character, request_id_header,
  resolve_request_id, response_headers, security_headers,
}
use mathlib.Core.List.{
  append_assoc, Mem, mem-append_left, mem-append_right, mem-cons_of_mem, mem-cons_self,
}
use mathlib.Core.Path.{subst}

-- A letter of ASCII or a digit.
abbrev pub IsAlphanumeric : ℕ → Type 0
IsAlphanumeric c = ((48 ≤ c) × (c ≤ 57)) ⊎ ((65 ≤ c) × (c ≤ 90)) ⊎ ((97 ≤ c) × (c ≤ 122))

-- One of these, or `.`, `_` or `-`.
abbrev pub IsTail : ℕ → Type 0
IsTail c = IsAlphanumeric c ⊎ (c ≡ 46) ⊎ (c ≡ 95) ⊎ (c ≡ 45)

-- An identifier of a request: 1 to 128 characters that a header may hold.
abbrev pub IsRequestId : Text → Type 0
IsRequestId [] = ⊥
IsRequestId (c ∷ s) = IsAlphanumeric c × All IsTail s × (length s ≤ 127)

is_letter_or_digit-IsAlphanumeric : (c : ℕ) → is_letter_or_digit c ≡ true → IsAlphanumeric c
unfolding is_letter_or_digit
is_letter_or_digit-IsAlphanumeric c h = elim (Bool-cases (leb 48 c && leb c 57)) [
  | inl digit ↦ inl (ground (arith, digit), ground (arith, digit))
  | inr no_digit ↦ elim (Bool-cases (leb 65 c && leb c 90)) [
    | inl large ↦ inr (inl (ground (arith, large), ground (arith, large)))
    | inr no_large ↦
        inr (inr (ground (arith, h, no_digit, no_large), ground (arith, h, no_digit, no_large)))
  ]
]

is_tail_character-IsTail : (c : ℕ) → is_tail_character c ≡ true → IsTail c
unfolding is_tail_character
is_tail_character-IsTail c h = elim (Bool-cases (is_letter_or_digit c)) [
  | inl letter ↦ inl (is_letter_or_digit-IsAlphanumeric c letter)
  | inr no_letter ↦ elim (Bool-cases (c == 46)) [
    | inl dot ↦ inr (inl (ground (arith, dot)))
    | inr no_dot ↦ elim (Bool-cases (c == 95)) [
      | inl line ↦ inr (inr (inl (ground (arith, line))))
      | inr no_line ↦ inr (inr (inr (ground (arith, h, no_letter, no_dot, no_line))))
    ]
  ]
]

tail : (s : Text) → all is_tail_character s ≡ true → All IsTail s
unfolding all
tail [] h = tt
tail (c ∷ s) h = (is_tail_character-IsTail c (ground (arith, h)), tail s (ground (arith, h)))

is_request_id-IsRequestId : (s : Text) → is_request_id s ≡ true → IsRequestId s
unfolding is_request_id
is_request_id-IsRequestId [] h = absurd (ground (arith, h))
is_request_id-IsRequestId (c ∷ s) h = (
  is_letter_or_digit-IsAlphanumeric c (ground (arith, h)),
  tail s (ground (arith, h)),
  ground (arith, h),
)

IsAlphanumeric-letter_or_digit : (c : ℕ) → IsAlphanumeric c → is_letter_or_digit c ≡ true
unfolding is_letter_or_digit
IsAlphanumeric-letter_or_digit c (inl (low, high)) = ground (arith, low, high)
IsAlphanumeric-letter_or_digit c (inr (inl (low, high))) = ground (arith, low, high)
IsAlphanumeric-letter_or_digit c (inr (inr (low, high))) = ground (arith, low, high)

IsTail-character : (c : ℕ) → IsTail c → is_tail_character c ≡ true
unfolding is_tail_character
IsTail-character c (inl letter) = ground (arith, IsAlphanumeric-letter_or_digit c letter)
IsTail-character c (inr (inl dot)) = ground (arith, dot)
IsTail-character c (inr (inr (inl line))) = ground (arith, line)
IsTail-character c (inr (inr (inr dash))) = ground (arith, dash)

all_tail : (s : Text) → All IsTail s → all is_tail_character s ≡ true
unfolding all
all_tail [] v = refl
all_tail (c ∷ s) v = ground (arith, IsTail-character c v.0, all_tail s v.1)

is_request_id_complete : (s : Text) → IsRequestId s → is_request_id s ≡ true
unfolding is_request_id
is_request_id_complete [] v = absurd v
is_request_id_complete (c ∷ s) v =
    ground (arith, IsAlphanumeric-letter_or_digit c v.0, all_tail s v.1, v.2)

-- The client sent no identifier, or none of the form.
abbrev pub IsUnusable : Option Text → Type 0
IsUnusable none = Unit
IsUnusable (some raw) = ¬ IsRequestId raw

-- The identifier of a request is always 1 to 128 letters, digits, `.`, `_` or `-`, with a letter or
-- a digit first, whatever the client sent, if a fresh one is. It is what the client sent; or it is
-- the fresh one, and the client sent none or none of this form.
pub resolve_request_id-IsRequestId :
    (fresh : Text) (raw : Option Text)
    → IsRequestId fresh
    → IsRequestId (resolve_request_id fresh raw)
      × ((raw ≡ some (resolve_request_id fresh raw))
          ⊎ (IsUnusable raw × (resolve_request_id fresh raw ≡ fresh)))
unfolding resolve_request_id
resolve_request_id-IsRequestId fresh none v = (v, inr (tt, refl))
resolve_request_id-IsRequestId fresh (some raw) v = elim (Bool-cases (is_request_id raw)) [
  | inl valid ↦ rw valid (is_request_id-IsRequestId raw valid, inl refl)
  | inr invalid ↦
      let unusable : IsUnusable (some raw) =
        λ u. let accepted = is_request_id_complete raw u in ground (arith, accepted, invalid) in
      rw invalid (v, inr (unusable, refl))
]

-- What the policy of the application is to send with every answer.
abbrev pub expected_headers : List Header
expected_headers =
    (
      codes "content-security-policy",
      codes
          "default-src 'self'; base-uri 'self'; form-action 'self'; frame-ancestors 'none'; object-src 'none'; script-src 'self'; style-src 'self'; img-src 'self'; connect-src 'self'",
    )
    ∷ (codes "x-content-type-options", codes "nosniff")
    ∷ (codes "x-frame-options", codes "DENY")
    ∷ (codes "referrer-policy", codes "no-referrer")
    ∷ (
      codes "permissions-policy",
      codes "camera=(), display-capture=(), geolocation=(), microphone=(), payment=(), usb=()",
    )
    ∷ []

-- The application named the header itself, or the answer has it with the value of the policy.
abbrev pub IsSent : List Header → List Header → Header → Type 0
IsSent headers answer h = (has_header headers h.0 ≡ true) ⊎ Mem h answer

-- What passes a test is among what the test keeps.
abbrev IsKeptBy : (keep : Header → Bool) → List Header → Header → Type 0
IsKeptBy keep hs h = (keep h ≡ false) ⊎ Mem h (select keep hs)

select-IsKeptBy : (keep : Header → Bool) (hs : List Header) → All (IsKeptBy keep hs) hs
unfolding select
select-IsKeptBy keep [] = tt
select-IsKeptBy keep (x ∷ hs) = elim (Bool-cases (keep x)) [
  | inl t ↦
      let same : select keep (x ∷ hs) ≡ x ∷ select keep hs = rw t refl in
      (
        inr (subst (Mem x) (sym same) mem-cons_self),
        All-map (IsKeptBy keep hs) (IsKeptBy keep (x ∷ hs)) hs
            (λ h there. elim there [
              | inl out ↦ inl out
              | inr m ↦ inr (subst (Mem h) (sym same) (mem-cons_of_mem x m))
            ])
            (select-IsKeptBy keep hs),
      )
  | inr f ↦
      let same : select keep (x ∷ hs) ≡ select keep hs = rw f refl in
      (
        inl f,
        All-map (IsKeptBy keep hs) (IsKeptBy keep (x ∷ hs)) hs
            (λ h there. elim there [ inl out ↦ inl out | inr m ↦ inr (subst (Mem h) (sym same) m) ])
            (select-IsKeptBy keep hs),
      )
]

identifier-IsSent :
    (request_id : Text) (headers rest : List Header)
    → IsSent headers
        ((headers
            ++ (if has_header headers request_id_header
                then []
                else (request_id_header, request_id) ∷ []))
          ++ rest)
        (request_id_header, request_id)
identifier-IsSent request_id headers rest =
    elim (Bool-cases (has_header headers request_id_header)) [
      | inl own ↦ inl own
      | inr missing ↦
          inr (rw missing (mem-append_left rest (mem-append_right headers mem-cons_self)))
    ]

-- Every answer keeps the headers that it had, and of the security headers and of the request
-- identifier each that the application did not name itself is added with its value.
pub response_headers_complete :
    (request_id : Text) (headers : List Header)
    → All (IsSent headers (response_headers request_id headers)) expected_headers
      × IsSent headers (response_headers request_id headers) (codes "x-request-id", request_id)
      × ((added : List Header) × (response_headers request_id headers ≡ headers ++ added))
unfolding response_headers
response_headers_complete request_id headers =
    let named : List Header =
      if has_header headers request_id_header then [] else (request_id_header, request_id) ∷ [] in
    let absent = λ (h : Header). not (has_header headers h.0) in
    let rest = select absent security_headers in
    (
      All-map (IsKeptBy absent security_headers) (IsSent headers ((headers ++ named) ++ rest))
          security_headers
          (λ h there. elim there [
            | inl own ↦ inl (ground (arith, own))
            | inr m ↦ inr (mem-append_right (headers ++ named) m)
          ])
          (select-IsKeptBy absent security_headers),
      identifier-IsSent request_id headers rest,
      (named ++ rest, append_assoc headers named rest),
    )
