-- ===== src/Security/PublicIds.antt =====
-- src/app/adapters/security/public_ids.py
pub mod Canonical
use lsstack.Exec.{Result, err, ok, value_error}
use lsstack.Platform.{Platform}
use lsstack.Prelude.{
  Bool, List, Option, [], any, false, if◌then◌else◌, is_empty, leb, length, ltb, map, none, some,
  sort_by, true, ℕ, ◌%◌, ◌&&◌, ◌++◌, ◌+◌, ◌/◌, ◌==◌, ◌||◌, ◌∷◌,
}
use lsstack.Text.{Text, text_eq}

-- text.encode("utf-8") of one character, and of a text
utf8_char : ℕ → List ℕ
utf8_char c =
    if ltb c 128
    then c ∷ []
    else if ltb c 2048
    then (192 + c / 64) ∷ (128 + c % 64) ∷ []
    else if ltb c 65536
    then (224 + c / 4096) ∷ (128 + c / 64 % 64) ∷ (128 + c % 64) ∷ []
    else (240 + c / 262144) ∷ (128 + c / 4096 % 64) ∷ (128 + c / 64 % 64) ∷ (128 + c % 64) ∷ []

utf8 : Text → List ℕ
utf8 [] = []
utf8 (c ∷ s) = utf8_char c ++ utf8 s

-- index.to_bytes(4, "big")
four_bytes : ℕ → List ℕ
four_bytes i = (i / 16777216 % 256) ∷ (i / 65536 % 256) ∷ (i / 256 % 256) ∷ (i % 256) ∷ []

-- a <= b, of two byte strings
bytes_le : List ℕ → List ℕ → Bool
bytes_le [] ys = true
bytes_le (x ∷ xs) [] = false
bytes_le (x ∷ xs) (y ∷ ys) = ltb x y || x == y && bytes_le xs ys

bytes_eq : List ℕ → List ℕ → Bool
bytes_eq [] [] = true
bytes_eq (x ∷ xs) (y ∷ ys) = x == y && bytes_eq xs ys
bytes_eq _ _ = false

pub enumerate : ℕ → Text → List (ℕ × ℕ)
enumerate i [] = []
enumerate i (c ∷ s) = (i, c) ∷ enumerate (i + 1) s

sort_key : Platform → Text → ℕ × ℕ → List ℕ
unfolding utf8_char utf8 four_bytes
sort_key p salt (index, character) =
    p.sha256 (utf8 salt ++ 0 ∷ (utf8 (character ∷ []) ++ four_bytes index))

-- (digest, index) <= (digest', index')
pub key_le : Platform → Text → ℕ × ℕ → ℕ × ℕ → Bool
unfolding sort_key bytes_le bytes_eq
key_le p salt a b =
    let x = sort_key p salt a in
    let y = sort_key p salt b in if bytes_eq x y then leb a.0 b.0 else bytes_le x y

unfoldable pub repeats : Text → Bool
repeats [] = false
repeats (c ∷ s) = any (λ d. d == c) s || repeats s

abbrev pub character_of : ℕ × ℕ → ℕ
character_of (index, character) = character

unfoldable pub permute_alphabet : Platform → Text → Text → Result Text
unfolding repeats enumerate key_le
permute_alphabet p alphabet salt =
    if ltb (length alphabet) 3 || repeats alphabet
    then err (value_error "The Sqids alphabet requires at least 3 unique characters.")
    else if is_empty salt
    then err (value_error "The Sqids salt must not be empty.")
    else ok (map character_of (sort_by (key_le p salt) (enumerate 0 alphabet)))

pub record SqidsPublicIdCodec : Type 0 where
  pub alphabet : Text
  pub min_length : ℕ

-- Sqids(alphabet=…, min_length=…)
abbrev open_codec : Platform → Text → ℕ → Result SqidsPublicIdCodec
open_codec p permuted min_length =
    if p.sqids_accepts permuted min_length
    then ok (record { alphabet = permuted; min_length = min_length })
    else err (value_error "Sqids refuses the alphabet or the minimum length.")

unfoldable pub new_codec : Platform → Text → Text → ℕ → Result SqidsPublicIdCodec
new_codec p salt alphabet min_length =
    if ltb min_length 1
    then err (value_error "Sqids minimum length must be positive.")
    else elim (permute_alphabet p alphabet salt) [
      | err e ↦ err e
      | ok permuted ↦ open_codec p permuted min_length
    ]

-- self._sqids.encode
abbrev pub encode_numbers : Platform → SqidsPublicIdCodec → List ℕ → Result Text
encode_numbers p codec numbers = elim (p.sqids_encode codec.alphabet codec.min_length numbers) [
  | some public_id ↦ ok public_id
  | none ↦ err (value_error "Sqids does not encode the number.")
]

unfoldable pub encode : Platform → SqidsPublicIdCodec → ℕ → Result Text
encode p codec internal_id =
    if ltb internal_id 1
    then err (value_error "Only positive internal identifiers can be encoded.")
    else encode_numbers p codec (internal_id ∷ [])

-- The test that a number is written as the text that it was read from.
abbrev pub accept_canonical : Text → ℕ → Result Text → Result (Option ℕ)
accept_canonical public_id n (err e) = err e
accept_canonical public_id n (ok again) = if text_eq again public_id then ok (some n) else ok none

-- The tests on the decoded numbers.
unfoldable pub accept_decoded :
    Platform → SqidsPublicIdCodec → Text → Option (List ℕ) → Result (Option ℕ)
accept_decoded p codec public_id none = ok none
accept_decoded p codec public_id (some []) = ok none
accept_decoded p codec public_id (some (n ∷ m ∷ ns)) = ok none
accept_decoded p codec public_id (some (n ∷ [])) =
    if ltb n 1 then ok none else accept_canonical public_id n (encode_numbers p codec (n ∷ []))

-- A ValueError of the decoder means that there is no number; one of the encoder is raised.
unfoldable pub decode : Platform → SqidsPublicIdCodec → Text → Result (Option ℕ)
unfolding accept_decoded
decode p codec public_id =
    if is_empty public_id
    then ok none
    else accept_decoded p codec public_id (p.sqids_decode codec.alphabet codec.min_length public_id)
