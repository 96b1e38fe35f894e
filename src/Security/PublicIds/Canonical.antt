-- ===== src/Security/PublicIds/Canonical.antt =====
-- Public identifiers and task numbers correspond one to one.
use lsstack.Exec.{Result, err, ok}
use lsstack.Platform.{Platform}
use lsstack.Prelude.{
  Bool-cases, List, Option, Option-cases, [], ap, arith, false, inl, inr, is_empty, length, ltb,
  none, refl, some, ℕ, ◌↔◌, ◌∙◌, ◌∷◌, ◌≡◌, ◌≤◌,
}
use lsstack.Security.PublicIds.{
  SqidsPublicIdCodec, accept_canonical, accept_decoded, decode, encode, encode_numbers,
}
use lsstack.Text.{Text, text_eq, text_eq_refl, text_eq→eq}

-- What the documentation of Sqids promises of a text that it writes for one number: it is read as
-- that number, and it is not shorter than the minimum length.
pub record IsSqids (p : Platform) (codec : SqidsPublicIdCodec) : Type 0 where
  pub read_back :
      (n : ℕ) (s : Text)
      → p.sqids_encode codec.alphabet codec.min_length (n ∷ []) ≡ some s
      → p.sqids_decode codec.alphabet codec.min_length s ≡ some (n ∷ [])
  pub long_enough :
      (n : ℕ) (s : Text)
      → p.sqids_encode codec.alphabet codec.min_length (n ∷ []) ≡ some s
      → codec.min_length ≤ length s

filled : (s : Text) → 1 ≤ length s → is_empty s ≡ false
filled [] h = absurd (omega (arith, h))
filled (c ∷ s) h = refl

module _ (p : Platform) (codec : SqidsPublicIdCodec) where
  accepted-encode :
      (s : Text) (n k : ℕ) (again : Result Text)
      → accept_canonical s k again ≡ ok (some n)
      → (n ≡ k) × (again ≡ ok s)
  accepted-encode s n k (err e) h = absurd (ground (arith, h))
  accepted-encode s n k (ok t) h = elim (Bool-cases (text_eq t s)) [
    | inl same ↦ let h' = rw same at h in (ground (arith, h'), ap ok (text_eq→eq t s same))
    | inr other ↦ let h' = rw other at h in absurd (ground (arith, h'))
  ]

  found-encode :
      (s : Text) (found : Option (List ℕ)) (n : ℕ)
      → accept_decoded p codec s found ≡ ok (some n)
      → encode p codec n ≡ ok s
  unfolding accept_decoded encode
  found-encode s none n h = absurd (ground (arith, h))
  found-encode s (some []) n h = absurd (ground (arith, h))
  found-encode s (some (m ∷ k ∷ ks)) n h = absurd (ground (arith, h))
  found-encode s (some (m ∷ [])) n h = elim (Bool-cases (ltb m 1)) [
    | inl low ↦ let h' = rw low at h in absurd (ground (arith, h'))
    | inr positive ↦
        let h' = rw positive at h in
        let (same, written) = accepted-encode s n m (encode_numbers p codec (m ∷ [])) h' in
        rw (same, positive) written
  ]

  decode-encode : (s : Text) (n : ℕ) → decode p codec s ≡ ok (some n) → encode p codec n ≡ ok s
  unfolding decode
  decode-encode s n h = elim (Bool-cases (is_empty s)) [
    | inl e ↦ let h' = rw e at h in absurd (ground (arith, h'))
    | inr e ↦ found-encode s (p.sqids_decode codec.alphabet codec.min_length s) n (rw e at h)
  ]

  written-decode :
      (s : Text) (n : ℕ)
      → is_empty s ≡ false
      → ltb n 1 ≡ false
      → p.sqids_decode codec.alphabet codec.min_length s ≡ some (n ∷ [])
      → p.sqids_encode codec.alphabet codec.min_length (n ∷ []) ≡ some s
      → decode p codec s ≡ ok (some n)
  unfolding decode accept_decoded
  written-decode s n there positive reads written =
      rw (there, reads, positive, encode_numbers, written, text_eq_refl s) refl

  encode-decode :
      (s : Text) (n : ℕ)
      → IsSqids p codec
      → 1 ≤ codec.min_length
      → encode p codec n ≡ ok s
      → decode p codec s ≡ ok (some n)
  unfolding encode
  encode-decode s n v long h = elim (Bool-cases (ltb n 1)) [
    | inl low ↦ let h' = rw low at h in absurd (ground (arith, h'))
    | inr positive ↦
        let h' = rw positive at h in
        elim (Option-cases (p.sqids_encode codec.alphabet codec.min_length (n ∷ []))) [
          | inl unwritten ↦
              let h'' = rw (encode_numbers, unwritten) at h' in absurd (ground (arith, h''))
          | inr (t, written) ↦
              let h'' = rw (encode_numbers, written) at h' in
              let same : t ≡ s = ground (arith, h'') in
              let written' = written ∙ ap some same in
              written-decode s n (filled s (omega (arith, long, v.long_enough n s written')))
                positive (v.read_back n s written') written'
        ]
  ]

  -- For a codec with a positive minimum length, over a Sqids that reads what it writes: a text is
  -- accepted as the public identifier of a number exactly when the number is written as it.
  pub decode_iff_encode :
      (s : Text) (n : ℕ)
      → IsSqids p codec
      → 1 ≤ codec.min_length
      → (decode p codec s ≡ ok (some n)) ↔ (encode p codec n ≡ ok s)
  decode_iff_encode s n v positive = (decode-encode s n, encode-decode s n v positive)
