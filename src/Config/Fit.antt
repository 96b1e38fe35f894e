-- ===== src/Config/Fit.antt =====
-- Settings that load fit the program: what it checks of them later never fails.
use lsstack.Persistence.Outbox
use lsstack.Application.Auth.{AuthResult, SessionClaims, issue_session}
use lsstack.Application.Outbox.{ClaimedMessage, claim_messages, claimed_of_message}
use lsstack.Config.{Settings, Url, microseconds, validate_sqids_alphabet, validate_sqids_salt}
use lsstack.Config.Load.{failure, field_failures, first_failure, load_settings, within}
use lsstack.Exec.{Error, Exec, ok, pure, ◌>>=◌}
use lsstack.Persistence.Models.{World}
use lsstack.Platform.{Platform}
use lsstack.Prelude.{
  All, List, Option, Option-cases, [], arith, false, inl, inr, is_empty, length, ltb, map, none,
  refl, some, sort_by, true, ℕ, ◌+◌, ◌||◌, ◌∷◌, ◌≡◌, ◌≤◌,
}
use lsstack.Prelude.Int.{leb_ℤ, ltb_ℤ, negsuc, pos, pos_part, ℤ}
use lsstack.Security.Passwords.{now}
use lsstack.Security.PublicIds.{
  SqidsPublicIdCodec, character_of, enumerate, key_le, new_codec, permute_alphabet, repeats,
}
use lsstack.Text.{Text, lstrip, rstrip, strip}

none_failed : (xs : List (Option Error)) → first_failure xs ≡ none → All (λ x. x ≡ none) xs
none_failed [] h = tt
none_failed (none ∷ xs) h = (refl, none_failed xs h)
none_failed (some e ∷ xs) h = absurd (ground arith)

loaded :
    (p : Platform) (urlparse : Text → Option Url) (s t : Settings)
    → load_settings p urlparse s ≡ ok t
    → All (λ x. x ≡ none) (field_failures urlparse s)
unfolding load_settings
loaded p urlparse s t h = elim (Option-cases (first_failure (field_failures urlparse s))) [
  | inl fine ↦ none_failed (field_failures urlparse s) fine
  | inr (e, bad) ↦ absurd (ground (arith, h, bad))
]

within-bounds :
    (n : ℤ) (low high : ℕ)
    → within n low high ≡ none
    → 1 ≤ low
    → (low ≤ pos_part n) × (pos_part n ≤ high) × (n ≡ pos (pos_part n))
within-bounds (pos n) low high h positive = (ground (arith, h), ground (arith, h), refl)
within-bounds (negsuc n) low high h positive = absurd (ground (arith, h))

unstripped : (s : Text) → is_empty (strip s) ≡ false → is_empty s ≡ false
unfolding strip lstrip rstrip
unstripped [] h = h
unstripped (c ∷ s) h = refl

-- The batch of a claim, behind the checks of its arguments.
unfoldable pub claim_batch_now : Platform → Text → ℤ → ℤ → Exec World (List ClaimedMessage)
claim_batch_now p owner lease limit = do
  time ← now p
  claimed ← Outbox.claim_batch owner time (time + pos_part lease) (pos_part limit)
  pure (map claimed_of_message claimed)

codec-ok :
    (p : Platform) (salt alphabet : Text) (n : ℤ)
    → failure (validate_sqids_salt salt) ≡ none
    → failure (validate_sqids_alphabet alphabet) ≡ none
    → 1 ≤ pos_part n
    → ((permuted : Text)
        → permute_alphabet p alphabet salt ≡ ok permuted
        → p.sqids_accepts permuted (pos_part n) ≡ true)
    → (c : SqidsPublicIdCodec) × (new_codec p salt alphabet (pos_part n) ≡ ok c)
unfolding new_codec permute_alphabet validate_sqids_alphabet validate_sqids_salt
codec-ok p salt alphabet n salted varied long accepts =
    let salted' : is_empty salt ≡ false = unstripped salt (ground (arith, salted)) in
    let varied' : (ltb (length alphabet) 3 || repeats alphabet) ≡ false = ground (arith, varied) in
    let long' : ltb (pos_part n) 1 ≡ false = ground (arith, long) in
    let opens =
      accepts (map character_of (sort_by (key_le p salt) (enumerate 0 alphabet)))
        (rw (varied', salted') refl) in
    (
      record {
        alphabet = map character_of (sort_by (key_le p salt) (enumerate 0 alphabet));
        min_length = pos_part n;
      },
      rw (long', varied', salted', opens) refl,
    )

issue-ok :
    (p : Platform) (auth : AuthResult) (lifetime : ℤ) (w : World)
    → leb_ℤ lifetime (pos 0) ≡ false
    → (claims : SessionClaims) × ((issue_session p auth lifetime w).0 ≡ ok claims)
unfolding issue_session now ◌>>=◌
issue-ok p auth lifetime w h = (
  record {
    user_id = auth.user_id;
    session_version = auth.session_version;
    issued_at = p.utc_now w.readings;
    expires_at = p.utc_now w.readings + pos_part lifetime;
  },
  rw h refl,
)

positive : (n : ℤ) → 1 ≤ pos_part n → n ≡ pos (pos_part n) → leb_ℤ (microseconds n) (pos 0) ≡ false
positive (pos n) low same = ground (arith, low)
positive (negsuc n) low same = ground (arith, low)

fits : (n : ℤ) → within n 1 1000 ≡ none → (ltb_ℤ n (pos 1) || ltb_ℤ (pos 1000) n) ≡ false
fits (pos n) h = ground (arith, h)
fits (negsuc n) h = absurd (ground (arith, h))

claim-batch :
    (p : Platform) (owner : Text) (lease limit : ℤ) (w : World)
    → is_empty owner ≡ false
    → leb_ℤ lease (pos 0) ≡ false
    → (ltb_ℤ limit (pos 1) || ltb_ℤ (pos 1000) limit) ≡ false
    → claim_messages p owner lease limit w ≡ claim_batch_now p owner lease limit w
unfolding claim_messages claim_batch_now ◌>>=◌
claim-batch p owner lease limit w named timed sized = rw (named, timed, sized) refl

-- Settings that load give a codec for public identifiers, if Sqids itself accepts the permuted
-- alphabet with the minimum length, and a session lifetime that every sign-in
-- accepts, and a lease and a batch size with which a claim by a named worker passes the checks of
-- its arguments and is the batch itself.
pub load_settings-fits :
    (p : Platform) (urlparse : Text → Option Url) (s t : Settings) (auth : AuthResult)
    (owner : Text) (w : World)
    → load_settings p urlparse s ≡ ok t
    → is_empty owner ≡ false
    → ((permuted : Text)
        → permute_alphabet p s.sqids_alphabet s.sqids_salt ≡ ok permuted
        → p.sqids_accepts permuted (pos_part s.sqids_min_length) ≡ true)
    → ((c : SqidsPublicIdCodec) × (new_codec p s.sqids_salt s.sqids_alphabet
            (pos_part s.sqids_min_length)
          ≡ ok c))
      × ((claims : SessionClaims) × ((issue_session p auth
              (microseconds s.session_lifetime_seconds)
              w).0
            ≡ ok claims))
      × (claim_messages p owner (microseconds s.outbox_lease_seconds) s.outbox_batch_size w
          ≡ claim_batch_now p owner (microseconds s.outbox_lease_seconds) s.outbox_batch_size w)
load_settings-fits p urlparse s t auth owner w h named accepts =
    let checks = loaded p urlparse s t h in
    let (life, security) = checks.1.1.1.1 in
    let (salt, identifiers) = security in
    let (alphabet, sizes) = identifiers in
    let (long, services) = sizes in
    let (lease, batches) = services.1.1.1.1 in
    let batch = batches.0 in
    let seconds = within-bounds s.session_lifetime_seconds 1 43200 life (omega arith) in
    let leased = within-bounds s.outbox_lease_seconds 1 3600 lease (omega arith) in
    (
      codec-ok p s.sqids_salt s.sqids_alphabet s.sqids_min_length salt alphabet
          (within-bounds s.sqids_min_length 1 64 long (omega arith)).0 accepts,
      issue-ok p auth (microseconds s.session_lifetime_seconds) w
          (positive s.session_lifetime_seconds seconds.0 seconds.2),
      claim-batch p owner (microseconds s.outbox_lease_seconds) s.outbox_batch_size w named
          (positive s.outbox_lease_seconds leased.0 leased.2) (fits s.outbox_batch_size batch),
    )
