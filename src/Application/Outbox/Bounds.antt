-- ===== src/Application/Outbox/Bounds.antt =====
-- The bounds that the outbox use cases check.
use lsstack.Persistence.Outbox
use lsstack.Application.Outbox.{ClaimedMessage, claim_messages, claimed_of_message, safe_error}
use lsstack.Exec.{ok, pure, ◌>>=◌}
use lsstack.Exec.Inversion.{Returns, Returns-bind, bind_ok, raise_if_ok}
use lsstack.Persistence.Models.{World}
use lsstack.Persistence.Outbox.Progress.{length-claim_batch-le}
use lsstack.Platform.{Platform}
use lsstack.Prelude.{
  Bool-cases, List, ap, arith, false, inl, inr, is_empty, length, length-map, length-take-le, map,
  refl, take, ◌+◌, ◌≡◌, ◌≤◌,
}
use lsstack.Prelude.Int.{pos_part, ℤ}
use lsstack.Security.Passwords.{now}
use lsstack.Text.{Text, strip}

-- The batch itself, behind the checks of `claim_messages`.
taken-Returns :
    (p : Platform) (owner : Text) (lease_duration limit : ℤ)
    → Returns
        (λ ms w. length ms ≤ pos_part limit)
        (do
          time ← now p
          claimed ← Outbox.claim_batch owner time (time + pos_part lease_duration) (pos_part limit)
          pure (map claimed_of_message claimed))
unfolding pure
taken-Returns p owner lease_duration limit = Returns-bind _ _ _ λ time. record {
  ends = λ s t ms h.
      let (claimed, u, batch, last) = bind_ok _ _ s t ms h in
      let same : ms ≡ map claimed_of_message claimed = ground (arith, last) in
      omega (
        arith,
        ap length same,
        length-map claimed claimed_of_message,
        length-claim_batch-le owner time (time + pos_part lease_duration) (pos_part limit) s u
            claimed batch,
      );
}

-- A claim that returns was asked for by a named owner, for a positive time and between 1 and 1000
-- messages, and answers at most as many.
pub claim_messages-bounds :
    (p : Platform) (owner : Text) (lease_duration limit : ℤ) (w w' : World)
    (ms : List ClaimedMessage)
    → claim_messages p owner lease_duration limit w ≡ (ok ms, w')
    → (is_empty owner ≡ false)
      × (1 ≤ pos_part lease_duration)
      × (1 ≤ pos_part limit)
      × (pos_part limit ≤ 1000)
      × (length ms ≤ pos_part limit)
unfolding claim_messages
claim_messages-bounds p owner lease_duration limit w w' ms h =
    let (x, a, named, k1) = bind_ok _ _ w w' ms h in
    let (y, b, timed, k2) = bind_ok _ _ a w' ms k1 in
    let (z, c, sized, k3) = bind_ok _ _ b w' ms k2 in
    let owned = raise_if_ok _ _ w a x named in
    let lasting = raise_if_ok _ _ a b y timed in
    let fitting = raise_if_ok _ _ b c z sized in
    (
      owned.0,
      ground (arith, lasting.0),
      ground (arith, fitting.0),
      ground (arith, fitting.0),
      (taken-Returns p owner lease_duration limit).ends c w' ms k3,
    )

-- The error that is stored of a failed publication is never blank and has at most 2000 characters.
pub safe_error-bounds :
    (error : Text) → (is_empty (safe_error error) ≡ false) × (length (safe_error error) ≤ 2000)
unfolding safe_error
safe_error-bounds error = elim (Bool-cases (is_empty (take 2000 (strip error)))) [
  | inl blank ↦ rw blank (refl, omega arith)
  | inr kept ↦ rw kept (kept, length-take-le 2000 (strip error))
]
