-- ===== src/Tools/Dev/Ports/Complete.antt =====
-- When ports are found.
use lsstack.Prelude.{
  Bool, Bool-cases, List, all, ap, arith, false, inl, inr, ltb, none, refl, suc, true, zero, ℕ, ◌*◌,
  ◌+◌, ◌<◌, ◌∙◌, ◌≡◌, ◌≤◌,
}
use lsstack.Tools.Dev.{tool_ok}
use lsstack.Tools.Dev.Ports.{
  Checkout, allocate_ports, default_ports, fallback_ports, fallback_start, port_block,
  preferred_ports,
}

fallback_ports-found :
    (is_free : ℕ → Bool) (blocks base k : ℕ)
    → base + blocks * 10 ≤ 65535
    → k < blocks
    → all is_free (port_block (base + k * 10)) ≡ true
    → (ports : List ℕ) × (fallback_ports is_free blocks base ≡ tool_ok ports)
unfolding fallback_ports
fallback_ports-found is_free zero base k room low free = absurd (omega arith)
fallback_ports-found is_free (suc blocks) base zero room low free =
    let fits : ltb 65535 (base + 5) ≡ false = ground arith in
    let free' : all is_free (port_block base) ≡ true = ground (arith, free) in
    (port_block base, rw (fits, free') refl)
fallback_ports-found is_free (suc blocks) base (suc j) room low free =
    let fits : ltb 65535 (base + 5) ≡ false = ground arith in
    let (ports, e) =
      fallback_ports-found is_free blocks (base + 10) j (omega arith) (omega arith)
        (ap (λ b. all is_free (port_block b)) (omega arith) ∙ free) in
    elim (Bool-cases (all is_free (port_block base))) [
      | inl now_free ↦ (port_block base, rw (fits, now_free) refl)
      | inr busy ↦ (ports, rw (fits, busy) e)
    ]

-- Without a requested base, an allocation finds ports whenever one of the 500 blocks is free.
pub allocate_ports-found :
    (is_free : ℕ → Bool) (checkout : Checkout) (k : ℕ)
    → checkout.override ≡ none
    → k < 500
    → all is_free (port_block (fallback_start checkout + k * 10)) ≡ true
    → (ports : List ℕ) × (allocate_ports is_free checkout ≡ tool_ok ports)
unfolding allocate_ports preferred_ports
allocate_ports-found is_free checkout k unasked low free =
    elim (Bool-cases (all is_free (default_ports checkout))) [
      | inl kept ↦ (default_ports checkout, rw (unasked, kept) refl)
      | inr busy ↦
          let (ports, e) =
            fallback_ports-found is_free 500 (fallback_start checkout) k (omega arith) low free in
          (ports, rw (unasked, busy) e)
    ]
