-- ===== src/Tools/Dev/Ports/Free.antt =====
-- The ports that are chosen can be used.
use lsstack.Prelude.{
  All, Bool, Bool-cases, List, Option, all, any, ap, arith, false, inl, inr, is_none, leb, length,
  ltb, none, refl, some, suc, sym, true, zero, ℕ, ◌%◌, ◌&&◌, ◌*◌, ◌+◌, ◌∙◌, ◌≡◌, ◌≤◌,
}
use lsstack.Prelude.Int.{negsuc, pos, ℤ}
use lsstack.Security.PublicIds.{repeats}
use lsstack.Tools.Dev.{ToolResult, tool_error, tool_ok}
use lsstack.Tools.Dev.Ports.{
  Checkout, allocate_ports, default_ports, fallback_ports, fallback_start, from_preferred,
  port_block, ports_from, preferred_ports, standard_ports, without_preferred,
}
use mathlib.Core.Path.{subst}

-- Six different ports that a program may bind.
pub record IsUsable (is_free : ℕ → Bool) (ports : List ℕ) : Type 0 where
  pub six : length ports ≡ 6
  pub different : repeats ports ≡ false
  pub free : all is_free ports ≡ true
  pub in_range : All (λ port. (1024 ≤ port) × (port ≤ 65535)) ports

same : {a b : List ℕ} → tool_ok a ≡ tool_ok b → a ≡ b
same h = cc

port_block-IsUsable :
    (is_free : ℕ → Bool) (base : ℕ)
    → 1024 ≤ base
    → base ≤ 65530
    → all is_free (port_block base) ≡ true
    → IsUsable is_free (port_block base)
unfolding repeats any
port_block-IsUsable is_free base low high free = record {
  six = refl;
  different = ground arith;
  free = free;
  in_range = ground arith;
}

fallback_ports-IsUsable :
    (is_free : ℕ → Bool) (blocks base : ℕ) (ports : List ℕ)
    → 1024 ≤ base
    → fallback_ports is_free blocks base ≡ tool_ok ports
    → IsUsable is_free ports
unfolding fallback_ports
fallback_ports-IsUsable is_free zero base ports low h = absurd (ground (arith, h))
fallback_ports-IsUsable is_free (suc blocks) base ports low h =
    elim (Bool-cases (ltb 65535 (base + 5))) [
      | inl high ↦ absurd (ground (arith, h, high))
      | inr fits ↦ elim (Bool-cases (all is_free (port_block base))) [
        | inl free ↦
            subst (IsUsable is_free) (same (ground (arith, h, fits, free)))
              (port_block-IsUsable is_free base low (ground (arith, fits)) free)
        | inr busy ↦
            fallback_ports-IsUsable is_free blocks (base + 10) ports (omega arith)
              (ground (arith, h, fits, busy))
      ]
    ]

standard-IsUsable :
    (is_free : ℕ → Bool) → all is_free standard_ports ≡ true → IsUsable is_free standard_ports
unfolding repeats any
standard-IsUsable is_free free = record {
  six = refl;
  different = refl;
  free = free;
  in_range = ground arith;
}

default_ports-IsUsable :
    (is_free : ℕ → Bool) (checkout : Checkout)
    → all is_free (default_ports checkout) ≡ true
    → IsUsable is_free (default_ports checkout)
default_ports-IsUsable is_free checkout free = elim (Bool-cases checkout.is_primary) [
  | inl primary ↦ rw primary (standard-IsUsable is_free (ground (arith, free, primary)))
  | inr linked ↦ rw linked (
      port_block-IsUsable is_free (20000 + checkout.resolved_digest % 2000 * 10) (omega arith)
        (omega arith) (ground (arith, free, linked)))
]

preferred-IsUsable :
    (is_free : ℕ → Bool) (checkout : Checkout) (override : Option (Option ℤ)) (ports : List ℕ)
    → ports_from checkout override ≡ tool_ok ports
    → all is_free ports ≡ true
    → IsUsable is_free ports
preferred-IsUsable is_free checkout none ports h free =
    subst (IsUsable is_free) (same h)
      (default_ports-IsUsable is_free checkout (ap (all is_free) (same h) ∙ free))
preferred-IsUsable is_free checkout (some none) ports h free = absurd (ground (arith, h))
preferred-IsUsable is_free checkout (some (some (negsuc n))) ports h free =
    absurd (ground (arith, h))
preferred-IsUsable is_free checkout (some (some (pos base))) ports h free =
    let in_range : leb 1024 base && leb base 65529 ≡ true = ground (arith, h) in
    let chosen : port_block base ≡ ports = same (ground (arith, h, in_range)) in
    subst (IsUsable is_free) chosen (
      port_block-IsUsable is_free base (ground (arith, in_range)) (ground (arith, in_range))
        (ap (all is_free) chosen ∙ free))

without_preferred-IsUsable :
    (is_free : ℕ → Bool) (checkout : Checkout) (preferred ports : List ℕ)
    → without_preferred is_free checkout preferred ≡ tool_ok ports
    → IsUsable is_free ports
without_preferred-IsUsable is_free checkout preferred ports h =
    elim (Bool-cases (is_none checkout.override)) [
      | inl unasked ↦
          fallback_ports-IsUsable is_free 500 (fallback_start checkout) ports (omega arith)
            (ground (arith, h, unasked))
      | inr asked ↦ absurd (ground (arith, h, asked))
    ]

chosen-IsUsable :
    (is_free : ℕ → Bool) (checkout : Checkout) (preferred : ToolResult (List ℕ)) (ports : List ℕ)
    → ports_from checkout checkout.override ≡ preferred
    → from_preferred is_free checkout preferred ≡ tool_ok ports
    → IsUsable is_free ports
chosen-IsUsable is_free checkout (tool_error e) ports found h = absurd (ground (arith, h))
chosen-IsUsable is_free checkout (tool_ok preferred) ports found h =
    elim (Bool-cases (all is_free preferred)) [
      | inl free ↦
          let kept : preferred ≡ ports = same (ground (arith, h, free)) in
          preferred-IsUsable is_free checkout checkout.override ports (found ∙ ap tool_ok kept)
            (ap (all is_free) (sym kept) ∙ free)
      | inr busy ↦
          without_preferred-IsUsable is_free checkout preferred ports (ground (arith, h, busy))
    ]

-- The ports that are allocated are six different ones, all free and between 1024 and 65535.
pub allocate_ports-IsUsable :
    (is_free : ℕ → Bool) (checkout : Checkout) (ports : List ℕ)
    → allocate_ports is_free checkout ≡ tool_ok ports
    → IsUsable is_free ports
unfolding allocate_ports preferred_ports
allocate_ports-IsUsable is_free checkout ports h =
    chosen-IsUsable is_free checkout (preferred_ports checkout) ports refl h
