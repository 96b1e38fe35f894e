-- ===== src/Tools/Dev/Ports.antt =====
-- _preferred_ports and _allocate_ports of tools/dev.py. The probes of one allocation see the ports
-- as they are at one time: `is_free` is _port_is_free.
pub mod Free
pub mod Complete
use lsstack.Prelude.{
  Bool, List, Option, [], all, if◌then◌else◌, is_none, ltb, none, not, select, some, suc, zero, ℕ,
  ◌%◌, ◌&&◌, ◌*◌, ◌+◌, ◌∷◌,
}
use lsstack.Prelude.Int.{leb_ℤ, pos, pos_part, ℤ}
use lsstack.Tools.Dev.{
  ToolResult, base_not_integer, base_out_of_range, busy_ports, no_free_block, tool_error, tool_ok,
}

-- What the choice depends on: LSSTACK_PORT_BASE as int() reads it (`some none` when it does not),
-- whether this is the primary checkout, and the first hexadecimal digits of the two digests.
pub record Checkout : Type 0 where
  pub override : Option (Option ℤ)
  pub is_primary : Bool
  pub resolved_digest : ℕ
  pub root_digest : ℕ

abbrev pub standard_ports : List ℕ
standard_ports = 8000 ∷ 5432 ∷ 8080 ∷ 3000 ∷ 4317 ∷ 4318 ∷ []

-- tuple(base + offset for offset in range(6))
abbrev pub port_block : ℕ → List ℕ
port_block base = base ∷ (base + 1) ∷ (base + 2) ∷ (base + 3) ∷ (base + 4) ∷ (base + 5) ∷ []

abbrev pub requested_ports : Option ℤ → ToolResult (List ℕ)
requested_ports none = tool_error base_not_integer
requested_ports (some base) =
    if leb_ℤ (pos 1024) base && leb_ℤ base (pos 65529)
    then tool_ok (port_block (pos_part base))
    else tool_error base_out_of_range

abbrev pub default_ports : Checkout → List ℕ
default_ports checkout =
    if checkout.is_primary
    then standard_ports
    else port_block (20000 + checkout.resolved_digest % 2000 * 10)

abbrev pub ports_from : Checkout → Option (Option ℤ) → ToolResult (List ℕ)
ports_from checkout none = tool_ok (default_ports checkout)
ports_from checkout (some base) = requested_ports base

unfoldable pub preferred_ports : Checkout → ToolResult (List ℕ)
preferred_ports checkout = ports_from checkout checkout.override

-- The loop over the blocks that are left, from the base of the next one.
unfoldable pub fallback_ports : (ℕ → Bool) → ℕ → ℕ → ToolResult (List ℕ)
fallback_ports is_free zero base = tool_error no_free_block
fallback_ports is_free (suc blocks) base =
    if ltb 65535 (base + 5)
    then tool_error no_free_block
    else if all is_free (port_block base)
    then tool_ok (port_block base)
    else fallback_ports is_free blocks (base + 10)

abbrev pub fallback_start : Checkout → ℕ
fallback_start checkout = 40000 + checkout.root_digest % 500

-- What is done once some preferred port is busy.
abbrev pub without_preferred : (ℕ → Bool) → Checkout → List ℕ → ToolResult (List ℕ)
without_preferred is_free checkout preferred =
    if is_none checkout.override
    then fallback_ports is_free 500 (fallback_start checkout)
    else tool_error (busy_ports (select (λ port. not (is_free port)) preferred))

abbrev pub from_preferred : (ℕ → Bool) → Checkout → ToolResult (List ℕ) → ToolResult (List ℕ)
from_preferred is_free checkout (tool_error e) = tool_error e
from_preferred is_free checkout (tool_ok preferred) =
    if all is_free preferred
    then tool_ok preferred
    else without_preferred is_free checkout preferred

unfoldable pub allocate_ports : (ℕ → Bool) → Checkout → ToolResult (List ℕ)
unfolding preferred_ports fallback_ports
allocate_ports is_free checkout = from_preferred is_free checkout (preferred_ports checkout)
