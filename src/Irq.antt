-- ===== src/Irq.antt =====
-- The set-up of the two interrupt controllers in irq.C.
pub mod Vectors
mod Tests
use multi_process.Base.{ℕ, List, [], ◌∷◌}

-- `irq_remap`: the writes to ports, each a port and a byte.
unfoldable pub irq_remap : List (ℕ × ℕ)
irq_remap =
    (0x20, 0x11)
    ∷ (0xa0, 0x11)
    ∷ (0x21, 0x20)
    ∷ (0xa1, 0x28)
    ∷ (0x21, 0x04)
    ∷ (0xa1, 0x02)
    ∷ (0x21, 0x01)
    ∷ (0xa1, 0x01)
    ∷ (0x21, 0x0)
    ∷ (0xa1, 0x0)
    ∷ []

-- `IRQ::init`
unfoldable pub init : List (ℕ × ℕ)
unfolding irq_remap
init = irq_remap
