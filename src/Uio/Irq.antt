-- ===== src/Uio/Irq.antt =====
-- The interrupt handler of modules/axidma/axidma.c, over the engine's registers.
use mpsoc_axidma.Base.{ℕ, ◌+◌, ◌/◌, ◌%◌, ◌^◌, Bool, not, none, some, ◌==◌, ◌||◌, if◌then◌else◌}
use mpsoc_axidma.Uio.{UioDriver}

pub data Irqreturn : Type 0 where
  irq_none irq_handled : Irqreturn

-- The words at the kernel's addresses of the mapped registers. What the engine makes of a write is its
-- own; a read changes nothing.
pub record Registers (Regs : Type 0) : Type 0 where
  pub read : Regs → (address : ℕ) → ℕ
  pub write : Regs → (address word : ℕ) → Regs

-- Whether one of the bits 14 to 12 is set.
abbrev pub has_flag : ℕ → Bool
has_flag status = not (status / 2 ^ 12 % 8 == 0)

abbrev pub all_ones : ℕ
all_ones = 0xFFFFFFFF

module _ {Regs : Type 0} (io : Registers Regs) where
  -- From the test of `axidma_virt` on, with the offsets of the two registers.
  unfoldable pub handle_irq : (mm2s s2mm : ℕ) → UioDriver → Regs → Regs × Irqreturn
  handle_irq mm2s s2mm d g = elim d.virt [
    | none ↦ (g, irq_none)
    | some base ↦
        if has_flag (io.read g (base + mm2s)) || has_flag (io.read g (base + s2mm))
        then (io.write (io.write g (base + mm2s) all_ones) (base + s2mm) all_ones, irq_handled)
        else (g, irq_none)
  ]

  unfoldable pub axidma_irq_handler : UioDriver → Regs → Regs × Irqreturn
  unfolding handle_irq
  axidma_irq_handler d g = handle_irq 0x04 0x34 d g
