-- ===== src/Uio/Acknowledge.antt =====
-- The interrupt handler takes every flag of the engine, and no interrupt of another device.
use mpsoc_axidma.Base.{ℕ, ◌+◌, ◌/◌, ◌%◌, ◌^◌, ◌≤◌, ◌≡◌, ◌≢◌, ◌⊎◌, true, false, ◌||◌, some, Bool}
use mpsoc_axidma.Uio.{UioDriver}
use mpsoc_axidma.Uio.Irq.{Irqreturn, irq_none, irq_handled, Registers, has_flag}

-- The addresses of the status registers `MM2S_DMASR` and `S2MM_DMASR`, for registers at `base`.
abbrev pub IsStatus : (base address : ℕ) → Type 0
IsStatus base a = (a ≡ base + 0x04) ⊎ (a ≡ base + 0x34)

module _ {Regs : Type 0} (io : Registers Regs) where
  -- What the engine documents of its status registers, mapped at `base`: a flag of the bits 14 to 12 is
  -- cleared by writing 1 to it, and a write to one register leaves the other.
  pub record WriteClears (base : ℕ) : Type 0 where
    pub clears :
        (g : Regs) (a word i : ℕ)
        → IsStatus base a
        → 12 ≤ i
        → i ≤ 14
        → word / 2 ^ i % 2 ≡ 1
        → io.read (io.write g a word) a / 2 ^ i % 2 ≡ 0
    pub apart :
        (g : Regs) (a b word : ℕ)
        → IsStatus base a
        → IsStatus base b
        → a ≢ b
        → io.read (io.write g a word) b ≡ io.read g b

  -- Whether a flag stands in one of the two registers.
  abbrev pub flagged : ℕ → Regs → Bool
  flagged base g = has_flag (io.read g (base + 0x04)) || has_flag (io.read g (base + 0x34))

  -- What a call of the handler did: nothing, while the driver is disabled or no flag stands; or it said
  -- that it handled the interrupt, and no flag is left that stood.
  pub data Acknowledges (d : UioDriver) (g : Regs) : Regs × Irqreturn → Type 0 where
    disabled : d.enable ≡ false → Acknowledges d g (g, irq_none)
    not_ours :
        (base : ℕ) → d.virt ≡ some base → flagged base g ≡ false → Acknowledges d g (g, irq_none)
    acknowledged :
        (base : ℕ) (g' : Regs)
        → d.virt ≡ some base
        → flagged base g ≡ true
        → flagged base g' ≡ false
        → Acknowledges d g (g', irq_handled)
