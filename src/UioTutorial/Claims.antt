-- ===== src/UioTutorial/Claims.antt =====
-- The copy's interrupt handler once a transfer was started.
use mpsoc_axidma.Base.{ℕ, ◌+◌, ◌/◌, ◌%◌, ◌^◌, ◌≡◌, refl, Bool, true, ◌||◌, some, arith}
use mpsoc_axidma.Dma.{dmacr}
use mpsoc_axidma.Dma.Dmacr.{dmacr-fields}
use mpsoc_axidma.Uio.{UioDriver}
use mpsoc_axidma.Uio.Irq.{Registers, irq_handled, has_flag, all_ones, handle_irq}
use mpsoc_axidma.UioTutorial.{axidma_irq_handler}

-- Once the S2MM control register, at offset 0x30 of registers mapped at `base`, holds the interrupt
-- enables that axidma_s2mm_transfer writes to it: the copy's handler returns IRQ_HANDLED for every
-- interrupt, whatever the status registers hold, and writes all ones to both control registers.
pub axidma_irq_handler-dmacr :
    {Regs : Type 0} (io : Registers Regs) (d : UioDriver) (g : Regs) (base : ℕ)
    (enable_timeout : Bool) (cnt : ℕ)
    → d.virt ≡ some base
    → io.read g (base + 0x30) / 2 ^ 12 % 8 ≡ dmacr enable_timeout cnt / 2 ^ 12 % 8
    → axidma_irq_handler io d g
      ≡ (io.write (io.write g (base + 0x00) all_ones) (base + 0x30) all_ones, irq_handled)
unfolding axidma_irq_handler handle_irq
axidma_irq_handler-dmacr io d g base enable_timeout cnt mapped holds =
    let (_, _, enables, _, _) = dmacr-fields enable_timeout cnt in
    let enabled : (has_flag (io.read g (base + 0x00)) || has_flag (io.read g (base + 0x30)))
        ≡ true =
      ground (arith, enables, holds) in
    rw (mapped, enabled) refl
