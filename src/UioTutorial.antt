-- ===== src/UioTutorial.antt =====
-- The tutorial's UIO driver, extra_info/uio_with_sysfs/axidma_module.c: an earlier copy of
-- modules/axidma/axidma.c with other registers in its interrupt handler. The rest of it is the code of
-- the Uio modules, and stands here under the names of the copy.
pub mod Claims
mod Tests
use mpsoc_axidma.Base.{ℕ, Bool, Option}
use mpsoc_axidma.Uio
use mpsoc_axidma.Uio.{ℤ, UioDriver, InitReplies, EnableReplies}
use mpsoc_axidma.Uio.Irq.{Registers, Irqreturn, handle_irq}
use mpsoc_axidma.Uio.Show
use mpsoc_axidma.Uio.Show.{Format}

abbrev pub initial : UioDriver
initial = Uio.initial

module _ {Regs : Type 0} (io : Registers Regs) where
  -- The offsets are those of the control registers.
  unfoldable pub axidma_irq_handler : UioDriver → Regs → Regs × Irqreturn
  unfolding handle_irq
  axidma_irq_handler d g = handle_irq io 0x00 0x30 d g

abbrev pub axidma_open : UioDriver → UioDriver × Bool
axidma_open d = Uio.axidma_open d

abbrev pub axidma_release : UioDriver → UioDriver
axidma_release d = Uio.axidma_release d

module _ {Text : Type 0} (f : Format Text) where
  abbrev pub enable_show : UioDriver → Text
  enable_show d = Show.enable_show f d

  abbrev pub phys_base_show : UioDriver → Text
  phys_base_show d = Show.phys_base_show f d

  abbrev pub irq_line_show : UioDriver → Text
  irq_line_show d = Show.irq_line_show f d

abbrev pub enable_store : EnableReplies → Option ℤ → UioDriver → UioDriver
enable_store r parsed d = Uio.enable_store r parsed d

abbrev pub phys_base_store : Option ℕ → UioDriver → UioDriver
phys_base_store parsed d = Uio.phys_base_store parsed d

abbrev pub irq_line_store : Option ℤ → UioDriver → UioDriver
irq_line_store parsed d = Uio.irq_line_store parsed d

abbrev pub axidma_init : InitReplies → UioDriver → UioDriver × Option ℕ
axidma_init r d = Uio.axidma_init r d

abbrev pub axidma_exit : UioDriver → UioDriver
axidma_exit d = Uio.axidma_exit d
