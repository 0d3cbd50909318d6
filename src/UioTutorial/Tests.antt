-- ===== src/UioTutorial/Tests.antt =====
-- The copy's handler, on an interrupt that the engine did not raise.
use mpsoc_axidma.Base.{ℕ, ◌==◌, if◌then◌else◌, ◌≡◌, refl, some, false}
use mpsoc_axidma.Dma.{dmacr}
use mpsoc_axidma.Uio.{UioDriver, initial}
use mpsoc_axidma.Uio.Irq.{Registers, irq_handled, all_ones}
use mpsoc_axidma.UioTutorial.{axidma_irq_handler}
use mpsoc_axidma.UioTutorial.Claims.{axidma_irq_handler-dmacr}

-- Words that hold what is written to them.
abbrev words : Registers (ℕ → ℕ)
words = record { read = λ g a. g a; write = λ g a word b. if b == a then word else g b }

abbrev mapped : UioDriver
mapped = record initial { virt = some 0x7F000000 }

-- A transfer of two frames was started, and no status flag stands.
abbrev running : ℕ → ℕ
running a = if a == 0x7F000030 then dmacr false 2 else 0

axidma_irq_handler-dmacr_example :
    axidma_irq_handler words mapped running
    ≡ (words.write (words.write running 0x7F000000 all_ones) 0x7F000030 all_ones, irq_handled)
axidma_irq_handler-dmacr_example =
    axidma_irq_handler-dmacr words mapped running 0x7F000000 false 2 refl refl
