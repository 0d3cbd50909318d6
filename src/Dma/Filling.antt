-- ===== src/Dma/Filling.antt =====
-- An engine for the tests: it fills every buffer, whatever it is started with.
use mpsoc_axidma.Base.{ℕ, refl, List, [], ◌∷◌, All}
use mpsoc_axidma.Dma.{DescMem, Transfer, started, no_status}
use mpsoc_axidma.Dma.Engine.{Completes, Serves, start_writes}

abbrev pub filling_engine : Transfer → DescMem → DescMem
filling_engine t m p = record (m p) {
  status = record no_status { len = (m p).control.len; eof = (m p).control.eof; complete = 1 };
}

module _ (to_virt : ℕ → ℕ) where
  all_completed :
      (t : Transfer) (m : DescMem) (ps : List ℕ)
      → All (λ p. Completes (m (to_virt p)) (filling_engine t m (to_virt p))) ps
  all_completed t m [] = tt
  all_completed t m (p ∷ ps) =
      (record { len_eq = refl; eof_eq = refl; bad_eq = refl }, all_completed t m ps)

  pub filling_engine-Serves : Serves to_virt filling_engine
  filling_engine-Serves = record {
    completes = λ m first word last wait_irq qs runs aligned in_range leads.
        all_completed (started (start_writes first word last) wait_irq) m (first ∷ qs);
  }
