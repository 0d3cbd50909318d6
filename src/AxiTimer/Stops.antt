-- ===== src/AxiTimer/Stops.antt =====
-- The user program for the timer gives back what it took, and stops the timer.
use mpsoc_axidma.Base.{
  ℕ, ◌/◌, ◌%◌, ◌^◌, ◌≡◌, refl, Bool, true, false, not, ◌&&◌, ◌||◌, Option, none, some, List, [],
  ◌∷◌, ◌==◌, Bool-cases, inl, inr,
}
use mpsoc_axidma.Context.{Process}
use mpsoc_axidma.Context.Session.{SameProcess, set_back}
use mpsoc_axidma.AxiTimer.User.{word, Access, write_tcsr, write_tlr, wait_interrupt, timer_main}

-- What the accesses leave the timer at: whether it runs (bit 7 or bit 10 of the word), and whether its
-- load register was set since the start.
pub record Running : Type 0 where
  pub runs : Bool
  pub loaded : Bool

abbrev pub runs_with : ℕ → Bool
runs_with w = not (w / 2 ^ 7 % 2 == 0) || not (w / 2 ^ 10 % 2 == 0)

-- Whether the accesses never start the timer before its load register is set, and never wait for an
-- interrupt of a timer that does not run; and whether they leave it stopped.
abbrev pub in_order : Running → List Access → Bool
in_order t [] = not t.runs
in_order t (write_tcsr b ∷ xs) =
    (not (runs_with (word b)) || t.loaded) && in_order (record t { runs = runs_with (word b) }) xs
in_order t (write_tlr v ∷ xs) = in_order (record t { loaded = true }) xs
in_order t (wait_interrupt ∷ xs) = t.runs && in_order t xs

abbrev pub stopped : Running
stopped = record { runs = false; loaded = false }

-- Where the operating system gives what was free: with any arguments and any results of `open` and
-- `mmap`, the program leaves the process with what it held; it starts the timer only after setting its
-- load register, waits only for a timer that runs, and leaves it stopped.
pub timer_main-SameProcess :
    (argc : ℕ) (fd base : Option ℕ) (p : Process)
    → ((f : ℕ) → fd ≡ some f → p.open_fds f ≡ false)
    → ((b : ℕ) → base ≡ some b → p.mapped b ≡ false)
    → SameProcess p (timer_main argc fd base p).process
      × (in_order stopped (timer_main argc fd base p).accesses ≡ true)
unfolding timer_main
timer_main-SameProcess argc fd base p fd_free base_free = elim (Bool-cases (argc == 2)) [
  | inr usage ↦
      rw usage (record { fds_eq = λ a. refl; maps_eq = λ a. refl; blocks_eq = λ a. refl }, refl)
  | inl given ↦ rw given (runs fd base fd_free base_free)
]
  where
    runs :
        (fd base : Option ℕ)
        → ((f : ℕ) → fd ≡ some f → p.open_fds f ≡ false)
        → ((b : ℕ) → base ≡ some b → p.mapped b ≡ false)
        → SameProcess p (timer_main 2 fd base p).process
          × (in_order stopped (timer_main 2 fd base p).accesses ≡ true)
    runs none base ff bf =
        (record { fds_eq = λ a. refl; maps_eq = λ a. refl; blocks_eq = λ a. refl }, refl)
    runs (some f) none ff bf = (
      record {
        fds_eq = λ a. set_back p.open_fds f a (ff f refl);
        maps_eq = λ a. refl;
        blocks_eq = λ a. refl;
      },
      refl,
    )
    runs (some f) (some b) ff bf = (
      record {
        fds_eq = λ a. set_back p.open_fds f a (ff f refl);
        maps_eq = λ a. set_back p.mapped b a (bf b refl);
        blocks_eq = λ a. refl;
      },
      refl,
    )
