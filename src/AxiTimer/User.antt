-- ===== src/AxiTimer/User.antt =====
-- The tutorial's user program for the timer, extra_info/uio/axitimer_user.c.
use mpsoc_axidma.Base.{
  ℕ, zero, suc, ◌+◌, ◌*◌, Bool, true, false, not, Option, none, some, List, [], ◌∷◌, ◌++◌, ◌==◌,
  if◌then◌else◌,
}
use mpsoc_axidma.Context.{Process, set, close_fd, munmap}

-- `TCSR_bits`
pub record TcsrBits : Type 0 where
  pub md : ℕ
  pub ud : ℕ
  pub gen : ℕ
  pub cap : ℕ
  pub arh : ℕ
  pub load : ℕ
  pub eni : ℕ
  pub en : ℕ
  pub int : ℕ
  pub pwm : ℕ
  pub enall : ℕ
  pub casc : ℕ

-- The word that the bit fields make, the first in the lowest bit.
abbrev pub word : TcsrBits → ℕ
word b =
    b.md
    + 2
      * (b.ud
          + 2
            * (b.gen
                + 2
                  * (b.cap
                      + 2
                        * (b.arh
                            + 2
                              * (b.load
                                  + 2
                                    * (b.eni
                                        + 2
                                          * (b.en
                                              + 2
                                                * (b.int
                                                    + 2
                                                      * (b.pwm + 2 * (b.enall + 2 * b.casc))))))))))

abbrev pub disable : TcsrBits
disable = record {
  md = 0;
  ud = 0;
  gen = 0;
  cap = 0;
  arh = 0;
  load = 0;
  eni = 0;
  en = 0;
  int = 1;
  pwm = 0;
  enall = 0;
  casc = 0;
}

abbrev pub load_timer : TcsrBits
load_timer = record {
  md = 0;
  ud = 0;
  gen = 0;
  cap = 0;
  arh = 0;
  load = 1;
  eni = 0;
  en = 0;
  int = 0;
  pwm = 0;
  enall = 0;
  casc = 0;
}

abbrev pub one_int_per_sec : TcsrBits
one_int_per_sec = record {
  md = 0;
  ud = 1;
  gen = 0;
  cap = 0;
  arh = 1;
  load = 0;
  eni = 1;
  en = 1;
  int = 0;
  pwm = 0;
  enall = 1;
  casc = 0;
}

abbrev pub period_1s : ℕ
period_1s = 100000000

-- What the program does to the device: a write to a register, or a read that waits for an interrupt.
pub data Access : Type 0 where
  write_tcsr : TcsrBits → Access
  write_tlr : ℕ → Access
  wait_interrupt : Access

-- The `for` loop.
abbrev pub wait_loop : ℕ → List Access
wait_loop zero = []
wait_loop (suc i) = wait_interrupt ∷ wait_loop i

-- What is left of the process, the accesses in order, and whether the result is 0 and not -1.
pub record Ran : Type 0 where
  pub process : Process
  pub accesses : List Access
  pub ok : Bool

-- `cleanup`
abbrev pub cleanup : (fd base : Option ℕ) → Process → List Access → Bool → Ran
cleanup none none p xs ok = record { process = p; accesses = xs; ok = ok }
cleanup (some fd) none p xs ok = record { process = close_fd fd p; accesses = xs; ok = ok }
cleanup none (some base) p xs ok = record {
  process = munmap base p;
  accesses = xs ++ write_tcsr disable ∷ [];
  ok = ok;
}
cleanup (some fd) (some base) p xs ok = record {
  process = close_fd fd (munmap base p);
  accesses = xs ++ write_tcsr disable ∷ [];
  ok = ok;
}

-- `fd` and `base` are what `open` and `mmap` return, `none` for -1 and `MAP_FAILED`.
unfoldable pub timer_main : (argc : ℕ) → (fd base : Option ℕ) → Process → Ran
timer_main argc fd base p =
    if not (argc == 2) then record { process = p; accesses = []; ok = true } else elim fd [
      | none ↦ cleanup none none p [] false
      | some f ↦
          let opened = record p { open_fds = set p.open_fds f true } in
          elim base [
            | none ↦ cleanup (some f) none opened [] false
            | some b ↦
                cleanup (some f) (some b) (record opened { mapped = set opened.mapped b true })
                  (write_tcsr disable
                    ∷ write_tlr period_1s
                    ∷ write_tcsr load_timer
                    ∷ write_tcsr one_int_per_sec
                    ∷ wait_loop 10)
                  true
          ]
    ]
