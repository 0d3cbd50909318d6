-- ===== src/Context.antt =====
-- The context of a user program: `axidma_open` and `axidma_close` of src/axidma.c.
pub mod Session
mod Tests
use mpsoc_axidma.Base.{ℕ, Bool, true, false, Option, none, some, ◌==◌, if◌then◌else◌}
use mpsoc_axidma.Heap.{null}
use mpsoc_axidma.Dma.{AxidmaCtx}

-- What the process holds: its open descriptors, its mappings and its blocks, by number or address.
pub record Process : Type 0 where
  pub open_fds : ℕ → Bool
  pub mapped : ℕ → Bool
  pub allocated : ℕ → Bool

abbrev pub set : (ℕ → Bool) → ℕ → Bool → ℕ → Bool
set f a b c = if c == a then b else f c

-- What `open`, `mmap` and `malloc` return, `none` for -1, `MAP_FAILED` and `NULL`.
pub record OpenReplies : Type 0 where
  pub fd : Option ℕ
  pub reg_base : Option ℕ
  pub ret : Option ℕ

abbrev pub close_fd : ℕ → Process → Process
close_fd fd p = record p { open_fds = set p.open_fds fd false }

abbrev pub munmap : ℕ → Process → Process
munmap base p = record p { mapped = set p.mapped base false }

-- `axidma_open_error`
abbrev pub open_error : (fd reg_base : Option ℕ) → Process → Process
open_error none none p = p
open_error (some fd) none p = close_fd fd p
open_error none (some base) p = munmap base p
open_error (some fd) (some base) p = munmap base (close_fd fd p)

-- The context is returned with its address.
unfoldable pub axidma_open : OpenReplies → Process → Process × Option (ℕ × AxidmaCtx)
axidma_open r p = elim r.fd [
  | none ↦ (open_error none none p, none)
  | some fd ↦
      let opened = record p { open_fds = set p.open_fds fd true } in
      elim r.reg_base [
        | none ↦ (open_error (some fd) none opened, none)
        | some base ↦
            let mapped = record opened { mapped = set opened.mapped base true } in
            elim r.ret [
              | none ↦ (open_error (some fd) (some base) mapped, none)
              | some ret ↦ (
                record mapped { allocated = set mapped.allocated ret true },
                some (ret, record { fd = fd; reg_base = base; lst = null }),
              )
            ]
      ]
]

unfoldable pub axidma_close : ℕ → AxidmaCtx → Process → Process
axidma_close ctx c p =
    let closed = munmap c.reg_base (close_fd c.fd p) in
    record closed { allocated = set closed.allocated ctx false }
