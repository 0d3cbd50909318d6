-- ===== src/Context/Session.antt =====
-- Opening and closing a context: nothing is left over.
use mpsoc_axidma.Base.{ℕ, ◌≡◌, refl, Bool, true, false, Option, none, some, arith}
use mpsoc_axidma.Dma.{AxidmaCtx}
use mpsoc_axidma.Context.{Process, set, OpenReplies, axidma_open, axidma_close}

-- What the operating system gives was free.
pub record IsFresh (r : OpenReplies) (p : Process) : Type 0 where
  pub fd_free : (fd : ℕ) → r.fd ≡ some fd → p.open_fds fd ≡ false
  pub base_free : (base : ℕ) → r.reg_base ≡ some base → p.mapped base ≡ false
  pub ret_free : (ret : ℕ) → r.ret ≡ some ret → p.allocated ret ≡ false

-- The process holds the same.
pub record SameProcess (p q : Process) : Type 0 where
  pub fds_eq : (a : ℕ) → q.open_fds a ≡ p.open_fds a
  pub maps_eq : (a : ℕ) → q.mapped a ≡ p.mapped a
  pub blocks_eq : (a : ℕ) → q.allocated a ≡ p.allocated a

-- What is taken and given back is as it was.
pub set_back : (f : ℕ → Bool) (a c : ℕ) → f a ≡ false → set (set f a true) a false c ≡ f c
set_back f a c h = ground arith

-- The process after the context, if there is one, is closed.
abbrev pub finished : Process × Option (ℕ × AxidmaCtx) → Process
finished (p, none) = p
finished (p, some (ret, ctx)) = axidma_close ret ctx p

closes :
    (fd reg_base ret : Option ℕ) (p : Process)
    → IsFresh (record { fd = fd; reg_base = reg_base; ret = ret }) p
    → SameProcess p (finished (axidma_open (record { fd = fd; reg_base = reg_base; ret = ret }) p))
unfolding axidma_open axidma_close
closes none base ret p fresh = record {
  fds_eq = λ a. refl;
  maps_eq = λ a. refl;
  blocks_eq = λ a. refl;
}
closes (some fd) none ret p fresh = record {
  fds_eq = λ a. set_back p.open_fds fd a (fresh.fd_free fd refl);
  maps_eq = λ a. refl;
  blocks_eq = λ a. refl;
}
closes (some fd) (some base) none p fresh = record {
  fds_eq = λ a. set_back p.open_fds fd a (fresh.fd_free fd refl);
  maps_eq = λ a. set_back p.mapped base a (fresh.base_free base refl);
  blocks_eq = λ a. refl;
}
closes (some fd) (some base) (some ret) p fresh = record {
  fds_eq = λ a. set_back p.open_fds fd a (fresh.fd_free fd refl);
  maps_eq = λ a. set_back p.mapped base a (fresh.base_free base refl);
  blocks_eq = λ a. set_back p.allocated ret a (fresh.ret_free ret refl);
}

-- Where the operating system gives what was free: an `axidma_open` that fails leaves the process with
-- what it held, and so does one that succeeds with the `axidma_close` of its context.
pub axidma_close-axidma_open :
    (r : OpenReplies) (p : Process) → IsFresh r p → SameProcess p (finished (axidma_open r p))
axidma_close-axidma_open r p fresh = closes r.fd r.reg_base r.ret p fresh
