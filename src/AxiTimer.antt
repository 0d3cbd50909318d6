-- ===== src/AxiTimer.antt =====
-- The tutorial's UIO driver for an AXI timer, extra_info/uio/axitimer_module.c.
-- The prints on the interrupt's chip are left out.
pub mod Load
pub mod User
pub mod Stops
mod Tests
use Prim.Native.Nat.{bit_or}
use mpsoc_axidma.Base.{
  ℕ, ◌+◌, ◌-◌, ◌/◌, ◌%◌, ◌^◌, Bool, true, false, not, Option, none, some, List, [], ◌∷◌, ◌==◌,
  if◌then◌else◌,
}
use mpsoc_axidma.Uio.{ℤ, pos, negsuc}
use mpsoc_axidma.Uio.Irq.{Irqreturn, irq_none, irq_handled}

-- What the driver has with the kernel: the mapping of the registers (at `virt`), its device, and the
-- registration with UIO, for the interrupt `irq`; and the words that it wrote to the control register
-- at `virt` while it was loaded.
pub record Timer : Type 0 where
  pub virt : Option ℕ
  pub mappings : ℕ
  pub device : Bool
  pub uio : Bool
  pub irq : ℤ
  pub tcsr_writes : List ℕ

abbrev pub unloaded : Timer
unloaded = record {
  virt = none;
  mappings = 0;
  device = false;
  uio = false;
  irq = pos 0;
  tcsr_writes = [];
}

-- What the handler returns, and what it writes to the control register.
pub record Serviced : Type 0 where
  pub ret : Irqreturn
  pub write : Option ℕ

-- `status` is the first read of the control register, and `again` the one of `|=`.
unfoldable pub axitimer_irq : (status again : ℕ) → Serviced
axitimer_irq status again =
    if status / 2 ^ 8 % 2 == 0
    then record { ret = irq_none; write = none }
    else record { ret = irq_handled; write = some (bit_or again (2 ^ 8)) }

-- What the kernel answers: an address or `NULL`, a negative result -(e + 1) or 0, an interrupt or 0.
pub record LoadReplies : Type 0 where
  pub remapped : Option ℕ
  pub device_rc : Option ℕ
  pub node_found : Bool
  pub domain_found : Bool
  pub found_virq : ℤ
  pub created_virq : ℤ
  pub uio_rc : Option ℕ

abbrev pub iounmap : Timer → Timer
iounmap d = record d { mappings = d.mappings - 1 }

-- The interrupt that is there, or else a new one.
abbrev pub virq_of : LoadReplies → ℤ
virq_of r = elim r.found_virq [
  | pos n ↦ if n == 0 then r.created_virq else pos n
  | negsuc n ↦ negsuc n
]

-- From the registration with UIO on, with an interrupt that is not 0.
unfoldable pub register : LoadReplies → ℤ → Timer → Timer × ℤ
register r virq d =
    let set = record d { irq = virq } in
    elim r.uio_rc [
      | some e ↦ (iounmap (record set { device = false }), negsuc e)
      | none ↦ (record set { uio = true }, pos 0)
    ]

-- From the test of the interrupt on. 125 is `ECANCELED`.
unfoldable pub with_virq : LoadReplies → ℤ → Timer → Timer × ℤ
unfolding register
with_virq r (pos n) d = if n == 0 then (iounmap d, negsuc 124) else register r (pos n) d
with_virq r (negsuc n) d = (iounmap d, negsuc n)

-- From the search for the interrupt on.
unfoldable pub find_irq : LoadReplies → Timer → Timer × ℤ
unfolding with_virq
find_irq r d =
    if not r.node_found
    then (iounmap d, pos 0)
    else (if not r.domain_found then (iounmap d, pos 0) else with_virq r (virq_of r) d)

-- 12 is `ENOMEM`.
unfoldable pub our_init : LoadReplies → Timer → Timer × ℤ
unfolding find_irq
our_init r d = elim r.remapped [
  | none ↦ (record d { virt = none }, negsuc 11)
  | some base ↦
      let mapped = record d {
        virt = some base;
        mappings = d.mappings + 1;
        tcsr_writes = 0 ∷ d.tcsr_writes;
      } in
      elim r.device_rc [
        | some e ↦ (iounmap mapped, negsuc e)
        | none ↦ find_irq r (record mapped { device = true })
      ]
]

unfoldable pub our_exit : Timer → Timer
our_exit d = iounmap (record d { uio = false; device = false })
