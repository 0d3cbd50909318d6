-- ===== src/AxiTimer/Load.antt =====
-- What loading and removing the timer's driver leaves with the kernel.
use mpsoc_axidma.Base.{
  ℕ, ◌≡◌, refl, ◌≢◌, ◌⊎◌, inl, inr, Bool, true, false, not, ◌&&◌, ◌||◌, ◌==◌, none, some, [], ◌∷◌,
  arith, Option-cases, Bool-cases,
}
use mpsoc_axidma.Uio.{ℤ, pos, negsuc}
use mpsoc_axidma.AxiTimer.{
  Timer, unloaded, LoadReplies, virq_of, register, with_virq, find_irq, our_init, our_exit,
}

-- The driver works: one mapping of the registers, its device, and the registration with UIO, and the
-- timer was stopped.
pub record IsLoaded (d : Timer) : Type 0 where
  pub virt_set : d.virt ≢ none
  pub mappings_eq : d.mappings ≡ 1
  pub device_set : d.device ≡ true
  pub uio_set : d.uio ≡ true
  pub stopped : d.tcsr_writes ≡ 0 ∷ []

-- It does not work: nothing is mapped or registered with UIO.
pub record IsUnloaded (device : Bool) (d : Timer) : Type 0 where
  pub mappings_eq : d.mappings ≡ 0
  pub uio_clear : d.uio ≡ false
  pub device_eq : d.device ≡ device

abbrev pub is_error : ℤ → Bool
is_error (pos n) = n == 0
is_error (negsuc n) = true

-- Whether the interrupt cannot be had.
abbrev pub no_irq : LoadReplies → Bool
no_irq r = not r.node_found || (not r.domain_found || is_error (virq_of r))

-- Whether the load fails for the interrupt, behind the registration of the device.
abbrev pub stops_at_irq : LoadReplies → Bool
stops_at_irq r = elim r.remapped [
  | none ↦ false
  | some base ↦ elim r.device_rc [ some e ↦ false | none ↦ no_irq r ]
]

abbrev mapped_at : ℕ → Timer
mapped_at base = record unloaded {
  virt = some base;
  mappings = 1;
  device = true;
  tcsr_writes = 0 ∷ [];
}

abbrev pub controller_found : LoadReplies → Bool
controller_found r = r.node_found && r.domain_found

-- Whether the load fails because the interrupt controller or its domain is not found.
abbrev pub fails_silently : LoadReplies → Bool
fails_silently r = elim r.remapped [
  | none ↦ false
  | some base ↦ elim r.device_rc [ some e ↦ false | none ↦ not (controller_found r) ]
]

-- A negative result, as of a function that fails.
abbrev pub IsNegative : ℤ → Type 0
IsNegative rc = (n : ℕ) × (rc ≡ negsuc n)

-- The driver is loaded and says so; or it is not, has the device left or not, and says so or not.
abbrev pub Loads : (silent device : Bool) → Timer × ℤ → Type 0
Loads silent device (d, rc) =
    (rc ≡ pos 0) × IsLoaded d × (silent ≡ false)
    ⊎ IsUnloaded device d × (IsNegative rc × (silent ≡ false) ⊎ (rc ≡ pos 0) × (silent ≡ true))

unmapped :
    (device : Bool) (d : Timer)
    → d.mappings ≡ 0
    → d.uio ≡ false
    → d.device ≡ device
    → IsUnloaded device d
unmapped device d m u e = record { mappings_eq = m; uio_clear = u; device_eq = e }

-- A load that fails and says so.
says_so :
    {device : Bool} (d : Timer) (e : ℕ) → IsUnloaded device d → Loads false device (d, negsuc e)
says_so d e u = inr (u, inl ((e, refl), refl))

register-Loads :
    (r : LoadReplies) (v : ℤ) (base : ℕ) → Loads false false (register r v (mapped_at base))
unfolding register
register-Loads r v base = elim (Option-cases r.uio_rc) [
  | inl ok ↦ rw ok (
      inl (
        refl,
        record {
          virt_set = λ e. cc e;
          mappings_eq = refl;
          device_set = refl;
          uio_set = refl;
          stopped = refl;
        },
        refl,
      ))
  | inr (e, failed) ↦ rw failed (says_so _ e (unmapped false _ refl refl refl))
]

with_virq-Loads :
    (r : LoadReplies) (v : ℤ) (base : ℕ) → Loads false (is_error v) (with_virq r v (mapped_at base))
unfolding with_virq
with_virq-Loads r (pos n) base = elim (Bool-cases (n == 0)) [
  | inl zero_irq ↦ rw zero_irq (says_so _ 124 (unmapped true _ refl refl refl))
  | inr some_irq ↦ rw some_irq (register-Loads r (pos n) base)
]
with_virq-Loads r (negsuc n) base = says_so _ n (unmapped true _ refl refl refl)

find_irq-Loads :
    (r : LoadReplies) (base : ℕ)
    → Loads (not (controller_found r)) (no_irq r) (find_irq r (mapped_at base))
unfolding find_irq
find_irq-Loads r base = elim (Bool-cases r.node_found) [
  | inr lost ↦ rw lost (inr (unmapped true _ refl refl refl, inr (refl, refl)))
  | inl node ↦ rw node (elim (Bool-cases r.domain_found) [
    | inr lost ↦ rw lost (inr (unmapped true _ refl refl refl, inr (refl, refl)))
    | inl domain ↦ rw domain (with_virq-Loads r (virq_of r) base)
  ])
]

-- `our_init` either returns 0 and leaves the driver working with the timer stopped, or leaves nothing
-- mapped and nothing registered with UIO; then the device stays registered exactly if the load fails
-- for the interrupt, and the result is negative exactly unless the interrupt controller or its domain
-- is looked for and not found, where it is 0.
pub our_init-Loads :
    (r : LoadReplies) → Loads (fails_silently r) (stops_at_irq r) (our_init r unloaded)
unfolding our_init
our_init-Loads r = elim (Option-cases r.remapped) [
  | inl lost ↦ rw lost (says_so _ 11 (unmapped false _ refl refl refl))
  | inr (base, got) ↦ rw got (elim (Option-cases r.device_rc) [
    | inr (e, failed) ↦ rw failed (says_so _ e (unmapped false _ refl refl refl))
    | inl ok ↦ rw ok (find_irq-Loads r base)
  ])
]

found-fails : (r : LoadReplies) → controller_found r ≡ true → fails_silently r ≢ true
found-fails r found = elim (Option-cases r.remapped) [
  | inl lost ↦ rw lost (λ e. cc e)
  | inr (base, got) ↦ rw got (elim (Option-cases r.device_rc) [
    | inr (e, failed) ↦ rw failed (λ q. cc q)
    | inl ok ↦ rw (ok, found) (λ e. cc e)
  ])
]

-- Where the interrupt controller is found, removing a driver whose load reported success leaves
-- nothing: no mapping, no registration with UIO, no device.
pub our_exit-our_init :
    (r : LoadReplies)
    → controller_found r ≡ true
    → (our_init r unloaded).1 ≡ pos 0
    → IsUnloaded false (our_exit (our_init r unloaded).0)
unfolding our_exit
our_exit-our_init r found says = elim (our_init-Loads r) [
  | inl (_, w, _) ↦ unmapped false _ (omega (arith, w.mappings_eq)) refl refl
  | inr (_, inl ((n, negative), _)) ↦ absurd (cc (negative, says))
  | inr (_, inr (_, silent)) ↦ absurd (found-fails r found silent)
]
