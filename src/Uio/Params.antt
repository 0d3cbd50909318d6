-- ===== src/Uio/Params.antt =====
-- The UIO driver's invariant under any sequence of calls.
use mpsoc_axidma.Base.{
  [], ◌∷◌, Option-cases, inl, inr, suc, subst, true, false, ◌+◌, ℕ, ◌≤◌, ◌≡◌, refl, ◌≢◌, Option,
  none, some, arith, if◌then◌else◌,
}
use mpsoc_axidma.Uio.{
  enable_attr, phys_base_attr, irq_line_attr, InitReplies, create_files, axidma_init,
  device_unregister, kobject_put, ℤ, pos, negsuc, UioDriver, initial, EnableReplies, enable_store,
  phys_base_store, irq_line_store, axidma_open, axidma_release, axidma_exit,
}

-- The parameters are in range; the driver has its device, its files, and one registration and one
-- mapping of known address while it is enabled, and none otherwise.
pub record IsSound (d : UioDriver) : Type 0 where
  pub base_low : 0xA0000000 ≤ d.phys_base
  pub base_high : d.phys_base ≤ 0xB0000000
  pub line_in : d.irq_line ≤ 7
  pub registered_eq : d.registered ≡ (if d.enable then 1 else 0)
  pub mappings_eq : d.mappings ≡ (if d.enable then 1 else 0)
  pub virt_set : d.enable ≡ true → d.virt ≢ none
  pub virt_clear : d.enable ≡ false → d.virt ≡ none
  pub device_set : d.device ≡ true
  pub files_eq : d.files ≡ irq_line_attr ∷ phys_base_attr ∷ enable_attr ∷ []

-- Nothing of the driver is left with the kernel.
pub record IsClear (d : UioDriver) : Type 0 where
  pub registered_eq : d.registered ≡ 0
  pub mappings_eq : d.mappings ≡ 0
  pub device_clear : d.device ≡ false
  pub kobject_clear : d.kobject ≡ false
  pub files_eq : d.files ≡ []

-- One call into the driver, where the registers can be mapped whenever the device is registered.
-- `axidma_open` and `axidma_release` are steps, although `axidma_uio_info` does not name them.
pub data Step : UioDriver → UioDriver → Type 0 where
  enable :
      {d : UioDriver} (r : EnableReplies) (parsed : Option ℤ)
      → r.remapped ≢ none
      → Step d (enable_store r parsed d)
  phys_base : {d : UioDriver} (parsed : Option ℕ) → Step d (phys_base_store parsed d)
  irq_line : {d : UioDriver} (parsed : Option ℤ) → Step d (irq_line_store parsed d)
  opened : {d : UioDriver} → Step d (axidma_open d).0
  released : {d : UioDriver} → Step d (axidma_release d)

pub data Reach (d : UioDriver) : UioDriver → Type 0 where
  here : Reach d d
  next : {e f : UioDriver} → Reach d e → Step e f → Reach d f

enable_store-IsSound :
    (r : EnableReplies) (parsed : Option ℤ) (d : UioDriver)
    → r.remapped ≢ none
    → IsSound d
    → IsSound (enable_store r parsed d)
unfolding enable_store
enable_store-IsSound r none d ok s = ground arith
enable_store-IsSound r (some (pos n)) d ok s = ground arith
enable_store-IsSound r (some (negsuc n)) d ok s = ground arith

Step-IsSound : {d e : UioDriver} → Step d e → IsSound d → IsSound e
unfolding phys_base_store irq_line_store axidma_open axidma_release
Step-IsSound (enable {d} r parsed ok) s = enable_store-IsSound r parsed d ok s
Step-IsSound (phys_base {d} parsed) s = ground arith
Step-IsSound (irq_line {d} parsed) s = ground arith
Step-IsSound opened s = ground arith
Step-IsSound released s = ground arith

-- What loading the module leaves: a sound driver if it succeeds, and otherwise nothing.
abbrev pub LoadedOrClear : UioDriver × Option ℕ → Type 0
LoadedOrClear (d, none) = IsSound d
LoadedOrClear (d, some rc) = IsClear d

cleared :
    (d : UioDriver)
    → d.registered ≡ 0
    → d.mappings ≡ 0
    → IsClear (device_unregister (kobject_put d))
cleared d reg map = record {
  registered_eq = reg;
  mappings_eq = map;
  device_clear = refl;
  kobject_clear = refl;
  files_eq = refl;
}

-- `axidma_init` either succeeds, and leaves a driver that satisfies the invariant, or reports an error,
-- and leaves nothing registered.
pub axidma_init-IsSound : (r : InitReplies) → LoadedOrClear (axidma_init r initial)
unfolding axidma_init create_files
axidma_init-IsSound r = elim (Option-cases r.device_rc) [
  | inr (rc, e) ↦ rw e (cleared initial refl refl)
  | inl ok ↦ rw ok (elim (Option-cases (r.file_rc enable_attr)) [
    | inr (rc, e) ↦ rw e (cleared initial refl refl)
    | inl ok₁ ↦ rw ok₁ (elim (Option-cases (r.file_rc phys_base_attr)) [
      | inr (rc, e) ↦ rw e (cleared initial refl refl)
      | inl ok₂ ↦ rw ok₂ (elim (Option-cases (r.file_rc irq_line_attr)) [
        | inr (rc, e) ↦ rw e (cleared initial refl refl)
        | inl ok₃ ↦ rw ok₃ (record {
          base_low = omega arith;
          base_high = omega arith;
          line_in = omega arith;
          registered_eq = refl;
          mappings_eq = refl;
          virt_set = λ on. absurd (cc on);
          virt_clear = λ off. refl;
          device_set = refl;
          files_eq = refl;
        })
      ])
    ])
  ])
]

reached-IsSound : {d e : UioDriver} → IsSound d → Reach d e → IsSound e
reached-IsSound s here = s
reached-IsSound s (next q st) = Step-IsSound st (reached-IsSound s q)

axidma_exit-IsClear : (d : UioDriver) → IsSound d → IsClear (axidma_exit d)
unfolding axidma_exit
axidma_exit-IsClear d s = record {
  registered_eq = ground (arith, s.registered_eq);
  mappings_eq = ground (arith, s.mappings_eq);
  device_clear = refl;
  kobject_clear = refl;
  files_eq = refl;
}

-- After any sequence of calls from a driver that was loaded, where the registers can be mapped whenever
-- the device is registered: the base address and the interrupt line are in range, the driver has its
-- files, and one registration and one mapping while it is enabled and none otherwise; and
-- `axidma_exit` leaves nothing.
pub Reach-IsSound :
    (r : InitReplies) {d e : UioDriver}
    → axidma_init r initial ≡ (d, none)
    → Reach d e
    → IsSound e × IsClear (axidma_exit e)
Reach-IsSound r {e = e} load q =
    let s = reached-IsSound (subst LoadedOrClear load (axidma_init-IsSound r)) q in
    (s, axidma_exit-IsClear e s)

-- The registration that a failed mapping leaves is not taken back: after `enable` is written while the
-- driver is disabled and not in use, the interrupt is found and the device is registered, and the
-- registers cannot be mapped, the driver is disabled and `axidma_exit` leaves one more registration.
pub enable_store-leaks :
    (r : EnableReplies) (n : ℕ) (d : UioDriver)
    → d.in_use ≡ false
    → d.enable ≡ false
    → r.node_found ≡ true
    → r.domain_found ≡ true
    → r.uio_registered ≡ true
    → r.remapped ≡ none
    → let e = enable_store r (some (pos (suc n))) d in
      (e.enable ≡ false) × ((axidma_exit e).registered ≡ d.registered + 1)
unfolding enable_store axidma_exit
enable_store-leaks r n d idle off node domain uio failed =
    ground (arith, idle, off, node, domain, uio, failed)
