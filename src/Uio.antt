-- ===== src/Uio.antt =====
-- The UIO driver, modules/axidma/axidma.c: its loading and removal, its single user, and the parameters
-- that sysfs files set. The interrupt handler is in Irq.
pub mod Irq
pub mod Acknowledge
pub mod Params
pub mod Show
mod Tests
use mpsoc_axidma.Base.{
  ℕ, suc, ◌+◌, ◌-◌, ◌/◌, ◌%◌, ◌^◌, Bool, true, false, not, Option, none, some, List, [], ◌∷◌, ltb,
  ◌==◌, ◌||◌, if◌then◌else◌, ◌≡◌,
}

-- What `sscanf` of "%d" reads. `negsuc n` is -(n + 1).
pub data ℤ : Type 0 where
  pos : ℕ → ℤ
  negsuc : ℕ → ℤ

-- The three attribute files.
pub data Attr : Type 0 where
  enable_attr phys_base_attr irq_line_attr : Attr

-- The static variables, with `axidma_virt` by the address mapped and the two fields of
-- `axidma_uio_info` that are set later; and what the driver has with the kernel: how many
-- registrations of its UIO device stand, how many mappings of the registers, and whether its device
-- is registered and its kobject is there, with which files.
pub record UioDriver : Type 0 where
  pub virt : Option ℕ
  pub in_use : Bool
  pub enable : Bool
  pub phys_base : ℕ
  pub irq_line : ℕ
  pub info_irq : ℤ
  pub info_addr : ℕ
  pub registered : ℕ
  pub mappings : ℕ
  pub device : Bool
  pub kobject : Bool
  pub files : List Attr

-- The static initialisers.
abbrev pub initial : UioDriver
initial = record {
  virt = none;
  in_use = false;
  enable = false;
  phys_base = 0xA0000000;
  irq_line = 0;
  info_irq = pos 0;
  info_addr = 0;
  registered = 0;
  mappings = 0;
  device = false;
  kobject = false;
  files = [];
}

-- What the kernel answers while the module is loaded: the negative results, `none` for 0.
pub record InitReplies : Type 0 where
  pub device_rc : Option ℕ
  pub file_rc : Attr → Option ℕ

abbrev pub device_unregister : UioDriver → UioDriver
device_unregister d = record d { device = false }

-- The files of a kobject go with it.
abbrev pub kobject_put : UioDriver → UioDriver
kobject_put d = record d { kobject = false; files = [] }

-- A file for each attribute of the list in turn, up to the first that fails.
unfoldable pub create_files : InitReplies → List Attr → UioDriver → UioDriver × Option ℕ
create_files r [] d = (d, none)
create_files r (a ∷ rest) d = elim (r.file_rc a) [
  | some rc ↦ (kobject_put (device_unregister d), some rc)
  | none ↦ create_files r rest (record d { files = a ∷ d.files })
]

unfoldable pub axidma_init : InitReplies → UioDriver → UioDriver × Option ℕ
unfolding create_files
axidma_init r d = elim r.device_rc [
  | some rc ↦ (d, some rc)
  | none ↦
      create_files r (enable_attr ∷ phys_base_attr ∷ irq_line_attr ∷ [])
        (record d { device = true; kobject = true })
]

-- The result is whether the open succeeds; otherwise it is `-EBUSY`.
unfoldable pub axidma_open : UioDriver → UioDriver × Bool
axidma_open d = if d.in_use then (d, false) else (record d { in_use = true }, true)

unfoldable pub axidma_release : UioDriver → UioDriver
axidma_release d = record d { in_use = false }

-- What the kernel answers while the device is enabled.
pub record EnableReplies : Type 0 where
  pub node_found : Bool
  pub domain_found : Bool
  pub virq : ℤ
  pub uio_registered : Bool
  -- the address that `ioremap_nocache` gives, `none` for `NULL`
  pub remapped : Option ℕ

abbrev pub is_zero : ℤ → Bool
is_zero (pos n) = n == 0
is_zero (negsuc n) = false

-- The branch that enables: it finds the interrupt, registers the UIO device and maps the registers.
unfoldable pub enable_device : EnableReplies → UioDriver → UioDriver
enable_device r d =
    let found = record d { info_irq = r.virq; info_addr = d.phys_base } in
    if not r.node_found
    then record d { enable = false }
    else (if not r.domain_found
        then record d { enable = false }
        else (if not r.uio_registered then record found { enable = false } else elim r.remapped [
          | none ↦ record found { registered = d.registered + 1; virt = none; enable = false }
          | some base ↦ record found {
            registered = d.registered + 1;
            virt = some base;
            mappings = d.mappings + 1;
            enable = true;
          }
        ]))

unfoldable pub disable_device : UioDriver → UioDriver
disable_device d =
    if d.enable
    then record d {
      registered = d.registered - 1;
      mappings = d.mappings - 1;
      virt = none;
      enable = false;
    }
    else record d { enable = false }

-- `none` is text that does not parse. Every call returns `count`.
unfoldable pub enable_store : EnableReplies → Option ℤ → UioDriver → UioDriver
unfolding enable_device disable_device
enable_store r parsed d = if d.in_use then d else elim parsed [
  | none ↦ d
  | some tmp ↦
      if is_zero tmp
      then disable_device d
      else (if d.enable then record d { enable = true } else enable_device r d)
]

unfoldable pub phys_base_store : Option ℕ → UioDriver → UioDriver
phys_base_store parsed d = if d.in_use then d else elim parsed [
  | none ↦ d
  | some tmp ↦ if ltb tmp 0xA0000000 || ltb 0xB0000000 tmp then d else record d { phys_base = tmp }
]

unfoldable pub irq_line_store : Option ℤ → UioDriver → UioDriver
irq_line_store parsed d = if d.in_use then d else elim parsed [
  | none ↦ d
  | some (negsuc n) ↦ d
  | some (pos tmp) ↦ if ltb 7 tmp then d else record d { irq_line = tmp }
]

-- The module is removed: what is left.
unfoldable pub axidma_exit : UioDriver → UioDriver
axidma_exit d =
    let cleared =
      if d.enable
      then record d { registered = d.registered - 1; mappings = d.mappings - 1 }
      else d in
    device_unregister (kobject_put cleared)
