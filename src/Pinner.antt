-- ===== src/Pinner.antt =====
-- The pinner driver, modules/pinner/pinner.c: pages pinned for a user program, and the physical
-- pieces that it is told.
pub mod Geometry
pub mod Buffer
pub mod Mapping
pub mod Memory
pub mod Ops
pub mod Files
pub mod Account
pub mod Driver
pub mod User
pub mod Returns
pub mod RoundTrip
pub mod Requests
mod Tests
use mpsoc_axidma.Base.{
  ℕ, zero, suc, ◌+◌, ◌-◌, ◌*◌, ◌/◌, ◌%◌, ◌^◌, Bool, true, false, List, [], ◌∷◌, ◌++◌, map, Option,
  none, some, ltb, ◌==◌, if◌then◌else◌, sub32, length,
}
use mpsoc_axidma.Physlist.{PhyslistEntry, Physlist}
use mpsoc_axidma.PinnerApi.{max_pages, PinnerHandle, PinnerCmd, pin_code, unpin_code, flush_code}

-- `PAGE_SIZE` of the target's kernel.
abbrev pub page_size : ℕ
page_size = 4096

-- A page, by its `struct page *`.
abbrev pub Page : Type 0
Page = ℕ

-- The fields of `struct scatterlist` that the driver uses.
pub record ScatterEnt : Type 0 where
  pub page : Page
  pub length : ℕ
  pub offset : ℕ
  pub dma_address : ℕ

-- `struct pinning`, with its array; and `struct proc_info`, at the address `id`.
pub record Pinning : Type 0 where
  pub sglist : List ScatterEnt
  pub magic : ℕ

pub record ProcInfo : Type 0 where
  pub id : ℕ
  pub pinning_list : List Pinning
  pub magic : ℕ

-- The number of pages that hold `sz` bytes from `first_pg_offset` bytes into a page on.
unfoldable pub num_pages_for : (first_pg_offset sz : ℕ) → ℕ
num_pages_for first_pg_offset sz = (first_pg_offset + sz + (page_size - 1)) / page_size

module _ (page_to_phys : Page → ℕ) where
  abbrev pub scatter : Page → (length offset : ℕ) → ScatterEnt
  scatter p n o = record { page = p; length = n; offset = o; dma_address = page_to_phys p }

  -- The entries of the middle pages and of the last.
  unfoldable pub fill_rest : List Page → (last_sz : ℕ) → List ScatterEnt
  fill_rest [] last_sz = []
  fill_rest (p ∷ []) last_sz = scatter p last_sz 0 ∷ []
  fill_rest (p ∷ q ∷ ps) last_sz = scatter p page_size 0 ∷ fill_rest (q ∷ ps) last_sz

  -- The array that `pinner_alloc_and_fill_sglist` fills.
  unfoldable pub fill_sglist : List Page → (first_page_offset total_sz : ℕ) → List ScatterEnt
  unfolding fill_rest
  fill_sglist [] first_page_offset total_sz = []
  fill_sglist (p ∷ ps) first_page_offset total_sz =
      let first_page_sz =
        if ltb total_sz (page_size - first_page_offset)
        then total_sz
        else page_size - first_page_offset in
      let last_sz =
        sub32 (sub32 total_sz (page_size - first_page_offset))
          (length ps * page_size - page_size) in
      scatter p first_page_sz first_page_offset ∷ fill_rest ps last_sz

-- What `pinner_send_physlist` tells the user.
abbrev pub to_entry : ScatterEnt → PhyslistEntry
to_entry s = record { addr = (s.dma_address + s.offset) % 2 ^ 64; len = s.length }

abbrev pub to_physlist : List ScatterEnt → Physlist
to_physlist [] = []
to_physlist (s ∷ ss) = to_entry s ∷ to_physlist ss
