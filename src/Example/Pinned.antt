-- ===== src/Example/Pinned.antt =====
-- The program on buffers that the driver pinned.
use mpsoc_axidma.Base.{
  ℕ, ◌+◌, ◌*◌, ◌%◌, ◌^◌, ◌≤◌, ◌<◌, ◌≡◌, ◌≢◌, Bool, false, List, length, Option, arith, subst,
}
use mpsoc_axidma.Physlist.{not_found}
use mpsoc_axidma.Physlist.Room.{desc_size}
use mpsoc_axidma.Heap.{Ptr, Heap, null}
use mpsoc_axidma.SgList.Loop.{Ends}
use mpsoc_axidma.PinnerApi.{PinnerCmd}
use mpsoc_axidma.Pinner.{Page, ScatterEnt, page_size, num_pages_for, fill_sglist, to_physlist}
use mpsoc_axidma.Pinner.Mapping.{IsMapped, IsMapped-HoldsDescriptors, IsMapped-HoldsData}
use mpsoc_axidma.Dma.{DescMem, AxidmaCtx, Transfer}
use mpsoc_axidma.Example.{make_and_receive}
use mpsoc_axidma.Dma.Engine.{Serves, Maps}
use mpsoc_axidma.Example.Whole.{Outcome, make_and_receive-Outcome}

-- Both buffers are page-aligned; the descriptor buffer has 64 bytes or more and does not end in the
-- last 7 bytes before a boundary, the data buffer is not empty, both are below 4 GiB - 1, and the pages
-- are page-aligned, in the physical address space and as many as the buffers take; `dma_map_sg` maps
-- the lists that the driver fills for a device that sees physical addresses. Then, with the physlists
-- that the driver sends, an allocator that gives free blocks, a size that is not zero, enough fuel and
-- an engine that has the descriptor buffer at the addresses of its physlist and completes the
-- descriptors that lead from the one it is started with to the last, the program ends as on any good
-- buffers: it exits only if the allocator gives no block for the list or for a node that it is to have,
-- and otherwise receives the buffers that it added, each whole, good and in its place, and gives back
-- every block that it took.
pub make_and_receive-fill_sglist :
    (page_to_phys : Page → ℕ) (aligned : (p : Page) → page_to_phys p % page_size ≡ 0)
    (in_space : (p : Page) → page_to_phys p + page_size ≤ 2 ^ 64) (pick : Heap → Ptr)
    (fresh : (h : Heap) → pick h ≢ null → h.alive (pick h) ≡ false) (stack : Ptr)
    (apart : (h : Heap) → pick h ≢ stack) (write : PinnerCmd → ℕ → Bool) (rounds fuel : ℕ)
    (engine : Transfer → DescMem → DescMem) (ctx : AxidmaCtx) (m : DescMem) (pinner_fd : Option ℕ)
    (sg_handle sg_buf data_buf : ℕ) (sg_pages data_pages : List Page)
    (sg_mapped data_mapped : List ScatterEnt) (sg_sz data_sz n sz : ℕ) (to_virt : ℕ → ℕ) (h : Heap)
    → ctx.lst ≡ null
    → Serves to_virt engine
    → 64 ≤ sg_sz
    → sg_sz < not_found
    → sg_sz % 64 ≤ desc_size
    → sg_buf % page_size ≡ 0
    → length sg_pages ≡ num_pages_for 0 sg_sz
    → IsMapped page_to_phys (fill_sglist page_to_phys sg_pages (sg_buf % page_size) sg_sz) sg_mapped
    → 0 < data_sz
    → data_sz < not_found
    → data_buf % page_size ≡ 0
    → length data_pages ≡ num_pages_for 0 data_sz
    → IsMapped page_to_phys
        (fill_sglist page_to_phys data_pages (data_buf % page_size) data_sz)
        data_mapped
    → 0 < sz
    → let sg_plist = to_physlist sg_mapped in
      let data_plist = to_physlist data_mapped in
      Maps to_virt sg_buf sg_plist
      → length data_plist < fuel
      → n * length data_plist < fuel
      → n * length data_plist < rounds
      → h.alive stack ≡ false
      → Ends (Outcome pick h stack sg_plist data_buf data_plist n sz) (
          make_and_receive pick stack write rounds fuel engine ctx m pinner_fd sg_handle sg_buf
            sg_plist data_buf data_plist n sz h)
make_and_receive-fill_sglist page_to_phys aligned in_space pick fresh stack apart write rounds fuel
      engine ctx m pinner_fd sg_handle sg_buf data_buf sg_pages data_pages sg_mapped data_mapped
      sg_sz data_sz n sz to_virt h unused serves large sg_small clear sg_at sg_n sg_is pos
      data_small data_at data_n data_is sz_pos maps enough enough_all turns dead =
    let sg_is' = subst (mapped_from sg_pages sg_mapped sg_sz) sg_at sg_is in
    let data_is' = subst (mapped_from data_pages data_mapped data_sz) data_at data_is in
    make_and_receive-Outcome pick fresh stack apart write rounds fuel engine ctx m pinner_fd
      sg_handle unused to_virt serves sg_buf _ maps data_buf _ n sz
      (IsMapped-HoldsDescriptors page_to_phys aligned in_space sg_pages sg_mapped sg_sz large
        sg_small clear sg_n sg_is')
      (IsMapped-HoldsData page_to_phys aligned in_space sg_pages sg_mapped sg_sz (omega arith)
        (omega arith) sg_n sg_is').fits
      (IsMapped-HoldsData page_to_phys aligned in_space data_pages data_mapped data_sz pos
        (omega arith) data_n data_is')
      sz_pos enough enough_all turns h dead
  where
    mapped_from : List Page → List ScatterEnt → (sz off : ℕ) → Type 0
    mapped_from pages mapped size off =
        IsMapped page_to_phys (fill_sglist page_to_phys pages off size) mapped
