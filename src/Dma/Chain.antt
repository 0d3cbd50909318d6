-- ===== src/Dma/Chain.antt =====
-- The descriptors in memory of a list that `axidma_add_entry` built, as the engine reads them.
use mpsoc_axidma.Base.{
  ℕ, ◌+◌, ◌*◌, ◌%◌, ◌^◌, ◌≤◌, ◌<◌, ◌≡◌, refl, ◌∙◌, ap, ap₂, Bool, false, List, [], ◌∷◌, ◌++◌, map,
  All, length, Option, some, arith,
}
use mpsoc_axidma.Physlist.{Physlist, virt_to_phys}
use mpsoc_axidma.Physlist.Layout.{start, bytes, run, Fits}
use mpsoc_axidma.Physlist.Align.{Slot}
use mpsoc_axidma.Physlist.Bytes.{take, virt_to_phys-start}
use mpsoc_axidma.Physlist.Room.{desc_size}
use mpsoc_axidma.Heap.{Ptr, Heap, ok}
use mpsoc_axidma.Heap.Ring.{has, ◌∈◌, IsDistinct, Links}
use mpsoc_axidma.SgList.{SgList}
use mpsoc_axidma.SgList.Tile.{covered}
use mpsoc_axidma.SgList.Slots.{Spaced, Spaced-ge, offset_of}
use mpsoc_axidma.SgList.Range.{InRange}
use mpsoc_axidma.SgList.Invariant.{WellFormed}
use mpsoc_axidma.PinnerApi.{PinnerCmd, flush_buf_cache}
use mpsoc_axidma.Dma.{SgDescriptor, DescMem, AxidmaCtx, WriteResult, axidma_write_sg_list}
use mpsoc_axidma.Dma.Write.{Describes, desc_at, next_phys_of, axidma_write_sg_list-Describes}
use mpsoc_axidma.Dma.Start.{phys_of}

-- The addresses that a descriptor gives, as the engine joins their halves.
abbrev pub next_desc : SgDescriptor → ℕ
next_desc d = d.next_desc_msb * 2 ^ 32 + d.next_desc_lsb

abbrev pub buffer : SgDescriptor → ℕ
buffer d = d.buffer_msb * 2 ^ 32 + d.buffer_lsb

-- The bytes that a chain of descriptors fills, in order.
abbrev pub filled : List SgDescriptor → List ℕ
filled [] = []
filled (d ∷ ds) = run (buffer d) d.control.len ++ filled ds

-- A descriptor's bytes are one piece of physical memory that starts on a 64-byte boundary.
pub record Seated (h : Heap) (lst : SgList) (x : Ptr) : Type 0 where
  pub aligned : phys_of h lst x % 64 ≡ 0
  pub whole :
      (k : ℕ)
      → k < desc_size
      → virt_to_phys lst.sg_plist ((h.fields x).sg_offset + k) ≡ phys_of h lst x + k

-- Each descriptor but the last points at the physical address of the next.
abbrev pub Chained : Heap → SgList → DescMem → List Ptr → Type 0
Chained h lst m [] = Unit
Chained h lst m (x ∷ []) = Unit
Chained h lst m (x ∷ y ∷ xs) =
    (next_desc (m (desc_at h lst x)) ≡ phys_of h lst y) × Chained h lst m (y ∷ xs)

-- What the engine finds in the memory `m` for the nodes `xs`: each descriptor in its place, what it
-- says, how they are chained, and what they fill.
pub record InMemory (h : Heap) (lst : SgList) (m : DescMem) (xs : List Ptr) : Type 0 where
  pub seated : All (Seated h lst) xs
  pub says :
      (y : Ptr) → y ∈ xs → Describes (m (desc_at h lst y)) (h.fields y) (next_phys_of h lst y)
  pub chained : Chained h lst m xs
  pub fills :
      filled (map (λ y. m (desc_at h lst y)) xs) ≡ take lst.data_offset (bytes lst.data_plist)

Slot-virt_to_phys :
    (p : Physlist) (s k : ℕ)
    → All Fits p
    → (sl : Slot p desc_size s) → k < desc_size
    → virt_to_phys p (s + k) ≡ sl.entry.addr + sl.into + k
Slot-virt_to_phys p s k fits sl lt =
    ap (virt_to_phys p) {y = start p sl.index + (sl.into + k)} (omega (arith, sl.offset_eq))
    ∙ virt_to_phys-start p sl.index (sl.into + k) sl.at (omega (arith, sl.room)) fits
    ∙ omega arith

Slot-base :
    (p : Physlist) (s : ℕ)
    → All Fits p
    → (sl : Slot p desc_size s) → virt_to_phys p s ≡ sl.entry.addr + sl.into
Slot-base p s fits sl =
    ap (virt_to_phys p) {y = s + 0} (omega arith)
    ∙ Slot-virt_to_phys p s 0 fits sl (omega arith)
    ∙ omega arith

module _ (h : Heap) (lst : SgList) where
  -- Places behind an offset are at other addresses than it.
  not_at :
      (k : ℕ) (xs : List Ptr) (lo : ℕ)
      → All (λ s. lo ≤ s) (map offset_of (map h.fields xs))
      → k < lo
      → has (lst.sg_buf + k) (map (desc_at h lst) xs) ≡ false
  not_at k [] lo ge lt = refl
  not_at k (x ∷ xs) lo ge lt = ground (arith, not_at k xs lo ge.1 lt, ge.0)

  pub Spaced-IsDistinct :
      (xs : List Ptr) (lo hi : ℕ)
      → Spaced lst.sg_plist lo (map offset_of (map h.fields xs)) hi
      → IsDistinct (map (desc_at h lst) xs)
  Spaced-IsDistinct [] lo hi w = tt
  Spaced-IsDistinct (x ∷ xs) lo hi w = (
    not_at (h.fields x).sg_offset xs ((h.fields x).sg_offset + desc_size)
        (Spaced-ge lst.sg_plist _ _ hi w.2) (omega arith),
    Spaced-IsDistinct xs ((h.fields x).sg_offset + desc_size) hi w.2,
  )

  All-map : (xs : List Ptr) → All InRange (map h.fields xs) → All (λ y. InRange (h.fields y)) xs
  All-map [] a = tt
  All-map (x ∷ xs) a = (a.0, All-map xs a.1)

  Spaced-Seated :
      (xs : List Ptr) (lo hi : ℕ)
      → All Fits lst.sg_plist
      → Spaced lst.sg_plist lo (map offset_of (map h.fields xs)) hi
      → All (Seated h lst) xs
  Spaced-Seated [] lo hi fits w = tt
  Spaced-Seated (x ∷ xs) lo hi fits w = (
    record {
      aligned = rw (Slot-base lst.sg_plist (h.fields x).sg_offset fits w.1) w.1.aligned;
      whole = λ k lt. omega (
        arith,
        Slot-virt_to_phys lst.sg_plist (h.fields x).sg_offset k fits w.1 lt,
        Slot-base lst.sg_plist (h.fields x).sg_offset fits w.1,
      );
    },
    Spaced-Seated xs ((h.fields x).sg_offset + desc_size) hi fits w.2,
  )

  chain :
      (m : DescMem) (a : Ptr) (xs : List Ptr)
      → Links h.next h.prev a xs lst.sentinel
      → ((y : Ptr) → y ∈ xs → Describes (m (desc_at h lst y)) (h.fields y) (next_phys_of h lst y))
      → Chained h lst m xs
  chain m a [] l d = tt
  chain m a (x ∷ []) l d = tt
  chain m a (x ∷ y ∷ xs) l d = (
    (d x (ground arith)).next_eq ∙ ap (phys_of h lst) l.2.0,
    chain m x (y ∷ xs) l.2 (λ z i. d z (ground arith)),
  )

  filled-covered :
      (m : DescMem) (xs : List Ptr)
      → ((y : Ptr) → y ∈ xs → Describes (m (desc_at h lst y)) (h.fields y) (next_phys_of h lst y))
      → filled (map (λ y. m (desc_at h lst y)) xs) ≡ covered (map h.fields xs)
  filled-covered m [] d = refl
  filled-covered m (x ∷ xs) d =
      let e = d x (ground arith) in
      ap₂ ◌++◌ (ap₂ run e.buffer_eq e.len_eq) (filled-covered m xs (λ z i. d z (ground arith)))

-- For a well-formed list with a node, whose descriptor buffer is in the physical address space,
-- `axidma_write_sg_list` returns, and the walk starts at the first node. Each descriptor is in one piece
-- of physical memory, on a 64-byte boundary; each but the last points at the physical address of the
-- next; and what they fill, one after the other, are the bytes of the data buffer up to the list's
-- data offset.
pub axidma_write_sg_list-Chained :
    (write : PinnerCmd → ℕ → Bool) (fuel : ℕ) (ctx : AxidmaCtx) (h : Heap) (lst : SgList) (x : Ptr)
    (xs : List Ptr) (m : DescMem) (pinner_fd : Option ℕ) (handle : ℕ)
    → WellFormed h lst (x ∷ xs)
    → All Fits lst.sg_plist
    → length (x ∷ xs) < fuel
    → (m' : DescMem) × (axidma_write_sg_list write fuel (some ctx) (some lst) m pinner_fd handle h
        ≡ ok
            (WriteResult.written
              (record ctx { lst = lst.sentinel })
              (record lst { to_vist = x })
              m'
              (flush_buf_cache write pinner_fd handle))
            h)
      × InMemory h lst m' (x ∷ xs)
axidma_write_sg_list-Chained write fuel ctx h lst x xs m pinner_fd handle w fits enough =
    let (m', ran, d, _) =
      axidma_write_sg_list-Describes write fuel ctx h lst x xs m pinner_fd handle w.ring
        (Spaced-IsDistinct h lst (x ∷ xs) 0 lst.sg_offset w.slots) (All-map h lst (x ∷ xs) w.fields)
        enough in
    (
      m',
      ran,
      record {
        seated = Spaced-Seated h lst (x ∷ xs) 0 lst.sg_offset fits w.slots;
        says = d;
        chained = chain h lst m' lst.sentinel (x ∷ xs) w.ring.links d;
        fills = filled-covered h lst m' (x ∷ xs) d ∙ w.tiled;
      },
    )
