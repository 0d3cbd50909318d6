-- ===== src/Pinner/Mapping.antt =====
-- The physlist that pinner_do_pin of modules/pinner/pinner.c sends, behind dma_map_sg.
use mpsoc_axidma.Base.{
  ℕ, ◌+◌, ◌-◌, ◌%◌, ◌/◌, ◌^◌, ◌≤◌, ◌<◌, ◌≡◌, refl, ◌∙◌, ap, ap₂, sym, subst, true, List, [], ◌∷◌,
  map, All, arith, length, leb, ltb, if◌then◌else◌, Bool-cases, inl, inr, ◌⊎◌,
}
use mpsoc_axidma.Physlist.{PhyslistEntry, Physlist, virt_to_phys, not_found}
use mpsoc_axidma.Physlist.Layout.{size}
use mpsoc_axidma.Physlist.Align.{StartsAligned, rest_of}
use mpsoc_axidma.Physlist.Steady.{Steady}
use mpsoc_axidma.Physlist.Room.{desc_size, HoldsDescriptors}
use mpsoc_axidma.SgList.Invariant.{HoldsData}
use mpsoc_axidma.Pinner.{
  Page, ScatterEnt, page_size, num_pages_for, fill_rest, fill_sglist, to_physlist,
}
use mpsoc_axidma.Pinner.Memory.{pages_of}
use mpsoc_axidma.Pinner.Ops.{Errno}
use mpsoc_axidma.Pinner.Geometry.{page_at, fill_sglist_lem}
use mpsoc_axidma.Pinner.Buffer.{
  fill_sglist-HoldsDescriptors, fill_sglist-HoldsData, fill_sglist-Steady,
}

module _ (page_to_phys : Page → ℕ) where
  -- An entry with the address of its first byte, offset included, for its `dma_address`.
  abbrev pub at_bus : ScatterEnt → ScatterEnt
  at_bus s = record s { dma_address = page_to_phys s.page + s.offset }

  -- `mapped` is a list that `dma_map_sg` has mapped, for a device that sees physical addresses: the
  -- kernel documents `sg_dma_address` as the bus address of the segment's first byte. No entries are
  -- merged.
  abbrev pub IsMapped : (filled mapped : List ScatterEnt) → Type 0
  IsMapped filled mapped = mapped ≡ map at_bus filled

  fill_rest-at_bus :
      (ps : List Page) (n : ℕ)
      → map at_bus (fill_rest page_to_phys ps n) ≡ fill_rest page_to_phys ps n
  unfolding fill_rest
  fill_rest-at_bus [] n = refl
  fill_rest-at_bus (p ∷ []) n = ground arith
  fill_rest-at_bus (p ∷ q ∷ ps) n = ap₂ ◌∷◌ (ground arith) (fill_rest-at_bus (q ∷ ps) n)

  -- The mapping leaves the entries of a page-aligned buffer as they are.
  pub fill_sglist-at_bus :
      (ps : List Page) (sz : ℕ)
      → map at_bus (fill_sglist page_to_phys ps 0 sz) ≡ fill_sglist page_to_phys ps 0 sz
  unfolding fill_sglist
  fill_sglist-at_bus [] sz = refl
  fill_sglist-at_bus (p ∷ ps) sz = ap₂ ◌∷◌ (ground arith) (fill_rest-at_bus ps _)

  pages_of-at_bus : (ss : List ScatterEnt) → pages_of (map at_bus ss) ≡ pages_of ss
  pages_of-at_bus [] = refl
  pages_of-at_bus (s ∷ ss) = ap (λ ps. s.page ∷ ps) (pages_of-at_bus ss)

  -- A mapping that does this keeps the pages.
  pub at_bus-keeps :
      (ss ts : List ScatterEnt)
      → ◌≡◌ {A = Errno ⊎ List ScatterEnt} (inr (map at_bus ss)) (inr ts)
      → pages_of ts ≡ pages_of ss
  at_bus-keeps ss ts e = let mapped : ts ≡ map at_bus ss = cc e in rw mapped (pages_of-at_bus ss)

  -- The address of an entry does not matter behind it.
  virt_to_phys-later :
      (e e' : PhyslistEntry) (es : Physlist) (k : ℕ)
      → e.len ≡ e'.len
      → e.len ≤ k
      → virt_to_phys (e ∷ es) k ≡ virt_to_phys (e' ∷ es) k
  unfolding virt_to_phys
  virt_to_phys-later e e' es k same le =
      let later : leb e.len k ≡ true = ground arith in
      let later' : leb e'.len k ≡ true = ground arith in rw (later, later', same) refl

  virt_to_phys-first :
      (e : PhyslistEntry) (es : Physlist) (k : ℕ)
      → k < e.len
      → virt_to_phys (e ∷ es) k ≡ (e.addr + k) % 2 ^ 64
  unfolding virt_to_phys
  virt_to_phys-first e es k lt = ground arith

module _ (page_to_phys : Page → ℕ) (aligned : (p : Page) → page_to_phys p % page_size ≡ 0)
    (in_space : (p : Page) → page_to_phys p + page_size ≤ 2 ^ 64) where
  abbrev first_sz : (off sz : ℕ) → ℕ
  first_sz off sz = if ltb sz (page_size - off) then sz else page_size - off

  -- The first entry as the driver sends it, and as it would without the mapping.
  abbrev first_sent : Page → (off sz : ℕ) → PhyslistEntry
  first_sent p off sz = record {
    addr = (page_to_phys p + off + off) % 2 ^ 64;
    len = first_sz off sz;
  }

  abbrev first_filled : Page → (off sz : ℕ) → PhyslistEntry
  first_filled p off sz = record { addr = (page_to_phys p + off) % 2 ^ 64; len = first_sz off sz }

  sent-at_bus :
      (p : Page) (ps : List Page) (off sz : ℕ)
      → to_physlist (map (at_bus page_to_phys) (fill_sglist page_to_phys (p ∷ ps) off sz))
        ≡ first_sent p off sz ∷ rest_of (to_physlist (fill_sglist page_to_phys (p ∷ ps) off sz))
  unfolding fill_sglist
  sent-at_bus p ps off sz =
      ap (λ ss. first_sent p off sz ∷ to_physlist ss) (fill_rest-at_bus page_to_phys ps _)

  -- The length of the first entry.
  first_len :
      (p : Page) (ps : List Page) (off sz : ℕ)
      → off < page_size
      → length (p ∷ ps) ≡ num_pages_for off sz
      → ((k : ℕ) → k < sz → off + k < page_size → k < first_sz off sz)
        × ((k : ℕ) → k < sz → page_size ≤ off + k → first_sz off sz ≤ k)
  first_len p ps off sz ho n =
      (λ k h in_first. ground (arith, h, in_first), λ k h later. ground (arith, h, later))

  -- The pages' addresses are page-aligned and their bytes in the physical address space, and the pages
  -- are as many as a buffer of `sz` bytes, not zero and below 4 GiB, needs from `off` bytes into the
  -- first page on; `mapped` is what `dma_map_sg` makes of the list that `pinner_alloc_and_fill_sglist`
  -- fills. Then the pieces that the driver tells the user make `sz` bytes, and all but the first start
  -- on a 64-byte boundary. `virt_to_phys` finds each byte behind the first page in the page that holds
  -- it, at its offset in that page, and each byte of the first page `off` bytes too far; so it finds
  -- every byte where it is if the buffer is page-aligned.
  pub to_physlist-IsMapped :
      (pages : List Page) (mapped : List ScatterEnt) (off sz : ℕ)
      → off < page_size
      → 0 < sz
      → sz < 2 ^ 32
      → length pages ≡ num_pages_for off sz
      → IsMapped page_to_phys (fill_sglist page_to_phys pages off sz) mapped
      → let plist = to_physlist mapped in
        (size plist ≡ sz)
        × All StartsAligned (rest_of plist)
        × ((k : ℕ)
            → k < sz
            → page_size ≤ off + k
            → virt_to_phys plist k
              ≡ page_to_phys (page_at pages ((off + k) / page_size)) + (off + k) % page_size)
        × ((k : ℕ)
            → k < sz
            → off + k < page_size
            → virt_to_phys plist k ≡ (page_to_phys (page_at pages 0) + (off + k) + off) % 2 ^ 64)
        × ((k : ℕ)
            → k < sz
            → off ≡ 0
            → virt_to_phys plist k ≡ page_to_phys (page_at pages (k / page_size)) + k % page_size)
  unfolding fill_sglist num_pages_for
  to_physlist-IsMapped [] mapped off sz ho pos hs n is = absurd (omega arith)
  to_physlist-IsMapped (p ∷ ps) mapped off sz ho pos hs n is =
      let (whole, starts, at) =
        fill_sglist_lem page_to_phys aligned in_space (p ∷ ps) off sz ho pos hs n in
      let (before, behind) = first_len p ps off sz ho n in
      let es = rest_of (to_physlist (fill_sglist page_to_phys (p ∷ ps) off sz)) in
      let e = first_sent p off sz in
      rw (ap to_physlist is ∙ sent-at_bus p ps off sz) (
        whole,
        starts,
        (λ k h later.
            virt_to_phys-later page_to_phys e (first_filled p off sz) es k refl (behind k h later)
            ∙ at k h),
        (λ k h inside. virt_to_phys-first page_to_phys e es k (before k h inside) ∙ omega arith),
        (λ k h page_aligned. elim (Bool-cases (leb page_size k)) [
          | inl later ↦
              let same : off + k ≡ k = omega arith in
              virt_to_phys-later page_to_phys e (first_filled p off sz) es k refl
                (behind k h (ground arith))
              ∙ subst
                  (λ x.
                    virt_to_phys (to_physlist (fill_sglist page_to_phys (p ∷ ps) off sz)) k
                    ≡ page_to_phys (page_at (p ∷ ps) (x / page_size)) + x % page_size)
                  same (at k h)
          | inr here ↦
              let z : k / page_size ≡ 0 = ground arith in
              virt_to_phys-first page_to_phys e es k (before k h (ground arith))
              ∙ rw z (ground (arith, in_space p))
        ]),
      )

  sent-page_aligned :
      (pages : List Page) (mapped : List ScatterEnt) (sz : ℕ)
      → IsMapped page_to_phys (fill_sglist page_to_phys pages 0 sz) mapped
      → to_physlist (fill_sglist page_to_phys pages 0 sz) ≡ to_physlist mapped
  sent-page_aligned pages mapped sz is =
      ap to_physlist (sym (is ∙ fill_sglist-at_bus page_to_phys pages sz))

  -- The pages' addresses are page-aligned and their bytes in the physical address space, and the pages
  -- are as many as a page-aligned buffer of `sz` bytes needs; `mapped` is what `dma_map_sg` makes of the
  -- list that the driver fills. Then, for 64 bytes up to 4 GiB - 2 that do not end in the last 7 bytes
  -- before a 64-byte boundary, the physlist that the driver sends is one that holds descriptors:
  -- `find_contiguous_aligned_after` finds the least place in it from the start, and from behind each
  -- descriptor.
  pub IsMapped-HoldsDescriptors :
      (pages : List Page) (mapped : List ScatterEnt) (sz : ℕ)
      → 64 ≤ sz
      → sz < not_found
      → sz % 64 ≤ desc_size
      → length pages ≡ num_pages_for 0 sz
      → IsMapped page_to_phys (fill_sglist page_to_phys pages 0 sz) mapped
      → HoldsDescriptors (to_physlist mapped)
  IsMapped-HoldsDescriptors pages mapped sz enough small clear n is =
      subst HoldsDescriptors (sent-page_aligned pages mapped sz is) (
        fill_sglist-HoldsDescriptors page_to_phys aligned in_space pages 0 sz (omega arith) enough
          small (omega arith) n)

  -- With such addresses and so many pages, the physlist that the driver sends for a page-aligned buffer
  -- of less than 4 GiB that is not empty, behind its mapping, is one that holds data.
  pub IsMapped-HoldsData :
      (pages : List Page) (mapped : List ScatterEnt) (sz : ℕ)
      → 0 < sz
      → sz < 2 ^ 32
      → length pages ≡ num_pages_for 0 sz
      → IsMapped page_to_phys (fill_sglist page_to_phys pages 0 sz) mapped
      → HoldsData (to_physlist mapped)
  IsMapped-HoldsData pages mapped sz pos hs n is =
      subst HoldsData (sent-page_aligned pages mapped sz is)
        (fill_sglist-HoldsData page_to_phys aligned in_space pages 0 sz (omega arith) pos hs n)

  -- The places for descriptors in such a physlist are 64 bytes apart, from its start.
  pub IsMapped-Steady :
      (pages : List Page) (mapped : List ScatterEnt) (sz : ℕ)
      → length pages ≡ num_pages_for 0 sz
      → IsMapped page_to_phys (fill_sglist page_to_phys pages 0 sz) mapped
      → Steady 64 (to_physlist mapped)
  IsMapped-Steady pages mapped sz n is =
      subst (Steady 64) (sent-page_aligned pages mapped sz is)
        (fill_sglist-Steady page_to_phys aligned in_space pages 0 sz (omega arith) n)
