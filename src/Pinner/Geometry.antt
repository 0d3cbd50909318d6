-- ===== src/Pinner/Geometry.antt =====
-- The pieces of the list that the driver fills, before dma_map_sg, against the pages that hold the
-- buffer. Mapping has what becomes of them.
use mpsoc_axidma.Base.{
  ℕ, zero, suc, ◌+◌, ◌-◌, ◌*◌, ◌/◌, ◌%◌, ◌^◌, ◌≤◌, ◌<◌, ◌≡◌, ◌∙◌, false, List, [], ◌∷◌, arith,
  length, leb, All, Bool-cases, inl, inr, sub32, ltb,
}
use mpsoc_axidma.Physlist.{virt_to_phys}
use mpsoc_axidma.Physlist.Layout.{size}
use mpsoc_axidma.Physlist.Align.{StartsAligned, rest_of}
use mpsoc_axidma.Pinner.{Page, page_size, num_pages_for, fill_rest, fill_sglist, to_physlist}

-- The page at an index of the array (page 0 past its end).
abbrev pub page_at : List Page → ℕ → Page
page_at [] i = 0
page_at (p ∷ ps) zero = p
page_at (p ∷ ps) (suc i) = page_at ps i

module _ (page_to_phys : Page → ℕ) (aligned : (p : Page) → page_to_phys p % page_size ≡ 0)
    (in_space : (p : Page) → page_to_phys p + page_size ≤ 2 ^ 64) where
  rest_size :
      (p : Page) (ps : List Page) (last : ℕ)
      → size (to_physlist (fill_rest page_to_phys (p ∷ ps) last)) ≡ length ps * page_size + last
  unfolding fill_rest
  rest_size p [] last = omega arith
  rest_size p (q ∷ ps) last = omega (arith, rest_size q ps last)

  page_at-next :
      (p : Page) (ps : List Page) (k : ℕ)
      → page_size ≤ k
      → page_at (p ∷ ps) (k / page_size) ≡ page_at ps ((k - page_size) / page_size)
  page_at-next p ps k h =
      let e : k / page_size ≡ suc ((k - page_size) / page_size) = omega arith in rw e

  rest-virt_to_phys :
      (p : Page) (ps : List Page) (last k : ℕ)
      → last ≤ page_size
      → k < length ps * page_size + last
      → virt_to_phys (to_physlist (fill_rest page_to_phys (p ∷ ps) last)) k
        ≡ page_to_phys (page_at (p ∷ ps) (k / page_size)) + k % page_size
  unfolding fill_rest virt_to_phys
  rest-virt_to_phys p [] last k small h =
      let z : k / page_size ≡ 0 = omega arith in rw z (ground (arith, in_space p))
  rest-virt_to_phys p (q ∷ ps) last k small h = elim (Bool-cases (leb page_size k)) [
    | inl later ↦ rw later (
        rest-virt_to_phys q ps last (k - page_size) small (ground arith)
        ∙ ground (arith, page_at-next p (q ∷ ps) k))
    | inr here ↦
        let z : k / page_size ≡ 0 = ground arith in rw (here, z) (ground (arith, in_space p))
  ]

  -- The length of the last piece, by the code's wrapping subtractions and without wrap.
  abbrev pub last_of_buffer : (ps : List Page) (off sz : ℕ) → ℕ
  last_of_buffer ps off sz = sub32 (sub32 sz (page_size - off)) (length ps * page_size - page_size)

  pub last_bounds :
      (q : Page) (ps : List Page) (off sz : ℕ)
      → off < page_size
      → sz < 2 ^ 32
      → suc (suc (length ps)) ≡ num_pages_for off sz
      → (page_size - off ≤ sz)
        × (last_of_buffer (q ∷ ps) off sz ≤ page_size)
        × ((page_size - off) + (length ps * page_size + last_of_buffer (q ∷ ps) off sz) ≡ sz)
  unfolding num_pages_for
  last_bounds q ps off sz ho hs n = omega arith

  fill_sglist-size :
      (pages : List Page) (off sz : ℕ)
      → off < page_size
      → 0 < sz
      → sz < 2 ^ 32
      → length pages ≡ num_pages_for off sz
      → size (to_physlist (fill_sglist page_to_phys pages off sz)) ≡ sz
  unfolding fill_sglist num_pages_for
  fill_sglist-size [] off sz ho pos hs n = absurd (omega arith)
  fill_sglist-size (p ∷ []) off sz ho pos hs n = ground arith
  fill_sglist-size (p ∷ q ∷ ps) off sz ho pos hs n =
      ground (arith, last_bounds q ps off sz, rest_size q ps (last_of_buffer (q ∷ ps) off sz))

  fill_sglist-virt_to_phys :
      (pages : List Page) (off sz k : ℕ)
      → off < page_size
      → sz < 2 ^ 32
      → length pages ≡ num_pages_for off sz
      → k < sz
      → virt_to_phys (to_physlist (fill_sglist page_to_phys pages off sz)) k
        ≡ page_to_phys (page_at pages ((off + k) / page_size)) + (off + k) % page_size
  unfolding fill_sglist virt_to_phys num_pages_for
  fill_sglist-virt_to_phys [] off sz k ho hs n h = absurd (omega arith)
  fill_sglist-virt_to_phys (p ∷ []) off sz k ho hs n h =
      let z : (off + k) / page_size ≡ 0 = omega arith in rw z (ground (arith, in_space p))
  fill_sglist-virt_to_phys (p ∷ q ∷ ps) off sz k ho hs n h =
      let (many, small, sum) = last_bounds q ps off sz ho hs n in
      let first : ltb sz (page_size - off) ≡ false = ground arith in
      rw first (elim (Bool-cases (leb (page_size - off) k)) [
        | inl later ↦
            let k' = k - (page_size - off) in
            let le : page_size - off ≤ k = ground arith in
            let up : (off + k) / page_size ≡ suc (k' / page_size) = omega arith in
            let low : (off + k) % page_size ≡ k' % page_size = omega arith in
            rw (later, up, low)
              (rest-virt_to_phys q ps (last_of_buffer (q ∷ ps) off sz) k' small (omega arith))
        | inr here ↦
            let z : (off + k) / page_size ≡ 0 = ground arith in
            rw (here, z) (ground (arith, in_space p))
      ])

  rest-StartsAligned :
      (ps : List Page) (last : ℕ) → All StartsAligned (to_physlist (fill_rest page_to_phys ps last))
  unfolding fill_rest
  rest-StartsAligned [] last = tt
  rest-StartsAligned (p ∷ []) last = (record { aligned = omega (arith, aligned p) }, tt)
  rest-StartsAligned (p ∷ q ∷ ps) last =
      (record { aligned = omega (arith, aligned p) }, rest-StartsAligned (q ∷ ps) last)

  fill_sglist-StartsAligned :
      (pages : List Page) (off sz : ℕ)
      → All StartsAligned (rest_of (to_physlist (fill_sglist page_to_phys pages off sz)))
  unfolding fill_sglist
  fill_sglist-StartsAligned [] off sz = tt
  fill_sglist-StartsAligned (p ∷ ps) off sz =
      rest-StartsAligned ps (sub32 (sub32 sz (page_size - off)) (length ps * page_size - page_size))

  -- Where the pages' addresses are page-aligned and their bytes in the physical address space, and the
  -- pages are as many as a buffer of `sz` bytes, not zero and below 4 GiB, needs from `off` bytes into
  -- the first page on: the pieces that `pinner_alloc_and_fill_sglist` fills in make `sz` bytes, all
  -- but the first start on a 64-byte boundary, and `virt_to_phys` finds byte `k` in the page that
  -- holds it, at its offset in that page.
  pub fill_sglist_lem :
      (pages : List Page) (off sz : ℕ)
      → off < page_size
      → 0 < sz
      → sz < 2 ^ 32
      → length pages ≡ num_pages_for off sz
      → let plist = to_physlist (fill_sglist page_to_phys pages off sz) in
        (size plist ≡ sz)
        × All StartsAligned (rest_of plist)
        × ((k : ℕ)
            → k < sz
            → virt_to_phys plist k
              ≡ page_to_phys (page_at pages ((off + k) / page_size)) + (off + k) % page_size)
  fill_sglist_lem pages off sz ho pos hs n = (
    fill_sglist-size pages off sz ho pos hs n,
    fill_sglist-StartsAligned pages off sz,
    λ k h. fill_sglist-virt_to_phys pages off sz k ho hs n h,
  )
