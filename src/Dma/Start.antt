-- ===== src/Dma/Start.antt =====
-- `axidma_s2mm_transfer`: what the engine is told of the list.
use mpsoc_axidma.Base.{
  ℕ, zero, suc, ◌+◌, ◌/◌, ◌%◌, ◌^◌, ◌<◌, ◌≡◌, ◌≢◌, Bool, true, false, List, [], ◌∷◌, ◌==◌,
  if◌then◌else◌, arith, All, length, some, ap, ◌∙◌, Bool-cases, inl, inr,
}
use mpsoc_axidma.Physlist.{virt_to_phys}
use mpsoc_axidma.Heap.{Ptr, null, Heap, ok, load_next, load_prev, load_fields}
use mpsoc_axidma.Heap.Ring.{◌∉◌, last_of, last_of-mem, Links, Links-prev, Ring, All-mem}
use mpsoc_axidma.SgList.{SgList}
use mpsoc_axidma.Dma.{
  AxidmaCtx, s2mm_curdesc_lsb, s2mm_curdesc_msb, s2mm_dmacr, s2mm_taildesc_lsb, s2mm_taildesc_msb,
  started, count_loop, dmacr, axidma_s2mm_transfer,
}

-- How many of the nodes end a buffer.
abbrev pub ends_of : Heap → List Ptr → ℕ
ends_of h [] = 0
ends_of h (x ∷ xs) = (if (h.fields x).is_eof == 0 then 0 else 1) + ends_of h xs

-- The physical address of a node's descriptor.
abbrev pub phys_of : Heap → SgList → Ptr → ℕ
phys_of h lst x = virt_to_phys lst.sg_plist (h.fields x).sg_offset

count_loop-ends_of :
    (h : Heap) (lst : SgList) (fuel : ℕ) (a : Ptr) (xs : List Ptr) (cnt : ℕ)
    → Links h.next h.prev a xs lst.sentinel
    → lst.sentinel ∉ xs
    → h.alive lst.sentinel ≡ true
    → All (λ x. h.alive x ≡ true) xs
    → length xs < fuel
    → count_loop fuel lst (h.next a) cnt h ≡ ok (cnt + ends_of h xs) h
unfolding count_loop load_next load_fields
count_loop-ends_of h lst zero a xs cnt l out live_s live enough = absurd (omega arith)
count_loop-ends_of h lst (suc k) a [] cnt l out live_s live enough = ground (arith, l)
count_loop-ends_of h lst (suc k) a (x ∷ xs) cnt l out live_s live enough =
    let ne : (x == lst.sentinel) ≡ false = ground (arith, out) in
    rw (l.0, ne, live.0, live.0)
      (rw
        (count_loop-ends_of h lst k x xs (if (h.fields x).is_eof == 0 then cnt else cnt + 1) l.2
          (ground (arith, out)) live_s live.1 (omega arith))
        (elim (Bool-cases ((h.fields x).is_eof == 0)) [
          | inl no_end ↦ rw no_end (ap (λ n. ok n h) (omega arith))
          | inr an_end ↦ rw an_end (ap (λ n. ok n h) (omega arith))
        ]))

-- For a list that holds its nodes, has a node that ends a buffer, and is the one of the context:
-- `axidma_s2mm_transfer` ends without a fault, and writes, in this order, the physical address of the
-- first node's descriptor, the control register for the number of nodes that end a buffer, and the
-- physical address of the last node's descriptor, each address in two halves.
pub axidma_s2mm_transfer-started :
    (fuel : ℕ) (ctx : AxidmaCtx) (h : Heap) (lists : Ptr → SgList) (x : Ptr) (xs : List Ptr)
    (wait_irq enable_timeout : Bool)
    → ctx.lst ≢ null
    → Ring h (lists ctx.lst).sentinel (x ∷ xs)
    → 0 < ends_of h (x ∷ xs)
    → length (x ∷ xs) < fuel
    → let first = phys_of h (lists ctx.lst) x in
      let last = phys_of h (lists ctx.lst) (last_of x xs) in
      axidma_s2mm_transfer fuel (some ctx) lists wait_irq enable_timeout h
      ≡ ok
          (started
            ((s2mm_curdesc_lsb, first % 2 ^ 32)
              ∷ (s2mm_curdesc_msb, first / 2 ^ 32 % 2 ^ 32)
              ∷ (s2mm_dmacr, dmacr enable_timeout (ends_of h (x ∷ xs)))
              ∷ (s2mm_taildesc_lsb, last % 2 ^ 32)
              ∷ (s2mm_taildesc_msb, last / 2 ^ 32 % 2 ^ 32)
              ∷ [])
            wait_irq)
          h
unfolding axidma_s2mm_transfer load_next load_prev load_fields
axidma_s2mm_transfer-started fuel ctx h lists x xs wait_irq enable_timeout real r some_end enough =
    let lst = lists ctx.lst in
    let s = lst.sentinel in
    let ne_null : (ctx.lst == null) ≡ false = ground (arith, real) in
    let run : count_loop fuel lst x 0 h ≡ ok (ends_of h (x ∷ xs)) h =
      rw r.links.0 at
        (count_loop-ends_of h lst fuel s (x ∷ xs) 0 r.links r.distinct.0 r.live.0 r.live.1 enough)
      ∙ ap (λ n. ok n h) (omega arith) in
    let at : h.prev s ≡ last_of x xs = Links-prev h.next h.prev s (x ∷ xs) s r.links in
    let live_last : h.alive (last_of x xs) ≡ true =
      All-mem (λ a. h.alive a ≡ true) (x ∷ xs) (last_of x xs) r.live.1 (last_of-mem x xs) in
    let nz : (ends_of h (x ∷ xs) == 0) ≡ false = ground (arith, some_end) in
    rw (ne_null, r.live.0, r.links.0, run, nz, r.live.1.0, r.live.0, at, live_last)
