-- ===== src/Dma/Write.antt =====
-- `axidma_write_sg_list`: the descriptors in memory describe the list.
use mpsoc_axidma.Base.{
  ℕ, zero, suc, ◌+◌, ◌*◌, ◌^◌, ◌<◌, ◌≡◌, refl, ◌∙◌, Bool, true, false, List, [], ◌∷◌, map, ◌==◌,
  arith, All, length, Bool-cases, inl, inr, Option, some,
}
use mpsoc_axidma.Physlist.{virt_to_phys}
use mpsoc_axidma.Heap.{Ptr, SgFields, Heap, ok, load_next, load_fields}
use mpsoc_axidma.Heap.Ring.{has, ◌∈◌, ◌∉◌, IsDistinct, Links, Ring, All-mem}
use mpsoc_axidma.SgList.{SgList}
use mpsoc_axidma.SgList.Range.{InRange, virt_to_phys-lt}
use mpsoc_axidma.PinnerApi.{PinnerCmd, flush_buf_cache}
use mpsoc_axidma.Dma.{
  SgDescriptor, DescMem, store, encode, s2mm_write_sg_entry, write_loop, AxidmaCtx, WriteResult,
  axidma_write_sg_list,
}

-- The descriptor says what the fields say, is followed by the one at `next_phys`, and is not complete.
pub record Describes (d : SgDescriptor) (f : SgFields) (next_phys : ℕ) : Type 0 where
  pub buffer_eq : d.buffer_msb * 2 ^ 32 + d.buffer_lsb ≡ f.buf_phys
  pub next_eq : d.next_desc_msb * 2 ^ 32 + d.next_desc_lsb ≡ next_phys
  pub len_eq : d.control.len ≡ f.len
  pub sof_eq : d.control.sof ≡ f.is_sof
  pub eof_eq : d.control.eof ≡ f.is_eof
  pub complete_eq : d.status.complete ≡ 0

encode-Describes : (f : SgFields) (n : ℕ) → InRange f → n < 2 ^ 64 → Describes (encode f n) f n
unfolding encode
encode-Describes f n r h = record {
  buffer_eq = omega (arith, r.buf_low);
  next_eq = omega (arith, h);
  len_eq = omega (arith, r.len_low);
  sof_eq = omega (arith, r.sof_bit);
  eof_eq = omega (arith, r.eof_bit);
  complete_eq = refl;
}

module _ (h : Heap) (lst : SgList) where
  -- Where the descriptor of a node stands, and where the next node's does.
  abbrev pub desc_at : Ptr → ℕ
  desc_at x = lst.sg_buf + (h.fields x).sg_offset

  abbrev pub next_phys_of : Ptr → ℕ
  next_phys_of x = virt_to_phys lst.sg_plist (h.fields (h.next x)).sg_offset

  -- The memory after the descriptors of the nodes are written, in order.
  described : List Ptr → DescMem → DescMem
  described [] m = m
  described (x ∷ xs) m = described xs (store m (desc_at x) (encode (h.fields x) (next_phys_of x)))

  pub next_live :
      (a : Ptr) (xs : List Ptr)
      → Links h.next h.prev a xs lst.sentinel
      → h.alive lst.sentinel ≡ true
      → All (λ x. h.alive x ≡ true) xs
      → h.alive (h.next a) ≡ true
  next_live a [] l live_s live = rw l.0 live_s
  next_live a (x ∷ xs) l live_s live = rw l.0 live.0

  write_loop-described :
      (fuel : ℕ) (a : Ptr) (xs : List Ptr) (m : DescMem)
      → Links h.next h.prev a xs lst.sentinel
      → lst.sentinel ∉ xs
      → h.alive lst.sentinel ≡ true
      → All (λ x. h.alive x ≡ true) xs
      → length xs < fuel
      → write_loop fuel lst (h.next a) m h ≡ ok (described xs m) h
  unfolding write_loop described s2mm_write_sg_entry load_next load_fields
  write_loop-described zero a xs m l out live_s live enough = absurd (omega arith)
  write_loop-described (suc k) a [] m l out live_s live enough = ground (arith, l)
  write_loop-described (suc k) a (x ∷ xs) m l out live_s live enough =
      let ne : (x == lst.sentinel) ≡ false = ground (arith, out) in
      let live_next : h.alive (h.next x) ≡ true = next_live x xs l.2 live_s live.1 in
      rw (l.0, ne, live.0, live.0, live_next, live.0)
        (write_loop-described k x xs _ l.2 (ground (arith, out)) live_s live.1 (omega arith))

  described_other :
      (xs : List Ptr) (m : DescMem) (p : ℕ)
      → has p (map desc_at xs) ≡ false
      → described xs m p ≡ m p
  unfolding described
  described_other [] m p out = refl
  described_other (x ∷ xs) m p out =
      described_other xs _ p (ground (arith, out)) ∙ ground (arith, out)

  described_node :
      (xs : List Ptr) (m : DescMem) (x : Ptr)
      → IsDistinct (map desc_at xs)
      → x ∈ xs
      → described xs m (desc_at x) ≡ encode (h.fields x) (next_phys_of x)
  unfolding described
  described_node [] m x d i = absurd (cc i)
  described_node (y ∷ xs) m x d i = elim (Bool-cases (x == y)) [
    | inl e ↦
        let same : x ≡ y = ground (arith, e) in
        rw same (described_other xs _ (desc_at y) d.0 ∙ ground arith)
    | inr ne ↦ described_node xs _ x d.1 (ground (arith, i, ne))
  ]

pub axidma_write_sg_list-Describes :
    (write : PinnerCmd → ℕ → Bool) (fuel : ℕ) (ctx : AxidmaCtx) (h : Heap) (lst : SgList) (x : Ptr)
    (xs : List Ptr) (m : DescMem) (pinner_fd : Option ℕ) (handle : ℕ)
    → Ring h lst.sentinel (x ∷ xs)
    → IsDistinct (map (desc_at h lst) (x ∷ xs))
    → All (λ y. InRange (h.fields y)) (x ∷ xs)
    → length (x ∷ xs) < fuel
    → (m' : DescMem) × (axidma_write_sg_list write fuel (some ctx) (some lst) m pinner_fd handle h
        ≡ ok
            (WriteResult.written
              (record ctx { lst = lst.sentinel })
              (record lst { to_vist = x })
              m'
              (flush_buf_cache write pinner_fd handle))
            h)
      × ((y : Ptr)
          → y ∈ x ∷ xs
          → Describes (m' (desc_at h lst y)) (h.fields y) (next_phys_of h lst y))
      × ((p : ℕ) → has p (map (desc_at h lst) (x ∷ xs)) ≡ false → m' p ≡ m p)
unfolding axidma_write_sg_list
axidma_write_sg_list-Describes write fuel ctx h lst x xs m pinner_fd handle r d range enough =
    let s = lst.sentinel in
    let ne : (x == s) ≡ false = ground (arith, r.distinct.0) in
    let run : write_loop fuel lst x m h ≡ ok (described h lst (x ∷ xs) m) h = rw r.links.0 at (
      write_loop-described h lst fuel s (x ∷ xs) m r.links r.distinct.0 r.live.0 r.live.1 enough) in
    (
      described h lst (x ∷ xs) m,
      rw (r.live.0, r.links.0, ne, run),
      λ y i. rw (described_node h lst (x ∷ xs) m y d i) (
          encode-Describes (h.fields y) (next_phys_of h lst y)
            (All-mem (λ z. InRange (h.fields z)) (x ∷ xs) y range i)
            (virt_to_phys-lt lst.sg_plist _)),
      λ p out. described_other h lst (x ∷ xs) m p out,
    )
