-- ===== src/Dma/Walk.antt =====
-- `axidma_dequeue_s2mm_buf` from any point of the walk over the list.
use mpsoc_axidma.Base.{
  ℕ, ◌+◌, ◌≤◌, ◌≡◌, true, false, List, [], ◌∷◌, ◌++◌, ◌==◌, arith, All, length, ◌≢◌,
}
use mpsoc_axidma.Heap.{Ptr, null, Heap, ok}
use mpsoc_axidma.Heap.Ring.{IsDistinct, last_of, last_of-mem, has-append, Links, Ring, All-mem}
use mpsoc_axidma.SgList.{SgList}
use mpsoc_axidma.Dma.{DescMem, transfer_success, S2mmBuf, axidma_dequeue_s2mm_buf}
use mpsoc_axidma.Dma.Dequeue.{frame, after, head_of, gathered, dequeue_loop-frame}

Links-drop :
    (next prev : Ptr → Ptr) (a : Ptr) (pre xs : List Ptr) (b : Ptr)
    → Links next prev a (pre ++ xs) b
    → Links next prev (last_of a pre) xs b
Links-drop next prev a [] xs b l = l
Links-drop next prev a (y ∷ pre) xs b l = Links-drop next prev y pre xs b l.2

IsDistinct-drop : (pre xs : List Ptr) → IsDistinct (pre ++ xs) → IsDistinct xs
IsDistinct-drop [] xs d = d
IsDistinct-drop (y ∷ pre) xs d = IsDistinct-drop pre xs d.1

All-split : (P : Ptr → Type 0) (pre xs : List Ptr) → All P (pre ++ xs) → All P pre × All P xs
All-split P [] xs h = (tt, h)
All-split P (y ∷ pre) xs h = let (p, q) = All-split P pre xs h.1 in ((h.0, p), q)

-- The walk stands before the nodes `rest`, behind the nodes `pre`. No node is at address 0.
pub record At (h : Heap) (lst : SgList) (pre rest : List Ptr) : Type 0 where
  pub ring : Ring h lst.sentinel (pre ++ rest)
  pub here : lst.to_vist ≡ head_of lst.sentinel rest
  pub real : All (λ a. a ≢ null) (lst.sentinel ∷ (pre ++ rest))

-- The buffer of the first frame of `x ∷ ys`.
abbrev pub buffer_of : Heap → DescMem → SgList → Ptr → List Ptr → S2mmBuf
buffer_of h m lst x ys =
    gathered h m lst.sg_buf (frame h m lst.sg_buf (x ∷ ys))
      (record { base = lst.data_buf + (h.fields x).data_offset; len = 0; code = transfer_success })

pub axidma_dequeue_s2mm_buf-frame :
    (fuel : ℕ) (h : Heap) (m : DescMem) (lst : SgList) (pre : List Ptr) (x : Ptr) (ys : List Ptr)
    → At h lst pre (x ∷ ys)
    → length (x ∷ ys) ≤ fuel
    → axidma_dequeue_s2mm_buf fuel lst m h
      ≡ ok
          (
            buffer_of h m lst x ys,
            record lst { to_vist = head_of lst.sentinel (after h m lst.sg_buf (x ∷ ys)) },
          )
          h
unfolding axidma_dequeue_s2mm_buf
axidma_dequeue_s2mm_buf-frame fuel h m lst pre x ys w enough =
    let s = lst.sentinel in
    let (live_pre, live) = All-split (λ a. h.alive a ≡ true) pre (x ∷ ys) w.ring.live.1 in
    let (_, real) = All-split (λ a. a ≢ null) pre (x ∷ ys) w.real.1 in
    let links = Links-drop h.next h.prev s pre (x ∷ ys) s w.ring.links in
    let p = last_of s pre in
    let live_p : h.alive p ≡ true =
      All-mem (λ a. h.alive a ≡ true) (s ∷ pre) p (w.ring.live.0, live_pre) (last_of-mem s pre) in
    let ne_null : (x == null) ≡ false = ground (arith, real.0) in
    let ne_s : (x == s) ≡ false = ground (arith, has-append s pre (x ∷ ys), w.ring.distinct.0) in
    let (e, run, next, live_e) =
      dequeue_loop-frame h m lst fuel p x ys
        (record {
          base = lst.data_buf + (h.fields x).data_offset;
          len = 0;
          code = transfer_success;
        })
        links (IsDistinct-drop pre (x ∷ ys) w.ring.distinct.1) w.ring.live.0 (live_p, live)
        (omega arith) in
    simp (w.here, ne_null, ne_s, live.0, links.1, run, live_e, next)
