-- ===== src/Example/Sent.antt =====
-- The transfer of a list of frames delivers them.
use mpsoc_axidma.Base.{
  ◌==◌, ℕ, zero, suc, ◌^◌, ◌<◌, ◌≡◌, refl, ◌≢◌, ◌∙◌, ap, Bool, true, false, List, [], ◌∷◌, ◌++◌,
  ◌==◌, length, map, All, Option, some, arith,
}
use mpsoc_axidma.Physlist.Layout.{Fits}
use mpsoc_axidma.Heap.{Ptr, Heap, ok, null, load_next}
use mpsoc_axidma.Heap.Ring.{Ring, last_of}
use mpsoc_axidma.SgList.{SgList}
use mpsoc_axidma.SgList.Loop.{Ends, ends}
use mpsoc_axidma.SgList.Invariant.{WellFormed}
use mpsoc_axidma.PinnerApi.{PinnerCmd}
use mpsoc_axidma.Dma.{
  DescMem, AxidmaCtx, Transfer, started, not_written, empty_list, axidma_dequeue_s2mm_buf, dmacr,
  axidma_write_sg_list, axidma_s2mm_transfer,
}
use mpsoc_axidma.Dma.Start.{phys_of, ends_of}
use mpsoc_axidma.Dma.Dmacr.{dmacr-fields}
use mpsoc_axidma.Dma.Engine.{start_writes, Serves, Maps, Serves-Completes}
use mpsoc_axidma.Example.{Received, receive, transfer_and_receive}
use mpsoc_axidma.Example.Split.{flat, buffer_for}
use mpsoc_axidma.Example.Receive.{good}
use mpsoc_axidma.Example.Fill.{Buffers}
use mpsoc_axidma.Example.Pipeline.{transfer_and_receive-frames}
use mpsoc_axidma.Example.Deliver.{
  delivered, good-delivered, frames-flat, buffer_for-delivered, ends_of-flat, Completes-Settled,
}

-- What `k` buffers are received as, and how many frames the engine was started for.
pub record Delivered (data_buf sz k : ℕ) (t : Transfer) (got : Received) : Type 0 where
  pub bufs_eq : got.bufs ≡ delivered data_buf sz k
  pub cnt_eq : got.cnt ≡ k
  pub asked :
      k ≢ 0 → (first last : ℕ) × (t ≡ started (start_writes first (dmacr false k) last) true)

self : (x : Ptr) → (x == x) ≡ true
self x = ground arith

receive_nothing :
    (rounds fuel cnt : ℕ) (lst : SgList) (m : DescMem) (h : Heap)
    → lst.to_vist ≡ null
    → 0 < rounds
    → receive rounds fuel cnt lst m h ≡ ok (record { bufs = []; cnt = cnt; list = lst }) h
unfolding receive axidma_dequeue_s2mm_buf
receive_nothing zero fuel cnt lst m h v turns = absurd (omega arith)
receive_nothing (suc k) fuel cnt lst m h v turns = simp v

module _ (write : PinnerCmd → ℕ → Bool) (rounds fuel : ℕ) (engine : Transfer → DescMem → DescMem)
    (ctx : AxidmaCtx) (m : DescMem) (pinner_fd : Option ℕ) (sg_handle : ℕ) (unused : ctx.lst ≡ null)
    (to_virt : ℕ → ℕ) (serves : Serves to_virt engine) where
  write_nothing :
      (h : Heap) (lst : SgList)
      → Ring h lst.sentinel []
      → axidma_write_sg_list write fuel (some ctx) (some lst) m pinner_fd sg_handle h
        ≡ ok empty_list h
  unfolding axidma_write_sg_list load_next
  write_nothing h lst r = rw (r.live.0, r.links.0, self lst.sentinel) refl

  start_nothing :
      (h : Heap) (lst : SgList)
      → axidma_s2mm_transfer fuel (some ctx) (λ p. lst) true false h ≡ ok not_written h
  unfolding axidma_s2mm_transfer
  start_nothing h lst =
      let none_yet : (ctx.lst == null) ≡ true = ground (arith, unused) in rw none_yet refl

  -- With no buffer added, nothing is written, started or received.
  transfer_nothing :
      (h : Heap) (lst : SgList)
      → Ring h lst.sentinel []
      → lst.to_vist ≡ null
      → 0 < rounds
      → transfer_and_receive write rounds fuel engine ctx lst m pinner_fd sg_handle h
        ≡ ok (not_written, record { bufs = []; cnt = 0; list = lst }) h
  unfolding transfer_and_receive
  transfer_nothing h lst r v turns =
      rw
        (
          write_nothing h lst r,
          start_nothing h lst,
          receive_nothing rounds fuel 0 lst (engine not_written m) h v turns,
        )
        refl

  pub transfer-Delivered :
      (h : Heap) (lst : SgList) (zss : List (List Ptr)) (sz : ℕ)
      → WellFormed h lst (flat zss)
      → Buffers h 0 sz zss
      → (0 < length zss → sz < 2 ^ 32)
      → lst.to_vist ≡ null
      → Maps to_virt lst.sg_buf lst.sg_plist
      → All Fits lst.sg_plist
      → All (λ a. a ≢ null) (lst.sentinel ∷ flat zss)
      → length (flat zss) < fuel
      → length (flat zss) < rounds
      → Ends
          (λ (t, got) h'.
            Delivered lst.data_buf sz (length zss) t got
            × (h' ≡ h)
            × (got.list.sentinel ≡ lst.sentinel))
          (transfer_and_receive write rounds fuel engine ctx lst m pinner_fd sg_handle h)
  transfer-Delivered h lst [] sz w b small v maps fits real enough turns =
      rw (transfer_nothing h lst w.ring v (omega arith)) (
        ends (record { bufs_eq = refl; cnt_eq = refl; asked = λ ne. absurd (ne refl) }, refl, refl))
  transfer-Delivered h lst ([] ∷ zss) sz w b small v maps fits real enough turns =
      absurd (b.0.starts)
  transfer-Delivered h lst ((x ∷ xs) ∷ zss) sz w b small v maps fits real enough turns =
      let ys = xs ++ flat zss in
      let count = ends_of-flat h ((x ∷ xs) ∷ zss) 0 sz b in
      let (m', run, there) =
        transfer_and_receive-frames write rounds fuel engine ctx h lst x ys m pinner_fd sg_handle w
          fits real (omega (arith, count)) enough turns in
      let word = dmacr false (ends_of h (x ∷ ys)) in
      let writes = start_writes (phys_of h lst x) word (phys_of h lst (last_of x ys)) in
      let after = engine (started writes true) m' in
      let runs = (dmacr-fields false (ends_of h (x ∷ ys))).0 in
      let done = Serves-Completes to_virt h lst engine m' x ys word true serves maps w there runs in
      let settled = Completes-Settled h lst m' after (x ∷ ys) there done in
      let received =
        ap (map (buffer_for h after lst)) (frames-flat h after lst ((x ∷ xs) ∷ zss) 0 sz b settled)
        ∙ buffer_for-delivered h after lst ((x ∷ xs) ∷ zss) 0 sz b (small (omega arith)) settled
        ∙ ap (λ a. delivered a sz (length ((x ∷ xs) ∷ zss))) {y = lst.data_buf} (omega arith) in
      rw run (
        ends (
          record {
            bufs_eq = received;
            cnt_eq = ap good received ∙ good-delivered lst.data_buf sz (length ((x ∷ xs) ∷ zss));
            asked = λ ne. (phys_of h lst x, phys_of h lst (last_of x ys), rw count refl);
          },
          refl,
          refl,
        ))
