-- ===== src/Example/Pipeline.antt =====
-- From a list of descriptors to the buffers received.
use mpsoc_axidma.Base.{
  ℕ, ◌<◌, ◌≡◌, refl, ◌∙◌, ap, ◌≢◌, Bool, true, false, List, [], ◌∷◌, length, map, Option, All,
  arith,
}
use mpsoc_axidma.Physlist.Layout.{Fits}
use mpsoc_axidma.Heap.{Ptr, Heap, ok, null}
use mpsoc_axidma.Heap.Ring.{last_of}
use mpsoc_axidma.SgList.{SgList}
use mpsoc_axidma.SgList.Invariant.{WellFormed}
use mpsoc_axidma.PinnerApi.{PinnerCmd}
use mpsoc_axidma.Dma.{DescMem, AxidmaCtx, Transfer, started, dmacr}
use mpsoc_axidma.Dma.Engine.{start_writes}
use mpsoc_axidma.Dma.Start.{phys_of, ends_of, axidma_s2mm_transfer-started}
use mpsoc_axidma.Dma.Chain.{InMemory, axidma_write_sg_list-Chained}
use mpsoc_axidma.Example.{transfer_and_receive}
use mpsoc_axidma.Example.Split.{frames, buffer_for}
use mpsoc_axidma.Example.Receive.{good, receive-frames}

-- For a well-formed list with nodes, one of which ends a buffer, and none at address 0: the program
-- ends without a fault. The engine is given a chain of descriptors, each in one aligned piece of
-- memory, that fills the data buffer up to the list's data offset; it is started with the physical
-- addresses of the first and of the last, and the number of buffers. Whatever it makes of the
-- descriptors, the program then receives the buffer of each frame in order, and counts the good ones.
pub transfer_and_receive-frames :
    (write : PinnerCmd → ℕ → Bool) (rounds fuel : ℕ) (engine : Transfer → DescMem → DescMem)
    (ctx : AxidmaCtx) (h : Heap) (lst : SgList) (x : Ptr) (xs : List Ptr) (m : DescMem)
    (pinner_fd : Option ℕ) (sg_handle : ℕ)
    → WellFormed h lst (x ∷ xs)
    → All Fits lst.sg_plist
    → All (λ a. a ≢ null) (lst.sentinel ∷ x ∷ xs)
    → 0 < ends_of h (x ∷ xs)
    → length (x ∷ xs) < fuel
    → length (x ∷ xs) < rounds
    → let writes =
        start_writes
          (phys_of h lst x)
          (dmacr false (ends_of h (x ∷ xs)))
          (phys_of h lst (last_of x xs)) in
      (m' : DescMem) × (let after = engine (started writes true) m' in
        let bufs = map (buffer_for h after lst) (frames h after lst.sg_buf (x ∷ xs)) in
        transfer_and_receive write rounds fuel engine ctx lst m pinner_fd sg_handle h
        ≡ ok
            (
              started writes true,
              record { bufs = bufs; cnt = good bufs; list = record lst { to_vist = null } },
            )
            h)
      × InMemory h lst m' (x ∷ xs)
unfolding transfer_and_receive
transfer_and_receive-frames write rounds fuel engine ctx h lst x xs m pinner_fd handle w fits real
      some_end enough turns =
    let (m', wrote, there) =
      axidma_write_sg_list-Chained write fuel ctx h lst x xs m pinner_fd handle w fits enough in
    let lst' = record lst { to_vist = x } in
    let sent =
      axidma_s2mm_transfer-started fuel (record ctx { lst = lst.sentinel }) h (λ p. lst') x xs true
        false real.0 w.ring some_end enough in
    let writes =
      start_writes (phys_of h lst x) (dmacr false (ends_of h (x ∷ xs)))
        (phys_of h lst (last_of x xs)) in
    let after = engine (started writes true) m' in
    let bufs = map (buffer_for h after lst) (frames h after lst.sg_buf (x ∷ xs)) in
    let got =
      receive-frames rounds fuel 0 h after lst' [] (x ∷ xs)
        (record { ring = w.ring; here = refl; real = real }) turns (omega arith)
      ∙ ap (λ n. ok (record { bufs = bufs; cnt = n; list = record lst { to_vist = null } }) h)
          {y = good bufs} (omega arith) in
    (m', rw (wrote, sent, got) refl, there)
