-- ===== src/Example.antt =====
-- The two loops of example.c, the one that adds buffers to a list and the one that receives them, what
-- stands between them, and the calls from axidma_list_new to axidma_list_del. Main has the rest of main.
pub mod Split
pub mod Receive
pub mod Fill
pub mod Pipeline
pub mod Deliver
pub mod Sent
pub mod Whole
pub mod Pinned
pub mod Main
pub mod Granted
pub mod Session
mod Tests
use mpsoc_axidma.Base.{Bool, true, false, ℕ, zero, suc, ◌+◌, List, [], ◌∷◌, Option, none, some}
use mpsoc_axidma.Heap.{Ptr, Heap, Run, ok, out_of_fuel, Cmd, pure, and_then, ◌>>=◌, ◌>>◌}
use mpsoc_axidma.SgList.{
  SgList, AddEntryCode, success, sg_oom, buf_oom, error, axidma_add_entry, axidma_list_new,
  axidma_list_del,
}
use mpsoc_axidma.PinnerApi.{PinnerCmd}
use mpsoc_axidma.Physlist.{Physlist}
use mpsoc_axidma.Dma
use mpsoc_axidma.Dma.{
  DescMem, BufCode, transfer_success, transfer_failed, end_of_list, S2mmBuf,
  axidma_dequeue_s2mm_buf, AxidmaCtx, WriteResult, axidma_write_sg_list, axidma_s2mm_transfer,
}

-- How the loop over the buffers ends: after the last, at one of its two breaks, or with `exit(-1)`.
pub data Filling : Type 0 where
  all_added no_descriptors no_data exits : Filling

-- The list behind the pointer, which a call of `axidma_add_entry` leaves where it was.
abbrev pub list_at : SgList → Option SgList → SgList
list_at lst none = lst
list_at lst (some lst') = lst'

-- What a round does with the result of its call: it goes on, or leaves the loop.
abbrev pub next_round : AddEntryCode → SgList → Cmd (Filling × SgList) → Cmd (Filling × SgList)
next_round success lst more = more
next_round sg_oom lst more = pure (no_descriptors, lst)
next_round buf_oom lst more = pure (no_data, lst)
next_round error lst more = pure (exits, lst)

module _ (pick : Heap → Ptr) (stack : Ptr) (fuel : ℕ) where
  -- `num_buffers` rounds; `stack` is the address of the callee's local list, the same in each.
  unfoldable pub add_buffers : (num_buffers buffer_sz : ℕ) → SgList → Cmd (Filling × SgList)
  unfolding axidma_add_entry
  add_buffers zero sz lst = pure (all_added, lst)
  add_buffers (suc n) sz lst = do
    (rc, after) ← axidma_add_entry pick stack fuel (some lst) sz
    let lst' = list_at lst after
    next_round rc lst' (add_buffers n sz lst')

-- The buffers that the loop prints, the number of good ones, and the list.
pub record Received : Type 0 where
  pub bufs : List S2mmBuf
  pub cnt : ℕ
  pub list : SgList

-- The calls of `axidma_dequeue_s2mm_buf` up to the one that ends the list, `rounds` at most.
unfoldable pub receive : (rounds fuel cnt : ℕ) → SgList → DescMem → Cmd Received
unfolding axidma_dequeue_s2mm_buf
receive zero fuel cnt lst m = λ _. out_of_fuel
receive (suc k) fuel cnt lst m = do
  (buf, lst') ← axidma_dequeue_s2mm_buf fuel lst m
  elim buf.code [
    | end_of_list ↦ pure (record { bufs = []; cnt = cnt; list = lst' })
    | transfer_success ↦ (do
      r ← receive k fuel (cnt + 1) lst' m
      pure (record r { bufs = buf ∷ r.bufs }))
    | transfer_failed ↦ (do r ← receive k fuel cnt lst' m; pure (record r { bufs = buf ∷ r.bufs }))
  ]

-- What the calls before the receive loop leave: the context, the list and the descriptors.
pub record Prepared : Type 0 where
  pub ctx : AxidmaCtx
  pub list : SgList
  pub descs : DescMem

-- A call of `axidma_write_sg_list` that refuses changes nothing, and the program goes on.
abbrev pub prepared : AxidmaCtx → SgList → DescMem → WriteResult → Prepared
prepared ctx lst m (WriteResult.written ctx' lst' m' sent) = record {
  ctx = ctx';
  list = lst';
  descs = m';
}
prepared ctx lst m _ = record { ctx = ctx; list = lst; descs = m }

-- From the call of `axidma_write_sg_list` to the end of the receive loop. `engine` is what the
-- engine makes of the descriptors, for the writes to its registers, while the program waits.
unfoldable pub transfer_and_receive :
    (PinnerCmd → ℕ → Bool)
    → (rounds fuel : ℕ) (engine : Dma.Transfer → DescMem → DescMem) → AxidmaCtx
    → SgList
    → DescMem
    → (pinner_fd : Option ℕ) → (sg_handle : ℕ) → Cmd (Dma.Transfer × Received)
unfolding axidma_write_sg_list axidma_s2mm_transfer receive
transfer_and_receive write rounds fuel engine ctx lst m pinner_fd sg_handle = do
  w ← axidma_write_sg_list write fuel (some ctx) (some lst) m pinner_fd sg_handle
  let r = prepared ctx lst m w
  t ← axidma_s2mm_transfer fuel (some r.ctx) (λ p. r.list) true false
  got ← receive rounds fuel 0 r.list (engine t r.descs)
  pure (t, got)

-- How the program ends: with `exit(-1)`, or with the buffers received.
pub data Finish : Type 0 where
  exited : Finish
  finished : Filling → Dma.Transfer → Received → Finish

module _ (pick : Heap → Ptr) (stack : Ptr) (write : PinnerCmd → ℕ → Bool) (rounds fuel : ℕ)
    (engine : Dma.Transfer → DescMem → DescMem) (ctx : AxidmaCtx) (m : DescMem)
    (pinner_fd : Option ℕ) (sg_handle : ℕ) where
  -- What follows the loop that adds buffers, up to the call of `axidma_list_del`.
  unfoldable pub after_filling : Filling → SgList → Cmd Finish
  unfolding transfer_and_receive axidma_list_del
  after_filling exits lst = pure exited
  after_filling f lst = do
    (t, got) ← transfer_and_receive write rounds fuel engine ctx lst m pinner_fd sg_handle
    axidma_list_del fuel (some got.list)
    pure (finished f t got)

  -- From the call of `axidma_list_new` to that of `axidma_list_del`, with a buffer to add: for a
  -- `NULL` list the first call of `axidma_add_entry` reports an error.
  unfoldable pub make_and_receive :
      (sg_buf : ℕ) → Physlist → (data_buf : ℕ) → Physlist → (num_buffers buffer_sz : ℕ) → Cmd Finish
  unfolding axidma_list_new add_buffers after_filling
  make_and_receive sg_buf sg_plist data_buf data_plist num_buffers buffer_sz = do
    made ← axidma_list_new pick sg_buf sg_plist data_buf data_plist
    elim made [
      | none ↦ pure exited
      | some lst ↦ (do
        (f, lst') ← add_buffers pick stack fuel num_buffers buffer_sz lst
        after_filling f lst')
    ]
