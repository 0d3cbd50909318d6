-- ===== src/Dma.antt =====
-- The transfers of src/axidma.c: descriptors written to memory, the registers that start the
-- engine, and the walk over the buffers that come back.
pub mod Dequeue
pub mod Walk
pub mod Write
pub mod Start
pub mod Chain
pub mod Engine
pub mod Filling
pub mod Dmacr
mod Tests
use Prim.Native.Nat.{bit_or}
use mpsoc_axidma.Base.{
  ℕ, zero, suc, ◌+◌, ◌-◌, ◌*◌, ◌/◌, ◌%◌, ◌^◌, Bool, true, false, not, List, [], ◌∷◌, ◌==◌, ◌||◌,
  if◌then◌else◌, add32, Option, none, some,
}
use mpsoc_axidma.Physlist.{Physlist, virt_to_phys}
use mpsoc_axidma.Heap.{
  Ptr, null, SgFields, Heap, Run, ok, out_of_fuel, Cmd, pure, and_then, ◌>>=◌, ◌>>◌, load_next,
  load_prev, load_fields,
}
use mpsoc_axidma.SgList.{SgList}
use mpsoc_axidma.PinnerApi.{PinnerCmd, Sent, flush_buf_cache}

pub record Control : Type 0 where
  pub len : ℕ
  pub eof : ℕ
  pub sof : ℕ

pub record Status : Type 0 where
  pub len : ℕ
  pub eof : ℕ
  pub sof : ℕ
  pub int_err : ℕ
  pub slave_err : ℕ
  pub decode_err : ℕ
  pub complete : ℕ

-- `sg_descriptor`, but for the application words, which nothing here reads or writes.
pub record SgDescriptor : Type 0 where
  pub next_desc_lsb : ℕ
  pub next_desc_msb : ℕ
  pub buffer_lsb : ℕ
  pub buffer_msb : ℕ
  pub control : Control
  pub status : Status

-- The descriptor at each user virtual address.
abbrev pub DescMem : Type 0
DescMem = ℕ → SgDescriptor

abbrev pub store : DescMem → ℕ → SgDescriptor → DescMem
store m p d q = if q == p then d else m q

abbrev pub no_status : Status
no_status = record {
  len = 0;
  eof = 0;
  sof = 0;
  int_err = 0;
  slave_err = 0;
  decode_err = 0;
  complete = 0;
}

-- The descriptor for an entry, where `next_phys` is the physical address of the next one. The bit
-- fields take 26 bits of the length and one of each mark.
unfoldable pub encode : SgFields → ℕ → SgDescriptor
encode f next_phys = record {
  next_desc_lsb = next_phys % 2 ^ 32;
  next_desc_msb = next_phys / 2 ^ 32 % 2 ^ 32;
  buffer_lsb = f.buf_phys % 2 ^ 32;
  buffer_msb = f.buf_phys / 2 ^ 32 % 2 ^ 32;
  control = record { len = f.len % 2 ^ 26; eof = f.is_eof % 2; sof = f.is_sof % 2 };
  status = no_status;
}

unfoldable pub s2mm_write_sg_entry : (sg_buf : ℕ) → Physlist → Ptr → DescMem → Cmd DescMem
unfolding load_fields load_next encode
s2mm_write_sg_entry sg_buf sg_plist e m = do
  f ← load_fields e
  next ← load_next e
  g ← load_fields next
  pure (store m (sg_buf + f.sg_offset) (encode f (virt_to_phys sg_plist g.sg_offset)))

-- The `for` loop of `axidma_write_sg_list` from the node `e` on.
unfoldable pub write_loop : ℕ → SgList → Ptr → DescMem → Cmd DescMem
unfolding s2mm_write_sg_entry load_next
write_loop zero lst e m = λ _. out_of_fuel
write_loop (suc k) lst e m = if e == lst.sentinel then pure m else (do
  m' ← s2mm_write_sg_entry lst.sg_buf lst.sg_plist e m
  next ← load_next e
  write_loop k lst next m')

-- `axidma_ctx`. `lst` is the address of the list, or `NULL`.
pub record AxidmaCtx : Type 0 where
  pub fd : ℕ
  pub reg_base : ℕ
  pub lst : Ptr

-- What `axidma_write_sg_list` leaves: one of its three refusals, or the new context, list and
-- memory, and the request to flush the cache.
pub data WriteResult : Type 0 where
  no_ctx no_list empty_list : WriteResult
  written : AxidmaCtx → SgList → DescMem → Sent → WriteResult

unfoldable pub axidma_write_sg_list :
    (PinnerCmd → ℕ → Bool)
    → ℕ
    → Option AxidmaCtx
    → Option SgList
    → DescMem
    → (pinner_fd : Option ℕ) → (h : ℕ) → Cmd WriteResult
unfolding load_next write_loop flush_buf_cache
axidma_write_sg_list write fuel none lst m pinner_fd h = pure no_ctx
axidma_write_sg_list write fuel (some ctx) none m pinner_fd h = pure no_list
axidma_write_sg_list write fuel (some ctx) (some lst) m pinner_fd h = do
  first ← load_next lst.sentinel
  if first == lst.sentinel then pure empty_list else (do
    m' ← write_loop fuel lst first m
    pure (
        written (record ctx { lst = lst.sentinel }) (record lst { to_vist = first }) m'
          (flush_buf_cache write pinner_fd h)))

-- The registers that a transfer writes, by the fields of `axidma_regs`.
pub data Reg : Type 0 where
  s2mm_dmacr s2mm_curdesc_lsb s2mm_curdesc_msb s2mm_taildesc_lsb s2mm_taildesc_msb : Reg

-- The loop of `axidma_s2mm_transfer`: how many entries end a frame.
unfoldable pub count_loop : ℕ → SgList → Ptr → ℕ → Cmd ℕ
unfolding load_fields load_next
count_loop zero lst e cnt = λ _. out_of_fuel
count_loop (suc k) lst e cnt = if e == lst.sentinel then pure cnt else (do
  f ← load_fields e
  next ← load_next e
  count_loop k lst next (if f.is_eof == 0 then cnt else cnt + 1))

-- The value for `S2MM_DMACR`.
unfoldable pub dmacr : (enable_timeout : Bool) → (cnt : ℕ) → ℕ
dmacr enable_timeout cnt =
    bit_or (bit_or (if enable_timeout then 200 * 2 ^ 24 else 0) (cnt % 256 * 2 ^ 16))
      0b111000000000001

-- What `axidma_s2mm_transfer` does: a refusal, or the writes to registers, in order, and whether it
-- then waits for the interrupt.
pub data Transfer : Type 0 where
  no_ctx not_written no_entries : Transfer
  started : List (Reg × ℕ) → Bool → Transfer

-- `lists` is the memory of the list structs.
unfoldable pub axidma_s2mm_transfer :
    ℕ → Option AxidmaCtx → (lists : Ptr → SgList) → (wait_irq enable_timeout : Bool) → Cmd Transfer
unfolding load_next load_prev load_fields count_loop dmacr
axidma_s2mm_transfer fuel none lists wait_irq enable_timeout = pure Transfer.no_ctx
axidma_s2mm_transfer fuel (some ctx) lists wait_irq enable_timeout =
    if ctx.lst == null then pure not_written else (do
      let lst = lists ctx.lst
      first ← load_next lst.sentinel
      cnt ← count_loop fuel lst first 0
      if cnt == 0 then pure no_entries else (do
        f ← load_fields first
        last ← load_prev lst.sentinel
        g ← load_fields last
        let curdesc = virt_to_phys lst.sg_plist f.sg_offset
        let taildesc = virt_to_phys lst.sg_plist g.sg_offset
        pure (
            started
              ((s2mm_curdesc_lsb, curdesc % 2 ^ 32)
                ∷ (s2mm_curdesc_msb, curdesc / 2 ^ 32 % 2 ^ 32)
                ∷ (s2mm_dmacr, dmacr enable_timeout cnt)
                ∷ (s2mm_taildesc_lsb, taildesc % 2 ^ 32)
                ∷ (s2mm_taildesc_msb, taildesc / 2 ^ 32 % 2 ^ 32)
                ∷ [])
              wait_irq)))

-- `buf_code` and `s2mm_buf`
pub data BufCode : Type 0 where
  transfer_success transfer_failed end_of_list : BufCode

pub record S2mmBuf : Type 0 where
  pub base : ℕ
  pub len : ℕ
  pub code : BufCode

abbrev pub end_buf : S2mmBuf
end_buf = record { base = 0; len = 0; code = end_of_list }

-- A transfer that is not complete, or in error.
abbrev pub is_bad : Status → Bool
is_bad s =
    s.complete == 0 || (not (s.decode_err == 0) || (not (s.int_err == 0) || not (s.slave_err == 0)))

-- The `do` loop of `axidma_dequeue_s2mm_buf`, which moves on from `e`. It returns the buffer and the
-- last node.
unfoldable pub dequeue_loop : ℕ → SgList → DescMem → Ptr → S2mmBuf → Cmd (S2mmBuf × Ptr)
unfolding load_next load_prev load_fields
dequeue_loop zero lst m e ret = λ _. out_of_fuel
dequeue_loop (suc k) lst m e ret = do
  e' ← load_next e
  f ← load_fields e'
  last ← load_prev lst.sentinel
  let s = (m (lst.sg_buf + f.sg_offset)).status
  let ret' = record ret {
    len = add32 ret.len s.len;
    code = if is_bad s then transfer_failed else ret.code;
  }
  if e' == last
      then pure (ret', e')
      else (if s.eof == 0 then dequeue_loop k lst m e' ret' else pure (ret', e'))

unfoldable pub axidma_dequeue_s2mm_buf : ℕ → SgList → DescMem → Cmd (S2mmBuf × SgList)
unfolding load_next load_prev load_fields dequeue_loop
axidma_dequeue_s2mm_buf fuel lst m =
    if lst.to_vist == null
    then pure (end_buf, lst)
    else (if lst.to_vist == lst.sentinel then pure (end_buf, record lst { to_vist = null }) else (do
      f ← load_fields lst.to_vist
      before ← load_prev lst.to_vist
      (ret, last) ←
          dequeue_loop fuel lst m before
            (record { base = lst.data_buf + f.data_offset; len = 0; code = transfer_success })
      next ← load_next last
      pure (ret, record lst { to_vist = next })))

unfoldable pub axidma_reset_lst_traversal : SgList → Cmd SgList
unfolding load_next
axidma_reset_lst_traversal lst = do
  first ← load_next lst.sentinel
  pure (record lst { to_vist = first })
