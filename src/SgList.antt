-- ===== src/SgList.antt =====
-- The linked list of src/axidma.c: its list helpers, and `axidma_add_entry`.
pub mod Links
pub mod Plan
pub mod Loop
pub mod Mark
pub mod Finish
pub mod Outcome
pub mod Leave
pub mod AddEntry
pub mod Tile
pub mod Refusal
pub mod Slots
pub mod Packed
pub mod Range
pub mod Covers
pub mod Invariant
pub mod State
pub mod Stack
pub mod Frame
mod Tests
pub mod Free
use mpsoc_axidma.Base.{
  ℕ, zero, suc, ◌+◌, ◌-◌, ◌^◌, Bool, true, false, List, [], ◌∷◌, ltb, ◌==◌, if◌then◌else◌, add32,
  sub32, Option, none, some, drop, ◌||◌,
}
use mpsoc_axidma.Physlist.{
  PhyslistEntry, Physlist, get_entry_index, virt_to_phys, not_found, find_contiguous_aligned_after,
}
use mpsoc_axidma.Heap.{
  Ptr, null, SgFields, Heap, Run, ok, fault, out_of_fuel, Cmd, pure, and_then, ◌>>=◌, ◌>>◌,
  load_next, load_prev, load_fields, set_next, set_prev, set_fields, make_alive, free, malloc,
}

-- `sg_list`. It holds its sentinel, so the sentinel's address is that of the whole struct.
pub record SgList : Type 0 where
  pub sentinel : Ptr
  pub to_vist : Ptr
  pub sg_buf : ℕ
  pub sg_offset : ℕ
  pub sg_plist : Physlist
  pub data_buf : ℕ
  pub data_offset : ℕ
  pub data_plist : Physlist

unfoldable pub sg_entry_init : Ptr → Cmd (Unit {0})
unfolding set_next set_prev
sg_entry_init node = do set_next node node; set_prev node node

-- `new` is put between the last node and `head`.
unfoldable pub sg_entry_add_before : Ptr → Ptr → Cmd (Unit {0})
unfolding load_prev set_next set_prev
sg_entry_add_before head new = do
  oldtail ← load_prev head
  set_next oldtail new
  set_prev new oldtail
  set_next new head
  set_prev head new

-- The nodes of the list at `sentinel`, without `sentinel`, are put between the last node and `head`.
unfoldable pub sg_entry_add_list_before : Ptr → Ptr → Cmd (Unit {0})
unfolding load_next load_prev set_next set_prev
sg_entry_add_list_before head sentinel = do
  oldtail ← load_prev head
  first ← load_next sentinel
  set_next oldtail first
  set_prev first oldtail
  last ← load_prev sentinel
  set_prev head last
  set_next last head

-- The `while` loop of `axidma_free_list`, a round for each unit of fuel.
unfoldable pub free_list_loop : ℕ → (sentinel e : Ptr) → Cmd (Unit {0})
unfolding load_next free
free_list_loop zero sentinel e = λ _. out_of_fuel
free_list_loop (suc k) sentinel e =
    if e == sentinel then pure tt else do tmp ← load_next e; free e; free_list_loop k sentinel tmp

unfoldable pub axidma_free_list : ℕ → Ptr → Cmd (Unit {0})
unfolding load_next free_list_loop
axidma_free_list fuel sentinel = do e ← load_next sentinel; free_list_loop fuel sentinel e

-- A `NULL` list is the result `none`.
unfoldable pub axidma_list_new : (Heap → Ptr) → ℕ → Physlist → ℕ → Physlist → Cmd (Option SgList)
unfolding malloc sg_entry_init
axidma_list_new pick sg_buf sg_plist data_buf data_plist = do
  lst ← malloc pick
  if lst == null then pure none else do
    sg_entry_init lst
    pure (
        some (record {
          sentinel = lst;
          to_vist = null;
          sg_buf = sg_buf;
          sg_offset = 0;
          sg_plist = sg_plist;
          data_buf = data_buf;
          data_offset = 0;
          data_plist = data_plist;
        }))

-- `none` is a `NULL` list.
unfoldable pub axidma_list_del : ℕ → Option SgList → Cmd (Unit {0})
unfolding axidma_free_list free
axidma_list_del fuel none = pure tt
axidma_list_del fuel (some lst) = do axidma_free_list fuel lst.sentinel; free lst.sentinel

-- `add_entry_code`
pub data AddEntryCode : Type 0 where
  success sg_oom buf_oom error : AddEntryCode

-- `sizeof(sg_descriptor)`: thirteen words and four bytes of padding.
abbrev pub sizeof_sg_descriptor : ℕ
sizeof_sg_descriptor = 56

-- What the loop of `axidma_add_entry` leaves in its variables, with the code in `ret`.
pub record Built : Type 0 where
  pub ret : AddEntryCode
  pub sg_offset : ℕ
  pub data_offset : ℕ

abbrev pub built : AddEntryCode → ℕ → ℕ → Built
built c s d = record { ret = c; sg_offset = s; data_offset = d }

abbrev pub is_nil : Physlist → Bool
is_nil [] = true
is_nil (e ∷ es) = false

-- The fields that a round gives to its entry.
abbrev pub descriptor : Physlist → (sg_offset data_offset len : ℕ) → SgFields
descriptor data_plist sg_offset data_offset len = record {
  sg_offset = sg_offset;
  data_offset = data_offset;
  buf_phys = virt_to_phys data_plist data_offset;
  len = len;
  is_sof = 0;
  is_eof = 0;
}

module _ (pick : Heap → Ptr) (sg_plist data_plist : Physlist) (sentinel : Ptr) where
  -- The `while` loop, over the entries of the data physlist from `ind` on. The `[]` clause is the
  -- read of `entries[ind]` past the end.
  unfoldable pub add_entry_loop :
      Physlist → (offset_in_entry sz sg_offset data_offset : ℕ) → Cmd Built
  unfolding malloc sg_entry_add_before set_fields
  add_entry_loop [] offset_in_entry sz sg_offset data_offset = λ _. fault
  add_entry_loop (d ∷ ds) offset_in_entry sz sg_offset data_offset =
      let space = sub32 d.len offset_in_entry in
      let sg_offset' = find_contiguous_aligned_after sg_plist sg_offset sizeof_sg_descriptor in
      let more =
        if is_nil ds
        then pure (built buf_oom (add32 sg_offset' sizeof_sg_descriptor) (add32 data_offset space))
        else add_entry_loop ds 0 (sz - space) (add32 sg_offset' sizeof_sg_descriptor)
            (add32 data_offset space) in
      if sz == 0
      then pure (built success sg_offset data_offset)
      else (if sg_offset' == not_found then pure (built sg_oom sg_offset' data_offset) else (do
        e ← malloc pick
        if e == null then pure (built error sg_offset' data_offset) else do
          sg_entry_add_before sentinel e
          if ltb space sz
              then (do set_fields e (descriptor data_plist sg_offset' data_offset space); more)
              else (do
                set_fields e (descriptor data_plist sg_offset' data_offset sz)
                pure (
                    built success (add32 sg_offset' sizeof_sg_descriptor) (add32 data_offset sz)))))

-- `e->is_SOF = 1` and `e->is_EOF = 1`.
unfoldable pub set_sof : Ptr → Cmd (Unit {0})
unfolding load_fields set_fields
set_sof e = do f ← load_fields e; set_fields e (record f { is_sof = 1 })

unfoldable pub set_eof : Ptr → Cmd (Unit {0})
unfolding load_fields set_fields
set_eof e = do f ← load_fields e; set_fields e (record f { is_eof = 1 })

-- What follows the loop: the nodes go to the list, or back to the allocator.
unfoldable pub add_entry_end : ℕ → SgList → Ptr → Built → Cmd (AddEntryCode × SgList)
unfolding set_sof set_eof sg_entry_add_list_before axidma_free_list
add_entry_end fuel lst sentinel b = elim b.ret [
  | success ↦ (do
    first ← load_next sentinel
    set_sof first
    last ← load_prev sentinel
    set_eof last
    sg_entry_add_list_before lst.sentinel sentinel
    pure (success, record lst { sg_offset = b.sg_offset; data_offset = b.data_offset }))
  | _ ↦ (do axidma_free_list fuel sentinel; pure (b.ret, lst))
]

-- `tmp` is the address of the local `sentinel`, and `fuel` is for the loop that frees its nodes.
-- A `NULL` list is `none`.
unfoldable pub axidma_add_entry :
    (Heap → Ptr) → Ptr → ℕ → Option SgList → ℕ → Cmd (AddEntryCode × Option SgList)
unfolding make_alive sg_entry_init add_entry_loop add_entry_end free
axidma_add_entry pick tmp fuel none sz = pure (error, none)
axidma_add_entry pick tmp fuel (some lst) sz = if sz == 0 then pure (error, some lst) else (do
  make_alive tmp
  sg_entry_init tmp
  b ← elim (get_entry_index lst.data_plist lst.data_offset) [
    | none ↦ pure (built buf_oom lst.sg_offset lst.data_offset)
    | some (ind, offset_in_entry) ↦
        add_entry_loop pick lst.sg_plist lst.data_plist tmp (drop ind lst.data_plist)
          offset_in_entry sz lst.sg_offset lst.data_offset
  ]
  r ← add_entry_end fuel lst tmp b
  free tmp
  pure (r.0, some r.1))
