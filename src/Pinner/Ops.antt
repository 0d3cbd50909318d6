-- ===== src/Pinner/Ops.antt =====
-- The commands of modules/pinner/pinner.c, on the user that gives them.
use mpsoc_axidma.Base.{
  ℕ, ◌%◌, Bool, not, List, [], ◌∷◌, Option, none, some, ltb, ◌==◌, if◌then◌else◌, length, ◌⊎◌, inl,
  inr, ◌/◌,
}
use mpsoc_axidma.Physlist.{Physlist}
use mpsoc_axidma.PinnerApi.{
  max_pages, PinnerHandle, PinnerCmd, pin_code, unpin_code, flush_code, sizeof_pinner_cmd,
}
use mpsoc_axidma.Pinner.{
  Page, page_size, ScatterEnt, Pinning, ProcInfo, num_pages_for, fill_sglist, to_physlist,
}
use mpsoc_axidma.Pinner.Memory.{
  page_array, pinning_block, sglist_block, Holdings, kmalloc, kfree, pages_of, get_pages, put_pages,
}

-- The negative results of the operations.
pub data Errno : Type 0 where
  einval enomem eagain enosys : Errno

-- What the kernel answers during a command.
pub record Replies : Type 0 where
  -- whether each allocation succeeds: the page array, the pinning, its scatterlist, the entries
  pub array_ok : Bool
  pub pinning_ok : Bool
  pub sglist_ok : Bool
  pub entries_ok : Bool
  -- the pages that `get_user_pages_fast` pinned
  pub got : List Page
  -- the new pinning's random magic
  pub magic : ℕ
  -- the list after `dma_map_sg`, or a negative result
  pub dma_map : List ScatterEnt → Errno ⊎ List ScatterEnt
  -- whether each copy to or from the user is complete
  pub num_copied : Bool
  pub entries_copied : Bool
  pub handle_copied : Bool
  -- the handle read from the user
  pub handle : PinnerHandle

-- The result of a command: an error; success, with what the user is told
-- or the two cache operations that ran; or a step on an invalid
-- pointer.
pub data Reply : Type 0 where
  failed : Errno → Reply
  pinned : Physlist → PinnerHandle → Reply
  done : Reply
  flushed : (for_cpu for_device : Bool) → Reply

pub data Outcome : Type 0 where
  returns : Reply → ProcInfo → Holdings → Outcome
  bad_pointer : Outcome

-- `pinner_free_pinning` on a pinning whose list is filled and which is in the list of its process.
abbrev pub free_pinning : Holdings → Pinning → Holdings
free_pinning refs pin =
    kfree pinning_block (kfree sglist_block (put_pages refs (pages_of pin.sglist)))

-- `pinner_free_pinnings`
abbrev pub free_pinnings : Holdings → List Pinning → Holdings
free_pinnings refs [] = refs
free_pinnings refs (pin ∷ pins) = free_pinnings (free_pinning refs pin) pins

-- The results of `pinner_send_physlist`.
unfoldable pub pinner_send_physlist : Replies → Pinning → Option Errno
pinner_send_physlist r pin =
    if not r.entries_ok
    then some enomem
    else (if not r.num_copied
        then some eagain
        else (if not r.entries_copied then some eagain else none))

-- After `list_add`: the mapping and the copies to the user. On an error the pinning is freed again.
unfoldable pub pin_mapped : Replies → ProcInfo → Holdings → Pinning → Outcome
unfolding pinner_send_physlist
pin_mapped r info refs pin = elim (r.dma_map pin.sglist) [
  | inl e ↦ returns (failed e) info (free_pinning refs pin)
  | inr mapped ↦
      let pin' = record pin { sglist = mapped } in
      let undone = free_pinning refs pin' in
      elim (pinner_send_physlist r pin') [
        | some e ↦ returns (failed e) info undone
        | none ↦
            if not r.handle_copied
            then returns (failed eagain) info undone
            else returns
                (pinned (to_physlist mapped)
                  (record { user_magic = info.magic; pin_magic = pin.magic }))
                (record info { pinning_list = pin' ∷ info.pinning_list }) refs
      ]
]

module _ (page_to_phys : Page → ℕ) where
  unfoldable pub pinner_do_pin : Replies → PinnerCmd → ProcInfo → Holdings → Outcome
  unfolding pin_mapped num_pages_for fill_sglist
  pinner_do_pin r cmd info refs =
      let first_pg_offset = cmd.usr_buf % page_size in
      let num_pages = num_pages_for first_pg_offset cmd.usr_buf_sz in
      if ltb max_pages num_pages
      then returns (failed einval) info refs
      else (if num_pages == 0
          then returns (failed einval) info refs
          else (if not r.array_ok
              then returns (failed enomem) info refs
              else (
                  -- `put_page` on the elements of the array that were never written
                  if not (length r.got == num_pages)
                  then bad_pointer
                  else (let held = get_pages (kmalloc page_array refs) r.got in
                      if not r.pinning_ok
                      then returns (failed enomem) info (kfree page_array (put_pages held r.got))
                      else (
                          -- `list_del` of a pinning that is in no list
                          if not r.sglist_ok
                          then bad_pointer
                          else pin_mapped r info (kmalloc sglist_block (kmalloc pinning_block held))
                              (record {
                                sglist =
                                    fill_sglist page_to_phys r.got first_pg_offset cmd.usr_buf_sz;
                                magic = r.magic;
                              }))))))

-- The search of `pinner_do_unpin` and `pinner_do_flush`: the first pinning with the magic, and the
-- list without it.
unfoldable pub find_pinning : ℕ → List Pinning → Option (Pinning × List Pinning)
find_pinning magic [] = none
find_pinning magic (pin ∷ pins) =
    let rest = find_pinning magic pins in
    if magic == pin.magic
    then some (pin, pins)
    else elim rest [ none ↦ none | some (found, others) ↦ some (found, pin ∷ others) ]

unfoldable pub pinner_do_unpin : Replies → ProcInfo → Holdings → Outcome
unfolding find_pinning
pinner_do_unpin r info refs =
    if not r.handle_copied
    then returns (failed eagain) info refs
    else (if not (r.handle.user_magic == info.magic)
        then returns (failed einval) info refs
        else elim (find_pinning r.handle.pin_magic info.pinning_list) [
          | none ↦ returns (failed einval) info refs
          | some (found, others) ↦
              returns done (record info { pinning_list = others }) (free_pinning refs found)
        ])

-- The size of the buffer holds two flags: bit 0 leaves out `dma_sync_sg_for_cpu`, and bit 1
-- `dma_sync_sg_for_device`.
unfoldable pub pinner_do_flush : Replies → PinnerCmd → ProcInfo → Holdings → Outcome
unfolding find_pinning
pinner_do_flush r cmd info refs =
    if not r.handle_copied
    then returns (failed eagain) info refs
    else (if not (r.handle.user_magic == info.magic)
        then returns (failed einval) info refs
        else elim (find_pinning r.handle.pin_magic info.pinning_list) [
          | none ↦ returns (failed einval) info refs
          | some (found, others) ↦
              returns (flushed (cmd.usr_buf_sz % 2 == 0) (cmd.usr_buf_sz / 2 % 2 == 0)) info refs
        ])

module _ (page_to_phys : Page → ℕ) where
  -- `cmd_copied` says whether the command is read whole.
  unfoldable pub pinner_write :
      Replies → (cmd_copied : Bool) → PinnerCmd → (sz : ℕ) → ProcInfo → Holdings → Outcome
  pinner_write r cmd_copied cmd sz info refs =
      if not (sz == sizeof_pinner_cmd)
      then returns (failed einval) info refs
      else (if not cmd_copied
          then returns (failed eagain) info refs
          else (if cmd.cmd == pin_code
              then pinner_do_pin page_to_phys r cmd info refs
              else (if cmd.cmd == unpin_code
                  then pinner_do_unpin r info refs
                  else (if cmd.cmd == flush_code
                      then pinner_do_flush r cmd info refs
                      else returns (failed enosys) info refs))))
