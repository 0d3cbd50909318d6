-- ===== src/Pinner/RoundTrip.antt =====
-- `PINNER_PIN` followed by `PINNER_UNPIN` with the handle that the user was given.
use mpsoc_axidma.Base.{
  ℕ, ◌%◌, ◌≤◌, ◌<◌, ◌≡◌, ◌≢◌, ◌+◌, ap, true, false, List, ◌∷◌, ltb, ◌==◌, inr, arith, length,
}
use mpsoc_axidma.PinnerApi.{max_pages, PinnerHandle, PinnerCmd}
use mpsoc_axidma.Pinner.{
  Page, page_size, ScatterEnt, ProcInfo, num_pages_for, fill_sglist, to_physlist,
}
use mpsoc_axidma.Pinner.Memory.{Resource, page_array, Holdings, one, count, pages_of}
use mpsoc_axidma.Pinner.Ops.{
  Replies, pinned, done, returns, free_pinning, pinner_do_pin, pinner_do_unpin,
}
use mpsoc_axidma.Pinner.Account.{pinned_refs, one-page_array}

module _ (page_to_phys : Page → ℕ) (r : Replies) (cmd : PinnerCmd) where
  abbrev pub first_offset : ℕ
  first_offset = cmd.usr_buf % page_size

  -- Every request to the kernel is met, and the size is in range; `mapped` is what `dma_map_sg` makes
  -- of the list, with the same pages.
  pub record Succeeds (mapped : List ScatterEnt) : Type 0 where
    pub some_pages : 0 < num_pages_for first_offset cmd.usr_buf_sz
    pub few_pages : num_pages_for first_offset cmd.usr_buf_sz ≤ max_pages
    pub array : r.array_ok ≡ true
    pub all_pages : length r.got ≡ num_pages_for first_offset cmd.usr_buf_sz
    pub pinning : r.pinning_ok ≡ true
    pub list : r.sglist_ok ≡ true
    pub map_eq : r.dma_map (fill_sglist page_to_phys r.got first_offset cmd.usr_buf_sz) ≡ inr mapped
    pub same_pages : pages_of mapped ≡ r.got
    pub entries : r.entries_ok ≡ true
    pub num_copied : r.num_copied ≡ true
    pub entries_copied : r.entries_copied ≡ true
    pub handle_copied : r.handle_copied ≡ true

  abbrev pub handle_for : ProcInfo → PinnerHandle
  handle_for info = record { user_magic = info.magic; pin_magic = r.magic }

  abbrev pub with_pinning : ProcInfo → List ScatterEnt → ProcInfo
  with_pinning info mapped = record info {
    pinning_list = record { sglist = mapped; magic = r.magic } ∷ info.pinning_list;
  }

  -- Where every request to the kernel is met, `pinner_do_pin` tells the user the mapped pieces and a
  -- handle; and `pinner_do_unpin` with that handle succeeds, removes the pinning and gives back
  -- every page reference and block of memory but the array of the pages, of which there is one more.
  pub pinner_do_unpin-pinner_do_pin :
      (info : ProcInfo) (refs : Holdings) (mapped : List ScatterEnt)
      → Succeeds mapped
      → (pinner_do_pin page_to_phys r cmd info refs
          ≡ returns
              (pinned (to_physlist mapped) (handle_for info))
              (with_pinning info mapped)
              (pinned_refs refs r.got))
        × ((refs' : Holdings) × (pinner_do_unpin
                (record r { handle = handle_for info })
                (with_pinning info mapped)
                (pinned_refs refs r.got)
              ≡ returns done info refs')
            × (((x : Resource) → x ≢ page_array → refs' x ≡ refs x)
                × (refs' page_array ≡ refs page_array + 1)))
  unfolding pinner_do_pin pinner_do_unpin one
  pinner_do_unpin-pinner_do_pin info refs mapped s =
      let n = num_pages_for first_offset cmd.usr_buf_sz in
      let small : ltb max_pages n ≡ false = ground (arith, s.few_pages) in
      let some_left : (n == 0) ≡ false = ground (arith, s.some_pages) in
      let all : (length r.got == n) ≡ true = ground (arith, s.all_pages) in
      let own : (info.magic == info.magic) ≡ true = ground arith in
      let first : (r.magic == r.magic) ≡ true = ground arith in
      (
        rw (
          small, some_left, s.array, all, s.pinning, s.list, s.map_eq, s.entries, s.num_copied,
          s.entries_copied, s.handle_copied,
        ),
        (
          free_pinning (pinned_refs refs r.got) (record { sglist = mapped; magic = r.magic }),
          rw (s.handle_copied, own, first),
          (
            λ x other. omega (arith, ap (count x) s.same_pages, one-page_array x other),
            omega (arith, ap (count page_array) s.same_pages),
          ),
        ),
      )
