-- ===== src/Pinner/Tests.antt =====
-- The pinner driver on one small pinning.
use mpsoc_axidma.Base.{
  ℕ, ◌+◌, ◌*◌, ◌/◌, ◌%◌, ◌^◌, ◌<◌, ◌≡◌, ◌≤◌, ◌≢◌, ◌↔◌, refl, true, List, [], ◌∷◌, map, some, inr,
  arith, All,
}
use mpsoc_axidma.Physlist.{virt_to_phys}
use mpsoc_axidma.Physlist.Layout.{size}
use mpsoc_axidma.Physlist.Align.{StartsAligned, rest_of}
use mpsoc_axidma.PinnerApi.{
  PinnerCmd, flush_code, Sent, pin_request, unpin_request, pin_buf, flush_buf_cache, unpin_buf,
}
use mpsoc_axidma.Pinner.{
  Page, page_size, ScatterEnt, ProcInfo, num_pages_for, fill_sglist, to_physlist,
}
use mpsoc_axidma.Pinner.Geometry.{page_at}
use mpsoc_axidma.Physlist.Room.{HoldsDescriptors}
use mpsoc_axidma.SgList.Invariant.{HoldsData}
use mpsoc_axidma.Pinner.Mapping.{
  at_bus, at_bus-keeps, to_physlist-IsMapped, IsMapped-HoldsDescriptors, IsMapped-HoldsData,
}
use mpsoc_axidma.Pinner.Memory.{Resource, page_array, proc_block, Holdings, one, kmalloc}
use mpsoc_axidma.Pinner.Files.{Driver, pinner_init, pinner_open, pinner_exit}
use mpsoc_axidma.Pinner.Ops.{
  Replies, pin_mapped, pinner_send_physlist, returns, pinned, done, pinner_do_pin, pinner_do_unpin,
  pinner_write,
}
use mpsoc_axidma.Pinner.Account.{Balanced, pinned_refs, pinner_write-Balanced}
use mpsoc_axidma.Pinner.Driver.{
  Reach, find_user, update_user, command, here, next, open_file, loaded, held_all, Gone,
  pinner_exit-Reach,
}
use mpsoc_axidma.Pinner.Requests.{write_call, request, Names, Pins, requests-pinner_write}
use mpsoc_axidma.Pinner.RoundTrip.{handle_for, with_pinning, pinner_do_unpin-pinner_do_pin}

-- A memory of 2 ^ 20 pages, and page 0 for the rest.
abbrev small_memory : Page → ℕ
small_memory p = p % 2 ^ 20 * page_size

-- What `dma_map_sg` makes of the lists of two buffers, one 16 bytes into a page and one page-aligned.
abbrev two_mapped : (off : ℕ) → List ScatterEnt
two_mapped off = map (at_bus small_memory) (fill_sglist small_memory (7 ∷ 3 ∷ []) off 5000)

to_physlist-IsMapped_example :
    let plist = to_physlist (two_mapped 16) in
    (size plist ≡ 5000)
    × All StartsAligned (rest_of plist)
    × ((k : ℕ)
        → k < 5000
        → page_size ≤ 16 + k
        → virt_to_phys plist k
          ≡ small_memory (page_at (7 ∷ 3 ∷ []) ((16 + k) / page_size)) + (16 + k) % page_size)
    × ((k : ℕ)
        → k < 5000
        → 16 + k < page_size
        → virt_to_phys plist k ≡ (small_memory (page_at (7 ∷ 3 ∷ []) 0) + (16 + k) + 16) % 2 ^ 64)
    × ((k : ℕ)
        → k < 5000
        → ◌≡◌ {A = ℕ} 16 0
        → virt_to_phys plist k
          ≡ small_memory (page_at (7 ∷ 3 ∷ []) (k / page_size)) + k % page_size)
unfolding num_pages_for
to_physlist-IsMapped_example =
    to_physlist-IsMapped small_memory (λ p. omega arith) (λ p. omega arith) (7 ∷ 3 ∷ [])
      (two_mapped 16) 16 5000 (omega arith) (omega arith) (omega arith) refl refl

IsMapped-HoldsDescriptors_example : HoldsDescriptors (to_physlist (two_mapped 0))
unfolding num_pages_for
IsMapped-HoldsDescriptors_example =
    IsMapped-HoldsDescriptors small_memory (λ p. omega arith) (λ p. omega arith) (7 ∷ 3 ∷ [])
      (two_mapped 0) 5000 (omega arith) (omega arith) (omega arith) refl refl

IsMapped-HoldsData_example : HoldsData (to_physlist (two_mapped 0))
unfolding num_pages_for
IsMapped-HoldsData_example =
    IsMapped-HoldsData small_memory (λ p. omega arith) (λ p. omega arith) (7 ∷ 3 ∷ [])
      (two_mapped 0) 5000 (omega arith) (omega arith) refl refl

abbrev pin_5000 : PinnerCmd
pin_5000 = record { cmd = 1; usr_buf = 0x7010; usr_buf_sz = 5000; handle = 0; physlist = 0 }

abbrev willing : Replies
willing = record {
  array_ok = true;
  pinning_ok = true;
  sglist_ok = true;
  entries_ok = true;
  got = 7 ∷ 3 ∷ [];
  magic = 99;
  dma_map = λ ss. inr (map (at_bus small_memory) ss);
  num_copied = true;
  entries_copied = true;
  handle_copied = true;
  handle = record { user_magic = 0; pin_magic = 0 };
}

abbrev user : ProcInfo
user = record { id = 1; pinning_list = []; magic = 55 }

abbrev list_of_two : List ScatterEnt
list_of_two =
    record { page = 7; length = 4080; offset = 16; dma_address = 7 * page_size + 16 }
    ∷ record { page = 3; length = 920; offset = 0; dma_address = 3 * page_size }
    ∷ []

pinner_do_unpin-pinner_do_pin_example :
    (pinner_do_pin small_memory willing pin_5000 user (λ x. 0)
      ≡ returns
          (pinned (to_physlist list_of_two) (handle_for small_memory willing pin_5000 user))
          (with_pinning small_memory willing pin_5000 user list_of_two)
          (pinned_refs (λ x. 0) (7 ∷ 3 ∷ [])))
    × ((refs' : Holdings) × (pinner_do_unpin
            (record willing { handle = handle_for small_memory willing pin_5000 user })
            (with_pinning small_memory willing pin_5000 user list_of_two)
            (pinned_refs (λ x. 0) (7 ∷ 3 ∷ []))
          ≡ returns done user refs')
        × (((x : Resource) → x ≢ page_array → refs' x ≡ 0) × (refs' page_array ≡ 1)))
unfolding num_pages_for fill_sglist
pinner_do_unpin-pinner_do_pin_example =
    pinner_do_unpin-pinner_do_pin small_memory willing pin_5000 user (λ x. 0) list_of_two
      (record {
        some_pages = omega arith;
        few_pages = omega arith;
        array = refl;
        all_pages = refl;
        pinning = refl;
        list = refl;
        map_eq = refl;
        same_pages = refl;
        entries = refl;
        num_copied = refl;
        entries_copied = refl;
        handle_copied = refl;
      })

pinner_write-Balanced_example :
    Balanced user (λ x. 0) (pinner_write small_memory willing true pin_5000 40 user (λ x. 0))
pinner_write-Balanced_example =
    pinner_write-Balanced small_memory willing true pin_5000 40 user (λ x. 0)
      (record { keeps = at_bus-keeps small_memory }) (λ x other. omega arith)

-- The driver after a user opened it and pinned the buffer.
abbrev one_pinned : Driver
one_pinned = record {
  users = with_pinning small_memory willing pin_5000 user list_of_two ∷ [];
  refs = pinned_refs (kmalloc proc_block (λ x. 0)) (7 ∷ 3 ∷ []);
  registered = true;
  device = true;
}

one_pinned-Reach : Reach small_memory loaded one_pinned
unfolding pinner_init pinner_open pinner_write pinner_do_pin pin_mapped pinner_send_physlist
    num_pages_for fill_sglist find_user update_user
one_pinned-Reach = next (next here (open_file 1 55)) (
    command 1 user (with_pinning small_memory willing pin_5000 user list_of_two) willing true
      pin_5000 40 (pinned (to_physlist list_of_two) (handle_for small_memory willing pin_5000 user))
      (pinned_refs (kmalloc proc_block (λ x. 0)) (7 ∷ 3 ∷ []))
      (record { keeps = at_bus-keeps small_memory }) refl refl)

pinner_exit-Reach_example :
    ((x : Resource) → x ≢ page_array → one_pinned.refs x ≡ held_all x one_pinned.users)
    × Gone (pinner_exit one_pinned)
pinner_exit-Reach_example = pinner_exit-Reach small_memory one_pinned one_pinned-Reach

-- The array of the pages is left.
one_array_left : (pinner_exit one_pinned).refs page_array ≡ 1
unfolding pinner_exit one
one_array_left = refl

-- The kernel reads a handle of the user with the magic 99.
abbrev named : Replies
named = record willing { handle = record { user_magic = 55; pin_magic = 99 } }

abbrev holder : ProcInfo
holder = record user { pinning_list = record { sglist = list_of_two; magic = 99 } ∷ [] }

requests-pinner_write_example :
    ((pin_buf (write_call small_memory named true holder (λ x. 0)) (some 4) 0x7010 5000 0 0
        ≡ Sent.done (pin_request 0x7010 5000 0 0))
      ↔ Pins small_memory named true 0x7010 5000)
    × ((flush_buf_cache (write_call small_memory named true holder (λ x. 0)) (some 4) 0
          ≡ Sent.done (request flush_code 0))
        ↔ Names named true holder)
    × ((unpin_buf (write_call small_memory named true holder (λ x. 0)) (some 4) 0
          ≡ Sent.done (unpin_request 0))
        ↔ Names named true holder)
requests-pinner_write_example =
    requests-pinner_write small_memory named true holder (λ x. 0) 4 0x7010 5000 0 0

-- The handle is found, and the flush succeeds.
named-Names : Names named true holder
named-Names = record {
  cmd_copied = refl;
  handle_copied = refl;
  same_user = refl;
  held = (0, record { sglist = list_of_two; magic = 99 }, refl, refl);
}
