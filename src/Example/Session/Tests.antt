-- ===== src/Example/Session/Tests.antt =====
-- The main of example.c on a driver with no users.
use mpsoc_axidma.Base.{
  ℕ, zero, suc, ◌+◌, ◌*◌, ◌/◌, ◌==◌, ◌%◌, ◌^◌, ◌≡◌, ◌≢◌, refl, true, false, some, List, [], ◌∷◌,
  map, inl, inr, arith, Bool-cases, if◌then◌else◌,
}
use mpsoc_axidma.Example.{finished}
use mpsoc_axidma.Physlist.{virt_to_phys}
use mpsoc_axidma.Heap.{Run, ok, Ptr, Heap, null}
use mpsoc_axidma.SgList.Loop.{Ends}
use mpsoc_axidma.Pinner.{Page, page_size, num_pages_for, fill_sglist, fill_rest, to_physlist}
use mpsoc_axidma.Pinner.Files.{pinner_init}
use mpsoc_axidma.Pinner.Ops.{Replies}
use mpsoc_axidma.Pinner.Driver.{loaded}
use mpsoc_axidma.Dma.{DescMem, no_status}
use mpsoc_axidma.Context.{Process}
use mpsoc_axidma.Dma.Engine.{Maps}
use mpsoc_axidma.Dma.Filling.{filling_engine, filling_engine-Serves}
use mpsoc_axidma.Example.Granted.{pieces, Granted}
use mpsoc_axidma.Pinner.Account.{KeepsPages}
use mpsoc_axidma.Pinner.Mapping.{at_bus, at_bus-keeps}
use mpsoc_axidma.Example.Main.{MainReplies, Left, MainEnd, ran, example_main}
use mpsoc_axidma.Example.Session.{Served, example_main-Served}

-- A memory of 2 ^ 20 pages, and page 0 for the rest.
abbrev small_memory : Page → ℕ
small_memory p = p % 2 ^ 20 * page_size

-- An allocator with `n` blocks, from 100 on.
abbrev first_free : ℕ → Heap → Ptr
first_free zero h = 0
first_free (suc n) h = if h.alive (100 + n) then first_free n h else 100 + n

first_free-fresh : (n : ℕ) (h : Heap) → first_free n h ≢ null → h.alive (first_free n h) ≡ false
first_free-fresh zero h ne = absurd (ne refl)
first_free-fresh (suc n) h ne = elim (Bool-cases (h.alive (100 + n))) [
  | inl used ↦ rw used (first_free-fresh n h (rw used at ne))
  | inr free ↦ rw (free, free) refl
]

first_free-apart : (n : ℕ) (h : Heap) → first_free n h ≢ 16
first_free-apart zero h = λ e. omega (arith, e)
first_free-apart (suc n) h = elim (Bool-cases (h.alive (100 + n))) [
  | inl used ↦ rw used (first_free-apart n h)
  | inr free ↦ rw free (λ e. omega (arith, e))
]

abbrev willing : List Page → Replies
willing pages = record {
  array_ok = true;
  pinning_ok = true;
  sglist_ok = true;
  entries_ok = true;
  got = pages;
  magic = 99;
  dma_map = λ ss. inr (map (at_bus small_memory) ss);
  num_copied = true;
  entries_copied = true;
  handle_copied = true;
  handle = record { user_magic = 0; pin_magic = 0 };
}

willing-KeepsPages : (pages : List Page) → KeepsPages (willing pages)
willing-KeepsPages pages = record { keeps = at_bus-keeps small_memory }

-- Both buffers are granted: one in 2 pages, the other in 5.
abbrev replies : MainReplies
replies = record {
  ctx = record { fd = some 3; reg_base = some 0x70000000; ret = some 0x900 };
  pinner_fd = some 4;
  id = 64;
  magic = 55;
  sg_buf = 0x7000;
  data_buf = 0x20000;
  sg_handle = 0x500;
  sg_plist = 0x600;
  data_handle = 0x510;
  data_plist = 0x610;
  pin_sg = willing (7 ∷ 3 ∷ []);
  pin_data = willing (10 ∷ 11 ∷ 12 ∷ 13 ∷ 14 ∷ []);
  flush_sg = willing [];
  unpin_data = willing [];
  unpin_sg = willing [];
}

-- A process that holds nothing, and a memory with no blocks.
abbrev new_process : Process
new_process = record { open_fds = λ a. false; mapped = λ a. false; allocated = λ a. false }

abbrev blank : Heap
blank = record {
  alive = λ a. false;
  next = λ a. 0;
  prev = λ a. 0;
  fields =
      λ a. record { sg_offset = 0; data_offset = 0; buf_phys = 0; len = 0; is_sof = 0; is_eof = 0 };
}

abbrev blank_descs : DescMem
blank_descs p = record {
  next_desc_lsb = 0;
  next_desc_msb = 0;
  buffer_lsb = 0;
  buffer_msb = 0;
  control = record { sof = 0; eof = 0; len = 0 };
  status = no_status;
}

replies-Granted : Granted small_memory replies 3 0x70000000 0x900 4
unfolding num_pages_for fill_sglist
replies-Granted = record {
  ctx_eq = refl;
  fd_eq = refl;
  real = ground arith;
  aligned = refl;
  data_aligned = refl;
  sg_Succeeds = record {
    some_pages = omega arith;
    few_pages = omega arith;
    array = refl;
    all_pages = refl;
    pinning = refl;
    list = refl;
    map_eq = refl;
    same_pages = refl;
    entries = refl;
    num_copied = refl;
    entries_copied = refl;
    handle_copied = refl;
  };
  data_Succeeds = record {
    some_pages = omega arith;
    few_pages = omega arith;
    array = refl;
    all_pages = refl;
    pinning = refl;
    list = refl;
    map_eq = refl;
    same_pages = refl;
    entries = refl;
    num_copied = refl;
    entries_copied = refl;
    handle_copied = refl;
  };
  sg_keeps = willing-KeepsPages _;
  data_keeps = willing-KeepsPages _;
  unpin_data_keeps = willing-KeepsPages _;
  unpin_sg_keeps = willing-KeepsPages _;
}

-- The descriptor buffer at 0x7000 is in the pages 7 and 3.
abbrev pages_virt : ℕ → ℕ
pages_virt p = if p / page_size == 7 then p else p + 5 * page_size

pages-Maps :
    Maps pages_virt 0x7000
      (to_physlist (map (at_bus small_memory) (fill_sglist small_memory (7 ∷ 3 ∷ []) 0 5000)))
unfolding fill_sglist fill_rest virt_to_phys
pages-Maps = record { at = λ o inside. ground (arith, inside) }

example_main-Served_example :
    Ends
      (Served
        (first_free 40)
        blank
        16
        (to_physlist (pieces small_memory replies.pin_sg 0x7000 5000))
        (to_physlist (pieces small_memory replies.pin_data 0x20000 20000))
        0x20000
        new_process
        loaded)
      (example_main small_memory replies
        (first_free 40)
        16
        61
        61
        filling_engine
        blank_descs
        2
        new_process
        loaded
        blank)
unfolding pinner_init
example_main-Served_example =
    example_main-Served small_memory replies (first_free 40) 16 61 61 filling_engine blank_descs 3
      0x70000000 0x900 4 replies-Granted new_process
      (record { ctx_fd_free = refl; base_free = refl; fd_free = refl }) loaded
      (record { refs_eq = λ x other. refl; device_eq = refl }) (λ p. omega arith) (λ p. omega arith)
      (first_free-fresh 40) (first_free-apart 40) pages_virt (filling_engine-Serves pages_virt)
      pages-Maps blank (omega arith) (omega arith) refl

-- How many good buffers a run of `main` received: with the 40 blocks, all 10.
abbrev good_of : MainEnd → ℕ
good_of (ran (finished f t got)) = got.cnt
good_of _ = 99

abbrev counted : Run Left → ℕ
counted (ok l h) = good_of l.how
counted _ = 99

ten_received :
    counted (
      example_main small_memory replies
        (first_free 40)
        16
        61
        61
        filling_engine
        blank_descs
        2
        new_process
        loaded
        blank)
    ≡ 10
unfolding example_main pinner_init mpsoc_axidma.Pinner.Files.pinner_open
    mpsoc_axidma.Pinner.Ops.pin_mapped mpsoc_axidma.Pinner.Ops.pinner_do_pin
    mpsoc_axidma.Pinner.Ops.pinner_send_physlist num_pages_for fill_sglist
    mpsoc_axidma.Physlist.get_entry_index mpsoc_axidma.Physlist.find_contiguous_aligned_after
    mpsoc_axidma.Pinner.Ops.pinner_do_unpin
ten_received = refl
