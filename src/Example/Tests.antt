-- ===== src/Example/Tests.antt =====
-- The two loops of example.c on small memories.
use mpsoc_axidma.Base.{
  zero, suc, ◌*◌, ◌-◌, ◌%◌, ◌/◌, ◌^◌, ◌≤◌, Bool, true, some, ℕ, ◌+◌, ◌≡◌, refl, ◌≢◌, false, List,
  [], ◌∷◌, map, ◌==◌, if◌then◌else◌, arith,
}
use mpsoc_axidma.Physlist.{PhyslistEntry, virt_to_phys, adjustment}
use mpsoc_axidma.Physlist.Room.{HoldsDescriptors, Ready-zero, Ready-Slot, desc_size}
use mpsoc_axidma.Physlist.Align.{Slot}
use mpsoc_axidma.SgList.Range.{InRange}
use mpsoc_axidma.PinnerApi.{PinnerCmd}
use mpsoc_axidma.Dma.Start.{phys_of}
use mpsoc_axidma.Dma.Chain.{InMemory, next_desc}
use mpsoc_axidma.Example.Pipeline.{transfer_and_receive-frames}
use mpsoc_axidma.Heap.{Ptr, null, SgFields, Heap, ok}
use mpsoc_axidma.Heap.Ring.{has, Ring}
use mpsoc_axidma.SgList.{SgList}
use mpsoc_axidma.SgList.Loop.{Ends}
use mpsoc_axidma.SgList.Invariant.{HoldsData, WellFormed}
use mpsoc_axidma.Dma.{AxidmaCtx, DescMem, no_status, Transfer, started, not_written, dmacr}
use mpsoc_axidma.Dma.Walk.{At}
use mpsoc_axidma.Example.{add_buffers, receive, transfer_and_receive}
use mpsoc_axidma.Pinner.{
  Page, ScatterEnt, page_size, num_pages_for, fill_rest, fill_sglist, to_physlist,
}
use mpsoc_axidma.Example.{Finish, finished, make_and_receive}
use mpsoc_axidma.Heap.{Run}
use mpsoc_axidma.Dma.Engine.{Maps, start_writes}
use mpsoc_axidma.Dma.Filling.{filling_engine, filling_engine-Serves}
use mpsoc_axidma.Example.Whole.{Outcome, make_and_receive-Outcome}
use mpsoc_axidma.Pinner.Mapping.{at_bus}
use mpsoc_axidma.Example.Pinned.{make_and_receive-fill_sglist}
use mpsoc_axidma.Example.Split.{frames, buffer_for}
use mpsoc_axidma.Example.Receive.{good, receive-frames}
use mpsoc_axidma.Example.Fill.{Filled, add_buffers-Filled}

abbrev entry : ℕ → ℕ → PhyslistEntry
entry a n = record { addr = a; len = n }

abbrev fields_at : Ptr → SgFields
fields_at a = record {
  sg_offset = if a == 24 then 0 else 64;
  data_offset = if a == 24 then 0 else 60;
  buf_phys = if a == 24 then 0x3000 else 0x303C;
  len = 60;
  is_sof = 1;
  is_eof = 1;
}

-- A list at 8 with no node, and the allocator's block at 24.
abbrev empty : Heap
empty = record { alive = λ a. a == 8; next = λ a. 8; prev = λ a. 8; fields = fields_at }

abbrev one_block : Heap → Ptr
one_block h = if h.alive 24 then 0 else 24

one_block_fresh : (h : Heap) → one_block h ≢ null → h.alive (one_block h) ≡ false
one_block_fresh h ne = ground arith

abbrev list : SgList
list = record {
  sentinel = 8;
  to_vist = 0;
  sg_buf = 0x1000;
  sg_offset = 0;
  sg_plist = entry 0x8000 4096 ∷ [];
  data_buf = 0x2000;
  data_offset = 0;
  data_plist = entry 0x3000 200 ∷ [];
}

page-HoldsDescriptors : HoldsDescriptors (entry 0x8000 4096 ∷ [])
unfolding adjustment
page-HoldsDescriptors = record {
  small = omega arith;
  starts = tt;
  first = ground arith;
  ends = (record { clear = omega arith }, tt);
}

piece-HoldsData : HoldsData (entry 0x3000 200 ∷ [])
piece-HoldsData = record {
  fits = (record { within = omega arith }, tt);
  small = omega arith;
  short = (record { short = omega arith }, tt);
}

empty-WellFormed : WellFormed empty list []
empty-WellFormed = record {
  ring = record { links = (refl, refl); distinct = (refl, tt); live = (refl, tt) };
  slots = refl;
  ready = Ready-zero (entry 0x8000 4096 ∷ []) page-HoldsDescriptors;
  tiled = refl;
  within = omega arith;
  fields = tt;
}

add_buffers-Filled_example :
    Ends (Filled one_block empty 16 list [] 2 60) (add_buffers one_block 16 2 2 60 list empty)
add_buffers-Filled_example =
    add_buffers-Filled one_block one_block_fresh 16 2 60 (omega arith) 2 empty list []
      empty-WellFormed page-HoldsDescriptors piece-HoldsData refl (omega arith)

-- The list with the nodes 24 and 32, each a frame of its own.
abbrev two_nodes : Heap
two_nodes = record {
  alive = λ a. has a (8 ∷ 24 ∷ 32 ∷ []);
  next = λ a. if a == 8 then 24 else (if a == 24 then 32 else 8);
  prev = λ a. if a == 8 then 32 else (if a == 24 then 8 else 24);
  fields = fields_at;
}

-- The first frame is complete, and the second is not.
abbrev descriptors : DescMem
descriptors p = record {
  next_desc_lsb = 0;
  next_desc_msb = 0;
  buffer_lsb = 0;
  buffer_msb = 0;
  control = record { len = 60; eof = 1; sof = 1 };
  status = if p == 0x1000 then record no_status { len = 60; eof = 1; complete = 1 } else no_status;
}

two_nodes-Ring : Ring two_nodes 8 (24 ∷ 32 ∷ [])
two_nodes-Ring = record {
  links = (refl, refl, (refl, refl, (refl, refl)));
  distinct = (refl, (refl, (refl, tt)));
  live = (refl, (refl, (refl, tt)));
}

first-At : At two_nodes (record list { to_vist = 24 }) [] (24 ∷ 32 ∷ [])
first-At = record {
  ring = two_nodes-Ring;
  here = refl;
  real = (ground arith, (ground arith, (ground arith, tt)));
}

receive-frames_example :
    let bufs =
      map
        (buffer_for two_nodes descriptors (record list { to_vist = 24 }))
        (frames two_nodes descriptors list.sg_buf (24 ∷ 32 ∷ [])) in
    receive 3 2 0 (record list { to_vist = 24 }) descriptors two_nodes
    ≡ ok
        (record { bufs = bufs; cnt = 0 + good bufs; list = record list { to_vist = null } })
        two_nodes
receive-frames_example =
    receive-frames 3 2 0 two_nodes descriptors (record list { to_vist = 24 }) [] (24 ∷ 32 ∷ [])
      first-At (omega arith) (omega arith)

-- The list after both were added, each in a place of its own.
abbrev filled_list : SgList
filled_list = record list { sg_offset = 120; data_offset = 120 }

page-Slot : (k : ℕ) → k + 56 ≤ 4096 → (0x8000 + k) % 64 ≡ 0 → Slot list.sg_plist desc_size k
page-Slot k room aligned = record {
  index = 0;
  into = k;
  entry = entry 0x8000 4096;
  at = refl;
  room = room;
  aligned = aligned;
  offset_eq = omega arith;
}

in_range : (a : Ptr) → InRange (fields_at a)
in_range a = record {
  buf_low = ground arith;
  len_low = omega arith;
  sof_bit = omega arith;
  eof_bit = omega arith;
}

filled_list-WellFormed : WellFormed two_nodes filled_list (24 ∷ 32 ∷ [])
filled_list-WellFormed = record {
  ring = two_nodes-Ring;
  slots = (
    omega arith,
    page-Slot 0 (omega arith) refl,
    (omega arith, page-Slot 64 (omega arith) refl, refl),
  );
  ready =
      Ready-Slot (entry 0x8000 4096 ∷ []) 64 page-HoldsDescriptors
        (page-Slot 64 (omega arith) refl);
  tiled = refl;
  within = omega arith;
  fields = (in_range 24, (in_range 32, tt));
}

-- An engine that changes nothing.
abbrev idle : Transfer → DescMem → DescMem
idle t m = m

abbrev any_write : PinnerCmd → ℕ → Bool
any_write c sz = true

transfer_and_receive-frames_example :
    let writes =
      start_writes
        (phys_of two_nodes filled_list 24)
        (dmacr false 2)
        (phys_of two_nodes filled_list 32) in
    (m' : DescMem) × (let bufs =
        map
          (buffer_for two_nodes m' filled_list)
          (frames two_nodes m' list.sg_buf (24 ∷ 32 ∷ [])) in
      transfer_and_receive any_write 3 3 idle
        (record { fd = 3; reg_base = 0x70000000; lst = 0 })
        filled_list
        descriptors
        (some 5)
        0
        two_nodes
      ≡ ok
          (
            started writes true,
            record { bufs = bufs; cnt = good bufs; list = record filled_list { to_vist = null } },
          )
          two_nodes)
    × InMemory two_nodes filled_list m' (24 ∷ 32 ∷ [])
transfer_and_receive-frames_example =
    transfer_and_receive-frames any_write 3 3 idle
      (record { fd = 3; reg_base = 0x70000000; lst = 0 }) two_nodes filled_list 24 (32 ∷ [])
      descriptors (some 5) 0 filled_list-WellFormed (record { within = omega arith }, tt)
      (ground arith, (ground arith, (ground arith, tt))) (omega arith) (omega arith) (omega arith)

-- An allocator with three blocks.
abbrev three_blocks : Heap → Ptr
three_blocks h =
    if h.alive 24 then (if h.alive 32 then (if h.alive 40 then 0 else 40) else 32) else 24

three_blocks_fresh : (h : Heap) → three_blocks h ≢ null → h.alive (three_blocks h) ≡ false
three_blocks_fresh h ne = ground arith

three_blocks_apart : (h : Heap) → three_blocks h ≢ 16
three_blocks_apart h = ground arith

abbrev unwritten : AxidmaCtx
unwritten = record { fd = 3; reg_base = 0x70000000; lst = 0 }

-- Nothing is allocated.
abbrev blank : Heap
blank = record { alive = λ a. false; next = λ a. 0; prev = λ a. 0; fields = fields_at }

-- The descriptor buffer at 0x1000 is in the page at 0x8000.
abbrev page_virt : ℕ → ℕ
page_virt p = p - 0x7000

page-Maps : Maps page_virt 0x1000 (entry 0x8000 4096 ∷ [])
unfolding virt_to_phys
page-Maps = record { at = λ o inside. ground (arith, inside) }

make_and_receive-Outcome_example :
    Ends
      (Outcome three_blocks blank 16 (entry 0x8000 4096 ∷ []) 0x2000 (entry 0x3000 200 ∷ []) 2 60)
      (make_and_receive three_blocks 16 any_write 3 3 filling_engine unwritten descriptors
        (some 5)
        0
        0x1000
        (entry 0x8000 4096 ∷ [])
        0x2000
        (entry 0x3000 200 ∷ [])
        2
        60
        blank)
make_and_receive-Outcome_example =
    make_and_receive-Outcome three_blocks three_blocks_fresh 16 three_blocks_apart any_write 3 3
      filling_engine unwritten descriptors (some 5) 0 refl page_virt
      (filling_engine-Serves page_virt) 0x1000 (entry 0x8000 4096 ∷ []) page-Maps 0x2000
      (entry 0x3000 200 ∷ []) 2 60 page-HoldsDescriptors (record { within = omega arith }, tt)
      piece-HoldsData (omega arith) (omega arith) (omega arith) (omega arith) blank refl

-- A memory of 2 ^ 20 pages, and page 0 for the rest.
abbrev small_memory : Page → ℕ
small_memory p = p % 2 ^ 20 * page_size

-- The page-aligned buffers at 0x7000, in the pages 7 and 3, and at 0x2000, in page 5, as mapped.
abbrev sg_mapped : List ScatterEnt
sg_mapped = map (at_bus small_memory) (fill_sglist small_memory (7 ∷ 3 ∷ []) 0 5000)

abbrev data_mapped : List ScatterEnt
data_mapped = map (at_bus small_memory) (fill_sglist small_memory (5 ∷ []) 0 2000)

abbrev pages_virt : ℕ → ℕ
pages_virt p = if p / page_size == 7 then p else p + 5 * page_size

pages-Maps : Maps pages_virt 0x7000 (to_physlist sg_mapped)
unfolding fill_sglist fill_rest virt_to_phys
pages-Maps = record { at = λ o inside. ground (arith, inside) }

make_and_receive-fill_sglist_example :
    Ends
      (Outcome three_blocks blank 16 (to_physlist sg_mapped) 0x2000 (to_physlist data_mapped) 2 60)
      (make_and_receive three_blocks 16 any_write 3 3 filling_engine unwritten descriptors
        (some 5)
        0
        0x7000
        (to_physlist sg_mapped)
        0x2000
        (to_physlist data_mapped)
        2
        60
        blank)
unfolding num_pages_for fill_sglist fill_rest
make_and_receive-fill_sglist_example =
    make_and_receive-fill_sglist small_memory (λ p. omega arith) (λ p. omega arith) three_blocks
      three_blocks_fresh 16 three_blocks_apart any_write 3 3 filling_engine unwritten descriptors
      (some 5) 0 0x7000 0x2000 (7 ∷ 3 ∷ []) (5 ∷ []) sg_mapped data_mapped 5000 2000 2 60 pages_virt
      blank refl (filling_engine-Serves pages_virt) (omega arith) (omega arith) (omega arith) refl
      refl refl (omega arith) (omega arith) refl refl refl (omega arith) pages-Maps (omega arith)
      (omega arith) (omega arith) refl

-- How many good buffers a run received.
abbrev counted : Run Finish → ℕ
counted (ok (finished f t got) h) = got.cnt
counted _ = 99

-- An engine that fills the buffers of the descriptors from `p` to `last`, `k` at most.
abbrev follow : (k p last : ℕ) → DescMem → DescMem
follow zero p last m = m
follow (suc k) p last m =
    let filled : DescMem = λ a. if a == page_virt p then filling_engine not_written m a else m a in
    if p == last then filled else follow k (next_desc (m (page_virt p))) last filled

-- It reads the addresses of the first and the last from its registers.
abbrev following_engine : Transfer → DescMem → DescMem
following_engine (started ((_, a) ∷ (_, b) ∷ _ ∷ (_, c) ∷ (_, d) ∷ []) w) m =
    follow 3 (b * 2 ^ 32 + a) (d * 2 ^ 32 + c) m
following_engine _ m = m

-- The three blocks are enough for two buffers, and the program receives them.
two_received :
    counted (
      make_and_receive three_blocks 16 any_write 3 3 following_engine unwritten descriptors
        (some 5)
        0
        0x1000
        (entry 0x8000 4096 ∷ [])
        0x2000
        (entry 0x3000 200 ∷ [])
        2
        60
        blank)
    ≡ 2
unfolding make_and_receive mpsoc_axidma.Physlist.get_entry_index
    mpsoc_axidma.Physlist.find_contiguous_aligned_after virt_to_phys
two_received = refl
