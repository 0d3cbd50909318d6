-- ===== src/SgList/Tests.antt =====
-- `axidma_add_entry` and the list helpers on a small memory.
use mpsoc_axidma.Base.{ℕ, ◌≡◌, refl, ◌≢◌, false, [], ◌∷◌, ◌==◌, if◌then◌else◌, arith, some}
use mpsoc_axidma.Physlist.{PhyslistEntry}
use mpsoc_axidma.Heap.{Ptr, null, SgFields, Heap, ok}
use mpsoc_axidma.Heap.Ring.{has, Ring}
use mpsoc_axidma.SgList.{SgList, axidma_add_entry, axidma_list_del, sg_entry_add_list_before}
use mpsoc_axidma.SgList.Links.{spliced_before, sg_entry_add_list_before-Ring}
use mpsoc_axidma.SgList.Free.{axidma_list_del-without}
use mpsoc_axidma.SgList.Loop.{Ends}
use mpsoc_axidma.SgList.Outcome.{plan_for, Added}
use mpsoc_axidma.SgList.AddEntry.{axidma_add_entry-Added}
use mpsoc_axidma.Physlist.{adjustment}
use mpsoc_axidma.Physlist.Room.{HoldsDescriptors, Ready-zero}
use mpsoc_axidma.SgList.Invariant.{HoldsData, WellFormed, Extended}
use mpsoc_axidma.SgList.State.{new_list, axidma_add_entry-Extended, axidma_list_new-WellFormed}
use mpsoc_axidma.SgList.{axidma_list_new}
use mpsoc_axidma.Base.{none, ◌⊎◌}
use mpsoc_axidma.SgList.Covers.{Covers, axidma_add_entry-Covers}

abbrev piece : ℕ → ℕ → PhyslistEntry
piece a n = record { addr = a; len = n }

abbrev blank : SgFields
blank = record { sg_offset = 0; data_offset = 0; buf_phys = 0; len = 0; is_sof = 0; is_eof = 0 }

-- An allocator with two blocks, at 24 and 32.
abbrev two_blocks : Heap → Ptr
two_blocks h = if h.alive 24 then (if h.alive 32 then 0 else 32) else 24

two_blocks_fresh : (h : Heap) → two_blocks h ≢ null → h.alive (two_blocks h) ≡ false
two_blocks_fresh h ne = ground arith

-- One list, at 8, with no node.
abbrev memory : Heap
memory = record { alive = λ a. a == 8; next = λ a. 8; prev = λ a. 8; fields = λ a. blank }

abbrev list : SgList
list = record {
  sentinel = 8;
  to_vist = 0;
  sg_buf = 0x100000;
  sg_offset = 0;
  sg_plist = piece 0x8000 4096 ∷ [];
  data_buf = 0x200000;
  data_offset = 50;
  data_plist = piece 0x1000 100 ∷ piece 0x3000 100 ∷ [];
}

memory-Ring : Ring memory 8 []
memory-Ring = record { links = (refl, refl); distinct = (refl, tt); live = (refl, tt) }

axidma_add_entry-Added_example :
    Ends
      (Added two_blocks memory 16 list [] (plan_for list 80))
      (axidma_add_entry two_blocks 16 3 (some list) 80 memory)
axidma_add_entry-Added_example =
    axidma_add_entry-Added two_blocks two_blocks_fresh 16 3 memory list [] 80 memory-Ring refl
      (omega arith) (omega arith)

axidma_add_entry-Covers_example :
    Ends
      (Covers two_blocks memory 16 list [] 80)
      (axidma_add_entry two_blocks 16 3 (some list) 80 memory)
axidma_add_entry-Covers_example =
    axidma_add_entry-Covers two_blocks two_blocks_fresh 16 3 memory list [] 80 memory-Ring refl
      (omega arith) (omega arith) (omega arith) (omega arith)

-- A second list, at 16, with the nodes 24 and 32, and a node 40 of its own.
abbrev chain : Ptr → Ptr
chain a = if a == 16 then 24 else (if a == 24 then 32 else (if a == 32 then 16 else 8))

abbrev chain_back : Ptr → Ptr
chain_back a = if a == 16 then 32 else (if a == 24 then 16 else (if a == 32 then 24 else 8))

abbrev two_lists : Heap
two_lists = record {
  alive = λ a. has a (8 ∷ 16 ∷ 24 ∷ 32 ∷ 40 ∷ []);
  next = chain;
  prev = chain_back;
  fields = λ a. blank;
}

first-Ring : Ring two_lists 8 []
first-Ring = record { links = (refl, refl); distinct = (refl, tt); live = (refl, tt) }

second-Ring : Ring two_lists 16 (24 ∷ 32 ∷ [])
second-Ring = record {
  links = (refl, refl, (refl, refl, (refl, refl)));
  distinct = (refl, (refl, (refl, tt)));
  live = (refl, (refl, (refl, tt)));
}

sg_entry_add_list_before-Ring_example :
    (sg_entry_add_list_before 8 16 two_lists ≡ ok tt (spliced_before two_lists 8 8 24 32))
    × Ring (spliced_before two_lists 8 8 24 32) 8 (24 ∷ 32 ∷ [])
sg_entry_add_list_before-Ring_example =
    sg_entry_add_list_before-Ring two_lists 8 [] 16 24 (32 ∷ []) first-Ring second-Ring
      (λ a m. ground arith)

axidma_list_del-without_example :
    (h' : Heap) × (axidma_list_del 3 (some (record list { sentinel = 16 })) two_lists ≡ ok tt h')
    × ((a : Ptr) → h'.alive a ≡ (if has a (16 ∷ 24 ∷ 32 ∷ []) then false else two_lists.alive a))
    × (h'.fields ≡ two_lists.fields)
axidma_list_del-without_example =
    axidma_list_del-without 3 two_lists (record list { sentinel = 16 }) (24 ∷ 32 ∷ []) second-Ring
      (omega arith)

-- The same list with nothing apportioned, over buffers that are as they should be.
abbrev fresh_list : SgList
fresh_list = record list { data_offset = 0 }

one_page-HoldsDescriptors : HoldsDescriptors (piece 0x8000 4096 ∷ [])
unfolding adjustment
one_page-HoldsDescriptors = record {
  small = omega arith;
  starts = tt;
  first = ground arith;
  ends = (record { clear = omega arith }, tt);
}

two_pieces-HoldsData : HoldsData (piece 0x1000 100 ∷ piece 0x3000 100 ∷ [])
two_pieces-HoldsData = record {
  fits = (record { within = omega arith }, (record { within = omega arith }, tt));
  small = omega arith;
  short = (record { short = omega arith }, (record { short = omega arith }, tt));
}

fresh_list-WellFormed : WellFormed memory fresh_list []
fresh_list-WellFormed = record {
  ring = memory-Ring;
  slots = refl;
  ready = Ready-zero (piece 0x8000 4096 ∷ []) one_page-HoldsDescriptors;
  tiled = refl;
  within = omega arith;
  fields = tt;
}

axidma_add_entry-Extended_example :
    Ends
      (Extended two_blocks memory 16 fresh_list [] 130)
      (axidma_add_entry two_blocks 16 3 (some fresh_list) 130 memory)
axidma_add_entry-Extended_example =
    axidma_add_entry-Extended two_blocks two_blocks_fresh 16 3 memory fresh_list [] 130
      fresh_list-WellFormed one_page-HoldsDescriptors two_pieces-HoldsData refl (omega arith)
      (omega arith)

axidma_list_new-WellFormed_example :
    let lst = new_list 0x100000 (piece 0x8000 4096 ∷ []) 0x200000 (piece 0x1000 100 ∷ []) 24 in
    Ends
      (λ r h'.
        (r ≡ none) × (two_blocks memory ≡ null) × (h' ≡ memory)
        ⊎ (r ≡ some lst)
          × (two_blocks memory ≢ null)
          × WellFormed h' lst []
          × ((a : Ptr) → a ≢ two_blocks memory → h'.alive a ≡ memory.alive a))
      (axidma_list_new two_blocks 0x100000
        (piece 0x8000 4096 ∷ [])
        0x200000
        (piece 0x1000 100 ∷ [])
        memory)
axidma_list_new-WellFormed_example =
    axidma_list_new-WellFormed two_blocks 0x100000 (piece 0x8000 4096 ∷ []) 0x200000
      (piece 0x1000 100 ∷ []) memory one_page-HoldsDescriptors
