-- ===== src/Dma/Tests.antt =====
-- The walk over the buffers on a small memory.
use mpsoc_axidma.Base.{
  ◌%◌, ◌/◌, ◌^◌, false, ℕ, ◌≡◌, refl, Bool, true, false, [], ◌∷◌, some, ◌==◌, if◌then◌else◌, arith,
}
use mpsoc_axidma.Heap.{Ptr, SgFields, Heap, ok}
use mpsoc_axidma.PinnerApi.{PinnerCmd, flush_buf_cache}
use mpsoc_axidma.Heap.Ring.{has, Ring}
use mpsoc_axidma.SgList.{SgList}
use mpsoc_axidma.Dma.{
  s2mm_curdesc_lsb, s2mm_curdesc_msb, s2mm_dmacr, s2mm_taildesc_lsb, s2mm_taildesc_msb, started,
  dmacr, AxidmaCtx, axidma_write_sg_list, WriteResult, axidma_s2mm_transfer, DescMem, no_status,
}
use mpsoc_axidma.Dma.Start.{phys_of, axidma_s2mm_transfer-started}
use mpsoc_axidma.Physlist.{Physlist, adjustment}
use mpsoc_axidma.Physlist.Align.{Slot}
use mpsoc_axidma.Physlist.Room.{HoldsDescriptors, desc_size, Ready-Slot}
use mpsoc_axidma.SgList.Invariant.{WellFormed}
use mpsoc_axidma.Dma.Dmacr.{dmacr-fields}
use mpsoc_axidma.Dma.Chain.{InMemory, axidma_write_sg_list-Chained}

-- A list at 8 with the nodes 24, 32 and 40, whose descriptors are 64 bytes apart.
abbrev chain : Ptr → Ptr
chain a = if a == 8 then 24 else (if a == 24 then 32 else (if a == 32 then 40 else 8))

abbrev chain_back : Ptr → Ptr
chain_back a = if a == 8 then 40 else (if a == 40 then 32 else (if a == 32 then 24 else 8))

abbrev fields_at : Ptr → SgFields
fields_at a = record {
  sg_offset = if a == 24 then 0 else (if a == 32 then 64 else 128);
  data_offset = if a == 24 then 0 else (if a == 32 then 100 else 200);
  buf_phys = 0;
  len = 100;
  is_sof = 0;
  is_eof = 0;
}

abbrev memory : Heap
memory = record {
  alive = λ a. has a (8 ∷ 24 ∷ 32 ∷ 40 ∷ []);
  next = chain;
  prev = chain_back;
  fields = fields_at;
}

abbrev list : SgList
list = record {
  sentinel = 8;
  to_vist = 24;
  sg_buf = 0x1000;
  sg_offset = 192;
  sg_plist = record { addr = 0x8000; len = 4096 } ∷ [];
  data_buf = 0x2000;
  data_offset = 300;
  data_plist = [];
}

-- The first two descriptors are one frame of 130 bytes; the third is not complete.
abbrev descriptors : DescMem
descriptors p = record {
  next_desc_lsb = 0;
  next_desc_msb = 0;
  buffer_lsb = 0;
  buffer_msb = 0;
  control = record { len = 100; eof = 0; sof = 0 };
  status =
      if p == 0x1000
      then record no_status { len = 100; complete = 1 }
      else (if p == 0x1040
          then record no_status { len = 30; eof = 1; complete = 1 }
          else no_status);
}

memory-Ring : Ring memory 8 (24 ∷ 32 ∷ 40 ∷ [])
memory-Ring = record {
  links = (refl, refl, (refl, refl, (refl, refl, (refl, refl))));
  distinct = (refl, (refl, (refl, (refl, tt))));
  live = (refl, (refl, (refl, (refl, tt))));
}

abbrev ctx : AxidmaCtx
ctx = record { fd = 3; reg_base = 0x70000000; lst = 0 }

abbrev any_write : PinnerCmd → ℕ → Bool
any_write c sz = true

-- Each of the last two nodes ends a buffer.
abbrev two_buffers : Heap
two_buffers = record memory {
  fields = λ a. record (fields_at a) { is_eof = if a == 24 then 0 else 1 };
}

two_buffers-Ring : Ring two_buffers 8 (24 ∷ 32 ∷ 40 ∷ [])
two_buffers-Ring = record {
  links = memory-Ring.links;
  distinct = memory-Ring.distinct;
  live = memory-Ring.live;
}

axidma_s2mm_transfer-started_example :
    let first = phys_of two_buffers list 24 in
    let last = phys_of two_buffers list 40 in
    axidma_s2mm_transfer 4 (some (record ctx { lst = 8 })) (λ p. list) true false two_buffers
    ≡ ok
        (started
          ((s2mm_curdesc_lsb, first % 2 ^ 32)
            ∷ (s2mm_curdesc_msb, first / 2 ^ 32 % 2 ^ 32)
            ∷ (s2mm_dmacr, dmacr false 2)
            ∷ (s2mm_taildesc_lsb, last % 2 ^ 32)
            ∷ (s2mm_taildesc_msb, last / 2 ^ 32 % 2 ^ 32)
            ∷ [])
          true)
        two_buffers
axidma_s2mm_transfer-started_example =
    axidma_s2mm_transfer-started 4 (record ctx { lst = 8 }) two_buffers (λ p. list) 24
      (32 ∷ 40 ∷ []) true false (ground arith) two_buffers-Ring (omega arith) (omega arith)

dmacr-fields_example :
    (dmacr true 300 % 2 ≡ 1)
    × (dmacr true 300 / 2 ^ 4 % 2 ≡ 0)
    × (dmacr true 300 / 2 ^ 12 % 16 ≡ 7)
    × (dmacr true 300 / 2 ^ 16 % 256 ≡ 44)
    × (dmacr true 300 / 2 ^ 24 ≡ 200)
dmacr-fields_example = dmacr-fields true 300

-- A list with one node, for the first 100 bytes of its data buffer.
abbrev page : Physlist
page = record { addr = 0x8000; len = 4096 } ∷ []

abbrev short_list : SgList
short_list = record list {
  sg_plist = page;
  sg_offset = 56;
  data_offset = 100;
  data_plist = record { addr = 0x3000; len = 200 } ∷ [];
}

abbrev one_node : Heap
one_node = record {
  alive = λ a. has a (8 ∷ 24 ∷ []);
  next = λ a. if a == 8 then 24 else 8;
  prev = λ a. if a == 8 then 24 else 8;
  fields = λ a. record {
    sg_offset = 0;
    data_offset = 0;
    buf_phys = 0x3000;
    len = 100;
    is_sof = 1;
    is_eof = 1;
  };
}

page-HoldsDescriptors : HoldsDescriptors page
unfolding adjustment
page-HoldsDescriptors = record {
  small = omega arith;
  starts = tt;
  first = ground arith;
  ends = (record { clear = omega arith }, tt);
}

page_start-Slot : Slot page desc_size 0
page_start-Slot = record {
  index = 0;
  into = 0;
  entry = record { addr = 0x8000; len = 4096 };
  at = refl;
  room = omega arith;
  aligned = refl;
  offset_eq = refl;
}

one_node-WellFormed : WellFormed one_node short_list (24 ∷ [])
one_node-WellFormed = record {
  ring = record {
    links = (refl, refl, (refl, refl));
    distinct = (refl, (refl, tt));
    live = (refl, (refl, tt));
  };
  slots = (omega arith, page_start-Slot, refl);
  ready = Ready-Slot page 0 page-HoldsDescriptors page_start-Slot;
  tiled = refl;
  within = omega arith;
  fields = (
    record {
      buf_low = omega arith;
      len_low = omega arith;
      sof_bit = omega arith;
      eof_bit = omega arith;
    },
    tt,
  );
}

axidma_write_sg_list-Chained_example :
    (m' : DescMem) × (axidma_write_sg_list any_write 2
        (some ctx)
        (some short_list)
        descriptors
        (some 5)
        0
        one_node
      ≡ ok
          (WriteResult.written
            (record ctx { lst = 8 })
            (record short_list { to_vist = 24 })
            m'
            (flush_buf_cache any_write (some 5) 0))
          one_node)
    × InMemory one_node short_list m' (24 ∷ [])
axidma_write_sg_list-Chained_example =
    axidma_write_sg_list-Chained any_write 2 ctx one_node short_list 24 [] descriptors (some 5) 0
      one_node-WellFormed (record { within = omega arith }, tt) (omega arith)
