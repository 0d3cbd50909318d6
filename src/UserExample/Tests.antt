-- ===== src/UserExample/Tests.antt =====
-- The descriptors of a buffer on two pages.
use mpsoc_axidma.Base.{ℕ, ◌+◌, ◌*◌, ◌≡◌, [], ◌∷◌, some, get_elem?, arith}
use mpsoc_axidma.Physlist.{PhyslistEntry, Physlist}
use mpsoc_axidma.Physlist.Layout.{bytes}
use mpsoc_axidma.Dma.{DescMem, no_status}
use mpsoc_axidma.Dma.Chain.{filled}
use mpsoc_axidma.UserExample.{write_physlist_sg}
use mpsoc_axidma.UserExample.Chain.{Says, descs, write_physlist_sg-Says}

abbrev one_page : Physlist
one_page = record { addr = 0x8000; len = 4096 } ∷ []

abbrev two_pages : Physlist
two_pages = record { addr = 0x3010; len = 4080 } ∷ record { addr = 0x9000; len = 920 } ∷ []

abbrev cleared : DescMem
cleared p = record {
  next_desc_lsb = 0;
  next_desc_msb = 0;
  buffer_lsb = 0;
  buffer_msb = 0;
  control = record { len = 0; eof = 0; sof = 0 };
  status = no_status;
}

write_physlist_sg-Says_example :
    let m' = write_physlist_sg 0x10000 one_page two_pages cleared in
    ((i : ℕ) (e : PhyslistEntry)
      → get_elem? two_pages i ≡ some e
      → Says one_page 2 i e (m' (0x10000 + 128 * i)))
    × (filled (descs 0x10000 m' 0 2) ≡ bytes two_pages)
write_physlist_sg-Says_example =
    write_physlist_sg-Says 0x10000 one_page two_pages cleared
      (
        record { addr_low = omega arith; len_low = omega arith },
        (record { addr_low = omega arith; len_low = omega arith }, tt),
      )
      (omega arith)
