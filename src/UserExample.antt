-- ===== src/UserExample.antt =====
-- The descriptors that modules/axidma/user_example.c writes for a pinned buffer.
pub mod Chain
mod Tests
use mpsoc_axidma.Base.{
  ℕ, zero, suc, ◌+◌, ◌-◌, ◌*◌, ◌/◌, ◌%◌, ◌^◌, Bool, List, [], ◌∷◌, leb, ◌==◌, if◌then◌else◌, length,
}
use mpsoc_axidma.Physlist.{PhyslistEntry, Physlist}
use mpsoc_axidma.Dma.{Control, SgDescriptor, DescMem, store}

-- The loop of `virt_to_phys`.
unfoldable pub search : Physlist → ℕ → ℕ
search [] offset = 0
search (e ∷ es) offset =
    let rest = search es (offset - e.len) in
    if leb e.len offset then rest else (e.addr + offset) % 2 ^ 64

-- `p - base` is taken to 32 bits; `p` is not below `base`.
unfoldable pub virt_to_phys : (p base : ℕ) → Physlist → ℕ
unfolding search
virt_to_phys p base plist = search plist ((p - base) % 2 ^ 32)

-- The stores of a round, over what the descriptor held: its status stays.
unfoldable pub fill :
    SgDescriptor → (next_phys : ℕ) → PhyslistEntry → (sof eof : Bool) → SgDescriptor
fill d next_phys e sof eof = record d {
  next_desc_lsb = next_phys % 2 ^ 32;
  next_desc_msb = next_phys / 2 ^ 32 % 2 ^ 32;
  buffer_lsb = e.addr % 2 ^ 32;
  buffer_msb = e.addr / 2 ^ 32 % 2 ^ 32;
  control = record { sof = if sof then 1 else 0; eof = if eof then 1 else 0; len = e.len % 2 ^ 26 };
}

-- The loop over the `num_entries` entries, from entry `i` on.
unfoldable pub fill_from :
    (sg_buf : ℕ) (sg_plist : Physlist) (num_entries i : ℕ) → Physlist → DescMem → DescMem
unfolding virt_to_phys fill
fill_from sg_buf sg_plist n i [] m = m
fill_from sg_buf sg_plist n i (e ∷ es) m =
    let curdesc = sg_buf + 128 * i in
    let next_phys = virt_to_phys (sg_buf + 128 * (i + 1)) sg_buf sg_plist in
    fill_from sg_buf sg_plist n (i + 1) es
      (store m curdesc (fill (m curdesc) next_phys e (i == 0) (i == n - 1)))

unfoldable pub write_physlist_sg : (sg_buf : ℕ) → (sg_plist plist : Physlist) → DescMem → DescMem
unfolding fill_from
write_physlist_sg sg_buf sg_plist plist m = fill_from sg_buf sg_plist (length plist) 0 plist m
