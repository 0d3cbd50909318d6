-- ===== src/Physlist.antt =====
-- The lookups of src/axidma.c in a `struct pinner_physlist` (include/pinner.h): the physical pieces
-- of a buffer that is contiguous in virtual memory.
pub mod Layout
pub mod Lookup
pub mod Align
pub mod Bytes
pub mod Find
pub mod Room
pub mod Overrun
pub mod Steady
mod Tests
use mpsoc_axidma.Base.{
  ℕ, ◌+◌, ◌-◌, ◌%◌, ◌^◌, Option, none, some, List, [], ◌∷◌, leb, ◌==◌, if◌then◌else◌, add32, sub32,
  drop,
}

-- `struct pinner_physlist_entry`
pub record PhyslistEntry : Type 0 where
  pub addr : ℕ
  pub len : ℕ

-- `struct pinner_physlist`: the first `num_entries` elements of its array, in order, so
-- `num_entries` is the length.
abbrev pub Physlist : Type 0
Physlist = List PhyslistEntry

-- The loop of `get_entry_index` from index `i` on. `none` is the result -1; a hit is the index and
-- what goes through `offset_in_entry`.
unfoldable pub get_entry_index_from : ℕ → Physlist → ℕ → Option (ℕ × ℕ)
get_entry_index_from i [] offset = none
get_entry_index_from i (e ∷ es) offset =
    let rest = get_entry_index_from (i + 1) es (offset - e.len) in
    if leb e.len offset then rest else some (i, offset)

unfoldable pub get_entry_index : Physlist → ℕ → Option (ℕ × ℕ)
unfolding get_entry_index_from
get_entry_index plist offset = get_entry_index_from 0 plist offset

-- `NULL`, 0, where the offset lies in no entry.
unfoldable pub virt_to_phys : Physlist → ℕ → ℕ
virt_to_phys [] offset = 0
virt_to_phys (e ∷ es) offset =
    let rest = virt_to_phys es (offset - e.len) in
    if leb e.len offset then rest else (e.addr + offset) % 2 ^ 64

-- `AXIDMA_NOT_FOUND`
abbrev pub not_found : ℕ
not_found = 0xFFFFFFFF

-- What brings the byte `addr + offset_in_entry` to the next 64-byte boundary: 0 or `0x40 - alignment`.
unfoldable pub adjustment : ℕ → ℕ → ℕ
adjustment addr offset_in_entry =
    let alignment = (addr + offset_in_entry) % 2 ^ 64 % 64 in
    if alignment == 0 then 0 else 64 - alignment

-- The `while` loop of `find_contiguous_aligned_after` over the entries from index `ind` on.
unfoldable pub find_from : Physlist → ℕ → ℕ → ℕ → ℕ
unfolding adjustment
find_from [] offset offset_in_entry sz = not_found
find_from (e ∷ es) offset offset_in_entry sz =
    let adj = adjustment e.addr offset_in_entry in
    let offset' = add32 offset adj in
    let space_left = sub32 e.len (add32 offset_in_entry adj) in
    let rest = find_from es (add32 offset' space_left) 0 sz in
    if leb sz space_left then offset' else rest

unfoldable pub find_contiguous_aligned_after : Physlist → ℕ → ℕ → ℕ
unfolding find_from
find_contiguous_aligned_after plist offset sz = elim (get_entry_index plist offset) [
  | none ↦ not_found
  | some (ind, offset_in_entry) ↦ find_from (drop ind plist) offset offset_in_entry sz
]
