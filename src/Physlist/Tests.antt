-- ===== src/Physlist/Tests.antt =====
-- The lookups on small physlists.
use mpsoc_axidma.Base.{ℕ, zero, suc, ◌+◌, ◌≡◌, refl, ◌<◌, none, some, [], ◌∷◌, arith, get_elem?}
use mpsoc_axidma.Physlist.{
  PhyslistEntry, Physlist, get_entry_index, virt_to_phys, not_found, adjustment,
  find_contiguous_aligned_after,
}
use mpsoc_axidma.Physlist.Layout.{bytes}
use mpsoc_axidma.Physlist.Lookup.{Located, get_entry_index-Located, virt_to_phys-bytes}
use mpsoc_axidma.Physlist.Align.{Least}
use mpsoc_axidma.Physlist.Find.{RoomAt, find_contiguous_aligned_after-Least}
use mpsoc_axidma.Physlist.Overrun.{find_contiguous_aligned_after_overruns}

abbrev piece : ℕ → ℕ → PhyslistEntry
piece a n = record { addr = a; len = n }

-- A buffer that starts 16 bytes into a page.
abbrev two_pages : Physlist
two_pages = piece 0x1010 4080 ∷ piece 0x5000 920 ∷ []

-- Its last piece ends 60 bytes past a boundary.
abbrev ragged : Physlist
ragged = piece 0x1000 4096 ∷ piece 0x5000 124 ∷ []

first_slot : find_contiguous_aligned_after two_pages 0 56 ≡ 48
unfolding find_contiguous_aligned_after get_entry_index adjustment
first_slot = refl

next_page : find_contiguous_aligned_after two_pages 4050 56 ≡ 4080
unfolding find_contiguous_aligned_after get_entry_index adjustment
next_page = refl

no_slot : find_contiguous_aligned_after two_pages 4960 56 ≡ not_found
unfolding find_contiguous_aligned_after get_entry_index adjustment
no_slot = refl

get_entry_index-Located_example : Located two_pages 4090 1 10
unfolding get_entry_index
get_entry_index-Located_example = get_entry_index-Located two_pages 4090 1 10 refl

virt_to_phys-bytes_example :
    virt_to_phys two_pages 4090 ≡ elim (get_elem? (bytes two_pages) 4090) [ none ↦ 0 | some a ↦ a ]
virt_to_phys-bytes_example = virt_to_phys-bytes two_pages 4090 (omega arith)

two_pages_room : RoomAt two_pages 4090
unfolding adjustment
two_pages_room zero o l = ground (arith, l.at, l.inside, l.offset_eq)
two_pages_room (suc zero) o l = ground (arith, l.at, l.inside, l.offset_eq)
two_pages_room (suc (suc i)) o l = absurd (cc (l.at))

find_contiguous_aligned_after-Least_example :
    Least two_pages 56 4090 (find_contiguous_aligned_after two_pages 4090 56)
find_contiguous_aligned_after-Least_example =
    find_contiguous_aligned_after-Least two_pages 4090 56 (omega arith) (omega arith) (omega arith)
      (omega arith) two_pages_room

find_contiguous_aligned_after_overruns_example :
    let r = find_contiguous_aligned_after ragged 4216 56 in
    (r ≡ 4216 + adjustment 0x5000 120) × (4220 < r) × (virt_to_phys ragged r ≡ 0)
unfolding get_entry_index adjustment
find_contiguous_aligned_after_overruns_example =
    find_contiguous_aligned_after_overruns ragged 4216 56 1 120 refl refl refl (omega arith)
      (omega arith) (omega arith)
