-- ===== src/Physlist/Overrun.antt =====
-- `space_left` in `find_contiguous_aligned_after` is unsigned, and wraps where rounding up passes
-- the end of the entry.
use mpsoc_axidma.Base.{
  ℕ, zero, suc, ◌+◌, ◌-◌, ◌^◌, ◌≤◌, ◌<◌, ◌≡◌, refl, some, [], ◌∷◌, arith, get_elem?, drop,
}
use mpsoc_axidma.Physlist.{
  PhyslistEntry, Physlist, get_entry_index, virt_to_phys, adjustment, find_from,
  find_contiguous_aligned_after,
}
use mpsoc_axidma.Physlist.Layout.{size, start}
use mpsoc_axidma.Physlist.Lookup.{get_entry_index-Located}
use mpsoc_axidma.Physlist.Align.{adjustment-lt}

find_from_wraps :
    (p : Physlist) (i offset o sz : ℕ) {e : PhyslistEntry}
    → get_elem? p i ≡ some e
    → o < e.len
    → e.len < o + adjustment e.addr o
    → e.len + sz + 64 ≤ 2 ^ 32
    → offset + 64 < 2 ^ 32
    → find_from (drop i p) offset o sz ≡ offset + adjustment e.addr o
unfolding find_from
find_from_wraps [] i offset o sz h hin past small low = absurd (ground arith)
find_from_wraps (e ∷ es) zero offset o sz h hin past small low =
    ground (arith, adjustment-lt e.addr o)
find_from_wraps (e ∷ es) (suc i) offset o sz h hin past small low =
    find_from_wraps es i offset o sz h hin past small low

last-size :
    (p : Physlist) (i : ℕ) {e : PhyslistEntry}
    → get_elem? p i ≡ some e
    → drop (i + 1) p ≡ []
    → start p i + e.len ≡ size p
last-size [] i h q = absurd (ground arith)
last-size (e ∷ []) zero h q = ground arith
last-size (e ∷ f ∷ es) zero h q = absurd (ground arith)
last-size (e ∷ es) (suc i) h q = ground (arith, last-size es i h)

virt_to_phys_past : (p : Physlist) (k : ℕ) → size p ≤ k → virt_to_phys p k ≡ 0
unfolding virt_to_phys
virt_to_phys_past [] k h = refl
virt_to_phys_past (e ∷ es) k h = ground (arith, virt_to_phys_past es (k - e.len))

-- Where the offset lies in the last entry and rounding it up passes the entry's end,
-- `find_contiguous_aligned_after` returns the rounded offset, which is past the end of the buffer,
-- instead of `AXIDMA_NOT_FOUND`; and `virt_to_phys` of it is `NULL`.
pub find_contiguous_aligned_after_overruns :
    (plist : Physlist) (offset sz i o : ℕ) {e : PhyslistEntry}
    → get_entry_index plist offset ≡ some (i, o)
    → get_elem? plist i ≡ some e
    → drop (i + 1) plist ≡ []
    → e.len < o + adjustment e.addr o
    → e.len + sz + 64 ≤ 2 ^ 32
    → offset + 64 < 2 ^ 32
    → let r = find_contiguous_aligned_after plist offset sz in
      (r ≡ offset + adjustment e.addr o) × (size plist < r) × (virt_to_phys plist r ≡ 0)
unfolding find_contiguous_aligned_after
find_contiguous_aligned_after_overruns plist offset sz i o {e} found at end past small low =
    let l = get_entry_index-Located plist offset i o found in
    let hin : o < e.len = ground (arith, l.at, l.inside) in
    let above : size plist < offset + adjustment e.addr o =
      omega (arith, last-size plist i at end, l.offset_eq) in
    rw
      (
        found,
        find_contiguous_aligned_after,
        find_from_wraps plist i offset o sz at hin past small low,
      )
      (refl, above, virt_to_phys_past plist (offset + adjustment e.addr o) (omega arith))
