-- ===== src/Physlist/Lookup.antt =====
-- `get_entry_index` and `virt_to_phys` against the layout of the buffer.
use mpsoc_axidma.Base.{
  ℕ, suc, ◌+◌, ◌-◌, ◌≤◌, ◌<◌, ◌≡◌, refl, none, some, [], ◌∷◌, arith, get_elem?, leb, All,
  Bool-cases, inl, inr,
}
use mpsoc_axidma.Physlist.{
  PhyslistEntry, Physlist, get_entry_index_from, get_entry_index, virt_to_phys,
}
use mpsoc_axidma.Physlist.Layout.{size, start, bytes, Fits, get_elem?-run}

-- Entry `i` of the list, and `o` bytes into it.
pub record Located (plist : Physlist) (offset i o : ℕ) : Type 0 where
  pub entry : PhyslistEntry
  pub at : get_elem? plist i ≡ some entry
  pub inside : o < entry.len
  pub offset_eq : offset ≡ start plist i + o

get_entry_index_from-Located :
    (plist : Physlist) (base offset i o : ℕ)
    → get_entry_index_from base plist offset ≡ some (i, o)
    → (j : ℕ) × (i ≡ base + j) × Located plist offset j o
unfolding get_entry_index_from
get_entry_index_from-Located [] base offset i o h = ground arith
get_entry_index_from-Located (e ∷ es) base offset i o h = elim (Bool-cases (leb e.len offset)) [
  | inl skip ↦
      let (j, ij, l) =
        get_entry_index_from-Located es (base + 1) (offset - e.len) i o (rw skip at h) in
      (
        suc j,
        omega arith,
        record {
          entry = l.entry;
          at = l.at;
          inside = l.inside;
          offset_eq = ground (arith, l.offset_eq);
        },
      )
  | inr here ↦ (
    0,
    ground arith,
    record { entry = e; at = refl; inside = ground arith; offset_eq = ground arith },
  )
]

-- `get_entry_index` finds the entry that holds the byte, and how far into it the byte lies.
pub get_entry_index-Located :
    (plist : Physlist) (offset i o : ℕ)
    → get_entry_index plist offset ≡ some (i, o)
    → Located plist offset i o
unfolding get_entry_index
get_entry_index-Located plist offset i o h =
    let (j, e, l) = get_entry_index_from-Located plist 0 offset i o h in
    let same : i ≡ j = omega arith in rw same l

get_entry_index_from-none :
    (plist : Physlist) (base offset : ℕ)
    → (get_entry_index_from base plist offset ≡ none → size plist ≤ offset)
      × (size plist ≤ offset → get_entry_index_from base plist offset ≡ none)
unfolding get_entry_index_from
get_entry_index_from-none [] base offset = ground arith
get_entry_index_from-none (e ∷ es) base offset =
    ground (arith, get_entry_index_from-none es (base + 1) (offset - e.len))

-- `get_entry_index` returns -1 exactly when the offset is not below the size of the buffer.
pub get_entry_index-none :
    (plist : Physlist) (offset : ℕ)
    → (get_entry_index plist offset ≡ none → size plist ≤ offset)
      × (size plist ≤ offset → get_entry_index plist offset ≡ none)
unfolding get_entry_index
get_entry_index-none plist offset = get_entry_index_from-none plist 0 offset

-- `virt_to_phys` is the address of the byte at the offset, or 0 past the last byte.
pub virt_to_phys-bytes :
    (plist : Physlist) (offset : ℕ)
    → All Fits plist
    → virt_to_phys plist offset ≡ elim (get_elem? (bytes plist) offset) [ none ↦ 0 | some a ↦ a ]
unfolding virt_to_phys
virt_to_phys-bytes [] offset fits = refl
virt_to_phys-bytes (e ∷ es) offset fits =
    rw (get_elem?-run e.addr e.len (bytes es) offset)
      (ground (arith, virt_to_phys-bytes es (offset - e.len) fits.1, fits.0.within))
