-- ===== src/Physlist/Find.antt =====
-- `find_contiguous_aligned_after` over a whole physlist, from the entry that holds the offset on.
use mpsoc_axidma.Base.{
  ℕ, zero, suc, ◌+◌, ◌≤◌, ◌<◌, ◌≡◌, refl, some, [], ◌∷◌, arith, get_elem?, All, Option-cases, inl,
  inr, drop,
}
use mpsoc_axidma.Physlist.{
  PhyslistEntry, Physlist, get_entry_index, not_found, adjustment, find_contiguous_aligned_after,
}
use mpsoc_axidma.Physlist.Layout.{size, start}
use mpsoc_axidma.Physlist.Lookup.{Located, get_entry_index-Located, get_entry_index-none}
use mpsoc_axidma.Physlist.Align.{
  Slot, StartsAligned, Least, Roomy, rest_of, find_from-LeastFrom, Slot-le-size, Slot-cons,
}

-- Rounding up to a boundary stays in the entry that holds the offset.
abbrev pub RoomAt : Physlist → ℕ → Type 0
RoomAt plist offset =
    (i o : ℕ) (l : Located plist offset i o) → o + adjustment l.entry.addr o ≤ l.entry.len

start-add-size : (p : Physlist) (i : ℕ) → start p i + size (drop i p) ≡ size p
start-add-size [] zero = omega arith
start-add-size [] (suc i) = omega arith
start-add-size (e ∷ es) zero = omega arith
start-add-size (e ∷ es) (suc i) = omega (arith, start-add-size es i)

starts_drop :
    (p : Physlist) (i : ℕ) → All StartsAligned (rest_of p) → All StartsAligned (rest_of (drop i p))
starts_drop [] zero h = h
starts_drop [] (suc i) h = h
starts_drop (e ∷ es) zero h = h
starts_drop (e ∷ []) (suc i) h = starts_drop [] i h
starts_drop (e ∷ f ∷ es) (suc i) h = starts_drop (f ∷ es) i h.1

Roomy-of_elem :
    (p : Physlist) (i o : ℕ) {e : PhyslistEntry}
    → get_elem? p i ≡ some e
    → o + adjustment e.addr o ≤ e.len
    → Roomy (drop i p) o
Roomy-of_elem [] i o h k = absurd (cc h)
Roomy-of_elem (e ∷ es) zero o h k = ground arith
Roomy-of_elem (e ∷ es) (suc i) o h k = Roomy-of_elem es i o h k

module _ {sz : ℕ} where
  -- Slots of the rest are slots of the whole.
  Slot-of_drop : (p : Physlist) (i s : ℕ) → Slot (drop i p) sz s → Slot p sz (start p i + s)
  Slot-of_drop [] zero s sl = absurd (cc (sl.at))
  Slot-of_drop [] (suc i) s sl = absurd (cc (sl.at))
  Slot-of_drop (e ∷ es) zero s sl = record {
    index = sl.index;
    into = sl.into;
    entry = sl.entry;
    at = sl.at;
    room = sl.room;
    aligned = sl.aligned;
    offset_eq = omega (arith, sl.offset_eq);
  }
  Slot-of_drop (e ∷ es) (suc i) s sl =
      let t = Slot-of_drop es i s sl in
      record {
        index = suc t.index;
        into = t.into;
        entry = t.entry;
        at = t.at;
        room = t.room;
        aligned = t.aligned;
        offset_eq = omega (arith, t.offset_eq);
      }

  -- A slot at or after the start of entry `i` is one of the rest.
  Slot-drop :
      (p : Physlist) (i s : ℕ)
      → 0 < sz
      → Slot p sz s
      → start p i ≤ s
      → (t : ℕ) × (s ≡ start p i + t) × Slot (drop i p) sz t
  Slot-drop [] i s pos sl le = absurd (cc (sl.at))
  Slot-drop (e ∷ es) zero s pos sl le = (s, omega arith, sl)
  Slot-drop (e ∷ es) (suc i) s pos sl le = elim (Slot-cons e es sl) [
    | inl (room, al) ↦ absurd (omega arith)
    | inr (t, q, sl') ↦
        let (u, q', sl'') = Slot-drop es i t pos sl' (omega arith) in (u, omega arith, sl'')
  ]

-- `find_contiguous_aligned_after` returns the least offset at or after the one given at which `sz`
-- physically contiguous bytes start on a 64-byte boundary, and `AXIDMA_NOT_FOUND` if there is none;
-- where every entry but the first starts on such a boundary, rounding the offset up stays in its
-- entry, and the buffer is less than 4 GiB - 1 long.
pub find_contiguous_aligned_after-Least :
    (plist : Physlist) (offset sz : ℕ)
    → 0 < sz
    → offset ≤ not_found
    → size plist < not_found
    → All StartsAligned (rest_of plist)
    → RoomAt plist offset
    → Least plist sz offset (find_contiguous_aligned_after plist offset sz)
unfolding find_contiguous_aligned_after
find_contiguous_aligned_after-Least plist offset sz pos small bound starts room =
    elim (Option-cases (get_entry_index plist offset)) [
      | inl out ↦
          rw (out, find_contiguous_aligned_after)
            (record {
              slot = λ ne. absurd (ne refl);
              after = small;
              least = λ s sl le.
                  absurd (
                    omega
                      (arith, Slot-le-size plist sl, (get_entry_index-none plist offset).0 out));
            })
      | inr ((i, o), e) ↦
          let l = get_entry_index-Located plist offset i o e in
          let ih =
            find_from-LeastFrom (drop i plist) (start plist i) o sz
              (Roomy-of_elem plist i o l.at (room i o l)) (starts_drop plist i starts)
              (omega (arith, start-add-size plist i)) in
          rw (e, find_contiguous_aligned_after, l.offset_eq)
            (record {
              slot = λ ne. let (s, q, sl) = ih.slot ne in rw q (Slot-of_drop plist i s sl);
              after = ih.after;
              least = λ s sl le.
                  let (t, q, sl') = Slot-drop plist i s pos sl (omega arith) in
                  omega (arith, ih.least t sl' (omega arith));
            })
    ]
