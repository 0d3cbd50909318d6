-- ===== src/Physlist/Align.antt =====
-- `find_contiguous_aligned_after`: the least place for a descriptor, and where it goes wrong.
use mpsoc_axidma.Base.{
  ℕ, zero, suc, ◌+◌, ◌-◌, ◌%◌, ◌≤◌, ◌<◌, ◌≡◌, refl, ◌≢◌, ◌⊎◌, some, [], ◌∷◌, arith, get_elem?, leb,
  All, Bool-cases, inl, inr, add32, sub32,
}
use mpsoc_axidma.Physlist.{PhyslistEntry, Physlist, not_found, adjustment, find_from}
use mpsoc_axidma.Physlist.Layout.{size, start}

-- `r` is the offset of `sz` physically contiguous bytes, the first on a 64-byte boundary.
pub record Slot (plist : Physlist) (sz r : ℕ) : Type 0 where
  pub index : ℕ
  pub into : ℕ
  pub entry : PhyslistEntry
  pub at : get_elem? plist index ≡ some entry
  pub room : into + sz ≤ entry.len
  pub aligned : (entry.addr + into) % 64 ≡ 0
  pub offset_eq : r ≡ start plist index + into

-- The entry starts on a 64-byte boundary, as a whole page does.
pub record StartsAligned (e : PhyslistEntry) : Type 0 where
  pub aligned : e.addr % 64 ≡ 0

adjustment_aligned : (a o : ℕ) → (a + o + adjustment a o) % 64 ≡ 0
unfolding adjustment
adjustment_aligned a o = ground arith

-- It is the least that reaches a boundary.
adjustment_least : (a o x : ℕ) → o ≤ x → (a + x) % 64 ≡ 0 → o + adjustment a o ≤ x
unfolding adjustment
adjustment_least a o x h k = ground arith

pub adjustment-lt : (a o : ℕ) → adjustment a o < 64
unfolding adjustment
adjustment-lt a o = ground arith

pub adjustment-zero : (a : ℕ) → a % 64 ≡ 0 → adjustment a 0 ≡ 0
unfolding adjustment
adjustment-zero a h = ground arith

-- What the loop returns is a slot or `AXIDMA_NOT_FOUND`, and no slot at or after the offset is less.
pub record Least (plist : Physlist) (sz offset r : ℕ) : Type 0 where
  pub slot : r ≢ not_found → Slot plist sz r
  pub after : offset ≤ r
  pub least : (s : ℕ) → Slot plist sz s → offset ≤ s → r ≤ s

-- `base` is the offset of the first entry, which the offsets of the loop count from.
pub record LeastFrom (plist : Physlist) (base sz o r : ℕ) : Type 0 where
  pub slot : r ≢ not_found → (s : ℕ) × (r ≡ base + s) × Slot plist sz s
  pub after : base + o ≤ r
  pub least : (s : ℕ) → Slot plist sz s → o ≤ s → r ≤ base + s

-- A slot lies inside the list.
pub Slot-le-size : (plist : Physlist) {sz s : ℕ} → Slot plist sz s → s + sz ≤ size plist
Slot-le-size plist {sz} {s} sl = go plist sl.index sl.into sl.at sl.room sl.offset_eq
  where
    go :
        (p : Physlist) (i o : ℕ) {e : PhyslistEntry} {s : ℕ}
        → get_elem? p i ≡ some e
        → o + sz ≤ e.len
        → s ≡ start p i + o
        → s + sz ≤ size p
    go [] i o h r q = ground arith
    go (e ∷ es) zero o h r q = ground arith
    go (e ∷ es) (suc i) o {s} h r q = omega (arith, go es i o {s = start es i + o} h r refl)

-- A slot of a longer list is in the first entry, or one of the rest.
pub Slot-cons :
    (e : PhyslistEntry) (es : Physlist) {sz s : ℕ}
    → Slot (e ∷ es) sz s
    → (s + sz ≤ e.len) × ((e.addr + s) % 64 ≡ 0) ⊎ ((t : ℕ) × (s ≡ e.len + t) × Slot es sz t)
Slot-cons e es {sz} {s} sl = go sl.index sl.at sl.offset_eq
  where
    go :
        (i : ℕ)
        → get_elem? (e ∷ es) i ≡ some sl.entry
        → s ≡ start (e ∷ es) i + sl.into
        → (s + sz ≤ e.len) × ((e.addr + s) % 64 ≡ 0) ⊎ ((t : ℕ) × (s ≡ e.len + t) × Slot es sz t)
    go zero h q = inl (ground (arith, sl.room), ground (arith, sl.aligned))
    go (suc i) h q = inr (
      start es i + sl.into,
      omega arith,
      record {
        index = i;
        into = sl.into;
        entry = sl.entry;
        at = h;
        room = sl.room;
        aligned = sl.aligned;
        offset_eq = refl;
      },
    )

-- From `o` on, the first entry has a 64-byte boundary before or at its end.
abbrev pub Roomy : Physlist → ℕ → Type 0
Roomy [] o = o ≡ 0
Roomy (e ∷ es) o = o + adjustment e.addr o ≤ e.len

Roomy-zero : (es : Physlist) → All StartsAligned es → Roomy es 0
Roomy-zero [] h = refl
Roomy-zero (e ∷ es) h = omega (arith, adjustment-zero e.addr h.0.aligned)

-- The tests and steps of a round, free of wrap-around.
round :
    (base o adj len total : ℕ)
    → o + adj ≤ len
    → base + len ≤ total
    → total < not_found
    → (add32 (base + o) adj ≡ base + (o + adj))
      × (sub32 len (add32 o adj) ≡ len - (o + adj))
      × (add32 (base + (o + adj)) (len - (o + adj)) ≡ base + len + 0)
round base o adj len total h k b = omega arith

abbrev pub rest_of : Physlist → Physlist
rest_of [] = []
rest_of (e ∷ es) = es

pub starts_tail : (es : Physlist) → All StartsAligned es → All StartsAligned (rest_of es)
starts_tail [] h = h
starts_tail (e ∷ es) h = h.1

pub find_from-LeastFrom :
    (es : Physlist) (base o sz : ℕ)
    → Roomy es o
    → All StartsAligned (rest_of es)
    → base + size es < not_found
    → LeastFrom es base sz o (find_from es (base + o) o sz)
unfolding find_from
find_from-LeastFrom [] base o sz roomy starts bound = record {
  slot = λ ne. absurd (ne refl);
  after = omega arith;
  least = λ s sl le. absurd (cc (sl.at));
}
find_from-LeastFrom (e ∷ es) base o sz roomy starts bound =
    let (s₁, s₂, s₃) =
      round base o (adjustment e.addr o) e.len (base + size (e ∷ es)) roomy (omega arith) bound in
    rw (s₁, s₂, s₃)
      (elim (Bool-cases (leb sz (e.len - (o + adjustment e.addr o)))) [
        | inl fits ↦ rw fits (record {
          slot = λ ne. (
            o + adjustment e.addr o,
            refl,
            record {
              index = 0;
              into = o + adjustment e.addr o;
              entry = e;
              at = refl;
              room = ground arith;
              aligned = omega (arith, adjustment_aligned e.addr o);
              offset_eq = omega arith;
            },
          );
          after = omega arith;
          least = λ s sl le. elim (Slot-cons e es sl) [
            | inl (room, al) ↦ omega (arith, adjustment_least e.addr o s le al)
            | inr (t, q, _) ↦ omega arith
          ];
        })
        | inr full ↦
            let ih =
              find_from-LeastFrom es (base + e.len) 0 sz (Roomy-zero es starts)
                (starts_tail es starts) (omega arith) in
            rw full (record {
              slot = λ ne.
                  let (t, q, sl) = ih.slot ne in
                  (
                    e.len + t,
                    omega arith,
                    record {
                      index = suc sl.index;
                      into = sl.into;
                      entry = sl.entry;
                      at = sl.at;
                      room = sl.room;
                      aligned = sl.aligned;
                      offset_eq = omega (arith, sl.offset_eq);
                    },
                  );
              after = omega (arith, ih.after);
              least = λ s sl le. elim (Slot-cons e es sl) [
                | inl (room, al) ↦ absurd (ground (arith, adjustment_least e.addr o s le al))
                | inr (t, q, sl') ↦ omega (arith, ih.least t sl' (omega arith))
              ];
            })
      ])
