-- ===== src/Physlist/Room.antt =====
-- Where rounding up stays in the entry: at the start of a buffer, and behind each descriptor.
use mpsoc_axidma.Base.{
  ℕ, zero, suc, ◌+◌, ◌%◌, ◌≤◌, ◌<◌, ◌≡◌, some, [], ◌∷◌, arith, get_elem?, All, inl, inr, ap, subst,
}
use mathlib.Core.Option.{some-injective}
use mpsoc_axidma.Physlist.{
  PhyslistEntry, Physlist, not_found, adjustment, find_contiguous_aligned_after,
}
use mpsoc_axidma.Physlist.Layout.{size}
use mpsoc_axidma.Physlist.Align.{
  Slot, StartsAligned, Least, Roomy, rest_of, starts_tail, adjustment-zero, Slot-le-size, Slot-cons,
}
use mpsoc_axidma.Physlist.Find.{RoomAt, find_contiguous_aligned_after-Least}

-- `sizeof(sg_descriptor)`, the size that is searched for.
abbrev pub desc_size : ℕ
desc_size = 56

-- The entry does not end in the last bytes before a boundary, too few for a descriptor.
pub record EndsClear (e : PhyslistEntry) : Type 0 where
  pub clear : (e.addr + e.len) % 64 ≤ desc_size

-- A buffer for descriptors: less than 4 GiB - 1 long, its entries start on boundaries but for the
-- first, which reaches one, and end clear of the next.
pub record HoldsDescriptors (p : Physlist) : Type 0 where
  pub small : size p < not_found
  pub starts : All StartsAligned (rest_of p)
  pub first : Roomy p 0
  pub ends : All EndsClear p

All-elem :
    (P : PhyslistEntry → Type 0) (es : Physlist) (i : ℕ) {e : PhyslistEntry}
    → All P es
    → get_elem? es i ≡ some e
    → P e
All-elem P [] i h q = absurd (cc q)
All-elem P (e ∷ es) zero h q = subst P (some-injective e _ q) h.0
All-elem P (e ∷ es) (suc i) h q = All-elem P es i h.1 q

-- Behind a descriptor a boundary follows in the same entry, unless the entry ends there.
past_slot :
    (a len s o : ℕ)
    → s + desc_size ≡ o
    → o < len
    → (a + s) % 64 ≡ 0
    → (a + len) % 64 ≤ desc_size
    → o + adjustment a o ≤ len
unfolding adjustment
past_slot a len s o q h al cl = ground arith

at_start : (e : PhyslistEntry) → StartsAligned e → 0 + adjustment e.addr 0 ≤ e.len
at_start e s = omega (arith, adjustment-zero e.addr s.aligned)

pub RoomAt-Slot :
    (p : Physlist) (s : ℕ)
    → All EndsClear p
    → All StartsAligned (rest_of p)
    → Slot p desc_size s
    → RoomAt p (s + desc_size)
RoomAt-Slot [] s ends starts sl i o l = absurd (cc (l.at))
RoomAt-Slot (e ∷ es) s ends starts sl zero o l = elim (Slot-cons e es sl) [
  | inl (room, al) ↦
      let same = some-injective e l.entry l.at in
      subst (λ x. o + adjustment x.addr o ≤ x.len) same
        (past_slot e.addr e.len s o (omega (arith, l.offset_eq))
          (omega (arith, l.inside, ap (λ x. x.len) same)) al ends.0.clear)
  | inr (t, q, _) ↦
      absurd (omega (arith, l.offset_eq, l.inside, ap (λ x. x.len) (some-injective e l.entry l.at)))
]
RoomAt-Slot (e ∷ es) s ends starts sl (suc i) o l = elim (Slot-cons e es sl) [
  | inl (room, al) ↦
      let z : o ≡ 0 = omega (arith, l.offset_eq) in
      rw z (at_start l.entry (All-elem StartsAligned es i starts l.at))
  | inr (t, q, sl') ↦ RoomAt-Slot es t ends.1 (starts_tail es starts) sl' i o (record {
    entry = l.entry;
    at = l.at;
    inside = l.inside;
    offset_eq = omega (arith, l.offset_eq);
  })
]

RoomAt-zero : (p : Physlist) → Roomy p 0 → All StartsAligned (rest_of p) → RoomAt p 0
RoomAt-zero [] first starts i o l = absurd (cc (l.at))
RoomAt-zero (e ∷ es) first starts zero o l =
    let z : o ≡ 0 = omega (arith, l.offset_eq) in
    rw z (subst (λ x. 0 + adjustment x.addr 0 ≤ x.len) (some-injective e l.entry l.at) first)
RoomAt-zero (e ∷ es) first starts (suc i) o l =
    let z : o ≡ 0 = omega (arith, l.offset_eq) in
    rw z (at_start l.entry (All-elem StartsAligned es i starts l.at))

-- An offset from which the search is exact.
pub record Ready (p : Physlist) (offset : ℕ) : Type 0 where
  pub within : offset ≤ size p
  pub room : RoomAt p offset

pub Ready-zero : (p : Physlist) → HoldsDescriptors p → Ready p 0
Ready-zero p g = record { within = omega arith; room = RoomAt-zero p g.first g.starts }

pub Ready-Slot :
    (p : Physlist) (s : ℕ) → HoldsDescriptors p → Slot p desc_size s → Ready p (s + desc_size)
Ready-Slot p s g sl = record {
  within = Slot-le-size p sl;
  room = RoomAt-Slot p s g.ends g.starts sl;
}

-- The search from such an offset.
pub Ready-Least :
    (p : Physlist) (offset : ℕ)
    → HoldsDescriptors p
    → Ready p offset
    → Least p desc_size offset (find_contiguous_aligned_after p offset desc_size)
Ready-Least p offset g r =
    find_contiguous_aligned_after-Least p offset desc_size (omega arith)
      (omega (arith, r.within, g.small)) g.small g.starts r.room
