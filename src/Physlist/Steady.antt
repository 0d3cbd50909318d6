-- ===== src/Physlist/Steady.antt =====
-- Buffers whose places for descriptors are all 64 bytes apart, as those of pinned pages are.
use mpsoc_axidma.Base.{
  ℕ, ◌+◌, ◌-◌, ◌%◌, ◌≤◌, ◌<◌, ◌≡◌, refl, inl, inr, [], ◌∷◌, arith, leb, Bool-cases,
}
use mpsoc_axidma.Physlist.{PhyslistEntry, Physlist}
use mpsoc_axidma.Physlist.Layout.{size}
use mpsoc_axidma.Physlist.Align.{Slot, Slot-cons}
use mpsoc_axidma.Physlist.Room.{desc_size}

-- The first boundary stands `c` bytes into the list, and each entry but the last ends on one.
abbrev pub Steady : ℕ → Physlist → Type 0
Steady c [] = Unit {0}
Steady c (e ∷ []) = (e.addr + c) % 64 ≡ 0
Steady c (e ∷ f ∷ es) = ((e.addr + c) % 64 ≡ 0) × (e.len % 64 ≡ c % 64) × Steady 0 (f ∷ es)

-- Every place stands at the same distance behind a multiple of 64.
pub Steady-Slot : (c : ℕ) (p : Physlist) (s : ℕ) → Steady c p → Slot p desc_size s → s % 64 ≡ c % 64
Steady-Slot c [] s w sl = absurd (cc (sl.at))
Steady-Slot c (e ∷ []) s w sl = elim (Slot-cons e [] sl) [
  | inl (room, al) ↦ omega (arith, w, al)
  | inr (t, q, sl') ↦ absurd (cc (sl'.at))
]
Steady-Slot c (e ∷ f ∷ es) s w sl = elim (Slot-cons e (f ∷ es) sl) [
  | inl (room, al) ↦ omega (arith, w.0, al)
  | inr (t, q, sl') ↦ omega (arith, w.1, q, Steady-Slot 0 (f ∷ es) t w.2 sl')
]

first_Slot :
    (e : PhyslistEntry) (es : Physlist) (s : ℕ)
    → s + desc_size ≤ e.len
    → (e.addr + s) % 64 ≡ 0
    → Slot (e ∷ es) desc_size s
first_Slot e es s room al = record {
  index = 0;
  into = s;
  entry = e;
  at = refl;
  room = room;
  aligned = al;
  offset_eq = omega arith;
}

later_Slot :
    (e : PhyslistEntry) (es : Physlist) (s t : ℕ)
    → s ≡ e.len + t
    → Slot es desc_size t
    → Slot (e ∷ es) desc_size s
later_Slot e es s t q sl = record {
  index = sl.index + 1;
  into = sl.into;
  entry = sl.entry;
  at = ground (arith, sl.at);
  room = sl.room;
  aligned = sl.aligned;
  offset_eq = ground (arith, sl.offset_eq);
}

-- And at each such distance there is one, as long as 64 bytes are left.
pub Slot-Steady :
    (c : ℕ) (p : Physlist) (s : ℕ)
    → Steady c p
    → s % 64 ≡ c % 64
    → s + 64 ≤ size p
    → Slot p desc_size s
Slot-Steady c [] s w h room = absurd (omega arith)
Slot-Steady c (e ∷ []) s w h room = first_Slot e [] s (omega arith) (omega (arith, w))
Slot-Steady c (e ∷ f ∷ es) s w h room = elim (Bool-cases (leb (s + desc_size) e.len)) [
  | inl fits ↦ first_Slot e (f ∷ es) s (ground arith) (omega (arith, w.0))
  | inr crosses ↦
      let past : e.len < s + desc_size = ground arith in
      later_Slot e (f ∷ es) s (s - e.len) (omega (arith, w.1))
        (Slot-Steady 0 (f ∷ es) (s - e.len) w.2 (omega (arith, w.1)) (omega (arith, w.1)))
]
