-- ===== src/Dma/Engine.antt =====
-- What the engine is relied on for: it follows the descriptors from the one whose physical address is
-- in the first register to the one whose physical address is in the last.
use mpsoc_axidma.Base.{
  ℕ, ◌+◌, ◌-◌, ◌/◌, ◌%◌, ◌^◌, ◌<◌, ◌≡◌, refl, ◌≢◌, ◌∙◌, ap, sym, subst, Bool, true, false, List, [],
  ◌∷◌, ◌==◌, map, All, arith, Bool-cases, inl, inr,
}
use mpsoc_axidma.Physlist.{Physlist, virt_to_phys}
use mpsoc_axidma.Physlist.Layout.{size}
use mpsoc_axidma.Physlist.Align.{Slot-le-size}
use mpsoc_axidma.Physlist.Room.{desc_size}
use mpsoc_axidma.Heap.{Ptr, Heap}
use mpsoc_axidma.Heap.Ring.{has, ◌∈◌, IsDistinct, last_of, last_of-mem, All-mem}
use mpsoc_axidma.SgList.{SgList}
use mpsoc_axidma.SgList.Slots.{Spaced, offset_of}
use mpsoc_axidma.SgList.Invariant.{WellFormed}
use mpsoc_axidma.Dma.{
  SgDescriptor, DescMem, Reg, Transfer, started, is_bad, s2mm_curdesc_lsb, s2mm_curdesc_msb,
  s2mm_dmacr, s2mm_taildesc_lsb, s2mm_taildesc_msb,
}
use mpsoc_axidma.Dma.Write.{desc_at}
use mpsoc_axidma.Dma.Start.{phys_of}
use mpsoc_axidma.Dma.Chain.{next_desc, Seated, Chained, InMemory, Spaced-IsDistinct}

-- What the engine makes of a descriptor that it completes without an error, where the data filled the
-- buffer to its end and the end of a packet came at the end of the frame.
pub record Completes (d d' : SgDescriptor) : Type 0 where
  pub len_eq : d'.status.len ≡ d.control.len
  pub eof_eq : d'.status.eof ≡ d.control.eof
  pub bad_eq : is_bad d'.status ≡ false

-- The writes that start it with the descriptors from `first` to `last`.
abbrev pub start_writes : (first word last : ℕ) → List (Reg × ℕ)
start_writes first word last =
    (s2mm_curdesc_lsb, first % 2 ^ 32)
    ∷ (s2mm_curdesc_msb, first / 2 ^ 32 % 2 ^ 32)
    ∷ (s2mm_dmacr, word)
    ∷ (s2mm_taildesc_lsb, last % 2 ^ 32)
    ∷ (s2mm_taildesc_msb, last / 2 ^ 32 % 2 ^ 32)
    ∷ []

virt_to_phys-lt : (p : Physlist) (o : ℕ) → virt_to_phys p o < 2 ^ 64
unfolding virt_to_phys
virt_to_phys-lt [] o = omega arith
virt_to_phys-lt (e ∷ es) o = ground (arith, virt_to_phys-lt es (o - e.len))

All-map : (P : ℕ → Type 0) (f : Ptr → ℕ) (xs : List Ptr) → All (λ z. P (f z)) xs → All P (map f xs)
All-map P f [] a = tt
All-map P f (x ∷ xs) a = (a.0, All-map P f xs a.1)

map-All : (P : ℕ → Type 0) (f : Ptr → ℕ) (xs : List Ptr) → All P (map f xs) → All (λ z. P (f z)) xs
map-All P f [] a = tt
map-All P f (x ∷ xs) a = (a.0, map-All P f xs a.1)

All-Seated :
    (h : Heap) (lst : SgList) (xs : List Ptr)
    → All (Seated h lst) xs
    → All (λ z. phys_of h lst z % 64 ≡ 0) xs
All-Seated h lst [] a = tt
All-Seated h lst (x ∷ xs) a = (a.0.aligned, All-Seated h lst xs a.1)

module _ (to_virt : ℕ → ℕ) where
  -- From the descriptor at the physical address `p` the next ones are at `qs`, and the last of them,
  -- and no other, is at `last`.
  abbrev pub Leads : DescMem → (p last : ℕ) → (qs : List ℕ) → Type 0
  Leads m p last [] = p ≡ last
  Leads m p last (q ∷ qs) = (p ≢ last) × (next_desc (m (to_virt p)) ≡ q) × Leads m q last qs

  -- An engine with the descriptors of the program at the virtual addresses `to_virt`. Where it is
  -- started, its run bit set, on descriptors that lead from `first` to `last`, all on 64-byte
  -- boundaries and in the physical address space, it completes each of them.
  pub record Serves (engine : Transfer → DescMem → DescMem) : Type 0 where
    pub completes :
        (m : DescMem) (first word last : ℕ) (wait_irq : Bool) (qs : List ℕ)
        → word % 2 ≡ 1
        → All (λ p. p % 64 ≡ 0) (first ∷ qs)
        → All (λ p. p < 2 ^ 64) (first ∷ qs)
        → Leads m first last qs
        → All
            (λ p.
              Completes
                (m (to_virt p))
                (engine (started (start_writes first word last) wait_irq) m (to_virt p)))
            (first ∷ qs)

  -- The byte at each offset of the buffer at `buf` is at the physical address that the physlist gives.
  pub record Maps (buf : ℕ) (plist : Physlist) : Type 0 where
    pub at : (o : ℕ) → o < size plist → to_virt (virt_to_phys plist o) ≡ buf + o

  module _ (h : Heap) (lst : SgList) where
    -- A node's descriptor is where its physical address leads.
    abbrev pub AllMapped : List Ptr → Type 0
    AllMapped xs = (z : Ptr) → z ∈ xs → to_virt (phys_of h lst z) ≡ desc_at h lst z

    Spaced-AllMapped :
        (xs : List Ptr) (lo hi : ℕ)
        → Maps lst.sg_buf lst.sg_plist
        → Spaced lst.sg_plist lo (map offset_of (map h.fields xs)) hi
        → AllMapped xs
    Spaced-AllMapped [] lo hi maps w z i = absurd (cc i)
    Spaced-AllMapped (x ∷ xs) lo hi maps w z i = elim (Bool-cases (z == x)) [
      | inl e ↦
          let same : x ≡ z = ground arith in
          subst (λ a. to_virt (phys_of h lst a) ≡ desc_at h lst a) same
            (maps.at (h.fields x).sg_offset (omega (arith, Slot-le-size lst.sg_plist w.1)))
      | inr n ↦
          Spaced-AllMapped xs ((h.fields x).sg_offset + desc_size) hi maps w.2 z (ground arith)
    ]

    has-map :
        (a : Ptr) (xs : List Ptr) → a ∈ xs → has (desc_at h lst a) (map (desc_at h lst) xs) ≡ true
    has-map a [] i = absurd (cc i)
    has-map a (x ∷ xs) i = elim (Bool-cases (a == x)) [
      | inl e ↦
          let same : a ≡ x = ground arith in
          let at_x = ap (desc_at h lst) same in ground (arith, at_x)
      | inr n ↦ ground (arith, has-map a xs (ground arith))
    ]

    -- As no two descriptors share a place, the chain passes the last only at its end.
    Chained-Leads :
        (m : DescMem) (x : Ptr) (xs : List Ptr)
        → IsDistinct (map (desc_at h lst) (x ∷ xs))
        → AllMapped (x ∷ xs)
        → Chained h lst m (x ∷ xs)
        → Leads m (phys_of h lst x) (phys_of h lst (last_of x xs)) (map (phys_of h lst) xs)
    Chained-Leads m x [] d there c = refl
    Chained-Leads m x (y ∷ ys) d there c =
        let z = last_of y ys in
        let among = last_of-mem y ys in
        let found = has-map z (y ∷ ys) among in
        let at_x = there x (ground arith) in
        (
          λ e.
              let shared : desc_at h lst x ≡ desc_at h lst z =
                sym at_x ∙ ap to_virt e ∙ there z (ground (arith, among)) in
              absurd (
                cc (
                  d.0,
                  subst (λ p. has p (map (desc_at h lst) (y ∷ ys)) ≡ true) (sym shared) found,
                )),
          ap (λ p. next_desc (m p)) at_x ∙ c.0,
          Chained-Leads m y ys d.1 (λ w i. there w (ground arith)) c.1,
        )

    in_space : (xs : List Ptr) → All (λ z. phys_of h lst z < 2 ^ 64) xs
    in_space [] = tt
    in_space (x ∷ xs) = (virt_to_phys-lt lst.sg_plist (h.fields x).sg_offset, in_space xs)

    -- The engine completes the descriptor of each node of a list that is in memory.
    pub Serves-Completes :
        (engine : Transfer → DescMem → DescMem) (m : DescMem) (x : Ptr) (xs : List Ptr) (word : ℕ)
        (wait_irq : Bool)
        → Serves engine
        → Maps lst.sg_buf lst.sg_plist
        → WellFormed h lst (x ∷ xs)
        → InMemory h lst m (x ∷ xs)
        → word % 2 ≡ 1
        → (z : Ptr) → z ∈ x ∷ xs
        → Completes (m (desc_at h lst z)) (
            engine
              (started
                (start_writes (phys_of h lst x) word (phys_of h lst (last_of x xs)))
                wait_irq)
              m
              (desc_at h lst z))
    Serves-Completes engine m x xs word wait_irq serves maps w there runs z i =
        let mapped = Spaced-AllMapped (x ∷ xs) 0 lst.sg_offset maps w.slots in
        let leads =
          Chained-Leads m x xs (Spaced-IsDistinct h lst (x ∷ xs) 0 lst.sg_offset w.slots) mapped
            there.chained in
        let first = phys_of h lst x in
        let last = phys_of h lst (last_of x xs) in
        let aligned =
          All-map (λ p. p % 64 ≡ 0) (phys_of h lst) (x ∷ xs)
            (All-Seated h lst (x ∷ xs) there.seated) in
        let in_range = All-map (λ p. p < 2 ^ 64) (phys_of h lst) (x ∷ xs) (in_space (x ∷ xs)) in
        let each : ℕ → Type 0 =
          λ p. Completes (m p) (engine (started (start_writes first word last) wait_irq) m p) in
        subst each (mapped z i) (
          All-mem (λ a. each (to_virt (phys_of h lst a))) (x ∷ xs) z
            (map-All (λ p. each (to_virt p)) (phys_of h lst) (x ∷ xs)
              (serves.completes m first word last wait_irq (map (phys_of h lst) xs) runs aligned
                in_range leads))
            i)
