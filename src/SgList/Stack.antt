-- ===== src/SgList/Stack.antt =====
-- The block of the local list in `axidma_add_entry` is free again when it returns.
use mpsoc_axidma.Base.{ℕ, ◌≡◌, false, ◌==◌, Bool-cases, inl, inr, Option, none, some, drop, arith}
use mpsoc_axidma.Heap.{
  Ptr, Heap, Run, fault, out_of_fuel, ok, pure, Cmd, and_then, ◌>>=◌, ◌>>◌, make_alive, free,
}
use mpsoc_axidma.Physlist.{get_entry_index}
use mpsoc_axidma.SgList.{
  SgList, AddEntryCode, Built, buf_oom, built, sg_entry_init, add_entry_loop, add_entry_end,
  axidma_add_entry,
}
use mpsoc_axidma.SgList.Loop.{Ends, ends}

-- If the run returns, the block is free.
abbrev Gone : {A : Type 0} → Ptr → Run A → Type 0
Gone t fault = Unit {0}
Gone t out_of_fuel = Unit {0}
Gone t (ok a g) = g.alive t ≡ false

Gone-bind :
    {A B : Type 0} (t : Ptr) (r : Run A) (k : A → Cmd B)
    → ((a : A) (g : Heap) → Gone t (k a g))
    → Gone t (and_then r k)
Gone-bind t fault k next = tt
Gone-bind t out_of_fuel k next = tt
Gone-bind t (ok a g) k next = next a g

Gone-free : {A : Type 0} (t : Ptr) (a : A) (g : Heap) → Gone t (and_then (free t g) (λ _. pure a))
unfolding free
Gone-free t a g = elim (Bool-cases (g.alive t)) [
  | inl live ↦ rw live (ground arith)
  | inr dead ↦ rw dead tt
]

axidma_add_entry-Gone :
    (pick : Heap → Ptr) (t : Ptr) (fuel : ℕ) (h : Heap) (lst : SgList) (sz : ℕ)
    → h.alive t ≡ false
    → Gone t (axidma_add_entry pick t fuel (some lst) sz h)
unfolding axidma_add_entry
axidma_add_entry-Gone pick t fuel h lst sz dead =
    let leave : Built → Cmd (AddEntryCode × Option SgList) =
      λ b. add_entry_end fuel lst t b >>= λ r. free t >> pure (r.0, some r.1) in
    let search : Cmd Built = elim (get_entry_index lst.data_plist lst.data_offset) [
      | none ↦ pure (built buf_oom lst.sg_offset lst.data_offset)
      | some (ind, o) ↦
          add_entry_loop pick lst.sg_plist lst.data_plist t (drop ind lst.data_plist) o sz
            lst.sg_offset lst.data_offset
    ] in
    elim (Bool-cases (sz == 0)) [
      | inl zero_size ↦ rw zero_size dead
      | inr some_size ↦ rw some_size (
          Gone-bind t (make_alive t h) (λ _. sg_entry_init t >> (search >>= leave))
            λ _ h₁.
              Gone-bind t (sg_entry_init t h₁) (λ _. search >>= leave)
                λ _ h₂. Gone-bind t (search h₂) leave λ b h₃.
                  Gone-bind t (add_entry_end fuel lst t b h₃) (λ r. free t >> pure (r.0, some r.1))
                    λ r h₄. Gone-free t (r.0, some r.1) h₄)
    ]

Ends-Gone :
    {A : Type 0} {P : A → Heap → Type 0} (t : Ptr) {r : Run A}
    → Ends P r
    → Gone t r
    → Ends (λ a g. P a g × (g.alive t ≡ false)) r
Ends-Gone t (ends p) gone = ends (p, gone)

-- What a call of `axidma_add_entry` is known to end in, and the block of its local list free.
pub axidma_add_entry-free :
    {P : AddEntryCode × Option SgList → Heap → Type 0} (pick : Heap → Ptr) (t : Ptr) (fuel : ℕ)
    (h : Heap) (lst : SgList) (sz : ℕ)
    → h.alive t ≡ false
    → Ends P (axidma_add_entry pick t fuel (some lst) sz h)
    → Ends (λ r g. P r g × (g.alive t ≡ false)) (axidma_add_entry pick t fuel (some lst) sz h)
axidma_add_entry-free pick t fuel h lst sz dead e =
    Ends-Gone t e (axidma_add_entry-Gone pick t fuel h lst sz dead)
