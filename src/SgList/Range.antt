-- ===== src/SgList/Range.antt =====
-- The planned descriptors fit into the fields of a descriptor in memory.
use mpsoc_axidma.Base.{
  ℕ, ◌-◌, ◌≤◌, ◌<◌, ◌^◌, ◌≡◌, ◌==◌, List, [], ◌∷◌, ltb, add32, sub32, Bool-cases, Option-cases, inl,
  inr, zero, suc, drop, arith, All,
}
use mpsoc_axidma.Physlist.{
  PhyslistEntry, Physlist, get_entry_index, virt_to_phys, not_found, find_contiguous_aligned_after,
}
use mpsoc_axidma.Physlist.Lookup.{get_entry_index-Located}
use mpsoc_axidma.Heap.{SgFields}
use mpsoc_axidma.SgList.{SgList, sizeof_sg_descriptor}
use mpsoc_axidma.SgList.Plan.{plan}
use mpsoc_axidma.SgList.Mark.{mark, mark_last}
use mpsoc_axidma.SgList.Outcome.{plan_for, drop_of_elem}

-- The fields of a node that its descriptor has room for.
pub record InRange (f : SgFields) : Type 0 where
  pub buf_low : f.buf_phys < 2 ^ 64
  pub len_low : f.len < 2 ^ 26
  pub sof_bit : f.is_sof < 2
  pub eof_bit : f.is_eof < 2

-- An entry that one descriptor has room for.
pub record IsShort (e : PhyslistEntry) : Type 0 where
  pub short : e.len < 2 ^ 26

pub virt_to_phys-lt : (p : Physlist) (k : ℕ) → virt_to_phys p k < 2 ^ 64
unfolding virt_to_phys
virt_to_phys-lt [] k = omega arith
virt_to_phys-lt (e ∷ es) k = ground (arith, virt_to_phys-lt es (k - e.len))

mark_last-InRange : (fs : List SgFields) → All InRange fs → All InRange (mark_last fs)
mark_last-InRange [] h = tt
mark_last-InRange (f ∷ []) h = (
  record {
    buf_low = h.0.buf_low;
    len_low = h.0.len_low;
    sof_bit = h.0.sof_bit;
    eof_bit = omega arith;
  },
  tt,
)
mark_last-InRange (f ∷ g ∷ fs) h = (h.0, mark_last-InRange (g ∷ fs) h.1)

pub mark-InRange : (fs : List SgFields) → All InRange fs → All InRange (mark fs)
mark-InRange [] h = tt
mark-InRange (f ∷ fs) h = mark_last-InRange (record f { is_sof = 1 } ∷ fs) (
  record {
    buf_low = h.0.buf_low;
    len_low = h.0.len_low;
    sof_bit = omega arith;
    eof_bit = h.0.eof_bit;
  },
  h.1,
)

-- The offset lies in the first entry.
abbrev StartsIn : Physlist → ℕ → Type 0
StartsIn [] o = Unit
StartsIn (d ∷ ds) o = o ≤ d.len

StartsIn-zero : (ds : Physlist) → StartsIn ds 0
StartsIn-zero [] = tt
StartsIn-zero (d ∷ ds) = omega arith

All-drop : (P : PhyslistEntry → Type 0) (es : Physlist) (i : ℕ) → All P es → All P (drop i es)
All-drop P es zero h = h
All-drop P [] (suc i) h = h
All-drop P (e ∷ es) (suc i) h = All-drop P es i h.1

module _ (sg_plist data_plist : Physlist) where
  plan-InRange :
      (ds : Physlist) (o sz sgo dato : ℕ)
      → All IsShort ds
      → StartsIn ds o
      → All InRange (plan sg_plist data_plist ds o sz sgo dato).entries
  unfolding plan
  plan-InRange [] o sz sgo dato short le = tt
  plan-InRange (d ∷ ds) o sz sgo dato short le =
      let slot = find_contiguous_aligned_after sg_plist sgo sizeof_sg_descriptor in
      let space : sub32 d.len o ≡ d.len - o = omega (arith, short.0.short) in
      elim (Bool-cases (slot == not_found)) [
        | inl full ↦ rw full tt
        | inr found ↦
            rw (found, space)
              (elim (Bool-cases (ltb (d.len - o) sz)) [
                | inr last ↦ rw last (
                  record {
                    buf_low = virt_to_phys-lt data_plist dato;
                    len_low = ground (arith, short.0.short);
                    sof_bit = omega arith;
                    eof_bit = omega arith;
                  },
                  tt,
                )
                | inl later ↦ rw later (
                  record {
                    buf_low = virt_to_phys-lt data_plist dato;
                    len_low = omega (arith, short.0.short);
                    sof_bit = omega arith;
                    eof_bit = omega arith;
                  },
                  plan-InRange ds 0 (sz - (d.len - o)) (add32 slot sizeof_sg_descriptor)
                      (add32 dato (d.len - o)) short.1 (StartsIn-zero ds),
                )
              ])
      ]

pub plan_for-InRange :
    (lst : SgList) (sz : ℕ) → All IsShort lst.data_plist → All InRange (plan_for lst sz).entries
plan_for-InRange lst sz short =
    elim (Option-cases (get_entry_index lst.data_plist lst.data_offset)) [
      | inl past ↦ rw (past, plan_for) tt
      | inr ((i, o), found) ↦
          let l = get_entry_index-Located lst.data_plist lst.data_offset i o found in
          let here = drop_of_elem lst.data_plist i l.at in
          rw (found, plan_for, here)
            (plan-InRange lst.sg_plist lst.data_plist (l.entry ∷ drop (suc i) lst.data_plist) o sz
              lst.sg_offset lst.data_offset (rw here at (All-drop IsShort lst.data_plist i short))
              (omega (arith, l.inside)))
    ]
