-- ===== src/SgList/Packed.antt =====
-- How far the planned descriptors reach into a buffer whose places are 64 bytes apart.
use mpsoc_axidma.Base.{
  ℕ, ◌+◌, ◌-◌, ◌*◌, ◌%◌, ◌≤◌, ◌<◌, ◌≡◌, ◌==◌, [], ◌∷◌, length, ltb, leb, add32, sub32, Bool-cases,
  Option-cases, inl, inr, false, drop, arith,
}
use mpsoc_axidma.Physlist.{Physlist, get_entry_index, not_found, find_contiguous_aligned_after}
use mpsoc_axidma.Physlist.Layout.{size}
use mpsoc_axidma.Physlist.Align.{Slot-le-size}
use mpsoc_axidma.Physlist.Room.{desc_size, HoldsDescriptors, Ready, Ready-Least}
use mpsoc_axidma.Physlist.Steady.{Steady, Steady-Slot, Slot-Steady}
use mpsoc_axidma.SgList.{SgList, success, sg_oom, sizeof_sg_descriptor}
use mpsoc_axidma.SgList.Plan.{Plan, plan}
use mpsoc_axidma.SgList.Outcome.{plan_for}
use mpsoc_axidma.SgList.Slots.{slot_found}

-- From a place at `b` or before, a plan that succeeds takes 64 bytes for each descriptor at most, and
-- one that finds no room has come within 64 bytes of the end.
pub record Packed (p : Physlist) (b : ℕ) (q : Plan) : Type 0 where
  pub won : q.outcome.ret ≡ success → q.outcome.sg_offset ≤ b + 64 * length q.entries
  pub full : q.outcome.ret ≡ sg_oom → size p < b + 64 * length q.entries + 64

module _ (sg_plist data_plist : Physlist) (good : HoldsDescriptors sg_plist) (c : ℕ)
    (steady : Steady c sg_plist) where
  -- The place found stands at `b` or before.
  slot-le :
      (sgo b : ℕ)
      → b % 64 ≡ c % 64
      → sgo ≤ b
      → Ready sg_plist sgo
      → let slot = find_contiguous_aligned_after sg_plist sgo sizeof_sg_descriptor in
        (slot == not_found) ≡ false → slot ≤ b
  slot-le sgo b phase le ready found =
      let (after, sl, _, _) = slot_found sg_plist data_plist good sgo ready found in
      let in_phase = Steady-Slot c sg_plist _ steady sl in
      elim (Bool-cases (leb (b + 64) (size sg_plist))) [
        | inl room ↦
            (Ready-Least sg_plist sgo good ready).least b
              (Slot-Steady c sg_plist b steady phase (ground arith)) le
        | inr no_room ↦
            let short : size sg_plist < b + 64 = ground arith in
            omega (arith, in_phase, phase, Slot-le-size sg_plist sl, short)
      ]

  plan-Packed :
      (ds : Physlist) (o sz sgo dato b : ℕ)
      → b % 64 ≡ c % 64
      → sgo ≤ b
      → Ready sg_plist sgo
      → Packed sg_plist b (plan sg_plist data_plist ds o sz sgo dato)
  unfolding plan
  plan-Packed [] o sz sgo dato b phase le ready = record {
    won = λ e. absurd (cc e);
    full = λ e. absurd (cc e);
  }
  plan-Packed (d ∷ ds) o sz sgo dato b phase le ready =
      let slot = find_contiguous_aligned_after sg_plist sgo sizeof_sg_descriptor in
      elim (Bool-cases (slot == not_found)) [
        | inl none_left ↦
            let short : size sg_plist < b + 64 = elim (Bool-cases (leb (b + 64) (size sg_plist))) [
              | inr no_room ↦ ground arith
              | inl room ↦
                  let sl = Slot-Steady c sg_plist b steady phase (ground arith) in
                  ground (
                    arith,
                    Slot-le-size sg_plist sl,
                    good.small,
                    (Ready-Least sg_plist sgo good ready).least b sl,
                  )
            ] in
            rw none_left (record { won = λ e. absurd (cc e); full = λ e. omega (arith, short) })
        | inr found ↦
            let (after, sl, step, ready') = slot_found sg_plist data_plist good sgo ready found in
            let near = slot-le sgo b phase le ready found in
            rw (found, step)
              (elim (Bool-cases (ltb (sub32 d.len o) sz)) [
                | inr last ↦
                    rw last (record { won = λ e. omega (arith, near); full = λ e. absurd (cc e) })
                | inl later ↦
                    let ih =
                      plan-Packed ds 0 (sz - sub32 d.len o) (slot + desc_size)
                        (add32 dato (sub32 d.len o)) (b + 64) (omega arith) (omega (arith, near))
                        ready' in
                    rw later (record {
                      won = λ e. omega (arith, ih.won e);
                      full = λ e. omega (arith, ih.full e);
                    })
              ])
      ]

pub plan_for-Packed :
    (lst : SgList) (sz c b : ℕ)
    → HoldsDescriptors lst.sg_plist
    → Ready lst.sg_plist lst.sg_offset
    → Steady c lst.sg_plist
    → b % 64 ≡ c % 64
    → lst.sg_offset ≤ b
    → Packed lst.sg_plist b (plan_for lst sz)
plan_for-Packed lst sz c b good ready steady phase le =
    elim (Option-cases (get_entry_index lst.data_plist lst.data_offset)) [
      | inl past ↦
          rw (past, plan_for) (record { won = λ e. absurd (cc e); full = λ e. absurd (cc e) })
      | inr ((i, o), e) ↦
          rw (e, plan_for)
            (plan-Packed lst.sg_plist lst.data_plist good c steady (drop i lst.data_plist) o sz
              lst.sg_offset lst.data_offset b phase le ready)
    ]
