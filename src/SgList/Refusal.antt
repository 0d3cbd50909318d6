-- ===== src/SgList/Refusal.antt =====
-- A planned call of `axidma_add_entry` is not refused with the code for a failed allocation.
use mpsoc_axidma.Base.{
  ℕ, ◌-◌, ◌≢◌, ◌==◌, [], ◌∷◌, ltb, add32, sub32, Bool-cases, Option-cases, inl, inr, drop,
}
use mpsoc_axidma.Physlist.{Physlist, get_entry_index, not_found, find_contiguous_aligned_after}
use mpsoc_axidma.SgList.{SgList, error, sizeof_sg_descriptor}
use mpsoc_axidma.SgList.Plan.{plan}
use mpsoc_axidma.SgList.Outcome.{plan_for}

module _ (sg_plist data_plist : Physlist) where
  plan-refused :
      (ds : Physlist) (o sz sg_offset data_offset : ℕ)
      → (plan sg_plist data_plist ds o sz sg_offset data_offset).outcome.ret ≢ error
  unfolding plan
  plan-refused [] o sz sgo dato = (λ e. cc e)
  plan-refused (d ∷ ds) o sz sgo dato =
      let slot = find_contiguous_aligned_after sg_plist sgo sizeof_sg_descriptor in
      elim (Bool-cases (slot == not_found)) [
        | inl full ↦ rw full (λ e. cc e)
        | inr found ↦ rw found (elim (Bool-cases (ltb (sub32 d.len o) sz)) [
          | inr last ↦ rw last (λ e. cc e)
          | inl later ↦ rw later (
              plan-refused ds 0 (sz - sub32 d.len o) (add32 slot sizeof_sg_descriptor)
                (add32 dato (sub32 d.len o)))
        ])
      ]

pub plan_for-refused : (lst : SgList) (sz : ℕ) → (plan_for lst sz).outcome.ret ≢ error
plan_for-refused lst sz = elim (Option-cases (get_entry_index lst.data_plist lst.data_offset)) [
  | inl past ↦ rw (past, plan_for) (λ e. cc e)
  | inr ((i, o), e) ↦
      rw (e, plan_for)
        (plan-refused lst.sg_plist lst.data_plist (drop i lst.data_plist) o sz lst.sg_offset
          lst.data_offset)
]
