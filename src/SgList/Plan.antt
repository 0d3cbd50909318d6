-- ===== src/SgList/Plan.antt =====
-- The descriptors that a call of `axidma_add_entry` is to make, as a function of the two physlists.
use mpsoc_axidma.Base.{ℕ, ◌-◌, List, [], ◌∷◌, ltb, ◌==◌, if◌then◌else◌, add32, sub32}
use mpsoc_axidma.Physlist.{Physlist, not_found, find_contiguous_aligned_after}
use mpsoc_axidma.Heap.{SgFields}
use mpsoc_axidma.SgList.{Built, built, success, sg_oom, buf_oom, sizeof_sg_descriptor, descriptor}

pub record Plan : Type 0 where
  pub entries : List SgFields
  pub outcome : Built

abbrev pub plan_cons : SgFields → Plan → Plan
plan_cons f p = record { entries = f ∷ p.entries; outcome = p.outcome }

abbrev pub stop : Built → Plan
stop b = record { entries = []; outcome = b }

-- One descriptor for each entry of the data physlist that the buffer meets.
unfoldable pub plan :
    (sg_plist data_plist ds : Physlist) (offset_in_entry sz sg_offset data_offset : ℕ) → Plan
plan sg_plist data_plist [] offset_in_entry sz sg_offset data_offset =
    stop (built buf_oom sg_offset data_offset)
plan sg_plist data_plist (d ∷ ds) offset_in_entry sz sg_offset data_offset =
    let space = sub32 d.len offset_in_entry in
    let slot = find_contiguous_aligned_after sg_plist sg_offset sizeof_sg_descriptor in
    let after = add32 slot sizeof_sg_descriptor in
    let more = plan sg_plist data_plist ds 0 (sz - space) after (add32 data_offset space) in
    if slot == not_found
    then stop (built sg_oom slot data_offset)
    else (if ltb space sz
        then plan_cons (descriptor data_plist slot data_offset space) more
        else plan_cons (descriptor data_plist slot data_offset sz)
            (stop (built success after (add32 data_offset sz))))
