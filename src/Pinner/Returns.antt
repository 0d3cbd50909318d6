-- ===== src/Pinner/Returns.antt =====
-- An unpin never steps on an invalid pointer.
use mpsoc_axidma.Base.{◌≡◌, refl, ◌==◌, inl, inr, Bool-cases, Option-cases}
use mpsoc_axidma.Pinner.{ProcInfo}
use mpsoc_axidma.Pinner.Memory.{Holdings}
use mpsoc_axidma.Pinner.Ops.{Replies, Reply, Outcome, returns, find_pinning, pinner_do_unpin}

-- An unpin returns.
abbrev pub Returns : Outcome → Type 0
Returns o = (rep : Reply) × (info : ProcInfo) × (refs : Holdings) × (o ≡ returns rep info refs)

pub pinner_do_unpin-Returns :
    (r : Replies) (info : ProcInfo) (refs : Holdings) → Returns (pinner_do_unpin r info refs)
unfolding pinner_do_unpin
pinner_do_unpin-Returns r info refs = elim (Bool-cases r.handle_copied) [
  | inr no_copy ↦ rw no_copy (_, _, _, refl)
  | inl copy ↦ rw copy (elim (Bool-cases (r.handle.user_magic == info.magic)) [
    | inr other ↦ rw other (_, _, _, refl)
    | inl own ↦ rw own (elim (Option-cases (find_pinning r.handle.pin_magic info.pinning_list)) [
      | inl nothing ↦ rw nothing (_, _, _, refl)
      | inr ((found, others), q) ↦ rw q (_, _, _, refl)
    ])
  ])
]
