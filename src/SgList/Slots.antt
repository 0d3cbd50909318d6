-- ===== src/SgList/Slots.antt =====
-- Where the planned descriptors stand: one behind the other, each on a boundary and in one piece.
use mpsoc_axidma.Base.{
  ℕ, ◌+◌, ◌-◌, ◌≤◌, ◌<◌, ◌≡◌, refl, ap, ◌==◌, false, List, [], ◌∷◌, ◌++◌, map, ltb, add32, sub32,
  Bool-cases, Option-cases, inl, inr, drop, arith, All,
}
use mpsoc_axidma.Physlist.{Physlist, get_entry_index, not_found, find_contiguous_aligned_after}
use mpsoc_axidma.Physlist.Align.{Slot, Slot-le-size}
use mpsoc_axidma.Physlist.Room.{desc_size, HoldsDescriptors, Ready, Ready-Slot, Ready-Least}
use mpsoc_axidma.Heap.{SgFields}
use mpsoc_axidma.SgList.{SgList, success, sg_oom, sizeof_sg_descriptor}
use mpsoc_axidma.SgList.Plan.{Plan, plan}
use mpsoc_axidma.SgList.Mark.{mark, mark_last}
use mpsoc_axidma.SgList.Outcome.{plan_for}

-- From `lo` on, places for descriptors that do not overlap, and `hi` behind them.
abbrev pub Spaced : Physlist → ℕ → List ℕ → ℕ → Type 0
Spaced p lo [] hi = lo ≡ hi
Spaced p lo (s ∷ ss) hi = (lo ≤ s) × Slot p desc_size s × Spaced p (s + desc_size) ss hi

pub Spaced-append :
    (p : Physlist) (lo : ℕ) (ss : List ℕ) (mid : ℕ) (ts : List ℕ) (hi : ℕ)
    → Spaced p lo ss mid
    → Spaced p mid ts hi
    → Spaced p lo (ss ++ ts) hi
Spaced-append p lo [] mid ts hi v w = rw v w
Spaced-append p lo (s ∷ ss) mid ts hi v w =
    (v.0, v.1, Spaced-append p (s + desc_size) ss mid ts hi v.2 w)

-- Descriptors in such places are apart.
pub Spaced-ge :
    (p : Physlist) (lo : ℕ) (ss : List ℕ) (hi : ℕ) → Spaced p lo ss hi → All (λ s. lo ≤ s) ss
Spaced-ge p lo [] hi w = tt
Spaced-ge p lo (s ∷ ss) hi w = (
  w.0,
  All-above (s + desc_size) lo ss (omega (arith, w.0)) (Spaced-ge p (s + desc_size) ss hi w.2),
)
  where
    All-above : (mid lo : ℕ) (ss : List ℕ) → lo ≤ mid → All (λ s. mid ≤ s) ss → All (λ s. lo ≤ s) ss
    All-above mid lo [] le h = tt
    All-above mid lo (s ∷ ss) le h = (omega (arith, h.0), All-above mid lo ss le h.1)

abbrev pub offset_of : SgFields → ℕ
offset_of f = f.sg_offset

-- The marks leave the places.
offsets-mark_last : (fs : List SgFields) → map offset_of (mark_last fs) ≡ map offset_of fs
offsets-mark_last [] = refl
offsets-mark_last (f ∷ []) = refl
offsets-mark_last (f ∷ g ∷ fs) = ap (λ ss. f.sg_offset ∷ ss) (offsets-mark_last (g ∷ fs))

pub offsets-mark : (fs : List SgFields) → map offset_of (mark fs) ≡ map offset_of fs
offsets-mark [] = refl
offsets-mark (f ∷ fs) = offsets-mark_last (record f { is_sof = 1 } ∷ fs)

-- How many bytes descriptors are for.
abbrev pub lens : List SgFields → ℕ
lens [] = 0
lens (f ∷ fs) = f.len + lens fs

-- A plan for `sz` bytes that succeeds puts its descriptors in places from `sg_offset` on. One that
-- finds no room has placed descriptors for fewer bytes, and behind those there is no place.
pub record Placed (p : Physlist) (sg_offset sz : ℕ) (q : Plan) : Type 0 where
  pub won :
      q.outcome.ret ≡ success
      → Spaced p sg_offset (map offset_of q.entries) q.outcome.sg_offset
        × Ready p q.outcome.sg_offset
  pub full :
      q.outcome.ret ≡ sg_oom
      → (k : ℕ) × Spaced p sg_offset (map offset_of q.entries) k
        × (lens q.entries < sz)
        × ((s : ℕ) → Slot p desc_size s → s < k)

module _ (sg_plist data_plist : Physlist) (good : HoldsDescriptors sg_plist) where
  pub slot_found :
      (sgo : ℕ)
      → Ready sg_plist sgo
      → let slot = find_contiguous_aligned_after sg_plist sgo sizeof_sg_descriptor in
        (slot == not_found) ≡ false
        → (sgo ≤ slot)
          × Slot sg_plist desc_size slot
          × (add32 slot sizeof_sg_descriptor ≡ slot + desc_size)
          × Ready sg_plist (slot + desc_size)
  slot_found sgo ready found =
      let l = Ready-Least sg_plist sgo good ready in
      let sl = l.slot (ground arith) in
      (
        l.after,
        sl,
        omega (arith, Slot-le-size sg_plist sl, good.small),
        Ready-Slot sg_plist _ good sl,
      )

  plan-Placed :
      (ds : Physlist) (o sz sgo dato : ℕ)
      → 0 < sz
      → Ready sg_plist sgo
      → Placed sg_plist sgo sz (plan sg_plist data_plist ds o sz sgo dato)
  unfolding plan
  plan-Placed [] o sz sgo dato pos ready = record {
    won = λ e. absurd (cc e);
    full = λ e. absurd (cc e);
  }
  plan-Placed (d ∷ ds) o sz sgo dato pos ready =
      let slot = find_contiguous_aligned_after sg_plist sgo sizeof_sg_descriptor in
      elim (Bool-cases (slot == not_found)) [
        | inl none_left ↦ rw none_left (record {
          won = λ e. absurd (cc e);
          full = λ e. (
            sgo,
            refl,
            pos,
            λ s sl. ground (
              arith,
              Slot-le-size sg_plist sl,
              good.small,
              (Ready-Least sg_plist sgo good ready).least s sl,
            ),
          );
        })
        | inr found ↦
            let (after, sl, step, ready') = slot_found sgo ready found in
            rw (found, step)
              (elim (Bool-cases (ltb (sub32 d.len o) sz)) [
                | inr last ↦
                    rw last
                      (record { won = λ e. ((after, sl, refl), ready'); full = λ e. absurd (cc e) })
                | inl later ↦
                    let ih =
                      plan-Placed ds 0 (sz - sub32 d.len o) (slot + desc_size)
                        (add32 dato (sub32 d.len o)) (ground arith) ready' in
                    rw later (record {
                      won = λ e. let (w, r) = ih.won e in ((after, sl, w), r);
                      full = λ e.
                          let (k, w, less, beyond) = ih.full e in
                          (k, (after, sl, w), ground (arith, less), beyond);
                    })
              ])
      ]

pub plan_for-Placed :
    (lst : SgList) (sz : ℕ)
    → 0 < sz
    → HoldsDescriptors lst.sg_plist
    → Ready lst.sg_plist lst.sg_offset
    → Placed lst.sg_plist lst.sg_offset sz (plan_for lst sz)
plan_for-Placed lst sz pos good ready =
    elim (Option-cases (get_entry_index lst.data_plist lst.data_offset)) [
      | inl past ↦
          rw (past, plan_for) (record { won = λ e. absurd (cc e); full = λ e. absurd (cc e) })
      | inr ((i, o), e) ↦
          rw (e, plan_for)
            (plan-Placed lst.sg_plist lst.data_plist good (drop i lst.data_plist) o sz lst.sg_offset
              lst.data_offset pos ready)
    ]
