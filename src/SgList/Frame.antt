-- ===== src/SgList/Frame.antt =====
-- The descriptors of one buffer are one frame.
use mpsoc_axidma.Base.{
  ℕ, ◌+◌, ◌-◌, ◌≡◌, refl, List, [], ◌∷◌, All, arith, Bool-cases, inl, inr, ltb, ◌==◌, sub32, add32,
  drop, length, suc, ◌≤◌, ◌≢◌, ◌∙◌, Option-cases, ap,
}
use mpsoc_axidma.Physlist.{Physlist, get_entry_index, not_found, find_contiguous_aligned_after}
use mpsoc_axidma.Heap.{SgFields}
use mpsoc_axidma.SgList.{SgList, success, sizeof_sg_descriptor}
use mpsoc_axidma.SgList.Plan.{Plan, plan}
use mpsoc_axidma.SgList.Mark.{as_sof, mark_last, mark}
use mpsoc_axidma.SgList.Outcome.{plan_for, length-drop-le}
use mpsoc_axidma.SgList.Slots.{lens}

-- Only the last ends a frame.
abbrev pub EndsLast : List SgFields → Type 0
EndsLast [] = ⊥
EndsLast (f ∷ []) = f.is_eof ≡ 1
EndsLast (f ∷ g ∷ fs) = (f.is_eof ≡ 0) × EndsLast (g ∷ fs)

-- A descriptor that starts no frame.
pub record IsLater (f : SgFields) : Type 0 where
  pub no_sof : f.is_sof ≡ 0

-- Only the first starts a frame, at the offset.
abbrev pub StartsFirst : ℕ → List SgFields → Type 0
StartsFirst off [] = ⊥
StartsFirst off (f ∷ fs) = (f.is_sof ≡ 1) × (f.data_offset ≡ off) × All IsLater fs

-- A frame for `sz` bytes from the offset on.
pub record IsFrame (off sz : ℕ) (fs : List SgFields) : Type 0 where
  pub starts : StartsFirst off fs
  pub ends : EndsLast fs
  pub whole : lens fs ≡ sz

-- A descriptor with no marks.
record IsPlain (f : SgFields) : Type 0 where
  pub no_sof : f.is_sof ≡ 0
  pub no_eof : f.is_eof ≡ 0

abbrev FirstAt : ℕ → List SgFields → Type 0
FirstAt off [] = Unit
FirstAt off (f ∷ fs) = f.data_offset ≡ off

-- A plan before its marks.
record Framed (p : Plan) (sz dato : ℕ) : Type 0 where
  pub whole : p.outcome.ret ≡ success → (lens p.entries ≡ sz) × (p.entries ≢ [])
  pub plain : All IsPlain p.entries
  pub first : FirstAt dato p.entries

plan-Framed :
    (sg_plist data_plist ds : Physlist) (o sz sgo dato : ℕ)
    → Framed (plan sg_plist data_plist ds o sz sgo dato) sz dato
unfolding plan
plan-Framed sg dat [] o sz sgo dato = record {
  whole = λ won. absurd (cc won);
  plain = tt;
  first = tt;
}
plan-Framed sg dat (d ∷ ds) o sz sgo dato =
    let space = sub32 d.len o in
    let slot = find_contiguous_aligned_after sg sgo sizeof_sg_descriptor in
    let w =
      plan-Framed sg dat ds 0 (sz - space) (add32 slot sizeof_sg_descriptor) (add32 dato space) in
    elim (Bool-cases (slot == not_found)) [
      | inl full ↦ rw full (record { whole = λ won. absurd (cc won); plain = tt; first = tt })
      | inr found ↦ rw found (elim (Bool-cases (ltb space sz)) [
        | inl goes_on ↦ rw goes_on (record {
          whole = λ won. (ground (arith, (w.whole won).0, goes_on), λ e. cc e);
          plain = (record { no_sof = refl; no_eof = refl }, w.plain);
          first = refl;
        })
        | inr ends_here ↦ rw ends_here (record {
          whole = λ won. (omega arith, λ e. cc e);
          plain = (record { no_sof = refl; no_eof = refl }, tt);
          first = refl;
        })
      ])
    ]

lens-mark_last : (fs : List SgFields) → lens (mark_last fs) ≡ lens fs
lens-mark_last [] = refl
lens-mark_last (f ∷ []) = refl
lens-mark_last (f ∷ g ∷ fs) = ap (λ n. f.len + n) (lens-mark_last (g ∷ fs))

mark_last-EndsLast :
    (f : SgFields) (fs : List SgFields)
    → f.is_eof ≡ 0
    → All IsPlain fs
    → EndsLast (mark_last (f ∷ fs))
mark_last-EndsLast f [] e ps = refl
mark_last-EndsLast f (g ∷ []) e ps = (e, refl)
mark_last-EndsLast f (g ∷ k ∷ fs) e ps = (e, mark_last-EndsLast g (k ∷ fs) ps.0.no_eof ps.1)

mark_last-IsLater : (fs : List SgFields) → All IsPlain fs → All IsLater (mark_last fs)
mark_last-IsLater [] ps = tt
mark_last-IsLater (f ∷ []) ps = (record { no_sof = ps.0.no_sof }, tt)
mark_last-IsLater (f ∷ g ∷ fs) ps =
    (record { no_sof = ps.0.no_sof }, mark_last-IsLater (g ∷ fs) ps.1)

mark-IsFrame :
    (off sz : ℕ) (fs : List SgFields)
    → fs ≢ []
    → lens fs ≡ sz
    → All IsPlain fs
    → FirstAt off fs
    → IsFrame off sz (mark fs)
mark-IsFrame off sz [] ne l ps at = absurd (ne refl)
mark-IsFrame off sz (f ∷ []) ne l ps at = record { starts = (refl, at, tt); ends = refl; whole = l }
mark-IsFrame off sz (f ∷ g ∷ fs) ne l ps at = record {
  starts = (refl, at, mark_last-IsLater (g ∷ fs) ps.1);
  ends = mark_last-EndsLast (as_sof f) (g ∷ fs) ps.0.no_eof ps.1;
  whole = lens-mark_last (as_sof f ∷ g ∷ fs) ∙ l;
}

-- The descriptors that a successful call appends.
pub plan_for-IsFrame :
    (lst : SgList) (sz : ℕ)
    → (plan_for lst sz).outcome.ret ≡ success
    → IsFrame lst.data_offset sz (mark (plan_for lst sz).entries)
plan_for-IsFrame lst sz won = go (plan_for lst sz) framed won
  where
    framed : Framed (plan_for lst sz) sz lst.data_offset
    framed = elim (Option-cases (get_entry_index lst.data_plist lst.data_offset)) [
      | inl past ↦
          rw (past, plan_for) (record { whole = λ e. absurd (cc e); plain = tt; first = tt })
      | inr ((i, o), found) ↦
          rw (found, plan_for)
            (plan-Framed lst.sg_plist lst.data_plist (drop i lst.data_plist) o sz lst.sg_offset
              lst.data_offset)
    ]

    go :
        (p : Plan)
        → Framed p sz lst.data_offset
        → p.outcome.ret ≡ success
        → IsFrame lst.data_offset sz (mark p.entries)
    go p w ok =
        mark-IsFrame lst.data_offset sz p.entries (w.whole ok).1 (w.whole ok).0 w.plain w.first

plan-length :
    (sg_plist data_plist ds : Physlist) (o sz sgo dato : ℕ)
    → length (plan sg_plist data_plist ds o sz sgo dato).entries ≤ length ds
unfolding plan
plan-length sg dat [] o sz sgo dato = omega arith
plan-length sg dat (d ∷ ds) o sz sgo dato =
    let space = sub32 d.len o in
    let slot = find_contiguous_aligned_after sg sgo sizeof_sg_descriptor in
    let ih =
      plan-length sg dat ds 0 (sz - space) (add32 slot sizeof_sg_descriptor) (add32 dato space) in
    elim (Bool-cases (slot == not_found)) [
      | inl full ↦ rw full (omega arith)
      | inr found ↦ rw found (elim (Bool-cases (ltb space sz)) [
        | inl goes_on ↦ rw goes_on (omega (arith, ih))
        | inr ends_here ↦ rw ends_here (omega arith)
      ])
    ]

length-mark_last : (fs : List SgFields) → length (mark_last fs) ≡ length fs
length-mark_last [] = refl
length-mark_last (f ∷ []) = refl
length-mark_last (f ∷ g ∷ fs) = ap suc (length-mark_last (g ∷ fs))

pub length-mark : (fs : List SgFields) → length (mark fs) ≡ length fs
length-mark [] = refl
length-mark (f ∷ fs) = length-mark_last (as_sof f ∷ fs)

-- A call makes at most one descriptor for each entry of the data physlist.
pub plan_for-length :
    (lst : SgList) (sz : ℕ) → length (mark (plan_for lst sz).entries) ≤ length lst.data_plist
plan_for-length lst sz = elim (Option-cases (get_entry_index lst.data_plist lst.data_offset)) [
  | inl past ↦ rw (past, plan_for) (omega arith)
  | inr ((i, o), found) ↦
      let p =
        plan lst.sg_plist lst.data_plist (drop i lst.data_plist) o sz lst.sg_offset
          lst.data_offset in
      rw (found, plan_for)
        (omega (
          arith,
          length-mark p.entries,
          plan-length lst.sg_plist lst.data_plist (drop i lst.data_plist) o sz lst.sg_offset
              lst.data_offset,
          length-drop-le lst.data_plist i,
        ))
]
