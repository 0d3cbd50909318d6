-- ===== src/SgList/Tile.antt =====
-- The planned descriptors describe the buffer: its physical bytes, in order, and no others.
use mathlib.Core.List.{append-nil}
use mpsoc_axidma.Base.{
  ℕ, suc, ◌+◌, ◌-◌, ◌^◌, ◌≤◌, ◌<◌, ◌≡◌, ◌∙◌, ap, ap₂, sym, subst, List, [], ◌∷◌, ◌++◌, arith, All,
  drop, ltb, Bool-cases, inl, inr, sub32, add32, Option-cases, ◌==◌,
}
use mpsoc_axidma.Physlist.{
  PhyslistEntry, Physlist, get_entry_index, virt_to_phys, not_found, find_contiguous_aligned_after,
}
use mpsoc_axidma.Physlist.Layout.{size, start, run, bytes, Fits}
use mpsoc_axidma.Physlist.Lookup.{get_entry_index-Located, get_entry_index-none}
use mpsoc_axidma.Physlist.Bytes.{
  take, take-run-le, take-run-lt, drop-bytes, next_elem, start-suc, start-le-size, start_of_last,
  run-virt_to_phys,
}
use mpsoc_axidma.Heap.{SgFields}
use mpsoc_axidma.SgList.{SgList, success, buf_oom, sizeof_sg_descriptor}
use mpsoc_axidma.SgList.Plan.{Plan, plan}
use mpsoc_axidma.SgList.Outcome.{plan_for, drop_of_elem}

-- The physical bytes that descriptors cover, in order.
abbrev pub covered : List SgFields → List ℕ
covered [] = []
covered (f ∷ fs) = run f.buf_phys f.len ++ covered fs

-- What a plan for `sz` bytes from the offset `dato` on gives, where `bs` are the bytes from there on.
pub record Tiles (data_plist : Physlist) (p : Plan) (sz dato : ℕ) (bs : List ℕ) : Type 0 where
  pub won :
      p.outcome.ret ≡ success
      → (covered p.entries ≡ take sz bs)
        × (p.outcome.data_offset ≡ dato + sz)
        × (dato + sz ≤ size data_plist)
  pub out : p.outcome.ret ≡ buf_oom → size data_plist < dato + sz

module _ (sg_plist data_plist : Physlist) (fits : All Fits data_plist)
    (small : size data_plist < 2 ^ 32) where
  abbrev planned : Physlist → (o sz sgo dato : ℕ) → Plan
  planned = plan sg_plist data_plist

  round-Tiles :
      (ds : Physlist) (i o sz sgo dato : ℕ) {d : PhyslistEntry}
      → drop i data_plist ≡ d ∷ ds
      → o ≤ d.len
      → dato ≡ start data_plist i + o
      → ((sgo' : ℕ)
          → d.len - o < sz
          → Tiles data_plist
              (planned ds 0 (sz - (d.len - o)) sgo' (dato + (d.len - o)))
              (sz - (d.len - o))
              (dato + (d.len - o))
              (bytes ds))
      → Tiles data_plist
          (planned (d ∷ ds) o sz sgo dato)
          sz
          dato
          (run (d.addr + o) (d.len - o) ++ bytes ds)
  unfolding plan
  round-Tiles ds i o sz sgo dato {d} here le at more =
      elim (Bool-cases
        (find_contiguous_aligned_after sg_plist sgo sizeof_sg_descriptor == not_found)) [
          | inl full ↦ rw full (record { won = λ e. absurd (cc e); out = λ e. absurd (cc e) })
          | inr slot ↦
              let (elem, after) = next_elem data_plist i here in
              let bound = start-le-size data_plist (suc i) in
              let step = start-suc data_plist i elem in
              let space : sub32 d.len o ≡ d.len - o = omega arith in
              rw (slot, space)
                (elim (Bool-cases (ltb (d.len - o) sz)) [
                  | inl goes_on ↦
                      let whole : add32 dato (d.len - o) ≡ dato + (d.len - o) = omega arith in
                      let ih = more _ (ground arith) in
                      rw (goes_on, whole)
                        (record {
                          won = λ e.
                              let w = ih.won e in
                              (
                                ap₂ ◌++◌
                                      (ap (λ k. run (virt_to_phys data_plist k) (d.len - o)) at
                                        ∙ run-virt_to_phys data_plist i o (d.len - o) elem
                                            (omega arith) fits)
                                      w.0
                                    ∙ sym (
                                        take-run-lt sz (d.addr + o) (d.len - o) (bytes ds)
                                          (ground arith)),
                                ground (arith, w.1),
                                ground (arith, w.2),
                              );
                          out = λ e. ground (arith, ih.out e);
                        })
                  | inr ends_here ↦ rw ends_here (record {
                    won = λ e. (
                      append-nil (run (virt_to_phys data_plist dato) sz)
                          ∙ (ap (λ k. run (virt_to_phys data_plist k) sz) at
                              ∙ (run-virt_to_phys data_plist i o sz elem (ground arith) fits
                                  ∙ sym (
                                      take-run-le sz (d.addr + o) (d.len - o) (bytes ds)
                                        (ground arith)))),
                      ground arith,
                      ground arith,
                    );
                    out = λ e. absurd (cc e);
                  })
                ])
        ]

  plan-Tiles :
      (ds : Physlist) (i o sz sgo dato : ℕ) {d : PhyslistEntry}
      → drop i data_plist ≡ d ∷ ds
      → o ≤ d.len
      → dato ≡ start data_plist i + o
      → Tiles data_plist
          (planned (d ∷ ds) o sz sgo dato)
          sz
          dato
          (run (d.addr + o) (d.len - o) ++ bytes ds)
  unfolding plan
  plan-Tiles [] i o sz sgo dato {d} here le at =
      round-Tiles [] i o sz sgo dato here le at λ sgo' lt. record {
        won = λ e. absurd (cc e);
        out = λ e.
            let (elem, after) = next_elem data_plist i here in
            omega (arith, start_of_last data_plist i elem after);
      }
  plan-Tiles (d' ∷ ds) i o sz sgo dato {d} here le at =
      round-Tiles (d' ∷ ds) i o sz sgo dato here le at λ sgo' lt.
        let (elem, after) = next_elem data_plist i here in
        subst
          (Tiles data_plist (planned (d' ∷ ds) 0 (sz - (d.len - o)) sgo' (dato + (d.len - o)))
            (sz - (d.len - o)) (dato + (d.len - o)))
          (ap₂ (λ a k. run a k ++ bytes ds) (omega arith) (omega arith))
          (plan-Tiles ds (suc i) 0 (sz - (d.len - o)) sgo' (dato + (d.len - o)) after (omega arith)
            (omega (arith, start-suc data_plist i elem)))

-- The plan of a call, over the whole data physlist.
pub plan_for-Tiles :
    (lst : SgList) (sz : ℕ)
    → 0 < sz
    → All Fits lst.data_plist
    → size lst.data_plist < 2 ^ 32
    → Tiles lst.data_plist
        (plan_for lst sz)
        sz
        lst.data_offset
        (drop lst.data_offset (bytes lst.data_plist))
plan_for-Tiles lst sz pos fits small =
    elim (Option-cases (get_entry_index lst.data_plist lst.data_offset)) [
      | inl past ↦
          rw (past, plan_for)
            (record {
              won = λ e. absurd (cc e);
              out =
                  λ e. omega (arith, (get_entry_index-none lst.data_plist lst.data_offset).0 past);
            })
      | inr ((i, o), found) ↦
          let l = get_entry_index-Located lst.data_plist lst.data_offset i o found in
          let here = drop_of_elem lst.data_plist i l.at in
          rw (found, plan_for, here)
            (subst
              (Tiles lst.data_plist
                (plan lst.sg_plist lst.data_plist (l.entry ∷ drop (suc i) lst.data_plist) o sz
                  lst.sg_offset lst.data_offset)
                sz lst.data_offset)
              (sym (drop-bytes lst.data_plist i o l.at (omega (arith, l.inside)))
                ∙ ap (λ k. drop k (bytes lst.data_plist)) (sym l.offset_eq))
              (plan-Tiles lst.sg_plist lst.data_plist fits small (drop (suc i) lst.data_plist) i o
                sz lst.sg_offset lst.data_offset here (omega (arith, l.inside)) l.offset_eq))
    ]
