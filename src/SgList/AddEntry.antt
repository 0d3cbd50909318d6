-- ===== src/SgList/AddEntry.antt =====
-- `axidma_add_entry` as a whole: all of a buffer's descriptors are appended, or nothing changes.
use mpsoc_axidma.Base.{
  ℕ, suc, ◌<◌, ◌≤◌, ◌≡◌, refl, ◌≢◌, ◌⊎◌, inl, inr, true, false, List, [], ◌∷◌, map, ◌==◌, arith,
  All, length, ◌∙◌, ap, sym, some, none, drop, Option-cases,
}
use mpsoc_axidma.Physlist.{Physlist, get_entry_index}
use mpsoc_axidma.Physlist.Lookup.{get_entry_index-Located}
use mpsoc_axidma.Heap.{Ptr, null, Heap, Run, pure, update, and_then, ◌>>◌, make_alive, free}
use mpsoc_axidma.Heap.Ring.{◌∉◌, Ring}
use mpsoc_axidma.SgList.{
  SgList, AddEntryCode, success, sg_oom, buf_oom, error, Built, built, add_entry_end,
  add_entry_loop, axidma_add_entry,
}
use mpsoc_axidma.SgList.Links.{sg_entry_init-Ring}
use mpsoc_axidma.SgList.Plan.{Plan, plan}
use mpsoc_axidma.SgList.Loop.{
  Ends, ends, Ends-mono, SameAt, Begins, Grown, Grown-stop, add_entry_loop-Grown,
}
use mpsoc_axidma.SgList.Outcome.{length-drop-le, plan_for, drop_of_elem, Added, Ends-bind}
use mpsoc_axidma.SgList.Leave.{entered, give_up, succeed}

-- A plan that succeeds has a descriptor.
plan-ne-nil :
    (sg_plist data_plist ds : Physlist) (o sz sgo dato : ℕ)
    → (plan sg_plist data_plist ds o sz sgo dato).outcome.ret ≡ success
    → (plan sg_plist data_plist ds o sz sgo dato).entries ≢ []
unfolding plan
plan-ne-nil sg da [] o sz sgo dato won = absurd (ground arith)
plan-ne-nil sg da (d ∷ ds) o sz sgo dato won = ground arith

Grown-mono :
    {pick : Heap → Ptr} {p : Plan} {n m : ℕ} {h : Heap} {t : Ptr} {ys : List Ptr} {b : Built}
    {g : Heap}
    → Grown pick p n h t ys b g
    → n ≤ m
    → Grown pick p m h t ys b g
Grown-mono w le = record {
  zs = w.zs;
  ring = w.ring;
  new = w.new;
  real = w.real;
  same = w.same;
  kept = w.kept;
  count = omega (arith, w.count);
  outcome = w.outcome;
}

module _ (pick : Heap → Ptr) (fresh : (h : Heap) → pick h ≢ null → h.alive (pick h) ≡ false)
    (t : Ptr) (fuel : ℕ) (h : Heap) (lst : SgList) (xs : List Ptr) (sz : ℕ)
    (r : Ring h lst.sentinel xs) (dead : h.alive t ≡ false) (enough : length lst.data_plist < fuel)
    (pos : 0 < sz) where
  -- What the search for the first entry and the loop leave.
  abbrev search_and_loop : Heap → Run Built
  search_and_loop = elim (get_entry_index lst.data_plist lst.data_offset) [
    | none ↦ pure (built buf_oom lst.sg_offset lst.data_offset)
    | some (ind, o) ↦
        add_entry_loop pick lst.sg_plist lst.data_plist t (drop ind lst.data_plist) o sz
          lst.sg_offset lst.data_offset
  ]

  started : Ring (entered h t) t []
  started = (sg_entry_init-Ring (record h { alive = update h.alive t true }) t (ground arith)).1

  search_and_loop-Grown :
      Ends
        (λ b g.
          Grown pick (plan_for lst sz) (length lst.data_plist) (entered h t) t [] b g
          × ((plan_for lst sz).outcome.ret ≡ success → (plan_for lst sz).entries ≢ []))
        (search_and_loop (entered h t))
  search_and_loop-Grown = elim (Option-cases (get_entry_index lst.data_plist lst.data_offset)) [
    | inl out ↦
        rw (out, search_and_loop, plan_for)
          (ends (Grown-stop pick _ _ (entered h t) t [] _ started (inl (refl, refl)), λ won. cc))
    | inr ((i, o), found) ↦
        let l = get_entry_index-Located lst.data_plist lst.data_offset i o found in
        let here = drop_of_elem lst.data_plist i l.at in
        rw (found, search_and_loop, plan_for, here)
          (Ends-mono pick
            (add_entry_loop-Grown pick fresh lst.sg_plist lst.data_plist t l.entry
              (drop (suc i) lst.data_plist) o sz lst.sg_offset lst.data_offset (entered h t) [] pos
              started)
            λ b g w. (
              Grown-mono w (omega (arith, ap length here, length-drop-le lst.data_plist i)),
              plan-ne-nil lst.sg_plist lst.data_plist (l.entry ∷ drop (suc i) lst.data_plist) o sz
                  lst.sg_offset lst.data_offset,
            ))
  ]

  leave :
      (p : Plan) (b : Built) (g : Heap)
      → Grown pick p (length lst.data_plist) (entered h t) t [] b g
      → (p.outcome.ret ≡ success → p.entries ≢ [])
      → Ends
          (Added pick h t lst xs p)
          (and_then (add_entry_end fuel lst t b g) (λ q. free t >> pure (q.0, some q.1)))
  leave p b g w full = go b.ret refl w.zs w.ring w.new w.real w.same w.count w.outcome
    where
      why :
          (zs : List Ptr)
          → (b ≡ p.outcome) × (map g.fields zs ≡ p.entries)
            ⊎ ((b.ret ≡ error) × (pick g ≡ null) × Begins (map g.fields zs) p.entries)
          → (b.ret ≡ p.outcome.ret)
            ⊎ ((b.ret ≡ error) × (pick g ≡ null) × Begins (map g.fields zs) p.entries)
      why zs (inl (q, m)) = inl (ap (λ x. x.ret) q)
      why zs (inr x) = inr x

      go :
          (c : AddEntryCode)
          → b.ret ≡ c
          → (zs : List Ptr) → Ring g t zs
          → All (λ a. (entered h t).alive a ≡ false) zs
          → All (λ a. a ≢ null) zs
          → ((a : Ptr) → a ∉ t ∷ zs → SameAt (entered h t) g a)
          → length zs ≤ length lst.data_plist
          → (b ≡ p.outcome) × (map g.fields zs ≡ p.entries)
            ⊎ ((b.ret ≡ error) × (pick g ≡ null) × Begins (map g.fields zs) p.entries)
          → Ends
              (Added pick h t lst xs p)
              (and_then (add_entry_end fuel lst t b g) (λ q. free t >> pure (q.0, some q.1)))
      go success e [] ring new real same n (inl (q, m)) =
          absurd (full (ap (λ x. x.ret) (sym q) ∙ e) (sym m))
      go success e zs ring new real same n (inr (q, _, _)) = absurd (cc (e, q))
      go success e (y ∷ ys) ring new real same n (inl (q, m)) =
          succeed pick h lst xs t fuel r dead g y ys ring new same real p b q e m
      go sg_oom e zs ring new real same n o =
          give_up pick h lst xs t fuel r dead g zs ring new same p b (λ q. cc (e, q)) (omega arith)
            (why zs o)
      go buf_oom e zs ring new real same n o =
          give_up pick h lst xs t fuel r dead g zs ring new same p b (λ q. cc (e, q)) (omega arith)
            (why zs o)
      go error e zs ring new real same n o =
          give_up pick h lst xs t fuel r dead g zs ring new same p b (λ q. cc (e, q)) (omega arith)
            (why zs o)

  -- For a list that holds its nodes, a stack block that is free, an allocator that gives free blocks
  -- and a size that is not zero, `axidma_add_entry` ends without a fault. Either the planned
  -- descriptors succeed and are appended, the first marked SOF and the last EOF, and of what was
  -- allocated only the links of the list change; or the result is an error, the planned one or,
  -- where the allocator gave no block for one of the planned nodes, the code for that, and the same
  -- blocks are allocated and hold the same.
  pub axidma_add_entry-Added :
      Ends (Added pick h t lst xs (plan_for lst sz)) (axidma_add_entry pick t fuel (some lst) sz h)
  unfolding axidma_add_entry make_alive
  axidma_add_entry-Added =
      let nz : (sz == 0) ≡ false = ground arith in
      rw (nz, (sg_entry_init-Ring (record h { alive = update h.alive t true }) t (ground arith)).0)
        (Ends-bind search_and_loop-Grown (λ b g (w, full). leave (plan_for lst sz) b g w full))
