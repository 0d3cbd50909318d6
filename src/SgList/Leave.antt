-- ===== src/SgList/Leave.antt =====
-- The end of `axidma_add_entry`: the local list joins the list, or is freed.
use mpsoc_axidma.Base.{
  ℕ, ◌<◌, ◌≡◌, refl, ◌≢◌, ◌⊎◌, inl, inr, true, false, List, [], ◌∷◌, ◌++◌, map, ◌==◌, ◌||◌, arith,
  All, length, ◌∙◌, ap, sym, some, Bool-cases,
}
use mpsoc_axidma.Heap.{Ptr, null, Heap, pure, update, and_then, ◌>>◌, free}
use mpsoc_axidma.Heap.Ring.{
  has, ◌∉◌, IsDisjoint, last_of, last_of-mem, Ring, All-mem, All-mono, has-append, ne_of_mem,
  not-mem_of_disjoint,
}
use mpsoc_axidma.SgList.{SgList, success, error, Built, add_entry_end}
use mpsoc_axidma.SgList.Links.{initialised}
use mpsoc_axidma.SgList.Free.{without, without-has}
use mpsoc_axidma.SgList.Plan.{Plan}
use mpsoc_axidma.SgList.Loop.{Ends, ends, SameAt, SameAt-trans, Begins}
use mpsoc_axidma.SgList.Mark.{mark}
use mpsoc_axidma.SgList.Outcome.{NoBlock, Added, added, refused}
use mpsoc_axidma.SgList.Finish.{Ring-same, finished, add_entry_end_success, add_entry_end_failure}

-- The memory when the loop starts, with the local list at `t` empty.
abbrev pub entered : Heap → Ptr → Heap
entered h t = initialised (record h { alive = update h.alive t true }) t

module _ (pick : Heap → Ptr) (h : Heap) (lst : SgList) (xs : List Ptr) (t : Ptr) (fuel : ℕ)
    (r : Ring h lst.sentinel xs) (dead : h.alive t ≡ false) where
  entered-SameAt : (a : Ptr) → h.alive a ≡ true → SameAt h (entered h t) a
  entered-SameAt a live = let ne : (a == t) ≡ false = ground arith in ground arith

  -- What was allocated is not the local sentinel, and not new.
  old-not-mem :
      (zs : List Ptr) (a : Ptr)
      → All (λ b. (entered h t).alive b ≡ false) zs
      → h.alive a ≡ true
      → a ∉ t ∷ zs
  old-not-mem [] a new live = ground arith
  old-not-mem (z ∷ zs) a new live = ground (arith, old-not-mem zs a new.1 live, new.0)

  -- `g` is the memory when the loop ends, with the local list `zs`.
  module _ (g : Heap) (zs : List Ptr) (ring : Ring g t zs)
      (new : All (λ a. (entered h t).alive a ≡ false) zs)
      (same : (a : Ptr) → a ∉ t ∷ zs → SameAt (entered h t) g a) where
    old-SameAt : (a : Ptr) → h.alive a ≡ true → SameAt h g a
    old-SameAt a live =
        SameAt-trans h (entered h t) g a (entered-SameAt a live)
          (same a (old-not-mem zs a new live))

    old-Ring : Ring g lst.sentinel xs
    old-Ring =
        Ring-same h g lst.sentinel xs r
          (λ a m. old-SameAt a (All-mem (λ c. h.alive c ≡ true) (lst.sentinel ∷ xs) a r.live m))

    old-IsDisjoint : IsDisjoint (lst.sentinel ∷ xs) (t ∷ zs)
    old-IsDisjoint a m =
        old-not-mem zs a new (All-mem (λ c. h.alive c ≡ true) (lst.sentinel ∷ xs) a r.live m)

    blocks : (a : Ptr) → update g.alive t false a ≡ (has a zs || h.alive a)
    blocks a = elim (Bool-cases (a == t)) [
      | inl e ↦ let q : a ≡ t = ground arith in rw q (ground (arith, ring.distinct.0))
      | inr e ↦ elim (Bool-cases (has a zs)) [
        | inl m ↦ rw (e, m) (All-mem (λ c. g.alive c ≡ true) zs a ring.live.1 m)
        | inr o ↦ rw (e, o) ((same a (ground arith)).0 ∙ ground arith)
      ]
    ]

    -- The blocks after the local list is freed.
    freed_blocks : (a : Ptr) → update (without g.alive zs) t false a ≡ h.alive a
    freed_blocks a = elim (Bool-cases (has a zs)) [
      | inl m ↦
          ground (
            arith,
            without-has g.alive zs a,
            All-mem (λ c. (entered h t).alive c ≡ false) zs a new m,
          )
      | inr o ↦ ground (arith, without-has g.alive zs a, blocks a)
    ]

    -- The memory of a `malloc` that failed, against that which the call leaves.
    live_at : (a : Ptr) → g.alive a ≡ (has a (t ∷ zs) || update (without g.alive zs) t false a)
    live_at a = elim (Bool-cases (a == t)) [
      | inl e ↦ let q : a ≡ t = ground arith in rw q (ground (arith, ring.live.0))
      | inr e ↦ elim (Bool-cases (has a zs)) [
        | inl m ↦ rw (e, m) (All-mem (λ c. g.alive c ≡ true) zs a ring.live.1 m)
        | inr o ↦ ground (arith, without-has g.alive zs a)
      ]
    ]

    no_block :
        (p : Plan)
        → pick g ≡ null
        → Begins (map g.fields zs) p.entries
        → NoBlock pick (record g { alive = update (without g.alive zs) t false }) t p
    no_block p failed begun = record {
      g = g;
      failed = failed;
      zs = zs;
      ring = ring;
      new =
          All-mono (λ a. (entered h t).alive a ≡ false)
            (λ a. update (without g.alive zs) t false a ≡ false) zs new
            (λ a m q. freed_blocks a ∙ ground arith);
      blocks = λ a. live_at a;
      same = λ a live. (live_at a ∙ ground (arith, live), refl, refl, refl);
      begun = begun;
    }

    pub give_up :
        (p : Plan) (b : Built)
        → b.ret ≢ success
        → length zs < fuel
        → (b.ret ≡ p.outcome.ret)
          ⊎ ((b.ret ≡ error) × (pick g ≡ null) × Begins (map g.fields zs) p.entries)
        → Ends
            (Added pick h t lst xs p)
            (and_then (add_entry_end fuel lst t b g) (λ q. free t >> pure (q.0, some q.1)))
    unfolding free
    give_up p b lost enough why =
        let left : without g.alive zs t ≡ true =
          ground (arith, without-has g.alive zs t, ring.live.0, ring.distinct.0) in
        rw (add_entry_end_failure fuel lst t zs b g lost ring enough, left)
          (ends (
            refused lost
              (elim why [
                | inl q ↦ inl q
                | inr (e, failed, begun) ↦ inr (e, no_block p failed begun)
              ])
              (record {
                blocks = freed_blocks;
                same = λ a live. let s = old-SameAt a live in (freed_blocks a, s.1, s.2, s.3);
              })))

  -- On success: the final memory, where the local list was `y ∷ ys`.
  module _ (g : Heap) (y : Ptr) (ys : List Ptr) (ring : Ring g t (y ∷ ys))
      (new : All (λ a. (entered h t).alive a ≡ false) (y ∷ ys))
      (same : (a : Ptr) → a ∉ t ∷ y ∷ ys → SameAt (entered h t) g a) where
    abbrev final : Heap
    final =
        let f = finished g lst.sentinel (last_of lst.sentinel xs) y (last_of y ys) in
        record f { alive = update f.alive t false }

    dead_before : All (λ a. h.alive a ≡ false) (y ∷ ys)
    dead_before =
        All-mono (λ a. (entered h t).alive a ≡ false) (λ a. h.alive a ≡ false) (y ∷ ys) new
          (λ a m q. ground arith)

    final-kept : (a : Ptr) → h.alive a ≡ true → final.fields a ≡ h.fields a
    final-kept a live =
        let out = old-not-mem (y ∷ ys) a new live in
        let ne : (a == last_of y ys) ≡ false =
          ground (arith, ne_of_mem (last_of y ys) a (y ∷ ys) (last_of-mem y ys)) in
        let s = (old-SameAt g (y ∷ ys) ring new same a live).3 in ground arith

    final-same : (a : Ptr) → h.alive a ≡ true → a ∉ lst.sentinel ∷ xs → SameAt h final a
    final-same a live o =
        let out = old-not-mem (y ∷ ys) a new live in
        let ne : (a == last_of y ys) ≡ false =
          ground (arith, ne_of_mem (last_of y ys) a (y ∷ ys) (last_of-mem y ys)) in
        let ne' : (a == last_of lst.sentinel xs) ≡ false = ground (
          arith,
          ne_of_mem (last_of lst.sentinel xs) a (lst.sentinel ∷ xs) (last_of-mem lst.sentinel xs),
        ) in
        let s = old-SameAt g (y ∷ ys) ring new same a live in
        (ground arith, ground arith, ground arith, final-kept a live)

    pub succeed :
        All (λ a. a ≢ null) (y ∷ ys)
        → (p : Plan) (b : Built) → b ≡ p.outcome
        → b.ret ≡ success
        → map g.fields (y ∷ ys) ≡ p.entries
        → Ends
            (Added pick h t lst xs p)
            (and_then (add_entry_end fuel lst t b g) (λ q. free t >> pure (q.0, some q.1)))
    unfolding free
    succeed real p b planned won fields =
        let (run, ring', marks) =
          add_entry_end_success fuel lst t y xs ys b g won (old-Ring g (y ∷ ys) ring new same) ring
            (old-IsDisjoint g (y ∷ ys) ring new same) in
        let local_out : t ∉ lst.sentinel ∷ (xs ++ y ∷ ys) = ground (
          arith,
          has-append t xs (y ∷ ys),
          ring.distinct.0,
          not-mem_of_disjoint (lst.sentinel ∷ xs) (t ∷ y ∷ ys) t
              (old-IsDisjoint g (y ∷ ys) ring new same),
        ) in
        rw (run, ring.live.0)
          (ends (
            added (ap (λ q. q.ret) (sym planned) ∙ won) (record {
              zs = y ∷ ys;
              ring = record {
                links = ring'.links;
                distinct = ring'.distinct;
                live =
                    All-mono (λ a. g.alive a ≡ true) (λ a. final.alive a ≡ true)
                      (lst.sentinel ∷ (xs ++ y ∷ ys)) ring'.live
                      (λ a m q.
                        ground (arith, ne_of_mem a t (lst.sentinel ∷ (xs ++ y ∷ ys)) m local_out));
              };
              new = dead_before;
              real = real;
              fields = marks ∙ ap mark fields;
              offsets =
                  ap (λ q. record lst { sg_offset = q.sg_offset; data_offset = q.data_offset })
                    planned;
              kept = final-kept;
              same = final-same;
              blocks = blocks g (y ∷ ys) ring new same;
            })))
