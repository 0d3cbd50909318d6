-- ===== src/SgList/Loop.antt =====
-- The loop of `axidma_add_entry` in memory: it builds the planned descriptors in its local list.
use mpsoc_axidma.Base.{
  ℕ, suc, ◌-◌, ◌<◌, ◌≡◌, refl, ◌≢◌, ◌⊎◌, inl, inr, true, false, List, [], ◌∷◌, ◌++◌, map, ltb, ◌==◌,
  if◌then◌else◌, arith, All, length, ◌≤◌, Bool-cases, add32, sub32, ◌∙◌, ap₂,
}
use mathlib.Core.List.{append-nil, append_assoc}
use mpsoc_axidma.Physlist.{PhyslistEntry, Physlist, not_found, find_contiguous_aligned_after}
use mpsoc_axidma.Heap.{Ptr, null, SgFields, Heap, Run, ok, Cmd, pure, update}
use mpsoc_axidma.Heap.Ring.{
  has, ◌∈◌, ◌∉◌, last_of, Ring, has-append, All-mono, ne_of_mem, last_of-mem,
}
use mpsoc_axidma.SgList.{
  Built, built, buf_oom, error, sizeof_sg_descriptor, descriptor, is_nil, add_entry_loop,
  sg_entry_add_before,
}
use mpsoc_axidma.SgList.Links.{linked_before, sg_entry_add_before-Ring}
use mpsoc_axidma.SgList.Plan.{Plan, plan_cons, plan}

-- A run that ends without a fault, in a result and a memory with the property.
pub data Ends {A : Type 0} (P : A → Heap → Type 0) : Run A → Type 0 where
  ends : {a : A} {h : Heap} → P a h → Ends P (ok a h)

-- Two memories agree at an address.
abbrev pub SameAt : Heap → Heap → Ptr → Type 0
SameAt h h' a =
    (h'.alive a ≡ h.alive a)
    × (h'.next a ≡ h.next a)
    × (h'.prev a ≡ h.prev a)
    × (h'.fields a ≡ h.fields a)

-- `fs` begins a list of planned descriptors, and is not all of it.
abbrev pub Begins : (fs planned : List SgFields) → Type 0
Begins fs planned = (f : SgFields) × (rest : List SgFields) × (fs ++ f ∷ rest ≡ planned)

-- What the loop does to the memory `h`, where the local list at `t` has the nodes `ys`, with `n`
-- rounds at most. On an error it leaves the memory in which the allocator gives no block.
pub record Grown (pick : Heap → Ptr) (p : Plan) (n : ℕ) (h : Heap) (t : Ptr) (ys : List Ptr)
    (b : Built) (h' : Heap) : Type 0 where
  pub zs : List Ptr
  pub ring : Ring h' t (ys ++ zs)
  pub new : All (λ a. h.alive a ≡ false) zs
  pub real : All (λ a. a ≢ null) zs
  pub same : (a : Ptr) → a ∉ t ∷ (ys ++ zs) → SameAt h h' a
  pub kept : (a : Ptr) → a ∈ ys → h'.fields a ≡ h.fields a
  pub count : length zs ≤ n
  pub outcome :
      (b ≡ p.outcome) × (map h'.fields zs ≡ p.entries)
      ⊎ ((b.ret ≡ error) × (pick h' ≡ null) × Begins (map h'.fields zs) p.entries)

pub SameAt-trans : (h g h' : Heap) (a : Ptr) → SameAt h g a → SameAt g h' a → SameAt h h' a
SameAt-trans h g h' a p q = (q.0 ∙ p.0, q.1 ∙ p.1, q.2 ∙ p.2, q.3 ∙ p.3)

dead-not-mem :
    (h : Heap) (e : Ptr) (xs : List Ptr)
    → h.alive e ≡ false
    → All (λ a. h.alive a ≡ true) xs
    → e ∉ xs
dead-not-mem h e [] dead live = refl
dead-not-mem h e (x ∷ xs) dead live = ground (arith, dead-not-mem h e xs dead live.1)

-- The memory after a round that took the block `e` and gave it the fields `f`.
abbrev placed : Heap → (t last e : Ptr) → SgFields → Heap
placed h t last e f =
    let g = linked_before (record h { alive = update h.alive e true }) t last e in
    record g { fields = update g.fields e f }

-- A round makes `e` the last node of the local list.
place :
    (h : Heap) (t : Ptr) (ys : List Ptr) (e : Ptr) (f : SgFields)
    → Ring h t ys
    → h.alive e ≡ false
    → let h₁ = record h { alive = update h.alive e true } in
      (sg_entry_add_before t e h₁ ≡ ok tt (linked_before h₁ t (last_of t ys) e))
      × Ring (placed h t (last_of t ys) e f) t (ys ++ e ∷ [])
      × ((a : Ptr) → a ∉ t ∷ (ys ++ e ∷ []) → SameAt h (placed h t (last_of t ys) e f) a)
      × ((a : Ptr) → a ∈ ys → (placed h t (last_of t ys) e f).fields a ≡ h.fields a)
place h t ys e f r dead =
    let out = dead-not-mem h e (t ∷ ys) dead r.live in
    let h₁ = record h { alive = update h.alive e true } in
    let r₁ : Ring h₁ t ys = record {
      links = r.links;
      distinct = r.distinct;
      live =
          All-mono (λ a. h.alive a ≡ true) (λ a. h₁.alive a ≡ true) (t ∷ ys) r.live
            (λ a m q. ground (arith, ne_of_mem a e (t ∷ ys) m out));
    } in
    let (run, r₂) = sg_entry_add_before-Ring h₁ t ys e r₁ (ground arith) out in
    (
      run,
      record { links = r₂.links; distinct = r₂.distinct; live = r₂.live },
      λ a o.
          ground (
            arith,
            has-append a ys (e ∷ []),
            ne_of_mem (last_of t ys) a (t ∷ ys) (last_of-mem t ys),
          ),
      λ a m. ground (arith, ne_of_mem a e ys m),
    )

module _ (pick : Heap → Ptr) where
  -- The loop stops with nothing more built.
  pub Grown-stop :
      (p : Plan) (n : ℕ) (h : Heap) (t : Ptr) (ys : List Ptr) (b : Built)
      → Ring h t ys
      → (b ≡ p.outcome) × ([] ≡ p.entries)
        ⊎ ((b.ret ≡ error) × (pick h ≡ null) × Begins [] p.entries)
      → Grown pick p n h t ys b h
  Grown-stop p n h t ys b r o = record {
    zs = [];
    ring = rw append-nil r;
    new = tt;
    real = tt;
    same = λ a out. (refl, refl, refl, refl);
    kept = λ a m. refl;
    count = omega arith;
    outcome = o;
  }

  -- A round, and what the later rounds do.
  Grown-cons :
      (p : Plan) (n : ℕ) (h : Heap) (t : Ptr) (ys : List Ptr) (e : Ptr) (f : SgFields) (b : Built)
      (h' : Heap)
      → Ring h t ys
      → h.alive e ≡ false
      → e ≢ null
      → Grown pick p n (placed h t (last_of t ys) e f) t (ys ++ e ∷ []) b h'
      → Grown pick (plan_cons f p) (suc n) h t ys b h'
  Grown-cons p n h t ys e f b h' r dead ne g =
      let (_, _, same, kept) = place h t ys e f r dead in
      let mine : has e (ys ++ e ∷ []) ≡ true = rw has-append (ground arith) in
      record {
        zs = e ∷ g.zs;
        ring = rw append_assoc at g.ring;
        new = (
          dead,
          All-mono (λ a. update h.alive e true a ≡ false) (λ a. h.alive a ≡ false) g.zs g.new
              (λ a m q. ground arith),
        );
        real = (ne, g.real);
        same = λ a o.
            SameAt-trans h (placed h t (last_of t ys) e f) h' a
              (same a (ground (arith, has-append a ys (e ∷ g.zs), has-append a ys (e ∷ []))))
              (g.same a (
                ground (
                  arith,
                  has-append a ys (e ∷ g.zs),
                  has-append a ys (e ∷ []),
                  has-append a (ys ++ e ∷ []) g.zs,
                )));
        kept = λ a m. g.kept a (rw (has-append, m)) ∙ kept a m;
        count = omega (arith, g.count);
        outcome = elim g.outcome [
          | inl (q, m) ↦ inl (q, ap₂ ◌∷◌ (g.kept e mine ∙ ground arith) m)
          | inr (e', out, (f', rest, m)) ↦
              inr (e', out, (f', rest, ap₂ ◌∷◌ (g.kept e mine ∙ ground arith) m))
        ];
      }

  pub Ends-mono :
      {A : Type 0} {P Q : A → Heap → Type 0} {r : Run A}
      → Ends P r
      → ((a : A) (h : Heap) → P a h → Q a h)
      → Ends Q r
  Ends-mono (ends p) f = ends (f _ _ p)

  module _ (fresh : (h : Heap) → pick h ≢ null → h.alive (pick h) ≡ false)
      (sg_plist data_plist : Physlist) (t : Ptr) where
    -- What a round goes on with where the buffer does not end in its entry.
    abbrev later : Physlist → (sz sg_offset data_offset : ℕ) → Cmd Built
    later ds sz sg_offset data_offset =
        if is_nil ds
        then pure (built buf_oom sg_offset data_offset)
        else add_entry_loop pick sg_plist data_plist t ds 0 sz sg_offset data_offset

    abbrev planned : Physlist → (offset_in_entry sz sg_offset data_offset : ℕ) → Plan
    planned = plan sg_plist data_plist

    round-Grown :
        (d : PhyslistEntry) (ds : Physlist) (o sz sgo dato : ℕ) (h : Heap) (ys : List Ptr)
        → 0 < sz
        → Ring h t ys
        → ((g : Heap) (zs : List Ptr) (sgo' : ℕ)
            → sub32 d.len o < sz
            → Ring g t zs
            → Ends
                (Grown pick
                  (planned ds 0 (sz - sub32 d.len o) sgo' (add32 dato (sub32 d.len o)))
                  (length ds)
                  g
                  t
                  zs)
                (later ds (sz - sub32 d.len o) sgo' (add32 dato (sub32 d.len o)) g))
        → Ends
            (Grown pick (planned (d ∷ ds) o sz sgo dato) (suc (length ds)) h t ys)
            (add_entry_loop pick sg_plist data_plist t (d ∷ ds) o sz sgo dato h)
    unfolding add_entry_loop plan
    round-Grown d ds o sz sgo dato h ys pos r more =
        let slot = find_contiguous_aligned_after sg_plist sgo sizeof_sg_descriptor in
        let space = sub32 d.len o in
        let e = pick h in
        let nz : (sz == 0) ≡ false = ground arith in
        rw nz (elim (Bool-cases (slot == not_found)) [
          | inl full ↦ rw full (ends (Grown-stop _ _ h t ys _ r (inl (refl, refl))))
          | inr free ↦ rw free (elim (Bool-cases (e == null)) [
            | inl no_mem ↦ elim (Bool-cases (ltb space sz)) [
              | inl goes_on ↦
                  rw (no_mem, goes_on)
                    (ends (
                      Grown-stop _ _ h t ys _ r (inr (refl, ground (arith, no_mem), (_, _, refl)))))
              | inr ends_here ↦
                  rw (no_mem, ends_here)
                    (ends (
                      Grown-stop _ _ h t ys _ r (inr (refl, ground (arith, no_mem), (_, _, refl)))))
            ]
            | inr mem ↦
                let dead : h.alive e ≡ false = fresh h (ground arith) in
                let ne : e ≢ null = ground (arith, mem) in
                let live : update h.alive e true e ≡ true = ground arith in
                elim (Bool-cases (ltb space sz)) [
                  | inl goes_on ↦
                      let f = descriptor data_plist slot dato space in
                      let (run, ring, _, _) = place h t ys e f r dead in
                      rw (mem, mem, run, goes_on, live)
                        (Ends-mono (more _ (ys ++ e ∷ []) _ (ground arith) ring)
                          (λ b h'. Grown-cons _ _ h t ys e f b h' r dead ne))
                  | inr ends_here ↦
                      let f = descriptor data_plist slot dato sz in
                      let (run, ring, _, _) = place h t ys e f r dead in
                      rw (mem, mem, run, ends_here, live)
                        (ends (
                          Grown-cons _ _ h t ys e f _ _ r dead ne (
                            Grown-stop _ (length ds) _ t (ys ++ e ∷ []) _ ring (inl (refl, refl)))))
                ]
          ])
        ])

    -- The loop, started inside an entry with a list `ys` built, adds the planned descriptors to it.
    pub add_entry_loop-Grown :
        (d : PhyslistEntry) (ds : Physlist) (o sz sgo dato : ℕ) (h : Heap) (ys : List Ptr)
        → 0 < sz
        → Ring h t ys
        → Ends
            (Grown pick (planned (d ∷ ds) o sz sgo dato) (suc (length ds)) h t ys)
            (add_entry_loop pick sg_plist data_plist t (d ∷ ds) o sz sgo dato h)
    unfolding plan
    add_entry_loop-Grown d [] o sz sgo dato h ys pos r =
        round-Grown d [] o sz sgo dato h ys pos r
          λ g zs sgo' lt q. ends (Grown-stop _ 0 g t zs _ q (inl (refl, refl)))
    add_entry_loop-Grown d (d' ∷ ds) o sz sgo dato h ys pos r =
        round-Grown d (d' ∷ ds) o sz sgo dato h ys pos r λ g zs sgo' lt q.
          add_entry_loop-Grown d' ds 0 (sz - sub32 d.len o) sgo' (add32 dato (sub32 d.len o)) g zs
            (omega arith) q
