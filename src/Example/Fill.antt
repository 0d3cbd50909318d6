-- ===== src/Example/Fill.antt =====
-- The loop that adds buffers keeps the list well formed.
use mathlib.Core.List.{append_assoc, append-nil}
use mpsoc_axidma.Base.{
  ◌||◌, Bool-cases, ℕ, zero, suc, ◌+◌, ◌*◌, ◌≡◌, refl, ◌≢◌, ◌∙◌, ap, ◌%◌, ◌≤◌, ◌<◌, false, List, [],
  ◌∷◌, ◌++◌, length, length-append, map, All, sym, subst, inl, inr, arith, Option,
}
use mpsoc_axidma.Physlist.Layout.{size}
use mpsoc_axidma.Physlist.Steady.{Steady}
use mpsoc_axidma.Physlist.Room.{HoldsDescriptors}
use mpsoc_axidma.Heap.{Ptr, Heap, null}
use mpsoc_axidma.SgList.{SgList, AddEntryCode, success, sg_oom, buf_oom, error}
use mpsoc_axidma.SgList.Loop.{Ends, ends, Ends-mono}
use mpsoc_axidma.SgList.Outcome.{Ends-bind, NoBlock, plan_for}
use mpsoc_axidma.SgList.Invariant.{HoldsData, WellFormed, Extended, map-same, All-append}
use mpsoc_axidma.SgList.State.{axidma_add_entry-Extended}
use mpsoc_axidma.Heap.Ring.{has, ◌∈◌, has-append}
use mpsoc_axidma.SgList.Frame.{IsFrame}
use mpsoc_axidma.Example.Split.{flat}
use mpsoc_axidma.SgList.Stack.{axidma_add_entry-free}
use mpsoc_axidma.Example.{
  Filling, all_added, no_descriptors, no_data, exits, list_at, next_round, add_buffers,
}

-- Each group of nodes is a frame for the next `sz` bytes, from an offset on.
abbrev pub Buffers : Heap → (off sz : ℕ) → List (List Ptr) → Type 0
Buffers h off sz [] = Unit
Buffers h off sz (zs ∷ zss) = IsFrame off sz (map h.fields zs) × Buffers h (off + sz) sz zss

-- After the loop over `n` buffers of `sz` bytes: there is a group of nodes for each of the buffers that
-- were added, behind the old nodes. It lacks room for descriptors only near the end of their buffer.
pub record Filled (pick : Heap → Ptr) (h : Heap) (stack : Ptr) (lst : SgList) (xs : List Ptr)
    (n sz : ℕ) (r : Filling × SgList) (h' : Heap) : Type 0 where
  pub zss : List (List Ptr)
  pub well : WellFormed h' r.1 (xs ++ flat zss)
  pub frames : Buffers h' lst.data_offset sz zss
  pub real : All (λ a. a ≢ null) (flat zss)
  pub few : length (flat zss) ≤ length zss * length lst.data_plist
  pub kept : (a : Ptr) → a ∈ xs → h'.fields a ≡ h.fields a
  pub new : (a : Ptr) → a ∈ flat zss → h.alive a ≡ false
  pub blocks : (a : Ptr) → h'.alive a ≡ (has a (flat zss) || h.alive a)
  pub rounds : length zss ≤ n
  pub moved : r.1.data_offset ≡ lst.data_offset + length zss * sz
  pub bufs : r.1 ≡ record lst { sg_offset = r.1.sg_offset; data_offset = r.1.data_offset }
  pub all : r.0 ≡ all_added → length zss ≡ n
  pub out : r.0 ≡ no_data → size lst.data_plist < lst.data_offset + (length zss + 1) * sz
  pub broke : r.0 ≡ exits → NoBlock pick h' stack (plan_for r.1 sz)
  pub packed :
      (c b : ℕ)
      → Steady c lst.sg_plist
      → b % 64 ≡ c % 64
      → lst.sg_offset ≤ b
      → r.0 ≡ no_descriptors
      → size lst.sg_plist < b + 64 * ((length zss + 1) * length lst.data_plist) + 64

module _ (pick : Heap → Ptr) (fresh : (h : Heap) → pick h ≢ null → h.alive (pick h) ≡ false)
    (stack : Ptr) (fuel sz : ℕ) (pos : 0 < sz) where
  added_offset :
      (h : Heap) (lst : SgList) (xs : List Ptr) (r : AddEntryCode × Option SgList) (g : Heap)
      → (x : Extended pick h stack lst xs sz r g) → r.0 ≡ success
      → x.lst'.data_offset ≡ lst.data_offset + sz
  added_offset h lst xs r g x won = elim x.moved [
    | inl (_, moved) ↦ moved
    | inr (lost, _, _) ↦ absurd (lost won)
  ]

  -- A round that adds a buffer, and the rest of the loop.
  continued :
      (n : ℕ) (h : Heap) (lst : SgList) (xs : List Ptr) (r : AddEntryCode × Option SgList)
      (g : Heap) (x : Extended pick h stack lst xs sz r g)
      → r.0 ≡ success
      → (q : Filling × SgList) (h' : Heap) → Filled pick g stack x.lst' (xs ++ x.zs) n sz q h'
      → Filled pick h stack lst xs (suc n) sz q h'
  continued n h lst xs r g x won q h' y =
      let moved = added_offset h lst xs r g x won in
      record {
        zss = x.zs ∷ y.zss;
        well = subst (WellFormed h' q.1) (append_assoc xs x.zs (flat y.zss)) y.well;
        frames = (
          subst (IsFrame lst.data_offset sz)
              (sym (
                map-same g.fields h'.fields x.zs
                  (λ a m. y.kept a (ground (arith, has-append a xs x.zs)))))
              (x.frame won),
          subst (λ o. Buffers h' o sz y.zss) moved y.frames,
        );
        real = All-append (λ a. a ≢ null) x.zs (flat y.zss) x.real y.real;
        few = grind (
          arith,
          x.few,
          y.few,
          length-append x.zs (flat y.zss),
          ap (λ l. length l.data_plist) x.bufs,
        );
        kept = λ a m. y.kept a (ground (arith, has-append a xs x.zs)) ∙ x.kept a m;
        new = λ a m. elim (Bool-cases (has a x.zs)) [
          | inl mine ↦ x.new a mine
          | inr later ↦
              let mine : a ∈ flat y.zss = ground (arith, has-append a x.zs (flat y.zss)) in
              ground (arith, x.blocks a, y.new a mine, later)
        ];
        blocks = λ a.
            y.blocks a
            ∙ ap (λ b. has a (flat y.zss) || b) (x.blocks a)
            ∙ ground (arith, has-append a x.zs (flat y.zss));
        rounds = omega (arith, y.rounds);
        moved = grind (arith, y.moved, moved);
        bufs =
            y.bufs
            ∙ ap {A = SgList}
                (λ l. record l { sg_offset = q.1.sg_offset; data_offset = q.1.data_offset }) x.bufs;
        all = λ e. omega (arith, y.all e);
        out = λ e. grind (arith, y.out e, moved, ap (λ l. size l.data_plist) x.bufs);
        broke = y.broke;
        packed = λ c b steady phase le e.
            let near = (x.packed c b steady phase le).0 won in
            let same = ap (λ l. l.sg_plist) x.bufs in
            let full =
              y.packed c (b + 64 * length x.zs) (subst (Steady c) (sym same) steady)
                (omega (arith, phase)) near e in
            grind (arith, full, x.few, ap (λ l. length l.data_plist) x.bufs, ap size same);
      }

  -- A round that adds none.
  stopped :
      (f : Filling) (n : ℕ) (h : Heap) (lst : SgList) (xs : List Ptr)
      (r : AddEntryCode × Option SgList) (g : Heap) (x : Extended pick h stack lst xs sz r g)
      → r.0 ≢ success
      → f ≢ all_added
      → (f ≡ no_data → r.0 ≡ buf_oom)
      → (f ≡ exits → r.0 ≡ error)
      → (f ≡ no_descriptors → r.0 ≡ sg_oom)
      → Filled pick h stack lst xs (suc n) sz (f, x.lst') g
  stopped f n h lst xs r g x lost ne data_code exit_code desc_code = elim x.moved [
    | inl (won, _) ↦ absurd (lost won)
    | inr (_, none_new, same) ↦ record {
      zss = [];
      well = subst (λ zs. WellFormed g x.lst' (xs ++ zs)) none_new x.well;
      frames = tt;
      real = tt;
      few = omega arith;
      kept = x.kept;
      new = λ a m. absurd (cc m);
      blocks = λ a. x.blocks a ∙ ap (λ zs. has a zs || h.alive a) none_new;
      rounds = omega arith;
      moved = omega (arith, ap (λ l. l.data_offset) same);
      bufs = x.bufs;
      all = λ e. absurd (ne e);
      out = λ e. omega (arith, x.out (data_code e));
      broke =
          λ e. subst (λ l. NoBlock pick g stack (plan_for l sz)) (sym same) (x.broke (exit_code e));
      packed =
          λ c b steady phase le e. omega (arith, (x.packed c b steady phase le).1 (desc_code e));
    }
  ]

  round :
      (n : ℕ) (h : Heap) (lst : SgList) (xs : List Ptr) (rc : AddEntryCode) (after : Option SgList)
      (g : Heap) (x : Extended pick h stack lst xs sz (rc, after) g)
      → (rc ≡ success
          → Ends
              (Filled pick h stack lst xs (suc n) sz)
              (add_buffers pick stack fuel n sz x.lst' g))
      → Ends (Filled pick h stack lst xs (suc n) sz) (
          next_round rc
            (list_at lst after)
            (add_buffers pick stack fuel n sz (list_at lst after))
            g)
  round n h lst xs success after g x more = rw x.returned (more refl)
  round n h lst xs sg_oom after g x more = rw x.returned (
      ends (
        stopped no_descriptors n h lst xs (sg_oom, after) g x (λ e. cc e) (λ e. cc e)
          (λ e. absurd (cc e)) (λ e. absurd (cc e)) (λ e. refl)))
  round n h lst xs buf_oom after g x more = rw x.returned (
      ends (
        stopped no_data n h lst xs (buf_oom, after) g x (λ e. cc e) (λ e. cc e) (λ e. refl)
          (λ e. absurd (cc e)) (λ e. absurd (cc e))))
  round n h lst xs error after g x more = rw x.returned (
      ends (
        stopped exits n h lst xs (error, after) g x (λ e. cc e) (λ e. cc e) (λ e. absurd (cc e))
          (λ e. refl) (λ e. absurd (cc e))))

  -- For a well-formed list over buffers that hold descriptors and data, an allocator that gives free
  -- blocks, a size that is not zero and enough fuel, the loop over `n` buffers ends without a fault and
  -- leaves a well-formed list with new nodes behind the old ones: a frame of `sz` bytes for each of the
  -- buffers added, one behind the other in the data buffer, and for all `n` if the loop ran to its
  -- end. It says that it ran out of memory for data only if the
  -- next buffer does not fit, and exits only if the allocator gives no block in the memory in which
  -- the next call asks for one: that which the loop leaves with, beside, the call's local list of new
  -- nodes, which hold the first of its planned descriptors, but not all.
  pub add_buffers-Filled :
      (n : ℕ) (h : Heap) (lst : SgList) (xs : List Ptr)
      → WellFormed h lst xs
      → HoldsDescriptors lst.sg_plist
      → HoldsData lst.data_plist
      → h.alive stack ≡ false
      → length lst.data_plist < fuel
      → Ends (Filled pick h stack lst xs n sz) (add_buffers pick stack fuel n sz lst h)
  unfolding add_buffers
  add_buffers-Filled zero h lst xs w good buf unused enough = ends (record {
    zss = [];
    well = subst (WellFormed h lst) (sym (append-nil xs)) w;
    frames = tt;
    real = tt;
    few = omega arith;
    kept = λ a m. refl;
    new = λ a m. absurd (cc m);
    blocks = λ a. refl;
    rounds = omega arith;
    moved = omega arith;
    bufs = refl;
    all = λ e. refl;
    out = λ e. absurd (cc e);
    broke = λ e. absurd (cc e);
    packed = λ c b steady phase le e. absurd (cc e);
  })
  add_buffers-Filled (suc n) h lst xs w good buf unused enough =
      Ends-bind
        (axidma_add_entry-free pick stack fuel h lst sz unused (
          axidma_add_entry-Extended pick fresh stack fuel h lst xs sz w good buf unused enough pos))
        λ (rc, after) g (x, gone).
          let next = λ (won : rc ≡ success).
            Ends-mono pick
              (add_buffers-Filled n g x.lst' (xs ++ x.zs) x.well
                (subst HoldsDescriptors (sym (ap (λ l. l.sg_plist) x.bufs)) good)
                (subst HoldsData (sym (ap (λ l. l.data_plist) x.bufs)) buf) gone
                (subst (λ p. length p < fuel) (sym (ap (λ l. l.data_plist) x.bufs)) enough))
              λ r g' y. continued n h lst xs (rc, after) g x won r g' y in
          round n h lst xs rc after g x next
