-- ===== src/SgList/State.antt =====
-- The invariant of a list that `axidma_list_new` made and `axidma_add_entry` extends.
use mathlib.Core.List.{map-append, append-nil}
use mpsoc_axidma.Base.{
  ℕ, ◌<◌, ◌≡◌, refl, ◌≢◌, ◌∙◌, ap, ap₂, sym, subst, ◌⊎◌, inl, inr, true, false, List, [], ◌∷◌, ◌++◌,
  map, All, drop, length, Option, some, none, arith, ◌==◌, Bool-cases,
}
use mpsoc_axidma.Physlist.{Physlist}
use mpsoc_axidma.Physlist.Layout.{run, bytes}
use mpsoc_axidma.Physlist.Bytes.{take}
use mpsoc_axidma.Physlist.Room.{HoldsDescriptors, Ready-zero}
use mpsoc_axidma.Heap.{Ptr, null, Heap, malloc, update}
use mpsoc_axidma.Heap.Ring.{◌∈◌, All-mem}
use mpsoc_axidma.SgList.{SgList, AddEntryCode, success, axidma_list_new, axidma_add_entry}
use mpsoc_axidma.SgList.Links.{sg_entry_init-Ring}
use mpsoc_axidma.SgList.Mark.{mark}
use mpsoc_axidma.SgList.Loop.{Ends, ends, Ends-mono}
use mpsoc_axidma.SgList.Outcome.{plan_for, Appended, Unchanged, Added, added, refused}
use mpsoc_axidma.SgList.Finish.{Ring-same}
use mpsoc_axidma.SgList.AddEntry.{axidma_add_entry-Added}
use mpsoc_axidma.SgList.Tile.{covered, Tiles, plan_for-Tiles}
use mpsoc_axidma.SgList.Covers.{covered-mark}
use mpsoc_axidma.SgList.Refusal.{plan_for-refused}
use mpsoc_axidma.SgList.Frame.{IsFrame, plan_for-IsFrame, plan_for-length, length-mark}
use mpsoc_axidma.SgList.Slots.{
  Spaced, Spaced-append, offset_of, offsets-mark, Placed, plan_for-Placed,
}
use mpsoc_axidma.SgList.Packed.{plan_for-Packed}
use mpsoc_axidma.SgList.Range.{InRange, mark-InRange, plan_for-InRange}
use mpsoc_axidma.SgList.Invariant.{
  HoldsData, WellFormed, take-add, covered-append, All-append, length-map, map-same, Extended,
}

module _ (pick : Heap → Ptr) (h : Heap) (t : Ptr) (lst : SgList) (xs : List Ptr) (sz : ℕ)
    (w : WellFormed h lst xs) (buf : HoldsData lst.data_plist) where
  live : (a : Ptr) → a ∈ xs → h.alive a ≡ true
  live a m = All-mem (λ b. h.alive b ≡ true) xs a w.ring.live.1 m

  Appended-WellFormed :
      (lst' : SgList) (h' : Heap)
      → (a : Appended h lst xs (plan_for lst sz) lst' h')
      → Tiles lst.data_plist
          (plan_for lst sz)
          sz
          lst.data_offset
          (drop lst.data_offset (bytes lst.data_plist))
      → Placed lst.sg_plist lst.sg_offset sz (plan_for lst sz)
      → (plan_for lst sz).outcome.ret ≡ success
      → WellFormed h' lst' (xs ++ a.zs)
  Appended-WellFormed lst' h' a tiles placed won =
      let p = plan_for lst sz in
      let all = bytes lst.data_plist in
      let (cover, offset, room) = tiles.won won in
      let (spaced, ready) = placed.won won in
      let split : map h'.fields (xs ++ a.zs) ≡ map h.fields xs ++ mark p.entries =
        map-append h'.fields xs a.zs
        ∙ ap₂ ◌++◌ (map-same h.fields h'.fields xs (λ b m. a.kept b (live b m))) a.fields in
      let places : map offset_of (map h.fields xs ++ mark p.entries)
          ≡ map offset_of (map h.fields xs) ++ map offset_of p.entries =
        map-append offset_of (map h.fields xs) (mark p.entries)
        ∙ ap (λ ss. map offset_of (map h.fields xs) ++ ss) (offsets-mark p.entries) in
      subst (λ l. WellFormed h' l (xs ++ a.zs)) (sym a.offsets)
        (record {
          ring = a.ring;
          slots =
              subst (λ ss. Spaced lst.sg_plist 0 ss p.outcome.sg_offset)
                (sym (ap (map offset_of) split ∙ places))
                (Spaced-append lst.sg_plist 0 (map offset_of (map h.fields xs)) lst.sg_offset
                  (map offset_of p.entries) p.outcome.sg_offset w.slots spaced);
          ready = ready;
          tiled =
              ap covered split
              ∙ covered-append (map h.fields xs) (mark p.entries)
              ∙ ap₂ ◌++◌ w.tiled (covered-mark p.entries ∙ cover)
              ∙ sym (take-add lst.data_offset sz all)
              ∙ ap (λ k. take k all) (sym offset);
          within = omega arith;
          fields = subst (All InRange) (sym split) (
              All-append InRange (map h.fields xs) (mark p.entries) w.fields
                (mark-InRange p.entries (plan_for-InRange lst sz buf.short)));
        })

  Unchanged-WellFormed : (h' : Heap) → Unchanged h h' → WellFormed h' lst xs
  Unchanged-WellFormed h' u =
      let same : map h'.fields xs ≡ map h.fields xs =
        map-same h.fields h'.fields xs (λ a m. (u.same a (live a m)).3) in
      record {
        ring =
            Ring-same h h' lst.sentinel xs w.ring (λ a m.
              u.same a (All-mem (λ b. h.alive b ≡ true) (lst.sentinel ∷ xs) a w.ring.live m));
        slots = rw same w.slots;
        ready = w.ready;
        tiled = rw same w.tiled;
        within = w.within;
        fields = rw same w.fields;
      }

  Added-Extended :
      (r : AddEntryCode × Option SgList) (h' : Heap)
      → 0 < sz
      → HoldsDescriptors lst.sg_plist
      → Added pick h t lst xs (plan_for lst sz) r h'
      → Extended pick h t lst xs sz r h'
  Added-Extended _ h' pos good (added {lst'} won a) =
      let tiles = plan_for-Tiles lst sz pos buf.fits buf.small in
      let placed = plan_for-Placed lst sz pos good w.ready in
      record {
        zs = a.zs;
        lst' = lst';
        returned = refl;
        well = Appended-WellFormed lst' h' a tiles placed won;
        moved = inl (refl, ap (λ l. l.data_offset) a.offsets ∙ (tiles.won won).1);
        bufs =
            subst (λ l. l ≡ record lst { sg_offset = l.sg_offset; data_offset = l.data_offset })
              (sym a.offsets) refl;
        full = λ e. absurd (cc e);
        out = λ e. absurd (cc e);
        broke = λ e. absurd (cc e);
        real = a.real;
        few = rw (sym (length-map h'.fields a.zs), a.fields) (plan_for-length lst sz);
        kept = λ b m. a.kept b (live b m);
        new = λ b m. All-mem (λ c. h.alive c ≡ false) a.zs b a.new m;
        blocks = a.blocks;
        packed = λ c b steady phase le. (
          λ e.
              let near = (plan_for-Packed lst sz c b good w.ready steady phase le).won won in
              omega (
                arith,
                near,
                ap (λ l. l.sg_offset) a.offsets,
                sym (length-map h'.fields a.zs) ∙ ap length a.fields,
                length-mark (plan_for lst sz).entries,
              ),
          λ e. absurd (cc e),
        );
        frame =
            λ e. subst (IsFrame lst.data_offset sz) (sym a.fields) (plan_for-IsFrame lst sz won);
      }
  Added-Extended _ h' pos good (refused lost why u) = record {
    zs = [];
    lst' = lst;
    returned = refl;
    well = subst (WellFormed h' lst) (sym (append-nil xs)) (Unchanged-WellFormed h' u);
    moved = inr (lost, refl, refl);
    bufs = refl;
    full = λ e. elim why [
      | inl q ↦ (plan_for-Placed lst sz pos good w.ready).full (sym q ∙ e)
      | inr (q, _) ↦ absurd (cc (e, q))
    ];
    out = λ e. elim why [
      | inl q ↦ (plan_for-Tiles lst sz pos buf.fits buf.small).out (sym q ∙ e)
      | inr (q, _) ↦ absurd (cc (e, q))
    ];
    broke = λ e. elim why [
      | inl q ↦ absurd (plan_for-refused lst sz (sym q ∙ e))
      | inr (q, none_left) ↦ none_left
    ];
    real = tt;
    few = omega arith;
    kept = λ a m. (u.same a (live a m)).3;
    new = λ a m. absurd (cc m);
    blocks = u.blocks;
    packed = λ c b steady phase le. (
      λ e. absurd (lost e),
      λ e. elim why [
        | inl q ↦
            let near = (plan_for-Packed lst sz c b good w.ready steady phase le).full (sym q ∙ e) in
            omega (arith, near, plan_for-length lst sz, length-mark (plan_for lst sz).entries)
        | inr (q, _) ↦ absurd (cc (e, q))
      ],
    );
    frame = λ e. absurd (lost e);
  }

-- For a well-formed list over buffers that hold descriptors and data, a stack block that is free, an
-- allocator that gives free blocks and a size that is not zero, a call ends without a fault and the
-- list is well formed again. On success it has new nodes behind its old ones, which are one
-- frame: only the first is marked SOF and only the last EOF, the first starts at the old data offset
-- and their lengths make `sz`; and its data offset is `sz` further. Otherwise it is as it was. A
-- call has no room for descriptors only if the planned ones, for fewer than `sz` bytes, are followed
-- by no place for another, no room for data only if fewer than `sz` bytes are left, and an error only
-- if the allocator gives no block in the memory in which the call asks for one: that which the call
-- leaves with, beside, its local list of new nodes, which hold the first of the planned descriptors,
-- but not all. In a buffer whose places are 64 bytes apart, each node takes 64
-- bytes at most, and a call has no room only where as many as it can need come within 64 bytes of the
-- end.
pub axidma_add_entry-Extended :
    (pick : Heap → Ptr) (fresh : (h : Heap) → pick h ≢ null → h.alive (pick h) ≡ false) (t : Ptr)
    (fuel : ℕ) (h : Heap) (lst : SgList) (xs : List Ptr) (sz : ℕ)
    → WellFormed h lst xs
    → HoldsDescriptors lst.sg_plist
    → HoldsData lst.data_plist
    → h.alive t ≡ false
    → length lst.data_plist < fuel
    → 0 < sz
    → Ends (Extended pick h t lst xs sz) (axidma_add_entry pick t fuel (some lst) sz h)
axidma_add_entry-Extended pick fresh t fuel h lst xs sz w good buf dead enough pos =
    Ends-mono pick (axidma_add_entry-Added pick fresh t fuel h lst xs sz w.ring dead enough pos)
      λ r g a. Added-Extended pick h t lst xs sz w buf r g pos good a

-- A list at `s` with no node, over two physlists.
abbrev pub new_list : (sg_buf : ℕ) → Physlist → (data_buf : ℕ) → Physlist → Ptr → SgList
new_list sg_buf sg_plist data_buf data_plist s = record {
  sentinel = s;
  to_vist = null;
  sg_buf = sg_buf;
  sg_offset = 0;
  sg_plist = sg_plist;
  data_buf = data_buf;
  data_offset = 0;
  data_plist = data_plist;
}

-- Over a buffer that holds descriptors, `axidma_list_new` ends without a fault. Either the allocator
-- gives no block, the result is NULL and memory is as it was, or it is a well-formed list with no node,
-- over the two buffers and physlists given, at the address of the new block, which is not NULL; and no
-- other block is allocated or freed.
pub axidma_list_new-WellFormed :
    (pick : Heap → Ptr) (sg_buf : ℕ) (sg_plist : Physlist) (data_buf : ℕ) (data_plist : Physlist)
    (h : Heap)
    → HoldsDescriptors sg_plist
    → Ends
        (λ r h'.
          (r ≡ none) × (pick h ≡ null) × (h' ≡ h)
          ⊎ (r ≡ some (new_list sg_buf sg_plist data_buf data_plist (pick h)))
            × (pick h ≢ null)
            × WellFormed h' (new_list sg_buf sg_plist data_buf data_plist (pick h)) []
            × ((a : Ptr) → a ≢ pick h → h'.alive a ≡ h.alive a))
        (axidma_list_new pick sg_buf sg_plist data_buf data_plist h)
unfolding axidma_list_new malloc
axidma_list_new-WellFormed pick sg_buf sg_plist data_buf data_plist h good =
    elim (Bool-cases (pick h == null)) [
      | inl nothing ↦ rw nothing (ends (inl (refl, ground arith, refl)))
      | inr got ↦
          let g = record h { alive = update h.alive (pick h) true } in
          let (run, ring) = sg_entry_init-Ring g (pick h) (ground arith) in
          rw (got, got, run)
            (ends (
              inr (
                refl,
                ground (arith, got),
                record {
                  ring = ring;
                  slots = refl;
                  ready = Ready-zero sg_plist good;
                  tiled = refl;
                  within = omega arith;
                  fields = tt;
                },
                λ a ne. ground (arith, ne),
              )))
    ]
