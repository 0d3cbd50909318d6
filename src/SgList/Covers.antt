-- ===== src/SgList/Covers.antt =====
-- What the descriptors of a call of `axidma_add_entry` describe.
use mpsoc_axidma.Base.{
  ℕ, ◌+◌, ◌^◌, ◌≤◌, ◌<◌, ◌≡◌, refl, ◌≢◌, ◌∙◌, ap, sym, false, List, [], ◌∷◌, ◌++◌, map, All, drop,
  length, Option, some, inl, inr,
}
use mpsoc_axidma.Physlist.Layout.{size, run, bytes, Fits}
use mpsoc_axidma.Physlist.Bytes.{take}
use mpsoc_axidma.Heap.{Ptr, null, SgFields, Heap}
use mpsoc_axidma.Heap.Ring.{Ring}
use mpsoc_axidma.SgList.{SgList, AddEntryCode, success, buf_oom, error, axidma_add_entry}
use mpsoc_axidma.SgList.Mark.{mark, mark_last}
use mpsoc_axidma.SgList.Loop.{Ends, Ends-mono}
use mpsoc_axidma.SgList.Outcome.{plan_for, NoBlock, Added, added, refused}
use mpsoc_axidma.SgList.AddEntry.{axidma_add_entry-Added}
use mpsoc_axidma.SgList.Refusal.{plan_for-refused}
use mpsoc_axidma.SgList.Tile.{covered, Tiles, plan_for-Tiles}

covered-mark_last : (fs : List SgFields) → covered (mark_last fs) ≡ covered fs
covered-mark_last [] = refl
covered-mark_last (f ∷ []) = refl
covered-mark_last (f ∷ g ∷ fs) = ap (λ bs. run f.buf_phys f.len ++ bs) (covered-mark_last (g ∷ fs))

pub covered-mark : (fs : List SgFields) → covered (mark fs) ≡ covered fs
covered-mark [] = refl
covered-mark (f ∷ fs) = covered-mark_last (record f { is_sof = 1 } ∷ fs)

-- On success the new nodes cover the next `sz` bytes of the data buffer, which are there; the data
-- offset moves past them. Otherwise too few bytes are left, or the allocator gives no block for
-- one of the planned nodes, or there is no room for a descriptor.
pub record Covers (pick : Heap → Ptr) (h : Heap) (t : Ptr) (lst : SgList) (xs : List Ptr) (sz : ℕ)
    (r : AddEntryCode × Option SgList) (h' : Heap) : Type 0 where
  pub won :
      r.0 ≡ success
      → (zs : List Ptr) × (lst' : SgList) × (r.1 ≡ some lst')
        × Ring h' lst.sentinel (xs ++ zs)
        × (covered (map h'.fields zs) ≡ take sz (drop lst.data_offset (bytes lst.data_plist)))
        × (lst'.data_offset ≡ lst.data_offset + sz)
        × (lst.data_offset + sz ≤ size lst.data_plist)
  pub out : r.0 ≡ buf_oom → size lst.data_plist < lst.data_offset + sz
  pub broke : r.0 ≡ error → NoBlock pick h' t (plan_for lst sz)

Added-Covers :
    (pick : Heap → Ptr) (h : Heap) (stack : Ptr) (lst : SgList) (xs : List Ptr) (sz : ℕ)
    (r : AddEntryCode × Option SgList) (h' : Heap)
    → Tiles lst.data_plist
        (plan_for lst sz)
        sz
        lst.data_offset
        (drop lst.data_offset (bytes lst.data_plist))
    → Added pick h stack lst xs (plan_for lst sz) r h'
    → Covers pick h stack lst xs sz r h'
Added-Covers pick h stack lst xs sz _ h' t (added {lst'} won a) =
    let (cover, offset, room) = t.won won in
    record {
      won = λ e. (
        a.zs,
        lst',
        refl,
        a.ring,
        ap covered a.fields ∙ covered-mark (plan_for lst sz).entries ∙ cover,
        ap (λ q. q.data_offset) a.offsets ∙ offset,
        room,
      );
      out = λ e. absurd (cc e);
      broke = λ e. absurd (cc e);
    }
Added-Covers pick h stack lst xs sz _ h' t (refused lost why u) = record {
  won = λ e. absurd (lost e);
  out = λ e. elim why [ inl q ↦ t.out (sym q ∙ e) | inr (q, _) ↦ absurd (cc (e, q)) ];
  broke = λ e. elim why [
    | inl q ↦ absurd (plan_for-refused lst sz (sym q ∙ e))
    | inr (q, none_left) ↦ none_left
  ];
}

-- Where the buffer is shorter than 4 GiB and lies in the physical address space, and the size is not
-- zero, `axidma_add_entry` ends without a fault. If it succeeds, then the nodes that it appends cover
-- exactly the next `sz` bytes of the data buffer, in order, and those bytes are there; the data offset
-- moves past them. It reports that the buffer is too short only when fewer bytes are left, and an error
-- only when the allocator gives no block in the memory in which the call asks for one: that which the
-- call leaves with, beside, its local list of new nodes, which hold the first of the planned
-- descriptors, but not all.
pub axidma_add_entry-Covers :
    (pick : Heap → Ptr) (fresh : (h : Heap) → pick h ≢ null → h.alive (pick h) ≡ false) (t : Ptr)
    (fuel : ℕ) (h : Heap) (lst : SgList) (xs : List Ptr) (sz : ℕ)
    → Ring h lst.sentinel xs
    → h.alive t ≡ false
    → length lst.data_plist < fuel
    → 0 < sz
    → All Fits lst.data_plist
    → size lst.data_plist < 2 ^ 32
    → Ends (Covers pick h t lst xs sz) (axidma_add_entry pick t fuel (some lst) sz h)
axidma_add_entry-Covers pick fresh t fuel h lst xs sz r dead enough pos fits small =
    Ends-mono pick (axidma_add_entry-Added pick fresh t fuel h lst xs sz r dead enough pos)
      λ q g a. Added-Covers pick h t lst xs sz q g (plan_for-Tiles lst sz pos fits small) a
