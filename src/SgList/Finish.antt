-- ===== src/SgList/Finish.antt =====
-- What follows the loop of `axidma_add_entry`, when it has built its descriptors and when it has not.
use mpsoc_axidma.Base.{ℕ, ◌<◌, ◌≡◌, refl, ◌≢◌, true, List, ◌∷◌, ◌++◌, map, arith, length, ◌∙◌, ap}
use mpsoc_axidma.Heap.{Ptr, Heap, Run, ok, update}
use mpsoc_axidma.Heap.Ring.{
  ◌∈◌, IsDisjoint, last_of, last_of-mem, Links-prev, Links-frame, Ring, All-mem, All-mono,
}
use mpsoc_axidma.SgList.{
  SgList, AddEntryCode, success, sg_oom, buf_oom, error, Built, add_entry_end,
}
use mpsoc_axidma.SgList.Links.{spliced_before, sg_entry_add_list_before-Ring}
use mpsoc_axidma.SgList.Free.{without, axidma_free_list-without}
use mpsoc_axidma.SgList.Loop.{SameAt}
use mpsoc_axidma.SgList.Mark.{as_sof, as_eof, mark, map-mark}

-- A list is as it was if memory agrees at its sentinel and its nodes.
pub Ring-same :
    (h h' : Heap) (s : Ptr) (xs : List Ptr)
    → Ring h s xs
    → ((a : Ptr) → a ∈ s ∷ xs → SameAt h h' a)
    → Ring h' s xs
Ring-same h h' s xs r same = record {
  links =
      Links-frame h.next h.prev h'.next h'.prev s xs s r.links (λ c m. (same c m).1)
        (λ c m. (same c (ground arith)).2) (same s (ground arith)).2;
  distinct = r.distinct;
  live =
      All-mono (λ a. h.alive a ≡ true) (λ a. h'.alive a ≡ true) (s ∷ xs) r.live
        (λ a m q. (same a m).0 ∙ q);
}

-- The memory after the marks.
abbrev pub marked : Heap → (first last : Ptr) → Heap
marked h first last =
    let g = update h.fields first (as_sof (h.fields first)) in
    record h { fields = update g last (as_eof (g last)) }

abbrev pub finished : Heap → (s last first end : Ptr) → Heap
finished h s last first end = spliced_before (marked h first end) s last first end

-- On success the local list is marked and goes to the end of the list.
pub add_entry_end_success :
    (fuel : ℕ) (lst : SgList) (t y : Ptr) (xs ys : List Ptr) (b : Built) (h : Heap)
    → b.ret ≡ success
    → Ring h lst.sentinel xs
    → Ring h t (y ∷ ys)
    → IsDisjoint (lst.sentinel ∷ xs) (t ∷ y ∷ ys)
    → let h' = finished h lst.sentinel (last_of lst.sentinel xs) y (last_of y ys) in
      (add_entry_end fuel lst t b h
        ≡ ok (success, record lst { sg_offset = b.sg_offset; data_offset = b.data_offset }) h')
      × Ring h' lst.sentinel (xs ++ y ∷ ys)
      × (map h'.fields (y ∷ ys) ≡ mark (map h.fields (y ∷ ys)))
unfolding add_entry_end
add_entry_end_success fuel lst t y xs ys b h won r q apart =
    let end = last_of y ys in
    let live_end : h.alive end ≡ true =
      All-mem (λ a. h.alive a ≡ true) (y ∷ ys) end q.live.1 (last_of-mem y ys) in
    let at_end : h.prev t ≡ end = Links-prev h.next h.prev y ys t q.links.2 in
    let g = marked h y end in
    let r' : Ring g lst.sentinel xs = record {
      links = r.links;
      distinct = r.distinct;
      live = r.live;
    } in
    let q' : Ring g t (y ∷ ys) = record { links = q.links; distinct = q.distinct; live = q.live } in
    let (run, ring) = sg_entry_add_list_before-Ring g lst.sentinel xs t y ys r' q' apart in
    (
      rw (
        won, add_entry_end, q.live.0, q.links.0, q.live.1.0, q.live.1.0, q.live.0, at_end, live_end,
        live_end, run,
      ),
      ring,
      map-mark h.fields y ys q.distinct.1,
    )

-- On any other code the local list is freed.
pub add_entry_end_failure :
    (fuel : ℕ) (lst : SgList) (t : Ptr) (zs : List Ptr) (b : Built) (h : Heap)
    → b.ret ≢ success
    → Ring h t zs
    → length zs < fuel
    → add_entry_end fuel lst t b h ≡ ok (b.ret, lst) (record h { alive = without h.alive zs })
unfolding add_entry_end
add_entry_end_failure fuel lst t zs b h lost r enough = go b.ret refl
  where
    freed : Heap
    freed = record h { alive = without h.alive zs }

    result : AddEntryCode → Run (AddEntryCode × SgList)
    result c = ok (c, lst) freed

    back : {c : AddEntryCode} → b.ret ≡ c → result b.ret ≡ result c
    back e = ap result e

    go :
        (c : AddEntryCode)
        → b.ret ≡ c
        → add_entry_end fuel lst t b h ≡ ok (b.ret, lst) (record h { alive = without h.alive zs })
    go success e = absurd (lost e)
    go sg_oom e = rw (e, add_entry_end, axidma_free_list-without fuel h t zs r enough) (back e)
    go buf_oom e = rw (e, add_entry_end, axidma_free_list-without fuel h t zs r enough) (back e)
    go error e = rw (e, add_entry_end, axidma_free_list-without fuel h t zs r enough) (back e)
