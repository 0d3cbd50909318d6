-- ===== src/SgList/Links.antt =====
-- The list helpers of src/axidma.c on well-formed lists.
use mpsoc_axidma.Base.{◌≡◌, refl, true, false, List, [], ◌∷◌, ◌++◌, ◌==◌, arith}
use mpsoc_axidma.Heap.{Ptr, Heap, ok, update}
use mpsoc_axidma.Heap.Ring.{
  ◌∉◌, IsDisjoint, last_of, Ring, last_of-mem, All-mem, ne_of_mem, not-mem_of_disjoint, Links-prev,
  Links-retarget, Links-splice, IsDistinct-append, All-append,
}
use mpsoc_axidma.SgList.{sg_entry_init, sg_entry_add_before, sg_entry_add_list_before}

-- The memory after `sg_entry_init`.
abbrev pub initialised : Heap → Ptr → Heap
initialised h s = record h { next = update h.next s s; prev = update h.prev s s }

-- `sg_entry_init` makes an allocated node the empty list at itself.
pub sg_entry_init-Ring :
    (h : Heap) (s : Ptr)
    → h.alive s ≡ true
    → (sg_entry_init s h ≡ ok tt (initialised h s)) × Ring (initialised h s) s []
unfolding sg_entry_init
sg_entry_init-Ring h s live =
    (rw (live, live), record { links = ground arith; distinct = (refl, tt); live = (live, tt) })

-- The memory after `sg_entry_add_before`, where `last` was the last node.
abbrev pub linked_before : Heap → (s last new : Ptr) → Heap
linked_before h s last new = record h {
  next = update (update h.next last new) new s;
  prev = update (update h.prev new last) s new;
}

-- `sg_entry_add_before` appends an allocated node that is not in the list, and changes only links.
pub sg_entry_add_before-Ring :
    (h : Heap) (s : Ptr) (xs : List Ptr) (new : Ptr)
    → Ring h s xs
    → h.alive new ≡ true
    → new ∉ s ∷ xs
    → (sg_entry_add_before s new h ≡ ok tt (linked_before h s (last_of s xs) new))
      × Ring (linked_before h s (last_of s xs) new) s (xs ++ new ∷ [])
unfolding sg_entry_add_before
sg_entry_add_before-Ring h s xs new r live out =
    let last = last_of s xs in
    let at : h.prev s ≡ last = Links-prev h.next h.prev s xs s r.links in
    let live_last : h.alive last ≡ true =
      All-mem (λ a. h.alive a ≡ true) (s ∷ xs) last r.live (last_of-mem s xs) in
    (
      rw (r.live.0, at, live_last, live, live, r.live.0),
      record {
        links =
            Links-splice h.next h.prev (linked_before h s last new).next
              (linked_before h s last new).prev s xs s new [] s r.links r.distinct
              (λ c m ne. ground (arith, ne_of_mem c new (s ∷ xs) m out))
              (λ c m. ground (arith, ne_of_mem c new xs m, ne_of_mem c s xs m r.distinct.0))
              (ground (arith, ne_of_mem last new (s ∷ xs) (last_of-mem s xs) out)) (ground arith)
              (ground arith);
        distinct =
            IsDistinct-append (s ∷ xs) (new ∷ []) r.distinct (refl, tt)
              (λ a m. ground (arith, ne_of_mem a new (s ∷ xs) m out));
        live = All-append (λ a. h.alive a ≡ true) (s ∷ xs) (new ∷ []) r.live (live, tt);
      },
    )

-- The memory after `sg_entry_add_list_before`, where `last` was the last node of the list and
-- `first` and `end` are the first and the last of the nodes that are added.
abbrev pub spliced_before : Heap → (s last first end : Ptr) → Heap
spliced_before h s last first end = record h {
  next = update (update h.next last first) end s;
  prev = update (update h.prev first last) s end;
}

-- `sg_entry_add_list_before` appends the nodes of a second list, which shares none with the first
-- and is not empty, and changes only links.
pub sg_entry_add_list_before-Ring :
    (h : Heap) (s : Ptr) (xs : List Ptr) (t y : Ptr) (ys : List Ptr)
    → Ring h s xs
    → Ring h t (y ∷ ys)
    → IsDisjoint (s ∷ xs) (t ∷ y ∷ ys)
    → (sg_entry_add_list_before s t h ≡ ok tt (spliced_before h s (last_of s xs) y (last_of y ys)))
      × Ring (spliced_before h s (last_of s xs) y (last_of y ys)) s (xs ++ y ∷ ys)
unfolding sg_entry_add_list_before
sg_entry_add_list_before-Ring h s xs t y ys r q disjoint =
    let last = last_of s xs in
    let end = last_of y ys in
    let at : h.prev s ≡ last = Links-prev h.next h.prev s xs s r.links in
    let at_end : h.prev t ≡ end = Links-prev h.next h.prev y ys t q.links.2 in
    let live_last : h.alive last ≡ true =
      All-mem (λ a. h.alive a ≡ true) (s ∷ xs) last r.live (last_of-mem s xs) in
    let live_end : h.alive end ≡ true =
      All-mem (λ a. h.alive a ≡ true) (y ∷ ys) end q.live.1 (last_of-mem y ys) in
    let first : h.next t ≡ y = q.links.0 in
    let end_out : end ∉ s ∷ xs =
      not-mem_of_disjoint (s ∷ xs) (t ∷ y ∷ ys) end disjoint (ground (arith, last_of-mem y ys)) in
    let first_out : y ∉ s ∷ xs =
      not-mem_of_disjoint (s ∷ xs) (t ∷ y ∷ ys) y disjoint (ground arith) in
    let head_out : s ∉ y ∷ ys = ground (arith, disjoint s) in
    let other : (t == y) ≡ false = ground arith in
    let last_out : last ∉ y ∷ ys = ground (arith, disjoint last (last_of-mem s xs)) in
    let split : (last == end) ≡ false = ne_of_mem last end (s ∷ xs) (last_of-mem s xs) end_out in
    (
      rw (
        r.live.0, at, q.live.0, first, live_last, q.live.1.0, q.live.0, other, at_end, r.live.0,
        live_end,
      ),
      record {
        links =
            Links-splice h.next h.prev (spliced_before h s last y end).next
              (spliced_before h s last y end).prev s xs s y ys s r.links r.distinct
              (λ c m ne. ground (arith, ne_of_mem c end (s ∷ xs) m end_out))
              (λ c m. ground (
                arith,
                ne_of_mem c s xs m r.distinct.0,
                ne_of_mem c y (s ∷ xs) (ground arith) first_out,
              ))
              (ground arith) (ground arith)
              (Links-retarget h.next h.prev (spliced_before h s last y end).next
                (spliced_before h s last y end).prev y ys t s q.links.2 q.distinct.1
                (λ c m ne. ground (arith, ne_of_mem c last (y ∷ ys) m last_out))
                (λ c m. ground (
                  arith,
                  ne_of_mem c s (y ∷ ys) (ground arith) head_out,
                  ne_of_mem c y ys m q.distinct.1.0,
                ))
                (ground arith) (ground arith));
        distinct =
            IsDistinct-append (s ∷ xs) (y ∷ ys) r.distinct q.distinct.1
              (λ a m. ground (arith, disjoint a m));
        live = All-append (λ a. h.alive a ≡ true) (s ∷ xs) (y ∷ ys) r.live q.live.1;
      },
    )
