-- ===== src/SgList/Free.antt =====
-- `axidma_free_list` and `axidma_list_del`.
use mpsoc_axidma.Base.{
  ℕ, zero, suc, ◌<◌, ◌≡◌, refl, Bool, true, false, List, [], ◌∷◌, ◌==◌, if◌then◌else◌, arith, All,
  length, some,
}
use mpsoc_axidma.Heap.{Ptr, Heap, ok, update}
use mpsoc_axidma.Heap.Ring.{has, ◌∉◌, IsDistinct, Links, Ring, ne_of_mem, All-mono}
use mpsoc_axidma.SgList.{SgList, free_list_loop, axidma_free_list, axidma_list_del}

-- What is allocated after the blocks of the list are freed.
abbrev pub without : (Ptr → Bool) → List Ptr → Ptr → Bool
without alive [] = alive
without alive (x ∷ xs) = without (update alive x false) xs

pub without-has :
    (alive : Ptr → Bool) (xs : List Ptr) (a : Ptr)
    → without alive xs a ≡ (if has a xs then false else alive a)
without-has alive [] a = refl
without-has alive (x ∷ xs) a = ground (arith, without-has (update alive x false) xs a)

free_list_loop-without :
    (k : ℕ) (h : Heap) (s a : Ptr) (xs : List Ptr)
    → Links h.next h.prev a xs s
    → s ∉ xs
    → IsDistinct xs
    → All (λ b. h.alive b ≡ true) xs
    → length xs < k
    → free_list_loop k s (h.next a) h ≡ ok tt (record h { alive = without h.alive xs })
unfolding free_list_loop
free_list_loop-without zero h s a xs l out d live fuel = absurd (omega arith)
free_list_loop-without (suc k) h s a [] l out d live fuel =
    let at : (h.next a == s) ≡ true = ground arith in rw at
free_list_loop-without (suc k) h s a (x ∷ xs) l out d live fuel =
    let at : h.next a ≡ x = l.0 in
    let ne : (x == s) ≡ false = ground arith in
    rw (at, ne, live.0, live.0)
      (free_list_loop-without k (record h { alive = update h.alive x false }) s x xs l.2
        (ground arith) d.1
        (All-mono (λ b. h.alive b ≡ true) (λ b. update h.alive x false b ≡ true) xs live.1
          (λ b m q. ground (arith, ne_of_mem b x xs m)))
        (omega arith))

-- `axidma_free_list` frees exactly the nodes of the list, but the sentinel, and writes nothing else,
-- for any fuel above their number.
pub axidma_free_list-without :
    (fuel : ℕ) (h : Heap) (s : Ptr) (xs : List Ptr)
    → Ring h s xs
    → length xs < fuel
    → axidma_free_list fuel s h ≡ ok tt (record h { alive = without h.alive xs })
unfolding axidma_free_list
axidma_free_list-without fuel h s xs r enough =
    rw r.live.0
      (free_list_loop-without fuel h s s xs r.links r.distinct.0 r.distinct.1 r.live.1 enough)

-- `axidma_list_del` of a list that holds its nodes frees those and the list, and nothing else: it
-- runs without a fault, and afterwards a block is allocated if it was and is neither.
pub axidma_list_del-without :
    (fuel : ℕ) (h : Heap) (lst : SgList) (xs : List Ptr)
    → Ring h lst.sentinel xs
    → length xs < fuel
    → (h' : Heap) × (axidma_list_del fuel (some lst) h ≡ ok tt h')
      × ((a : Ptr) → h'.alive a ≡ (if has a (lst.sentinel ∷ xs) then false else h.alive a))
      × (h'.fields ≡ h.fields)
unfolding axidma_list_del
axidma_list_del-without fuel h lst xs r enough =
    let kept : without h.alive xs lst.sentinel ≡ true =
      ground (arith, without-has h.alive xs lst.sentinel) in
    (
      record h { alive = update (without h.alive xs) lst.sentinel false },
      rw (axidma_free_list-without fuel h lst.sentinel xs r enough, kept),
      λ a. ground (arith, without-has h.alive xs a),
      refl,
    )
