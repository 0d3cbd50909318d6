-- ===== src/Dma/Dequeue.antt =====
-- `axidma_dequeue_s2mm_buf` against the frames of the list: the nodes up to each end-of-frame mark.
use mpsoc_axidma.Base.{
  ℕ, zero, suc, ◌+◌, ◌%◌, ◌^◌, ◌<◌, ◌≡◌, refl, ◌∙◌, ap, Bool, true, false, List, [], ◌∷◌, ◌==◌,
  ◌||◌, if◌then◌else◌, arith, All, length, Bool-cases, inl, inr, add32,
}
use mpsoc_axidma.Heap.{Ptr, Heap, ok}
use mpsoc_axidma.Heap.Ring.{IsDistinct, last_of, Links, Links-prev, apart}
use mpsoc_axidma.SgList.{SgList}
use mpsoc_axidma.Dma.{DescMem, Status, BufCode, transfer_failed, S2mmBuf, is_bad, dequeue_loop}

-- The first node, or the sentinel if there is none.
abbrev pub head_of : Ptr → List Ptr → Ptr
head_of sentinel [] = sentinel
head_of sentinel (x ∷ xs) = x

self : (x : Ptr) → (x == x) ≡ true
self x = ground arith

or_false : (b : Bool) → b ≡ (b || false)
or_false true = refl
or_false false = refl

code_of :
    (x y : Bool) (c : BufCode)
    → (if y then transfer_failed else (if x then transfer_failed else c))
      ≡ (if x || y then transfer_failed else c)
code_of true true c = refl
code_of true false c = refl
code_of false y c = refl

module _ (h : Heap) (m : DescMem) (sg_buf : ℕ) where
  -- What the engine reported for a node.
  abbrev pub status_of : Ptr → Status
  status_of x = (m (sg_buf + (h.fields x).sg_offset)).status

  -- The nodes of the first frame: up to the first with an end-of-frame mark, or all.
  abbrev pub frame : List Ptr → List Ptr
  frame [] = []
  frame (x ∷ xs) = let rest = frame xs in x ∷ (if (status_of x).eof == 0 then rest else [])

  -- The nodes behind it.
  abbrev pub after : List Ptr → List Ptr
  after [] = []
  after (x ∷ xs) = let rest = after xs in if (status_of x).eof == 0 then rest else xs

  abbrev pub total : List Ptr → ℕ
  total [] = 0
  total (x ∷ xs) = (status_of x).len + total xs

  abbrev pub any_bad : List Ptr → Bool
  any_bad [] = false
  any_bad (x ∷ xs) = is_bad (status_of x) || any_bad xs

  -- The buffer that a frame makes, on top of what `b` has.
  abbrev pub gathered : List Ptr → S2mmBuf → S2mmBuf
  gathered xs b = record b {
    len = (b.len + total xs) % 2 ^ 32;
    code = if any_bad xs then transfer_failed else b.code;
  }

  -- The buffer after one more node.
  abbrev pub stepped : Ptr → S2mmBuf → S2mmBuf
  stepped x b = record b {
    len = add32 b.len (status_of x).len;
    code = if is_bad (status_of x) then transfer_failed else b.code;
  }

  gathered-one : (x : Ptr) (b : S2mmBuf) → stepped x b ≡ gathered (x ∷ []) b
  gathered-one x b = λ i. record { base = b.base; len = len_eq i; code = code_eq i }
    where
      len_eq : add32 b.len (status_of x).len ≡ (b.len + ((status_of x).len + 0)) % 2 ^ 32
      len_eq = omega arith

      code_eq :
          (if is_bad (status_of x) then transfer_failed else b.code)
          ≡ (if is_bad (status_of x) || false then transfer_failed else b.code)
      code_eq = ap (λ c. if c then transfer_failed else b.code) (or_false (is_bad (status_of x)))

  gathered-cons :
      (x : Ptr) (xs : List Ptr) (b : S2mmBuf) → gathered xs (stepped x b) ≡ gathered (x ∷ xs) b
  gathered-cons x xs b = λ i. record {
    base = b.base;
    len = len_eq i;
    code = code_of (is_bad (status_of x)) (any_bad xs) b.code i;
  }
    where
      len_eq :
          (add32 b.len (status_of x).len + total xs) % 2 ^ 32
          ≡ (b.len + ((status_of x).len + total xs)) % 2 ^ 32
      len_eq = omega arith

module _ (h : Heap) (m : DescMem) (lst : SgList) where
  pub dequeue_loop-frame :
      (k : ℕ) (a x : Ptr) (ys : List Ptr) (b : S2mmBuf)
      → Links h.next h.prev a (x ∷ ys) lst.sentinel
      → IsDistinct (x ∷ ys)
      → h.alive lst.sentinel ≡ true
      → All (λ c. h.alive c ≡ true) (a ∷ x ∷ ys)
      → length ys < k
      → (e : Ptr) × (dequeue_loop k lst m a b h
          ≡ ok (gathered h m lst.sg_buf (frame h m lst.sg_buf (x ∷ ys)) b, e) h)
        × (h.next e ≡ head_of lst.sentinel (after h m lst.sg_buf (x ∷ ys)))
        × (h.alive e ≡ true)
  unfolding dequeue_loop
  dequeue_loop-frame zero a x ys b l d s live fuel = absurd (omega arith)
  dequeue_loop-frame (suc k) a x [] b l d s live fuel = (
    x,
    rw (live.0, l.0, live.1.0, s, l.2.1, self x)
        (elim (Bool-cases ((status_of h m lst.sg_buf x).eof == 0)) [
          | inl more ↦ rw more (ap (λ r. ok (r, x) h) (gathered-one h m lst.sg_buf x b))
          | inr stop ↦ rw stop (ap (λ r. ok (r, x) h) (gathered-one h m lst.sg_buf x b))
        ]),
    elim (Bool-cases ((status_of h m lst.sg_buf x).eof == 0)) [
      | inl more ↦ rw more l.2.0
      | inr stop ↦ rw stop l.2.0
    ],
    live.1.0,
  )
  dequeue_loop-frame (suc k) a x (y ∷ ys) b l d s live fuel =
      let at_end : h.prev lst.sentinel ≡ last_of y ys =
        Links-prev h.next h.prev y ys lst.sentinel l.2.2 in
      let inner : (x == last_of y ys) ≡ false = apart x y ys d.0 in
      elim (Bool-cases ((status_of h m lst.sg_buf x).eof == 0)) [
        | inl more ↦
            let (e, run, next, live_e) =
              dequeue_loop-frame k x y ys (stepped h m lst.sg_buf x b) l.2 d.1 s live.1
                (omega arith) in
            (
              e,
              rw (live.0, l.0, live.1.0, s, at_end, inner, more)
                  (run
                    ∙ ap (λ r. ok (r, e) h)
                        (gathered-cons h m lst.sg_buf x (frame h m lst.sg_buf (y ∷ ys)) b)),
              rw more next,
              live_e,
            )
        | inr stop ↦ (
          x,
          rw (live.0, l.0, live.1.0, s, at_end, inner, stop)
              (ap (λ r. ok (r, x) h) (gathered-one h m lst.sg_buf x b)),
          rw stop l.2.0,
          live.1.0,
        )
      ]
