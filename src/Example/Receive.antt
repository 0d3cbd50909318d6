-- ===== src/Example/Receive.antt =====
-- The loop that receives buffers ends, with the buffer of each frame in order.
use mathlib.Core.List.{append_assoc}
use mpsoc_axidma.Base.{
  ℕ, zero, suc, ◌+◌, ◌≡◌, refl, ◌∙◌, ap, ◌≤◌, ◌<◌, Bool, true, false, List, [], ◌∷◌, ◌++◌, ◌==◌,
  if◌then◌else◌, length, map, All, ◌≢◌, sym, subst, arith,
}
use mpsoc_axidma.Heap.{Ptr, Heap, ok, null}
use mpsoc_axidma.Heap.Ring.{Ring}
use mpsoc_axidma.SgList.{SgList}
use mpsoc_axidma.Dma.{
  DescMem, S2mmBuf, transfer_success, transfer_failed, end_buf, BufCode, axidma_dequeue_s2mm_buf,
}
use mpsoc_axidma.Dma.Dequeue.{frame, after, any_bad, head_of}
use mpsoc_axidma.Dma.Walk.{At, axidma_dequeue_s2mm_buf-frame}
use mpsoc_axidma.Example.{Received, receive}
use mpsoc_axidma.Example.Split.{frames, frames-cons, frame-after, length-after, buffer_for}

-- How many buffers are good.
abbrev pub good : List S2mmBuf → ℕ
good [] = 0
good (b ∷ bs) = elim b.code [ transfer_success ↦ suc (good bs) | _ ↦ good bs ]

abbrev code_for : Bool → BufCode
code_for bad = if bad then transfer_failed else transfer_success

received :
    (k fuel cnt : ℕ) (lst lst' : SgList) (m : DescMem) (h : Heap) (b : S2mmBuf) (bad : Bool)
    (r : Received)
    → axidma_dequeue_s2mm_buf fuel lst m h ≡ ok (b, lst') h
    → b.code ≡ code_for bad
    → receive k fuel (if bad then cnt else cnt + 1) lst' m h ≡ ok r h
    → receive (suc k) fuel cnt lst m h ≡ ok (record r { bufs = b ∷ r.bufs }) h
unfolding receive
received k fuel cnt lst lst' m h b true r deq code rest = simp (deq, code, rest)
received k fuel cnt lst lst' m h b false r deq code rest = simp (deq, code, rest)

good-cons :
    (cnt : ℕ) (b : S2mmBuf) (bad : Bool) (bs : List S2mmBuf)
    → b.code ≡ code_for bad
    → (if bad then cnt else cnt + 1) + good bs ≡ cnt + good (b ∷ bs)
good-cons cnt b true bs code = rw code refl
good-cons cnt b false bs code = rw code (omega arith)

self : (x : Ptr) → (x == x) ≡ true
self x = ground arith

At-after :
    (h : Heap) (m : DescMem) (lst : SgList) (pre xs : List Ptr)
    → At h lst pre xs
    → At h
        (record lst { to_vist = head_of lst.sentinel (after h m lst.sg_buf xs) })
        (pre ++ frame h m lst.sg_buf xs)
        (after h m lst.sg_buf xs)
At-after h m lst pre xs w =
    let same : pre ++ xs ≡ (pre ++ frame h m lst.sg_buf xs) ++ after h m lst.sg_buf xs =
      ap (λ ys. pre ++ ys) (sym (frame-after h m lst.sg_buf xs))
      ∙ sym (append_assoc pre (frame h m lst.sg_buf xs) (after h m lst.sg_buf xs)) in
    record {
      ring = subst (Ring h lst.sentinel) same w.ring;
      here = refl;
      real = (w.real.0, subst (All (λ a. a ≢ null)) same w.real.1);
    }

at_end :
    (fuel : ℕ) (lst : SgList) (m : DescMem) (h : Heap)
    → lst.to_vist ≡ lst.sentinel
    → lst.sentinel ≢ null
    → axidma_dequeue_s2mm_buf fuel lst m h ≡ ok (end_buf, record lst { to_vist = null }) h
unfolding axidma_dequeue_s2mm_buf
at_end fuel lst m h e ne =
    let real : (lst.sentinel == null) ≡ false = ground (arith, ne) in
    simp (e, real, self lst.sentinel)

-- At the start of a list, or behind some of its frames, with a round more than there are nodes left:
-- the loop ends without a fault and writes no memory; it receives a buffer for each of the frames
-- that are left, in order, and `cnt` grows by the number of the good ones. The walk is then over.
pub receive-frames :
    (k fuel cnt : ℕ) (h : Heap) (m : DescMem) (lst : SgList) (pre xs : List Ptr)
    → At h lst pre xs
    → length xs < k
    → length xs ≤ fuel
    → let bufs = map (buffer_for h m lst) (frames h m lst.sg_buf xs) in
      receive k fuel cnt lst m h
      ≡ ok (record { bufs = bufs; cnt = cnt + good bufs; list = record lst { to_vist = null } }) h
unfolding receive
receive-frames zero fuel cnt h m lst pre xs w rounds enough = absurd (omega arith)
receive-frames (suc k) fuel cnt h m lst pre [] w rounds enough =
    rw (at_end fuel lst m h w.here w.real.0) (
      ap (λ n. ok (record { bufs = []; cnt = n; list = record lst { to_vist = null } }) h)
        {y = cnt + 0} (omega arith))
receive-frames (suc k) fuel cnt h m lst pre (x ∷ ys) w rounds enough =
    let fs = frames h m lst.sg_buf (after h m lst.sg_buf (x ∷ ys)) in
    let f = frame h m lst.sg_buf (x ∷ ys) in
    let bufs = map (buffer_for h m lst) fs in
    let bad = any_bad h m lst.sg_buf f in
    let b = buffer_for h m lst f in
    let lst' = record lst { to_vist = head_of lst.sentinel (after h m lst.sg_buf (x ∷ ys)) } in
    let short = length-after h m lst.sg_buf x ys in
    let rest =
      receive-frames k fuel (if bad then cnt else cnt + 1) h m lst' (pre ++ f)
        (after h m lst.sg_buf (x ∷ ys)) (At-after h m lst pre (x ∷ ys) w) (omega arith)
        (omega arith) in
    received k fuel cnt lst lst' m h b bad _
      (axidma_dequeue_s2mm_buf-frame fuel h m lst pre x ys w enough) refl rest
    ∙ ap (λ n. ok (record { bufs = b ∷ bufs; cnt = n; list = record lst { to_vist = null } }) h)
        (good-cons cnt b bad bufs refl)
    ∙ ap
        (λ gs.
          ok
            (record {
              bufs = map (buffer_for h m lst) gs;
              cnt = cnt + good (map (buffer_for h m lst) gs);
              list = record lst { to_vist = null };
            })
            h)
        (sym (frames-cons h m lst.sg_buf x ys))
