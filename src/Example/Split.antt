-- ===== src/Example/Split.antt =====
-- The frames of a list, all at once, and each frame's buffer.
use mpsoc_axidma.Base.{
  ℕ, ◌+◌, ◌≡◌, refl, ap, ◌≤◌, List, [], ◌∷◌, ◌++◌, ◌==◌, if◌then◌else◌, length, Bool-cases, inl,
  inr, arith,
}
use mpsoc_axidma.Heap.{Ptr, Heap}
use mpsoc_axidma.SgList.{SgList}
use mpsoc_axidma.Dma.{DescMem, S2mmBuf, transfer_success, end_buf}
use mpsoc_axidma.Dma.Dequeue.{status_of, frame, after, gathered}

-- A node in front of the first frame.
abbrev pub join : Ptr → List (List Ptr) → List (List Ptr)
join x [] = (x ∷ []) ∷ []
join x (f ∷ fs) = (x ∷ f) ∷ fs

module _ (h : Heap) (m : DescMem) (sg_buf : ℕ) where
  -- The nodes, cut behind each with an end-of-frame mark.
  abbrev pub frames : List Ptr → List (List Ptr)
  frames [] = []
  frames (x ∷ xs) =
      let rest = frames xs in
      if (status_of h m sg_buf x).eof == 0 then join x rest else (x ∷ []) ∷ rest

  pub frames-cons :
      (x : Ptr) (xs : List Ptr)
      → frames (x ∷ xs) ≡ frame h m sg_buf (x ∷ xs) ∷ frames (after h m sg_buf (x ∷ xs))
  frames-cons x [] = elim (Bool-cases ((status_of h m sg_buf x).eof == 0)) [
    | inl more ↦ rw more refl
    | inr stop ↦ rw stop refl
  ]
  frames-cons x (y ∷ xs) = elim (Bool-cases ((status_of h m sg_buf x).eof == 0)) [
    | inl more ↦ rw more (ap (join x) (frames-cons y xs))
    | inr stop ↦ rw stop refl
  ]

  pub frame-after : (xs : List Ptr) → frame h m sg_buf xs ++ after h m sg_buf xs ≡ xs
  frame-after [] = refl
  frame-after (x ∷ xs) = elim (Bool-cases ((status_of h m sg_buf x).eof == 0)) [
    | inl more ↦ rw more (ap (λ ys. x ∷ ys) (frame-after xs))
    | inr stop ↦ rw stop refl
  ]

  pub length-after : (x : Ptr) (xs : List Ptr) → length (after h m sg_buf (x ∷ xs)) ≤ length xs
  length-after x [] = elim (Bool-cases ((status_of h m sg_buf x).eof == 0)) [
    | inl more ↦ rw more (omega arith)
    | inr stop ↦ rw stop (omega arith)
  ]
  length-after x (y ∷ xs) = elim (Bool-cases ((status_of h m sg_buf x).eof == 0)) [
    | inl more ↦ rw more (omega (arith, length-after y xs))
    | inr stop ↦ rw stop (omega arith)
  ]

-- All nodes of some groups of nodes.
abbrev pub flat : List (List Ptr) → List Ptr
flat [] = []
flat (zs ∷ zss) = zs ++ flat zss

-- The buffer of a frame.
abbrev pub buffer_for : Heap → DescMem → SgList → List Ptr → S2mmBuf
buffer_for h m lst [] = end_buf
buffer_for h m lst (x ∷ xs) =
    gathered h m lst.sg_buf (x ∷ xs)
      (record { base = lst.data_buf + (h.fields x).data_offset; len = 0; code = transfer_success })
