-- ===== src/Example/Deliver.antt =====
-- Where the engine completes the descriptors of a list, the frames received are the buffers added.
use mpsoc_axidma.Base.{
  ℕ, zero, suc, ◌+◌, ◌%◌, ◌^◌, ◌<◌, ◌≡◌, refl, ◌∙◌, ap, ap₂, true, false, List, [], ◌∷◌, ◌++◌, ◌==◌,
  if◌then◌else◌, length, map, arith,
}
use mpsoc_axidma.Heap.{Ptr, Heap}
use mpsoc_axidma.Heap.Ring.{◌∈◌, has-append}
use mpsoc_axidma.SgList.{SgList}
use mpsoc_axidma.SgList.Slots.{lens}
use mpsoc_axidma.SgList.Frame.{EndsLast, IsFrame}
use mpsoc_axidma.Dma.{DescMem, S2mmBuf, transfer_success, transfer_failed, is_bad}
use mpsoc_axidma.Dma.Write.{desc_at}
use mpsoc_axidma.Dma.Start.{ends_of}
use mpsoc_axidma.Dma.Dequeue.{status_of, total, any_bad}
use mpsoc_axidma.Dma.Chain.{InMemory}
use mpsoc_axidma.Dma.Engine.{Completes}
use mpsoc_axidma.Example.Split.{join, frames, flat, buffer_for}
use mpsoc_axidma.Example.Receive.{good}
use mpsoc_axidma.Example.Fill.{Buffers}

-- The buffers that the program asked for: `k` of `sz` bytes from the address `base` on.
abbrev pub delivered : (base sz k : ℕ) → List S2mmBuf
delivered base sz zero = []
delivered base sz (suc k) =
    record { base = base; len = sz; code = transfer_success } ∷ delivered (base + sz) sz k

pub good-delivered : (base sz k : ℕ) → good (delivered base sz k) ≡ k
good-delivered base sz zero = refl
good-delivered base sz (suc k) = ap suc (good-delivered (base + sz) sz k)

module _ (h : Heap) (m : DescMem) (lst : SgList) where
  -- The engine reported for a node what its descriptor asked for.
  pub record Settled (x : Ptr) : Type 0 where
    pub len_eq : (status_of h m lst.sg_buf x).len ≡ (h.fields x).len
    pub eof_eq : (status_of h m lst.sg_buf x).eof ≡ (h.fields x).is_eof
    pub bad_eq : is_bad (status_of h m lst.sg_buf x) ≡ false

  abbrev pub AllSettled : List Ptr → Type 0
  AllSettled xs = (x : Ptr) → x ∈ xs → Settled x

  frames-append :
      (zs rest : List Ptr)
      → EndsLast (map h.fields zs)
      → AllSettled zs
      → frames h m lst.sg_buf (zs ++ rest) ≡ zs ∷ frames h m lst.sg_buf rest
  frames-append [] rest e s = absurd e
  frames-append (x ∷ []) rest e s =
      let stop : ((status_of h m lst.sg_buf x).eof == 0) ≡ false =
        rw ((s x (ground arith)).eof_eq, e) refl in
      rw stop refl
  frames-append (x ∷ y ∷ ys) rest e s =
      let more : ((status_of h m lst.sg_buf x).eof == 0) ≡ true =
        rw ((s x (ground arith)).eof_eq, e.0) refl in
      rw more (ap (join x) (frames-append (y ∷ ys) rest e.1 (λ z i. s z (ground arith))))

  settled_total : (zs : List Ptr) → AllSettled zs → total h m lst.sg_buf zs ≡ lens (map h.fields zs)
  settled_total [] s = refl
  settled_total (x ∷ xs) s =
      ap₂ ◌+◌ (s x (ground arith)).len_eq (settled_total xs (λ z i. s z (ground arith)))

  settled_good : (zs : List Ptr) → AllSettled zs → any_bad h m lst.sg_buf zs ≡ false
  settled_good [] s = refl
  settled_good (x ∷ xs) s =
      rw ((s x (ground arith)).bad_eq) (settled_good xs (λ z i. s z (ground arith)))

  buffer_for-frame :
      (off sz : ℕ) (zs : List Ptr)
      → IsFrame off sz (map h.fields zs)
      → sz < 2 ^ 32
      → AllSettled zs
      → buffer_for h m lst zs
        ≡ record { base = lst.data_buf + off; len = sz; code = transfer_success }
  buffer_for-frame off sz [] f small s = absurd f.starts
  buffer_for-frame off sz (x ∷ xs) f small s = λ i. record {
    base = lst.data_buf + f.starts.1 i;
    len = len_eq i;
    code = if settled_good (x ∷ xs) s i then transfer_failed else transfer_success;
  }
    where
      len_eq : (0 + total h m lst.sg_buf (x ∷ xs)) % 2 ^ 32 ≡ sz
      len_eq = omega (arith, settled_total (x ∷ xs) s, f.whole)

  pub frames-flat :
      (zss : List (List Ptr)) (off sz : ℕ)
      → Buffers h off sz zss
      → AllSettled (flat zss)
      → frames h m lst.sg_buf (flat zss) ≡ zss
  frames-flat [] off sz b s = refl
  frames-flat (zs ∷ zss) off sz b s =
      frames-append zs (flat zss) b.0.ends (λ x i. s x (ground (arith, has-append x zs (flat zss))))
      ∙ ap (λ r. zs ∷ r)
          (frames-flat zss (off + sz) sz b.1
            (λ x i. s x (ground (arith, has-append x zs (flat zss)))))

  pub buffer_for-delivered :
      (zss : List (List Ptr)) (off sz : ℕ)
      → Buffers h off sz zss
      → sz < 2 ^ 32
      → AllSettled (flat zss)
      → map (buffer_for h m lst) zss ≡ delivered (lst.data_buf + off) sz (length zss)
  buffer_for-delivered [] off sz b small s = refl
  buffer_for-delivered (zs ∷ zss) off sz b small s =
      ap₂ ◌∷◌
        (buffer_for-frame off sz zs b.0 small
          (λ x i. s x (ground (arith, has-append x zs (flat zss)))))
        (buffer_for-delivered zss (off + sz) sz b.1 small
            (λ x i. s x (ground (arith, has-append x zs (flat zss))))
          ∙ ap (λ a. delivered a sz (length zss)) (omega arith))

-- Each buffer ends once.
ends_of-append :
    (h : Heap) (zs rest : List Ptr)
    → EndsLast (map h.fields zs)
    → ends_of h (zs ++ rest) ≡ suc (ends_of h rest)
ends_of-append h [] rest e = absurd e
ends_of-append h (x ∷ []) rest e = rw e (omega arith)
ends_of-append h (x ∷ y ∷ ys) rest e = rw e.0 (omega (arith, ends_of-append h (y ∷ ys) rest e.1))

pub ends_of-flat :
    (h : Heap) (zss : List (List Ptr)) (off sz : ℕ)
    → Buffers h off sz zss
    → ends_of h (flat zss) ≡ length zss
ends_of-flat h [] off sz b = refl
ends_of-flat h (zs ∷ zss) off sz b =
    ends_of-append h zs (flat zss) b.0.ends ∙ ap suc (ends_of-flat h zss (off + sz) sz b.1)

-- Where the engine completes the descriptors, it reports what was asked for.
pub Completes-Settled :
    (h : Heap) (lst : SgList) (m after : DescMem) (xs : List Ptr)
    → InMemory h lst m xs
    → ((x : Ptr) → x ∈ xs → Completes (m (desc_at h lst x)) (after (desc_at h lst x)))
    → (x : Ptr) → x ∈ xs
    → Settled h after lst x
Completes-Settled h lst m after xs there done x i =
    let d = done x i in
    let says = there.says x i in
    record { len_eq = d.len_eq ∙ says.len_eq; eof_eq = d.eof_eq ∙ says.eof_eq; bad_eq = d.bad_eq }
