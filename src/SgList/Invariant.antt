-- ===== src/SgList/Invariant.antt =====
-- When a list is well formed, and what a call of `axidma_add_entry` makes of it.
use mathlib.Core.List.{append_assoc}
use mpsoc_axidma.Base.{
  ◌||◌, ℕ, zero, suc, ◌+◌, ◌^◌, ◌*◌, ◌%◌, ◌≤◌, ◌<◌, ◌≡◌, refl, ◌≢◌, ◌∙◌, ap, ap₂, sym, ◌⊎◌, false,
  List, [], ◌∷◌, ◌++◌, map, All, drop, length, Option, some, arith,
}
use mpsoc_axidma.Physlist.{Physlist}
use mpsoc_axidma.Physlist.Layout.{size, run, bytes, Fits}
use mpsoc_axidma.Physlist.Align.{Slot}
use mpsoc_axidma.Physlist.Bytes.{take}
use mpsoc_axidma.Physlist.Steady.{Steady}
use mpsoc_axidma.Physlist.Room.{desc_size, Ready}
use mpsoc_axidma.Heap.{Ptr, null, SgFields, Heap}
use mpsoc_axidma.Heap.Ring.{has, ◌∈◌, Ring}
use mpsoc_axidma.SgList.{SgList, AddEntryCode, success, sg_oom, buf_oom, error}
use mpsoc_axidma.SgList.Outcome.{plan_for, NoBlock}
use mpsoc_axidma.SgList.Tile.{covered}
use mpsoc_axidma.SgList.Frame.{IsFrame}
use mpsoc_axidma.SgList.Slots.{Spaced, offset_of, lens}
use mpsoc_axidma.SgList.Range.{InRange, IsShort}

-- A data buffer: shorter than 4 GiB, in the physical address space, its pieces shorter than 2 ^ 26.
pub record HoldsData (p : Physlist) : Type 0 where
  pub fits : All Fits p
  pub small : size p < 2 ^ 32
  pub short : All IsShort p

-- The list at `lst` has the nodes `xs`; their descriptors stand in places one behind the other, before
-- the list's next offset; they cover the data buffer up to the list's data offset; and their fields
-- fit into descriptors.
pub record WellFormed (h : Heap) (lst : SgList) (xs : List Ptr) : Type 0 where
  pub ring : Ring h lst.sentinel xs
  pub slots : Spaced lst.sg_plist 0 (map offset_of (map h.fields xs)) lst.sg_offset
  pub ready : Ready lst.sg_plist lst.sg_offset
  pub tiled : covered (map h.fields xs) ≡ take lst.data_offset (bytes lst.data_plist)
  pub within : lst.data_offset ≤ size lst.data_plist
  pub fields : All InRange (map h.fields xs)

pub take-nil : (n : ℕ) → take {A = ℕ} n [] ≡ []
take-nil zero = refl
take-nil (suc n) = refl

pub take-add : (a b : ℕ) (xs : List ℕ) → take (a + b) xs ≡ take a xs ++ take b (drop a xs)
take-add zero b xs = ap (λ k. take k xs) (omega arith)
take-add (suc a) b [] = take-nil (suc a + b) ∙ sym (take-nil b)
take-add (suc a) b (x ∷ xs) =
    ap (λ k. take k (x ∷ xs)) {y = suc (a + b)} (omega arith) ∙ ap (λ ys. x ∷ ys) (take-add a b xs)

pub covered-append : (fs gs : List SgFields) → covered (fs ++ gs) ≡ covered fs ++ covered gs
covered-append [] gs = refl
covered-append (f ∷ fs) gs =
    ap (λ bs. run f.buf_phys f.len ++ bs) (covered-append fs gs)
    ∙ sym (append_assoc (run f.buf_phys f.len) (covered fs) (covered gs))

pub All-append :
    {A : Type 0} (P : A → Type 0) (fs gs : List A) → All P fs → All P gs → All P (fs ++ gs)
All-append P [] gs v w = w
All-append P (f ∷ fs) gs v w = (v.0, All-append P fs gs v.1 w)

pub length-map : (f : Ptr → SgFields) (xs : List Ptr) → length (map f xs) ≡ length xs
length-map f [] = refl
length-map f (x ∷ xs) = ap suc (length-map f xs)

-- Nodes whose fields are as before.
pub map-same :
    (f g : Ptr → SgFields) (xs : List Ptr) → ((a : Ptr) → a ∈ xs → g a ≡ f a) → map g xs ≡ map f xs
map-same f g [] same = refl
map-same f g (x ∷ xs) same =
    ap₂ ◌∷◌ (same x (ground arith)) (map-same f g xs (λ a m. same a (ground arith)))

-- What a call of `axidma_add_entry` makes of such a list: on success it has the new blocks `zs` behind
-- its nodes, one frame, and the data offset is `sz` further; otherwise the list is as it was, and no
-- block is new. There was no room for descriptors only if those for fewer bytes take the last places,
-- no room for data only if fewer bytes are left, and an error only if the allocator gives no
-- block for one of the planned nodes.
-- Where places are 64 bytes apart, a descriptor takes no more, and a call that finds no place has come
-- near the end of the buffer.
pub record Extended (pick : Heap → Ptr) (h : Heap) (t : Ptr) (lst : SgList) (xs : List Ptr) (sz : ℕ)
    (r : AddEntryCode × Option SgList) (h' : Heap) : Type 0 where
  pub zs : List Ptr
  pub lst' : SgList
  pub returned : r.1 ≡ some lst'
  pub well : WellFormed h' lst' (xs ++ zs)
  pub moved :
      (r.0 ≡ success) × (lst'.data_offset ≡ lst.data_offset + sz)
      ⊎ (r.0 ≢ success) × (zs ≡ []) × (lst' ≡ lst)
  pub bufs : lst' ≡ record lst { sg_offset = lst'.sg_offset; data_offset = lst'.data_offset }
  pub full :
      r.0 ≡ sg_oom
      → (k : ℕ) × Spaced lst.sg_plist lst.sg_offset (map offset_of (plan_for lst sz).entries) k
        × (lens (plan_for lst sz).entries < sz)
        × ((s : ℕ) → Slot lst.sg_plist desc_size s → s < k)
  pub out : r.0 ≡ buf_oom → size lst.data_plist < lst.data_offset + sz
  pub broke : r.0 ≡ error → NoBlock pick h' t (plan_for lst sz)
  pub real : All (λ a. a ≢ null) zs
  pub few : length zs ≤ length lst.data_plist
  pub kept : (a : Ptr) → a ∈ xs → h'.fields a ≡ h.fields a
  pub new : (a : Ptr) → a ∈ zs → h.alive a ≡ false
  pub blocks : (a : Ptr) → h'.alive a ≡ (has a zs || h.alive a)
  pub packed :
      (c b : ℕ)
      → Steady c lst.sg_plist
      → b % 64 ≡ c % 64
      → lst.sg_offset ≤ b
      → (r.0 ≡ success → lst'.sg_offset ≤ b + 64 * length zs)
        × (r.0 ≡ sg_oom → size lst.sg_plist < b + 64 * length lst.data_plist + 64)
  pub frame : r.0 ≡ success → IsFrame lst.data_offset sz (map h'.fields zs)
