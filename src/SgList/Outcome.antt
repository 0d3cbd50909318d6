-- ===== src/SgList/Outcome.antt =====
-- What a call of `axidma_add_entry` may do: the outcomes that its theorem allows.
use mpsoc_axidma.Base.{
  length, ◌≤◌, ℕ, zero, suc, ◌≡◌, ◌≢◌, ◌⊎◌, true, false, List, [], ◌∷◌, ◌++◌, map, ◌||◌, arith, All,
  some, Option, none, drop, get_elem?,
}
use mpsoc_axidma.Physlist.{PhyslistEntry, Physlist, get_entry_index}
use mpsoc_axidma.Heap.{Ptr, null, Heap, Run, Cmd, and_then}
use mpsoc_axidma.Heap.Ring.{has, ◌∉◌, Ring}
use mpsoc_axidma.SgList.{SgList, AddEntryCode, success, buf_oom, error, built}
use mpsoc_axidma.SgList.Plan.{Plan, stop, plan}
use mpsoc_axidma.SgList.Loop.{Ends, ends, SameAt, Begins}
use mpsoc_axidma.SgList.Mark.{mark}

-- What a call for `sz` bytes is to build, from the entry of the data physlist that holds the
-- list's data offset on.
abbrev pub plan_for : SgList → ℕ → Plan
plan_for lst sz = elim (get_entry_index lst.data_plist lst.data_offset) [
  | none ↦ stop (built buf_oom lst.sg_offset lst.data_offset)
  | some (ind, o) ↦
      plan lst.sg_plist lst.data_plist (drop ind lst.data_plist) o sz lst.sg_offset lst.data_offset
]

-- The new nodes stand behind the old ones, and hold the planned descriptors, the first and the last
-- of them marked. Of what was allocated, no field changes, and no link outside the list.
pub record Appended (h : Heap) (lst : SgList) (xs : List Ptr) (p : Plan) (lst' : SgList) (h' : Heap)
    : Type 0 where
  pub zs : List Ptr
  pub ring : Ring h' lst.sentinel (xs ++ zs)
  pub new : All (λ a. h.alive a ≡ false) zs
  pub real : All (λ a. a ≢ null) zs
  pub fields : map h'.fields zs ≡ mark p.entries
  pub offsets :
      lst' ≡ record lst { sg_offset = p.outcome.sg_offset; data_offset = p.outcome.data_offset }
  pub kept : (a : Ptr) → h.alive a ≡ true → h'.fields a ≡ h.fields a
  pub same : (a : Ptr) → h.alive a ≡ true → a ∉ lst.sentinel ∷ xs → SameAt h h' a
  pub blocks : (a : Ptr) → h'.alive a ≡ (has a zs || h.alive a)

-- The same blocks are allocated, and hold the same.
pub record Unchanged (h h' : Heap) : Type 0 where
  pub blocks : (a : Ptr) → h'.alive a ≡ h.alive a
  pub same : (a : Ptr) → h.alive a ≡ true → SameAt h h' a

-- A `malloc` failed in a call that leaves the memory `h`: `g` is the memory at that point. Beside what
-- is allocated in `h`, which holds in `g` what it holds in `h`, there is the block `t` of the callee's
-- local list, with the nodes built so far, new blocks that hold the first of the planned descriptors;
-- one more was to be built.
pub record NoBlock (pick : Heap → Ptr) (h : Heap) (t : Ptr) (p : Plan) : Type 0 where
  pub g : Heap
  pub failed : pick g ≡ null
  pub zs : List Ptr
  pub ring : Ring g t zs
  pub new : All (λ a. h.alive a ≡ false) zs
  pub blocks : (a : Ptr) → g.alive a ≡ (has a (t ∷ zs) || h.alive a)
  pub same : (a : Ptr) → h.alive a ≡ true → SameAt h g a
  pub begun : Begins (map g.fields zs) p.entries

-- The result of a call: the planned success, or the planned code or a failed allocation, and then
-- nothing changes.
pub data Added (pick : Heap → Ptr) (h : Heap) (t : Ptr) (lst : SgList) (xs : List Ptr) (p : Plan)
    : AddEntryCode × Option SgList → Heap → Type 0 where
  added :
      {lst' : SgList} {h' : Heap}
      → p.outcome.ret ≡ success
      → Appended h lst xs p lst' h'
      → Added pick h t lst xs p (success, some lst') h'
  refused :
      {c : AddEntryCode} {h' : Heap}
      → c ≢ success
      → (c ≡ p.outcome.ret) ⊎ ((c ≡ error) × NoBlock pick h' t p)
      → Unchanged h h'
      → Added pick h t lst xs p (c, some lst) h'

pub Ends-bind :
    {A B : Type 0} {P : A → Heap → Type 0} {Q : B → Heap → Type 0} {r : Run A} {k : A → Cmd B}
    → Ends P r
    → ((a : A) (h : Heap) → P a h → Ends Q (k a h))
    → Ends Q (and_then r k)
Ends-bind (ends p) next = next _ _ p

-- The rest of a list from an element on.
pub drop_of_elem :
    (p : Physlist) (i : ℕ) {e : PhyslistEntry}
    → get_elem? p i ≡ some e
    → drop i p ≡ e ∷ drop (suc i) p
drop_of_elem [] i h = absurd (cc h)
drop_of_elem (e ∷ es) zero h = ground arith
drop_of_elem (e ∷ es) (suc i) h = drop_of_elem es i h

pub length-drop-le : (p : Physlist) (i : ℕ) → length (drop i p) ≤ length p
length-drop-le p zero = omega arith
length-drop-le [] (suc i) = omega arith
length-drop-le (e ∷ es) (suc i) = omega (arith, length-drop-le es i)
