-- ===== src/Heap.antt =====
-- The memory of src/axidma.c: the `sg_entry` nodes of include/axidma.h at addresses, and commands
-- that read and write them. A command faults at an address that is not allocated.
pub mod Ring
use mpsoc_axidma.Base.{ℕ, zero, suc, Bool, true, false, ◌==◌, if◌then◌else◌}

abbrev pub Ptr : Type 0
Ptr = ℕ

-- `NULL`
abbrev pub null : Ptr
null = 0

-- The fields of an `sg_entry` but for its links.
pub record SgFields : Type 0 where
  pub sg_offset : ℕ
  pub data_offset : ℕ
  pub buf_phys : ℕ
  pub len : ℕ
  pub is_sof : ℕ
  pub is_eof : ℕ

-- What memory holds at each address, and which addresses are allocated. What a new block holds is
-- whatever stands there.
pub record Heap : Type 0 where
  pub alive : Ptr → Bool
  pub next : Ptr → Ptr
  pub prev : Ptr → Ptr
  pub fields : Ptr → SgFields

abbrev pub update {ℓ} : {A : Type ℓ} → (Ptr → A) → Ptr → A → Ptr → A
update f p v q = if q == p then v else f q

-- A run that stops at a bad address, one whose loop has no fuel left, and one that returns.
pub data Run (A : Type 0) : Type 0 where
  fault out_of_fuel : Run A
  ok : A → Heap → Run A

infixl 5 ◌>>=◌ ◌>>◌
-- What is left of a run that goes on with `next` once it has a result.
abbrev pub and_then : {A B : Type 0} → Run A → (A → (Heap → Run B)) → Run B
and_then out_of_fuel next = out_of_fuel
and_then fault next = fault
and_then (ok result memory) next = next result memory

abbrev pub Cmd : Type 0 → Type 0
Cmd A = Heap → Run A

abbrev pub ◌>>=◌ : {A B : Type 0} → Cmd A → (A → Cmd B) → Cmd B
c >>= next = λ h. and_then (c h) next

abbrev pub ◌>>◌ : {A B : Type 0} → Cmd A → Cmd B → Cmd B
c >> d = c >>= λ _. d

abbrev pub pure : {A : Type 0} → A → Cmd A
pure result = λ memory. ok result memory

-- `p->next`
unfoldable pub load_next : Ptr → Cmd Ptr
load_next p h = if h.alive p then ok (h.next p) h else fault

-- `p->prev`
unfoldable pub load_prev : Ptr → Cmd Ptr
load_prev p h = if h.alive p then ok (h.prev p) h else fault

unfoldable pub load_fields : Ptr → Cmd SgFields
load_fields p h = if h.alive p then ok (h.fields p) h else fault

-- `p->next = q`
unfoldable pub set_next : Ptr → Ptr → Cmd (Unit {0})
set_next p q h = if h.alive p then ok tt (record h { next = update h.next p q }) else fault

-- `p->prev = q`
unfoldable pub set_prev : Ptr → Ptr → Cmd (Unit {0})
set_prev p q h = if h.alive p then ok tt (record h { prev = update h.prev p q }) else fault

unfoldable pub set_fields : Ptr → SgFields → Cmd (Unit {0})
set_fields p f h = if h.alive p then ok tt (record h { fields = update h.fields p f }) else fault

-- The start of the life of a block, and its end: `free`, or the return from a local's function.
unfoldable pub make_alive : Ptr → Cmd (Unit {0})
make_alive p h = ok tt (record h { alive = update h.alive p true })

unfoldable pub free : Ptr → Cmd (Unit {0})
free p h = if h.alive p then ok tt (record h { alive = update h.alive p false }) else fault

-- `malloc`, where `pick` says which address the allocator returns in each state, or `NULL`.
unfoldable pub malloc : (Heap → Ptr) → Cmd Ptr
malloc pick h =
    if pick h == null
    then ok null h
    else ok (pick h) (record h { alive = update h.alive (pick h) true })
