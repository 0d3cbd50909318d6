-- ===== src/Heap/Ring.antt =====
-- Circular doubly linked lists in the memory: which nodes, in which order.
use mpsoc_axidma.Base.{
  ◌≡◌, refl, Bool, true, false, List, [], ◌∷◌, ◌++◌, ◌||◌, ◌==◌, arith, All, Bool-cases, ◌⊎◌, inl,
  inr, ◌∙◌,
}
use mpsoc_axidma.Heap.{Ptr, Heap}

abbrev pub has : Ptr → List Ptr → Bool
has a [] = false
has a (x ∷ xs) = (a == x) || has a xs

infix 40 ◌∈◌ ◌∉◌
abbrev pub ◌∈◌ : Ptr → List Ptr → Type 0
a ∈ xs = has a xs ≡ true

abbrev pub ◌∉◌ : Ptr → List Ptr → Type 0
a ∉ xs = has a xs ≡ false

abbrev pub IsDistinct : List Ptr → Type 0
IsDistinct [] = Unit
IsDistinct (x ∷ xs) = (x ∉ xs) × IsDistinct xs

abbrev pub IsDisjoint : List Ptr → List Ptr → Type 0
IsDisjoint xs ys = (a : Ptr) → a ∈ xs → a ∉ ys

abbrev pub last_of : Ptr → List Ptr → Ptr
last_of a [] = a
last_of a (x ∷ xs) = last_of x xs

-- From `a` the links lead through `xs` to `b`, and back.
abbrev pub Links : (next prev : Ptr → Ptr) → Ptr → List Ptr → Ptr → Type 0
Links next prev a [] b = (next a ≡ b) × (prev b ≡ a)
Links next prev a (x ∷ xs) b = (next a ≡ x) × (prev x ≡ a) × Links next prev x xs b

-- The list at the sentinel `s` has the nodes `xs`: distinct, allocated and linked both ways.
pub record Ring (h : Heap) (s : Ptr) (xs : List Ptr) : Type 0 where
  pub links : Links h.next h.prev s xs s
  pub distinct : IsDistinct (s ∷ xs)
  pub live : All (λ a. h.alive a ≡ true) (s ∷ xs)

pub has-append : (a : Ptr) (xs ys : List Ptr) → has a (xs ++ ys) ≡ (has a xs || has a ys)
has-append a [] ys = refl
has-append a (x ∷ xs) ys = ground (arith, has-append a xs ys)

pub last_of-mem : (a : Ptr) (xs : List Ptr) → last_of a xs ∈ a ∷ xs
last_of-mem a [] = ground arith
last_of-mem a (x ∷ xs) = ground (arith, last_of-mem x xs)

pub All-mem : (P : Ptr → Type 0) (xs : List Ptr) (a : Ptr) → All P xs → a ∈ xs → P a
All-mem P [] a h m = absurd (cc m)
All-mem P (x ∷ xs) a h m = go (Bool-cases (a == x)) (All-mem P xs a h.1)
  where
    go : ((a == x) ≡ true) ⊎ ((a == x) ≡ false) → (a ∈ xs → P a) → P a
    go (inl e) rest = let same : a ≡ x = ground arith in rw same h.0
    go (inr e) rest = rest (ground arith)

pub Links-prev :
    (next prev : Ptr → Ptr) (a : Ptr) (xs : List Ptr) (b : Ptr)
    → Links next prev a xs b
    → prev b ≡ last_of a xs
Links-prev next prev a [] b l = l.1
Links-prev next prev a (x ∷ xs) b l = Links-prev next prev x xs b l.2

pub not-mem_of_disjoint : (xs ys : List Ptr) (a : Ptr) → IsDisjoint xs ys → a ∈ ys → a ∉ xs
not-mem_of_disjoint xs ys a apart m = elim (Bool-cases (has a xs)) [
  | inl i ↦ absurd (ground (arith, apart a i))
  | inr o ↦ o
]

pub ne_of_mem : (c d : Ptr) (xs : List Ptr) → c ∈ xs → d ∉ xs → (c == d) ≡ false
ne_of_mem c d [] m o = absurd (cc m)
ne_of_mem c d (x ∷ xs) m o = ground (arith, ne_of_mem c d xs)

-- A node outside a list is not its last.
pub apart : (a x : Ptr) (xs : List Ptr) → a ∉ x ∷ xs → (a == last_of x xs) ≡ false
apart a x [] h = ground arith
apart a x (y ∷ xs) h = apart a y xs (ground arith)

-- Links survive a change that spares what they rest on.
pub Links-frame :
    (next prev next' prev' : Ptr → Ptr) (a : Ptr) (xs : List Ptr) (b : Ptr)
    → Links next prev a xs b
    → ((c : Ptr) → c ∈ a ∷ xs → next' c ≡ next c)
    → ((c : Ptr) → c ∈ xs → prev' c ≡ prev c)
    → prev' b ≡ prev b
    → Links next' prev' a xs b
Links-frame next prev next' prev' a [] b l n p e = (ground (arith, n a), ground arith)
Links-frame next prev next' prev' a (x ∷ xs) b l n p e = (
  ground (arith, n a),
  ground (arith, p x),
  Links-frame next prev next' prev' x xs b l.2 (λ c m. n c (ground arith))
      (λ c m. p c (ground arith)) e,
)

module _ (next prev next' prev' : Ptr → Ptr) where
  -- The last node is linked to `b'` instead, and the other links stay.
  pub Links-retarget :
      (a : Ptr) (xs : List Ptr) (b b' : Ptr)
      → Links next prev a xs b
      → IsDistinct (a ∷ xs)
      → ((c : Ptr) → c ∈ a ∷ xs → (c == last_of a xs) ≡ false → next' c ≡ next c)
      → ((c : Ptr) → c ∈ xs → prev' c ≡ prev c)
      → next' (last_of a xs) ≡ b'
      → prev' b' ≡ last_of a xs
      → Links next' prev' a xs b'
  Links-retarget a [] b b' l d n p e f = (e, f)
  Links-retarget a (x ∷ xs) b b' l d n p e f = (
    n a (ground arith) (apart a x xs d.0) ∙ l.0,
    p x (ground arith) ∙ l.1,
    Links-retarget x xs b b' l.2 d.1 (λ c m. n c (ground arith)) (λ c m. p c (ground arith)) e f,
  )

  -- The last node is linked to the first of more nodes.
  pub Links-splice :
      (a : Ptr) (xs : List Ptr) (b y : Ptr) (ys : List Ptr) (b' : Ptr)
      → Links next prev a xs b
      → IsDistinct (a ∷ xs)
      → ((c : Ptr) → c ∈ a ∷ xs → (c == last_of a xs) ≡ false → next' c ≡ next c)
      → ((c : Ptr) → c ∈ xs → prev' c ≡ prev c)
      → next' (last_of a xs) ≡ y
      → prev' y ≡ last_of a xs
      → Links next' prev' y ys b'
      → Links next' prev' a (xs ++ y ∷ ys) b'
  Links-splice a [] b y ys b' l d n p e f rest = (e, f, rest)
  Links-splice a (x ∷ xs) b y ys b' l d n p e f rest = (
    n a (ground arith) (apart a x xs d.0) ∙ l.0,
    p x (ground arith) ∙ l.1,
    Links-splice x xs b y ys b' l.2 d.1 (λ c m. n c (ground arith)) (λ c m. p c (ground arith)) e f
        rest,
  )

pub IsDistinct-append :
    (xs ys : List Ptr) → IsDistinct xs → IsDistinct ys → IsDisjoint xs ys → IsDistinct (xs ++ ys)
IsDistinct-append [] ys d e apart = e
IsDistinct-append (x ∷ xs) ys d e apart = (
  rw (has-append, d.0) (apart x (ground arith)),
  IsDistinct-append xs ys d.1 e (λ a m. apart a (ground arith)),
)

pub All-append : (P : Ptr → Type 0) (xs ys : List Ptr) → All P xs → All P ys → All P (xs ++ ys)
All-append P [] ys h k = k
All-append P (x ∷ xs) ys h k = (h.0, All-append P xs ys h.1 k)

pub All-mono :
    (P Q : Ptr → Type 0) (xs : List Ptr) → All P xs → ((a : Ptr) → a ∈ xs → P a → Q a) → All Q xs
All-mono P Q [] h f = tt
All-mono P Q (x ∷ xs) h f =
    (f x (ground arith) h.0, All-mono P Q xs h.1 (λ a m. f a (ground arith)))
