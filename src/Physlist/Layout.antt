-- ===== src/Physlist/Layout.antt =====
-- What a physlist says of the buffer: where each entry starts, and the physical address of each byte.
use mpsoc_axidma.Base.{
  ℕ, zero, suc, ◌+◌, ◌-◌, ◌≤◌, ◌^◌, ◌≡◌, some, List, [], ◌∷◌, ◌++◌, arith, get_elem?, ltb,
  if◌then◌else◌,
}
use mpsoc_axidma.Physlist.{PhyslistEntry, Physlist}

-- The number of bytes that the entries cover.
abbrev pub size : Physlist → ℕ
size [] = 0
size (e ∷ es) = e.len + size es

-- The offset in the buffer at which entry `i` starts.
abbrev pub start : Physlist → ℕ → ℕ
start [] i = 0
start (e ∷ es) zero = 0
start (e ∷ es) (suc i) = e.len + start es i

-- `n` consecutive addresses from `a` on.
abbrev pub run : ℕ → ℕ → List ℕ
run a zero = []
run a (suc n) = a ∷ run (a + 1) n

-- The physical address of each byte of the buffer, in virtual order.
abbrev pub bytes : Physlist → List ℕ
bytes [] = []
bytes (e ∷ es) = run e.addr e.len ++ bytes es

pub get_elem?-run :
    (a n : ℕ) (ys : List ℕ) (k : ℕ)
    → get_elem? (run a n ++ ys) k ≡ (if ltb k n then some (a + k) else get_elem? ys (k - n))
get_elem?-run a zero ys k = ground arith
get_elem?-run a (suc n) ys zero = ground arith
get_elem?-run a (suc n) ys (suc k) = ground (arith, get_elem?-run (a + 1) n ys k)

-- Every piece lies in the physical address space.
pub record Fits (e : PhyslistEntry) : Type 0 where
  pub within : e.addr + e.len ≤ 2 ^ 64
