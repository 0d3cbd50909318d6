-- ===== src/Physlist/Bytes.antt =====
-- The bytes of a buffer from an entry of its physlist on.
use mpsoc_axidma.Base.{
  ℕ, zero, suc, ◌+◌, ◌-◌, ◌≤◌, ◌<◌, ◌≡◌, refl, ◌∙◌, ap, ap₂, sym, some, List, [], ◌∷◌, ◌++◌, arith,
  get_elem?, All, drop,
}
use mpsoc_axidma.Physlist.{PhyslistEntry, Physlist, virt_to_phys}
use mpsoc_axidma.Physlist.Layout.{size, start, run, bytes, Fits}

module _ {ℓ} {A : Type ℓ} where
  abbrev pub take : ℕ → List A → List A
  take zero xs = []
  take (suc n) [] = []
  take (suc n) (x ∷ xs) = x ∷ take n xs

pub take-run-le : (n a m : ℕ) (ys : List ℕ) → n ≤ m → take n (run a m ++ ys) ≡ run a n
take-run-le zero a m ys h = refl
take-run-le (suc n) a zero ys h = absurd (omega arith)
take-run-le (suc n) a (suc m) ys h = ap (λ zs. a ∷ zs) (take-run-le n (a + 1) m ys (omega arith))

pub take-run-lt :
    (n a m : ℕ) (ys : List ℕ) → m ≤ n → take n (run a m ++ ys) ≡ run a m ++ take (n - m) ys
take-run-lt n a zero ys h = ap (λ k. take k ys) (omega arith)
take-run-lt zero a (suc m) ys h = absurd (omega arith)
take-run-lt (suc n) a (suc m) ys h =
    ap (λ zs. a ∷ zs)
      (take-run-lt n (a + 1) m ys (omega arith)
        ∙ ap (λ k. run (a + 1) m ++ take k ys) (omega arith))

drop-run : (a n o : ℕ) (ys : List ℕ) → o ≤ n → drop o (run a n ++ ys) ≡ run (a + o) (n - o) ++ ys
drop-run a n zero ys h = ap₂ (λ b k. run b k ++ ys) (omega arith) (omega arith)
drop-run a zero (suc o) ys h = absurd (omega arith)
drop-run a (suc n) (suc o) ys h =
    drop-run (a + 1) n o ys (omega arith) ∙ ap₂ (λ b k. run b k ++ ys) (omega arith) (omega arith)

drop-run_past : (a n o : ℕ) (ys : List ℕ) → drop (n + o) (run a n ++ ys) ≡ drop o ys
drop-run_past a zero o ys = ap (λ k. drop k ys) (omega arith)
drop-run_past a (suc n) o ys =
    ap (λ k. drop k (run a (suc n) ++ ys)) suc_out ∙ drop-run_past (a + 1) n o ys
  where
    suc_out : suc n + o ≡ suc (n + o)
    suc_out = omega arith

-- The bytes from `o` bytes into entry `i` on.
pub drop-bytes :
    (p : Physlist) (i o : ℕ) {e : PhyslistEntry}
    → get_elem? p i ≡ some e
    → o ≤ e.len
    → drop (start p i + o) (bytes p) ≡ run (e.addr + o) (e.len - o) ++ bytes (drop (suc i) p)
drop-bytes [] i o h k = absurd (cc h)
drop-bytes (e ∷ es) zero o {e = e'} h k =
    let same : e ≡ e' = ground arith in
    rw (sym same) (
      ap (λ j. drop j (run e.addr e.len ++ bytes es)) (omega arith)
      ∙ drop-run e.addr e.len o (bytes es) (ground arith))
drop-bytes (e ∷ es) (suc i) o h k =
    ap (λ j. drop j (run e.addr e.len ++ bytes es)) (omega arith)
    ∙ (drop-run_past e.addr e.len (start es i + o) (bytes es) ∙ drop-bytes es i o h k)

-- The address of a byte `o` into entry `i`.
pub virt_to_phys-start :
    (p : Physlist) (i o : ℕ) {e : PhyslistEntry}
    → get_elem? p i ≡ some e
    → o < e.len
    → All Fits p
    → virt_to_phys p (start p i + o) ≡ e.addr + o
unfolding virt_to_phys
virt_to_phys-start [] i o h k fits = absurd (cc h)
virt_to_phys-start (e ∷ es) zero o h k fits = ground (arith, fits.0.within)
virt_to_phys-start (e ∷ es) (suc i) o h k fits =
    ground (arith, virt_to_phys-start es i o h k fits.1)

pub next_elem :
    (p : Physlist) (i : ℕ) {d : PhyslistEntry} {ds : Physlist}
    → drop i p ≡ d ∷ ds
    → (get_elem? p i ≡ some d) × (drop (suc i) p ≡ ds)
next_elem [] zero h = absurd (cc h)
next_elem [] (suc i) h = absurd (cc h)
next_elem (e ∷ es) zero h = (ground arith, ground arith)
next_elem (e ∷ es) (suc i) h = next_elem es i h

start-zero : (p : Physlist) → start p 0 ≡ 0
start-zero [] = refl
start-zero (e ∷ es) = refl

pub start-suc :
    (p : Physlist) (i : ℕ) {d : PhyslistEntry}
    → get_elem? p i ≡ some d
    → start p (suc i) ≡ start p i + d.len
start-suc [] i h = absurd (cc h)
start-suc (e ∷ es) zero h = ground (arith, start-zero es)
start-suc (e ∷ es) (suc i) h = omega (arith, start-suc es i h)

pub start-le-size : (p : Physlist) (i : ℕ) → start p i ≤ size p
start-le-size [] i = omega arith
start-le-size (e ∷ es) zero = omega arith
start-le-size (e ∷ es) (suc i) = omega (arith, start-le-size es i)

pub start_of_last :
    (p : Physlist) (i : ℕ) {d : PhyslistEntry}
    → get_elem? p i ≡ some d
    → drop (suc i) p ≡ []
    → start p i + d.len ≡ size p
start_of_last [] i h k = absurd (cc h)
start_of_last (e ∷ []) zero h k = ground arith
start_of_last (e ∷ f ∷ es) zero h k = absurd (cc k)
start_of_last (e ∷ es) (suc i) h k = omega (arith, start_of_last es i h k)

pub run-virt_to_phys :
    (p : Physlist) (i o k : ℕ) {e : PhyslistEntry}
    → get_elem? p i ≡ some e
    → o + k ≤ e.len
    → All Fits p
    → run (virt_to_phys p (start p i + o)) k ≡ run (e.addr + o) k
run-virt_to_phys p i o zero h le fits = refl
run-virt_to_phys p i o (suc k) h le fits =
    ap (λ a. run a (suc k)) (virt_to_phys-start p i o h (omega arith) fits)
