-- ===== src/Dma/Dmacr.antt =====
-- The value for `S2MM_DMACR`, field by field.
use Prim.Native.Nat.{bit_or}
use mpsoc_axidma.Base.{
  ℕ, zero, suc, ◌*◌, ◌/◌, ◌%◌, ◌^◌, ◌<◌, ◌≡◌, refl, ap, subst, Bool-cases, inl, inr, Bool, true,
  false, ◌&&◌, ◌==◌, if◌then◌else◌, arith,
}
use mpsoc_axidma.Dma.{dmacr}

abbrev timeout_of : Bool → ℕ
timeout_of enable_timeout = if enable_timeout then 200 else 0

abbrev fields_ok : Bool → ℕ → Bool
fields_ok e k =
    (dmacr e k % 2 == 1)
    && ((dmacr e k / 2 ^ 4 % 2 == 0)
        && ((dmacr e k / 2 ^ 12 % 16 == 7)
            && ((dmacr e k / 2 ^ 16 % 256 == k) && (dmacr e k / 2 ^ 24 == timeout_of e))))

-- The fields are right for each of the counts that come before `bound`.
abbrev checked : Bool → (bound : ℕ) → Bool
checked e zero = true
checked e (suc cnt) = if fields_ok e cnt then checked e cnt else false

eight_bits : (e : Bool) → checked e 256 ≡ true
unfolding dmacr
eight_bits true = refl
eight_bits false = refl

checked_lem :
    (e : Bool) (cnt bound : ℕ) → checked e bound ≡ true → cnt < bound → fields_ok e cnt ≡ true
checked_lem e cnt zero all lt = absurd (omega arith)
checked_lem e cnt (suc b) all lt = elim (Bool-cases (fields_ok e b)) [
  | inr wrong ↦ absurd (cc (rw wrong at all))
  | inl right ↦ elim (Bool-cases (cnt == b)) [
    | inl same ↦ subst (λ k. fields_ok e k ≡ true) (ground arith) right
    | inr other ↦ checked_lem e cnt b (rw right at all) (ground arith)
  ]
]

dmacr-mod : (e : Bool) (cnt : ℕ) → dmacr e cnt ≡ dmacr e (cnt % 256)
unfolding dmacr
dmacr-mod e cnt =
    let same : cnt % 256 ≡ cnt % 256 % 256 = omega arith in
    ap (λ k. bit_or (bit_or (if e then 200 * 2 ^ 24 else 0) (k * 2 ^ 16)) 0b111000000000001) same

-- The value that starts a transfer has the run bit, no cyclic mode, all three interrupt enables, the
-- number of frames modulo 256 as its threshold, and 200 as its delay exactly if a timeout is wanted.
pub dmacr-fields :
    (enable_timeout : Bool) (cnt : ℕ)
    → let r = dmacr enable_timeout cnt in
      (r % 2 ≡ 1)
      × (r / 2 ^ 4 % 2 ≡ 0)
      × (r / 2 ^ 12 % 16 ≡ 7)
      × (r / 2 ^ 16 % 256 ≡ cnt % 256)
      × (r / 2 ^ 24 ≡ (if enable_timeout then 200 else 0))
dmacr-fields e cnt =
    let ok = checked_lem e (cnt % 256) 256 (eight_bits e) (omega arith) in
    rw (dmacr-mod e cnt) (ground (arith, ok))
