-- ===== src/UserExample/Chain.antt =====
-- The descriptors that are written describe the buffer, and each points at the next.
use mathlib.Core.Option.{some-injective}
use mpsoc_axidma.Base.{
  ℕ, zero, suc, ◌+◌, ◌-◌, ◌*◌, ◌^◌, ◌<◌, ◌≡◌, refl, ◌∙◌, ap, ap₂, true, false, List, [], ◌∷◌, ◌++◌,
  ◌==◌, if◌then◌else◌, length, arith, All, get_elem?, some, subst,
}
use mpsoc_axidma.Physlist.{PhyslistEntry, Physlist}
use mpsoc_axidma.Physlist
use mpsoc_axidma.Physlist.Layout.{bytes, run}
use mpsoc_axidma.SgList.Range.{virt_to_phys-lt}
use mpsoc_axidma.Dma.{SgDescriptor, DescMem}
use mpsoc_axidma.Dma.Chain.{next_desc, buffer, filled}
use mpsoc_axidma.UserExample.{search, virt_to_phys, fill, fill_from, write_physlist_sg}

-- The descriptors of `n` entries from entry `i` on.
abbrev pub descs : (sg_buf : ℕ) → DescMem → (i n : ℕ) → List SgDescriptor
descs sg_buf m i zero = []
descs sg_buf m i (suc n) = m (sg_buf + 128 * i) ∷ descs sg_buf m (i + 1) n

-- `search` is the search of src/axidma.c.
search_lem : (p : Physlist) (k : ℕ) → search p k ≡ Physlist.virt_to_phys p k
unfolding search Physlist.virt_to_phys
search_lem [] k = refl
search_lem (e ∷ es) k = ground (arith, search_lem es (k - e.len))

-- The example's `virt_to_phys` of an address less than 4 GiB behind the base is that of src/axidma.c at
-- the offset.
pub virt_to_phys_lem :
    (base k : ℕ) (plist : Physlist)
    → k < 2 ^ 32
    → virt_to_phys (base + k) base plist ≡ Physlist.virt_to_phys plist k
unfolding virt_to_phys
virt_to_phys_lem base k plist small = ap (search plist) {y = k} (omega arith) ∙ search_lem plist k

-- The rounds from `i` on leave the descriptors before.
fill_from_before :
    (sg_buf : ℕ) (sg_plist : Physlist) (n i : ℕ) (es : Physlist) (m : DescMem) (j : ℕ)
    → j < i
    → fill_from sg_buf sg_plist n i es m (sg_buf + 128 * j) ≡ m (sg_buf + 128 * j)
unfolding fill_from
fill_from_before sg_buf sg_plist n i [] m j lt = refl
fill_from_before sg_buf sg_plist n i (e ∷ es) m j lt =
    fill_from_before sg_buf sg_plist n (i + 1) es _ j (omega arith)
    ∙ (let other : (sg_buf + 128 * j == sg_buf + 128 * i) ≡ false = ground arith in rw other refl)

-- What the descriptor of entry `i` says, of `n`.
pub record Says (sg_plist : Physlist) (n i : ℕ) (e : PhyslistEntry) (d : SgDescriptor)
    : Type 0 where
  pub next_eq : next_desc d ≡ Physlist.virt_to_phys sg_plist (128 * (i + 1))
  pub buffer_eq : buffer d ≡ e.addr
  pub len_eq : d.control.len ≡ e.len
  pub sof_eq : d.control.sof ≡ (if i == 0 then 1 else 0)
  pub eof_eq : d.control.eof ≡ (if i == n - 1 then 1 else 0)

-- A piece that fits into a descriptor.
pub record IsPiece (e : PhyslistEntry) : Type 0 where
  pub addr_low : e.addr < 2 ^ 64
  pub len_low : e.len < 2 ^ 26

module _ (sg_buf : ℕ) (sg_plist : Physlist) (n : ℕ) where
  fill-Says :
      (d : SgDescriptor) (i : ℕ) (e : PhyslistEntry)
      → IsPiece e
      → 128 * (i + 1) < 2 ^ 32
      → Says sg_plist n i e
          (fill d (virt_to_phys (sg_buf + 128 * (i + 1)) sg_buf sg_plist) e (i == 0) (i == n - 1))
  unfolding fill
  fill-Says d i e p small =
      let same = virt_to_phys_lem sg_buf (128 * (i + 1)) sg_plist small in
      let low = virt_to_phys-lt sg_plist (128 * (i + 1)) in
      record {
        next_eq = rw same (omega (arith, low));
        buffer_eq = omega (arith, p.addr_low);
        len_eq = omega (arith, p.len_low);
        sof_eq = refl;
        eof_eq = refl;
      }

  fill_from-Says :
      (i : ℕ) (es : Physlist) (m : DescMem) (j k : ℕ) {e : PhyslistEntry}
      → All IsPiece es
      → 128 * (i + length es) < 2 ^ 32
      → k ≡ i + j
      → get_elem? es j ≡ some e
      → Says sg_plist n k e (fill_from sg_buf sg_plist n i es m (sg_buf + 128 * k))
  unfolding fill_from
  fill_from-Says i [] m j k ps small q at = absurd (cc at)
  fill_from-Says i (e ∷ es) m zero k {e = e'} ps small q at =
      let same : k ≡ i = omega arith in
      let self : (sg_buf + 128 * i == sg_buf + 128 * i) ≡ true = ground arith in
      rw (same, fill_from_before sg_buf sg_plist n (i + 1) es _ i (omega arith), self)
        (subst
          (λ x. Says sg_plist n i x (
            fill (m (sg_buf + 128 * i)) (virt_to_phys (sg_buf + 128 * (i + 1)) sg_buf sg_plist) e
              (i == 0) (i == n - 1)))
          (some-injective e e' at) (fill-Says (m (sg_buf + 128 * i)) i e ps.0 (omega arith)))
  fill_from-Says i (e ∷ es) m (suc j) k ps small q at =
      fill_from-Says (i + 1) es _ j k ps.1 (omega arith) (omega arith) at

  filled-bytes :
      (m : DescMem) (i : ℕ) (es : Physlist)
      → ((j k : ℕ) (e : PhyslistEntry)
          → k ≡ i + j
          → get_elem? es j ≡ some e
          → Says sg_plist n k e (m (sg_buf + 128 * k)))
      → filled (descs sg_buf m i (length es)) ≡ bytes es
  filled-bytes m i [] says = refl
  filled-bytes m i (e ∷ es) says =
      let s = says 0 i e (omega arith) refl in
      ap₂ ◌++◌ (ap₂ run s.buffer_eq s.len_eq)
        (filled-bytes m (i + 1) es (λ j k f q at. says (suc j) k f (omega arith) at))

-- Where each piece fits into a descriptor and the descriptors take less than 4 GiB: after
-- `write_physlist_sg` the descriptor of each entry gives that entry's address and length, is marked SOF
-- exactly for the first entry and EOF exactly for the last, and points at the physical address of the
-- place of the next one; together the descriptors cover the buffer's bytes, in order.
pub write_physlist_sg-Says :
    (sg_buf : ℕ) (sg_plist plist : Physlist) (m : DescMem)
    → All IsPiece plist
    → 128 * length plist < 2 ^ 32
    → let m' = write_physlist_sg sg_buf sg_plist plist m in
      ((i : ℕ) (e : PhyslistEntry)
        → get_elem? plist i ≡ some e
        → Says sg_plist (length plist) i e (m' (sg_buf + 128 * i)))
      × (filled (descs sg_buf m' 0 (length plist)) ≡ bytes plist)
unfolding write_physlist_sg
write_physlist_sg-Says sg_buf sg_plist plist m ps small =
    let n = length plist in
    (
      λ i e at. fill_from-Says sg_buf sg_plist n 0 plist m i i ps (omega arith) (omega arith) at,
      filled-bytes sg_buf sg_plist n (write_physlist_sg sg_buf sg_plist plist m) 0 plist
          (λ j k e q at. fill_from-Says sg_buf sg_plist n 0 plist m j k ps (omega arith) q at),
    )
