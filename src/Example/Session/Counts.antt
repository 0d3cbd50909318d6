-- ===== src/Example/Session/Counts.antt =====
-- What the main of example.c has and gives back, in numbers: the pieces of its buffers, the buffers that
-- it adds, its files and its mappings.
use mpsoc_axidma.Base.{
  ℕ, ◌+◌, ◌*◌, ◌≤◌, ◌<◌, ◌≡◌, ◌≢◌, refl, Bool, true, false, suc, List, [], ◌∷◌, map, length, ◌==◌,
  ap, arith, inl, inr, Bool-cases,
}
use mpsoc_axidma.Pinner.{
  Page, ScatterEnt, page_size, num_pages_for, fill_sglist, fill_rest, to_physlist,
}
use mpsoc_axidma.Pinner.Mapping.{at_bus}
use mpsoc_axidma.Context.{Process, set}
use mpsoc_axidma.Example.{Filling, all_added, no_descriptors, no_data, exits}
use mpsoc_axidma.Example.Main.{data_buf_size, num_buffers, allocate}

-- Two files that are opened and closed in this order.
pub both_back :
    (f : ℕ → Bool) (a b c : ℕ)
    → f a ≡ false
    → set f a true b ≡ false
    → set (set (set (set f a true) b true) a false) b false c ≡ f c
both_back f a b c free free' = ground arith

length-fill_rest :
    (page_to_phys : Page → ℕ) (ps : List Page) (n : ℕ)
    → length (to_physlist (fill_rest page_to_phys ps n)) ≡ length ps
unfolding fill_rest
length-fill_rest f [] n = refl
length-fill_rest f (p ∷ []) n = refl
length-fill_rest f (p ∷ q ∷ ps) n = omega (arith, length-fill_rest f (q ∷ ps) n)

pub length-fill_sglist :
    (page_to_phys : Page → ℕ) (ps : List Page) (off sz : ℕ)
    → length (to_physlist (fill_sglist page_to_phys ps off sz)) ≡ length ps
unfolding fill_sglist
length-fill_sglist f [] off sz = refl
length-fill_sglist f (p ∷ ps) off sz = omega (arith, length-fill_rest f ps _)

pub length-sent :
    (page_to_phys : Page → ℕ) (ss : List ScatterEnt)
    → length (to_physlist (map (at_bus page_to_phys) ss)) ≡ length (to_physlist ss)
length-sent f [] = refl
length-sent f (s ∷ ss) = ap suc (length-sent f ss)

-- The data buffer lies in 6 pages at most.
pub few_pages : (off : ℕ) → off < page_size → num_pages_for off data_buf_size ≤ 6
unfolding num_pages_for
few_pages off small = omega arith

pub allocate-open_fds : (a : ℕ) (p : Process) → (allocate a p).open_fds ≡ p.open_fds
allocate-open_fds a p = elim (Bool-cases (a == 0)) [
  | inl nothing ↦ rw nothing refl
  | inr block ↦ rw block refl
]

pub allocate-mapped : (a : ℕ) (p : Process) → (allocate a p).mapped ≡ p.mapped
allocate-mapped a p = elim (Bool-cases (a == 0)) [
  | inl nothing ↦ rw nothing refl
  | inr block ↦ rw block refl
]

-- The loop has added all buffers: there is data for them, and descriptors for 11 of 6 pieces each.
pub all_of :
    (f : Filling) (k pieces_max : ℕ)
    → k ≤ num_buffers
    → pieces_max ≤ 6
    → f ≢ no_data
    → (f ≡ no_descriptors → 4808 < 64 * ((k + 1) * pieces_max))
    → f ≢ exits
    → f ≡ all_added
all_of all_added k m few small data_left crowded going = refl
all_of no_descriptors k m few small data_left crowded going =
    let bound : (k + 1) * m ≤ 11 * 6 = grind (arith, few, small) in
    absurd (omega (arith, crowded refl, bound))
all_of no_data k m few small data_left crowded going = absurd (data_left refl)
all_of exits k m few small data_left crowded going = absurd (going refl)
