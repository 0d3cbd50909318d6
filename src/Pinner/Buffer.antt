-- ===== src/Pinner/Buffer.antt =====
-- What the list that the driver fills, before dma_map_sg, has of what the list of src/axidma.c can use.
use mpsoc_axidma.Base.{
  ℕ, ◌+◌, ◌-◌, ◌%◌, ◌^◌, ◌≤◌, ◌<◌, ◌≡◌, refl, ◌⊎◌, inl, inr, List, [], ◌∷◌, arith, length, All,
}
use mpsoc_axidma.Physlist.{PhyslistEntry, not_found, adjustment}
use mpsoc_axidma.Physlist.Layout.{Fits}
use mpsoc_axidma.Physlist.Align.{Roomy}
use mpsoc_axidma.Physlist.Steady.{Steady}
use mpsoc_axidma.Physlist.Room.{desc_size, EndsClear, HoldsDescriptors}
use mpsoc_axidma.SgList.Range.{IsShort}
use mpsoc_axidma.SgList.Invariant.{HoldsData}
use mpsoc_axidma.Pinner.{Page, page_size, num_pages_for, fill_rest, fill_sglist, to_physlist}
use mpsoc_axidma.Pinner.Geometry.{last_of_buffer, last_bounds, fill_sglist_lem}

-- A piece of `n` bytes from offset `o` in a page on: it ends with the buffer, or on a boundary.
record IsPart (off sz o n : ℕ) : Type 0 where
  pub inside : o + n ≤ page_size
  pub end_eq : ((o + n) % 64 ≡ 0) ⊎ ((o + n) % 64 ≡ (off + sz) % 64)

module _ (page_to_phys : Page → ℕ) (aligned : (p : Page) → page_to_phys p % page_size ≡ 0)
    (in_space : (p : Page) → page_to_phys p + page_size ≤ 2 ^ 64) where
  abbrev part : Page → (o n : ℕ) → PhyslistEntry
  part p o n = record { addr = (page_to_phys p + o) % 2 ^ 64; len = n }

  rest-All :
      (P : PhyslistEntry → Type 0) (off sz last : ℕ) (ps : List Page)
      → ((p : Page) (o n : ℕ) → IsPart off sz o n → P (part p o n))
      → IsPart off sz 0 last
      → All P (to_physlist (fill_rest page_to_phys ps last))
  unfolding fill_rest
  rest-All P off sz last [] each w = tt
  rest-All P off sz last (p ∷ []) each w = (each p 0 last w, tt)
  rest-All P off sz last (p ∷ q ∷ ps) each w = (
    each p 0 page_size (record { inside = omega arith; end_eq = inl refl }),
    rest-All P off sz last (q ∷ ps) each w,
  )

  fill_sglist-All :
      (P : PhyslistEntry → Type 0) (pages : List Page) (off sz : ℕ)
      → off < page_size
      → sz < 2 ^ 32
      → length pages ≡ num_pages_for off sz
      → ((p : Page) (o n : ℕ) → IsPart off sz o n → P (part p o n))
      → All P (to_physlist (fill_sglist page_to_phys pages off sz))
  unfolding fill_sglist num_pages_for
  fill_sglist-All P [] off sz ho hs n each = tt
  fill_sglist-All P (p ∷ []) off sz ho hs n each =
      (each p off _ (record { inside = ground arith; end_eq = ground arith }), tt)
  fill_sglist-All P (p ∷ q ∷ ps) off sz ho hs n each =
      let (many, small, sum) = last_bounds page_to_phys aligned in_space q ps off sz ho hs n in
      (
        each p off _ (record { inside = ground arith; end_eq = ground arith }),
        rest-All P off sz (last_of_buffer page_to_phys aligned in_space (q ∷ ps) off sz) (q ∷ ps)
            each (record { inside = omega (arith, small); end_eq = inr (omega (arith, sum)) }),
      )

  part-EndsClear :
      (off sz : ℕ)
      → (off + sz) % 64 ≤ desc_size
      → (p : Page) (o n : ℕ) → IsPart off sz o n
      → EndsClear (part p o n)
  part-EndsClear off sz clear p o n w =
      let base = aligned p in
      let top = in_space p in
      let inside = w.inside in
      elim w.end_eq [
        | inl e ↦ record { clear = omega (arith, e, base, top, inside) }
        | inr e ↦ record { clear = omega (arith, e, base, top, inside, clear) }
      ]

  fill_sglist-Roomy :
      (pages : List Page) (off sz : ℕ)
      → off < page_size
      → 64 ≤ sz
      → Roomy (to_physlist (fill_sglist page_to_phys pages off sz)) 0
  unfolding fill_sglist adjustment
  fill_sglist-Roomy [] off sz ho enough = refl
  fill_sglist-Roomy (p ∷ ps) off sz ho enough = ground (arith, aligned p, in_space p)

  -- The pages' addresses are page-aligned and their bytes in the physical address space, and the pages
  -- are as many as a buffer of `sz` bytes from `off` bytes into the first page on needs. Then, for 64
  -- bytes up to 4 GiB - 2 that do not end in the last 7 bytes before a 64-byte boundary, the physlist
  -- of the list that it fills is one that holds descriptors: `find_contiguous_aligned_after` finds the
  -- least place in it from the start, and from behind each descriptor.
  pub fill_sglist-HoldsDescriptors :
      (pages : List Page) (off sz : ℕ)
      → off < page_size
      → 64 ≤ sz
      → sz < not_found
      → (off + sz) % 64 ≤ desc_size
      → length pages ≡ num_pages_for off sz
      → HoldsDescriptors (to_physlist (fill_sglist page_to_phys pages off sz))
  fill_sglist-HoldsDescriptors pages off sz ho enough small clear n =
      let (size_eq, starts, _) =
        fill_sglist_lem page_to_phys aligned in_space pages off sz ho (omega arith) (omega arith)
          n in
      record {
        small = omega arith;
        starts = starts;
        first = fill_sglist-Roomy pages off sz ho enough;
        ends =
            fill_sglist-All EndsClear pages off sz ho (omega arith) n (part-EndsClear off sz clear);
      }

  -- With such addresses and so many pages, the physlist of what the driver fills in for every buffer of
  -- less than 4 GiB that is not empty is one that holds data.
  pub fill_sglist-HoldsData :
      (pages : List Page) (off sz : ℕ)
      → off < page_size
      → 0 < sz
      → sz < 2 ^ 32
      → length pages ≡ num_pages_for off sz
      → HoldsData (to_physlist (fill_sglist page_to_phys pages off sz))
  fill_sglist-HoldsData pages off sz ho pos hs n =
      let (size_eq, _, _) =
        fill_sglist_lem page_to_phys aligned in_space pages off sz ho pos hs n in
      record {
        fits =
            fill_sglist-All Fits pages off sz ho hs n
              (λ p o k w. record { within = omega (arith, w.inside, in_space p) });
        small = omega arith;
        short =
            fill_sglist-All IsShort pages off sz ho hs n
              (λ p o k w. record { short = omega (arith, w.inside) });
      }

  rest-Steady :
      (ps : List Page) (last : ℕ) → Steady 0 (to_physlist (fill_rest page_to_phys ps last))
  unfolding fill_rest
  rest-Steady [] last = tt
  rest-Steady (p ∷ []) last = omega (arith, aligned p, in_space p)
  rest-Steady (p ∷ q ∷ []) last =
      (omega (arith, aligned p, in_space p), refl, rest-Steady (q ∷ []) last)
  rest-Steady (p ∷ q ∷ q' ∷ ps) last =
      (omega (arith, aligned p, in_space p), refl, rest-Steady (q ∷ q' ∷ ps) last)

  -- The places for descriptors in such a physlist are 64 bytes apart, from the first boundary on.
  pub fill_sglist-Steady :
      (pages : List Page) (off sz : ℕ)
      → off < page_size
      → length pages ≡ num_pages_for off sz
      → Steady (64 - off % 64) (to_physlist (fill_sglist page_to_phys pages off sz))
  unfolding fill_sglist num_pages_for
  fill_sglist-Steady [] off sz ho n = tt
  fill_sglist-Steady (p ∷ []) off sz ho n = omega (arith, aligned p, in_space p)
  fill_sglist-Steady (p ∷ q ∷ []) off sz ho n =
      (omega (arith, aligned p, in_space p), ground arith, omega (arith, aligned q, in_space q))
  fill_sglist-Steady (p ∷ q ∷ q' ∷ ps) off sz ho n =
      (omega (arith, aligned p, in_space p), ground arith, rest-Steady (q ∷ q' ∷ ps) _)
