-- ===== src/Pinner/Memory.antt =====
-- What the driver has from the kernel.
use mpsoc_axidma.Base.{ℕ, ◌+◌, ◌-◌, List, [], ◌∷◌, ◌==◌, if◌then◌else◌}
use mpsoc_axidma.Pinner.{Page, ScatterEnt}

-- What the driver has from the kernel: references to pages, and blocks of memory, by what they are
-- for. The block for the entries in `pinner_send_physlist` is left out: that function frees it.
pub data Resource : Type 0 where
  page_ref : Page → Resource
  page_array pinning_block sglist_block proc_block : Resource

-- How many it has of each.
abbrev pub Holdings : Type 0
Holdings = Resource → ℕ

-- One of the first, as counted for the second.
unfoldable pub one : Resource → Resource → ℕ
one (page_ref p) (page_ref q) = if p == q then 1 else 0
one page_array page_array = 1
one pinning_block pinning_block = 1
one sglist_block sglist_block = 1
one proc_block proc_block = 1
one _ _ = 0

abbrev pub kmalloc : Resource → Holdings → Holdings
kmalloc b refs x = refs x + one b x

abbrev pub kfree : Resource → Holdings → Holdings
kfree b refs x = refs x - one b x

-- How often a page stands in a list.
abbrev pub count : Resource → List Page → ℕ
count x [] = 0
count x (q ∷ qs) = one (page_ref q) x + count x qs

abbrev pub pages_of : List ScatterEnt → List Page
pages_of [] = []
pages_of (s ∷ ss) = s.page ∷ pages_of ss

-- `get_user_pages_fast` takes a reference to each page, and `put_page` gives one back.
abbrev pub get_pages : Holdings → List Page → Holdings
get_pages refs ps x = refs x + count x ps

abbrev pub put_pages : Holdings → List Page → Holdings
put_pages refs ps x = refs x - count x ps
