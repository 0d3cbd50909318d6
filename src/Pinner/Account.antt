-- ===== src/Pinner/Account.antt =====
-- Page references and blocks of memory: the driver has those of its pinnings, and no others but page
-- arrays.
use mpsoc_axidma.Base.{
  ℕ, ◌+◌, ◌%◌, subst, sym, ◌≤◌, ◌≡◌, ◌≢◌, refl, ◌∙◌, ap, Bool, List, [], ◌∷◌, Option, none, some,
  ltb, ◌==◌, length, ◌⊎◌, inl, inr, arith, Bool-cases, Option-cases,
}
use mpsoc_axidma.PinnerApi.{
  sizeof_pinner_cmd, max_pages, PinnerCmd, pin_code, unpin_code, flush_code,
}
use mpsoc_axidma.Pinner.{
  Page, page_size, ScatterEnt, Pinning, ProcInfo, num_pages_for, fill_sglist, fill_rest,
}
use mpsoc_axidma.Pinner.Memory.{
  Resource, page_ref, page_array, pinning_block, sglist_block, proc_block, Holdings, one, kmalloc,
  count, pages_of, get_pages,
}
use mpsoc_axidma.Pinner.Ops.{
  Errno, einval, enomem, eagain, enosys, Replies, Reply, failed, flushed, Outcome, returns,
  bad_pointer, free_pinning, pinner_send_physlist, pin_mapped, pinner_do_pin, find_pinning,
  pinner_do_unpin, pinner_do_flush, pinner_write,
}

-- What a pinning holds, and what the pinnings of a process do.
abbrev pub held_by : Resource → Pinning → ℕ
held_by x pin = count x (pages_of pin.sglist) + one sglist_block x + one pinning_block x

abbrev pub held : Resource → List Pinning → ℕ
held x [] = 0
held x (pin ∷ pins) = held_by x pin + held x pins

pub one-page_array : (x : Resource) → x ≢ page_array → one page_array x ≡ 0
unfolding one
one-page_array (page_ref p) other = refl
one-page_array page_array other = absurd (other refl)
one-page_array pinning_block other = refl
one-page_array sglist_block other = refl
one-page_array proc_block other = refl

-- `dma_map_sg` keeps the pages of the list.
pub record KeepsPages (r : Replies) : Type 0 where
  pub keeps : (ss ts : List ScatterEnt) → r.dma_map ss ≡ inr ts → pages_of ts ≡ pages_of ss

-- A command changes what the driver has, page arrays aside, by what it changes the pinnings.
pub data Balanced (info : ProcInfo) (refs : Holdings) : Outcome → Type 0 where
  balanced :
      {rep : Reply} {info' : ProcInfo} {refs' : Holdings}
      → ((x : Resource)
          → x ≢ page_array
          → refs' x + held x info.pinning_list ≡ refs x + held x info'.pinning_list)
      → info'.id ≡ info.id
      → Balanced info refs (returns rep info' refs')
  crashed : Balanced info refs bad_pointer

unchanged :
    (rep : Reply) (info : ProcInfo) (refs : Holdings) → Balanced info refs (returns rep info refs)
unchanged rep info refs = balanced (λ x other. refl) refl

-- The filled list holds the pages of the array.
pages_of-fill_rest :
    (page_to_phys : Page → ℕ) (ps : List Page) (n : ℕ) → pages_of (fill_rest page_to_phys ps n) ≡ ps
unfolding fill_rest
pages_of-fill_rest f [] n = refl
pages_of-fill_rest f (p ∷ []) n = refl
pages_of-fill_rest f (p ∷ q ∷ ps) n = ap (λ qs. p ∷ qs) (pages_of-fill_rest f (q ∷ ps) n)

pages_of-fill_sglist :
    (page_to_phys : Page → ℕ) (ps : List Page) (off sz : ℕ)
    → pages_of (fill_sglist page_to_phys ps off sz) ≡ ps
unfolding fill_sglist
pages_of-fill_sglist f [] off sz = refl
pages_of-fill_sglist f (p ∷ ps) off sz = ap (λ qs. p ∷ qs) (pages_of-fill_rest f ps _)

Sum-cases : {A B : Type 0} (x : A ⊎ B) → ((a : A) × (x ≡ inl a)) ⊎ ((b : B) × (x ≡ inr b))
Sum-cases (inl a) = inl (a, refl)
Sum-cases (inr b) = inr (b, refl)

-- What the driver has once a pinning is made for the pages `ps`.
abbrev pub pinned_refs : Holdings → List Page → Holdings
pinned_refs refs ps =
    kmalloc sglist_block (kmalloc pinning_block (get_pages (kmalloc page_array refs) ps))

-- Freeing a pinning that was just made gives back all but the page array.
undone-Balanced :
    (e : Errno) (info : ProcInfo) (refs : Holdings) (pin pin' : Pinning)
    → pages_of pin'.sglist ≡ pages_of pin.sglist
    → Balanced info refs
        (returns (failed e) info (free_pinning (pinned_refs refs (pages_of pin.sglist)) pin'))
undone-Balanced e info refs pin pin' same =
    balanced (λ x other. omega (arith, ap (count x) same, one-page_array x other)) refl

pin_mapped-Balanced :
    (r : Replies) (info : ProcInfo) (refs : Holdings) (pin : Pinning)
    → KeepsPages r
    → Balanced info refs (pin_mapped r info (pinned_refs refs (pages_of pin.sglist)) pin)
unfolding pin_mapped
pin_mapped-Balanced r info refs pin k = elim (Sum-cases (r.dma_map pin.sglist)) [
  | inl (e, q) ↦ rw (q, pin_mapped) (undone-Balanced e info refs pin pin refl)
  | inr (mapped, q) ↦
      let pin' : Pinning = record pin { sglist = mapped } in
      let same = k.keeps pin.sglist mapped q in
      rw (q, pin_mapped)
        (elim (Option-cases (pinner_send_physlist r pin')) [
          | inr (e, sent) ↦ rw sent (undone-Balanced e info refs pin pin' same)
          | inl sent ↦ rw sent (elim (Bool-cases r.handle_copied) [
            | inl copied ↦ rw copied (
                balanced (λ x other. omega (arith, ap (count x) same, one-page_array x other)) refl)
            | inr not_copied ↦ rw not_copied (undone-Balanced eagain info refs pin pin' same)
          ])
        ])
]

pinner_do_pin-Balanced :
    (page_to_phys : Page → ℕ) (r : Replies) (cmd : PinnerCmd) (info : ProcInfo) (refs : Holdings)
    → KeepsPages r
    → Balanced info refs (pinner_do_pin page_to_phys r cmd info refs)
unfolding pinner_do_pin
pinner_do_pin-Balanced f r cmd info refs k =
    let off = cmd.usr_buf % page_size in
    let n = num_pages_for off cmd.usr_buf_sz in
    elim (Bool-cases (ltb max_pages n)) [
      | inl big ↦ rw big (unchanged (failed einval) info refs)
      | inr fits ↦ rw fits (elim (Bool-cases (n == 0)) [
        | inl none_left ↦ rw none_left (unchanged (failed einval) info refs)
        | inr some_left ↦ rw some_left (elim (Bool-cases r.array_ok) [
          | inr no_array ↦ rw no_array (unchanged (failed enomem) info refs)
          | inl array ↦ rw array (elim (Bool-cases (length r.got == n)) [
            | inr short ↦ rw short crashed
            | inl all ↦ rw all (elim (Bool-cases r.pinning_ok) [
              | inr no_pin ↦ rw no_pin (balanced (λ x other. omega arith) refl)
              | inl pin ↦ rw pin (elim (Bool-cases r.sglist_ok) [
                | inr no_list ↦ rw no_list crashed
                | inl list ↦
                    let new : Pinning = record {
                      sglist = fill_sglist f r.got off cmd.usr_buf_sz;
                      magic = r.magic;
                    } in
                    rw list (
                      subst (λ ps. Balanced info refs (pin_mapped r info (pinned_refs refs ps) new))
                        (pages_of-fill_sglist f r.got off cmd.usr_buf_sz)
                        (pin_mapped-Balanced r info refs new k))
              ])
            ])
          ])
        ])
      ])
    ]

-- What a result of the search holds, or `d` where it found nothing.
abbrev weigh : Resource → Option (Pinning × List Pinning) → ℕ → ℕ
weigh p none d = d
weigh p (some (found, others)) d = held_by p found + held p others

weigh-find_pinning :
    (magic : ℕ) (pins : List Pinning) (p : Resource)
    → weigh p (find_pinning magic pins) (held p pins) ≡ held p pins
unfolding find_pinning
weigh-find_pinning magic [] p = refl
weigh-find_pinning magic (pin ∷ pins) p = elim (Bool-cases (magic == pin.magic)) [
  | inl hit ↦ rw hit
  | inr miss ↦
      let ih = weigh-find_pinning magic pins p in
      elim (Option-cases (find_pinning magic pins)) [
        | inl nothing ↦ rw (miss, nothing)
        | inr ((found, others), q) ↦
            rw (miss, q) (omega (arith, sym (ap (λ x. weigh p x (held p pins)) q) ∙ ih))
      ]
]

-- What the search finds is one of the pinnings, and the others stay.
pub find_pinning-held :
    (magic : ℕ) (pins : List Pinning) {found : Pinning} {others : List Pinning} (p : Resource)
    → find_pinning magic pins ≡ some (found, others)
    → held p pins ≡ held_by p found + held p others
find_pinning-held magic pins p h =
    sym (weigh-find_pinning magic pins p) ∙ ap (λ x. weigh p x (held p pins)) h

pinner_do_unpin-Balanced :
    (r : Replies) (info : ProcInfo) (refs : Holdings)
    → ((x : Resource) → x ≢ page_array → held x info.pinning_list ≤ refs x)
    → Balanced info refs (pinner_do_unpin r info refs)
unfolding pinner_do_unpin
pinner_do_unpin-Balanced r info refs enough = elim (Bool-cases r.handle_copied) [
  | inr no_copy ↦ rw no_copy (unchanged (failed eagain) info refs)
  | inl copy ↦ rw copy (elim (Bool-cases (r.handle.user_magic == info.magic)) [
    | inr other ↦ rw other (unchanged (failed einval) info refs)
    | inl own ↦ rw own (elim (Option-cases (find_pinning r.handle.pin_magic info.pinning_list)) [
      | inl nothing ↦ rw nothing (unchanged (failed einval) info refs)
      | inr ((found, others), q) ↦ rw q (
          balanced
            (λ x other.
              omega
                (arith, enough x other, find_pinning-held r.handle.pin_magic info.pinning_list x q))
            refl)
    ])
  ])
]

pinner_do_flush-Balanced :
    (r : Replies) (cmd : PinnerCmd) (info : ProcInfo) (refs : Holdings)
    → Balanced info refs (pinner_do_flush r cmd info refs)
unfolding pinner_do_flush
pinner_do_flush-Balanced r cmd info refs = elim (Bool-cases r.handle_copied) [
  | inr no_copy ↦ rw no_copy (unchanged (failed eagain) info refs)
  | inl copy ↦ rw copy (elim (Bool-cases (r.handle.user_magic == info.magic)) [
    | inr other ↦ rw other (unchanged (failed einval) info refs)
    | inl own ↦ rw own (elim (Option-cases (find_pinning r.handle.pin_magic info.pinning_list)) [
      | inl nothing ↦ rw nothing (unchanged (failed einval) info refs)
      | inr ((found, others), q) ↦ rw q (unchanged (flushed _ _) info refs)
    ])
  ])
]

-- Where `dma_map_sg` keeps the pages, and the driver has what the pinnings of the process hold, a write
-- to `/dev/pinner` that returns changes the references to each page, and the blocks of memory that
-- are not page arrays, by what it changes the pinnings that hold them, whatever it returns.
pub pinner_write-Balanced :
    (page_to_phys : Page → ℕ) (r : Replies) (cmd_copied : Bool) (cmd : PinnerCmd) (sz : ℕ)
    (info : ProcInfo) (refs : Holdings)
    → KeepsPages r
    → ((x : Resource) → x ≢ page_array → held x info.pinning_list ≤ refs x)
    → Balanced info refs (pinner_write page_to_phys r cmd_copied cmd sz info refs)
unfolding pinner_write
pinner_write-Balanced f r cmd_copied cmd sz info refs k enough =
    elim (Bool-cases (sz == sizeof_pinner_cmd)) [
      | inr bad ↦ rw bad (unchanged (failed einval) info refs)
      | inl right ↦ rw right (elim (Bool-cases cmd_copied) [
        | inr no_copy ↦ rw no_copy (unchanged (failed eagain) info refs)
        | inl copy ↦ rw copy (elim (Bool-cases (cmd.cmd == pin_code)) [
          | inl pin ↦ rw pin (pinner_do_pin-Balanced f r cmd info refs k)
          | inr not_pin ↦ rw not_pin (elim (Bool-cases (cmd.cmd == unpin_code)) [
            | inl unpin ↦ rw unpin (pinner_do_unpin-Balanced r info refs enough)
            | inr not_unpin ↦ rw not_unpin (elim (Bool-cases (cmd.cmd == flush_code)) [
              | inl flush ↦ rw flush (pinner_do_flush-Balanced r cmd info refs)
              | inr unknown ↦ rw unknown (unchanged (failed enosys) info refs)
            ])
          ])
        ])
      ])
    ]
