-- ===== src/Pinner/Requests.antt =====
-- The helpers of src/pinner_fns.c against the driver that reads what they write.
use mpsoc_axidma.Base.{
  ℕ, zero, suc, ◌%◌, ◌<◌, ◌≤◌, ◌≡◌, ◌≢◌, refl, ◌⊎◌, inl, inr, ◌↔◌, Bool, true, false, List, [], ◌∷◌,
  none, some, if◌then◌else◌, ◌==◌, ltb, length, get_elem?, arith, Option-cases, Bool-cases,
}
use mpsoc_axidma.PinnerApi.{
  max_pages, PinnerCmd, flush_code, Sent, pin_request, unpin_request, pin_buf, flush_buf_cache,
  unpin_buf,
}
use mpsoc_axidma.Pinner.{Page, page_size, ScatterEnt, Pinning, ProcInfo, num_pages_for, fill_sglist}
use mpsoc_axidma.Pinner.Memory.{Holdings}
use mpsoc_axidma.Pinner.Ops.{
  Reply, Replies, Outcome, returns, bad_pointer, find_pinning, pin_mapped, pinner_do_pin,
  pinner_do_unpin, pinner_do_flush, pinner_send_physlist, pinner_write,
}

-- Whether the call of `write` returns, and not with an error.
abbrev pub succeeds : Outcome → Bool
succeeds (returns (Reply.failed e) info refs) = false
succeeds (returns rep info refs) = true
succeeds bad_pointer = false

-- One of the pinnings has the magic.
abbrev pub Holds : ℕ → List Pinning → Type 0
Holds magic pins = (i : ℕ) × (pin : Pinning) × (get_elem? pins i ≡ some pin) × (pin.magic ≡ magic)

found-Holds :
    (magic : ℕ) (pins : List Pinning) {q : Pinning × List Pinning}
    → find_pinning magic pins ≡ some q
    → Holds magic pins
unfolding find_pinning
found-Holds magic [] h = absurd (cc h)
found-Holds magic (pin ∷ pins) h = elim (Bool-cases (magic == pin.magic)) [
  | inl here ↦ (0, pin, refl, ground arith)
  | inr later ↦ elim (Option-cases (find_pinning magic pins)) [
    | inl out ↦ absurd (cc (rw (later, out) at h))
    | inr (q, found) ↦ let (i, p, at, same) = found-Holds magic pins found in (suc i, p, at, same)
  ]
]

Holds-found : (magic : ℕ) (pins : List Pinning) → Holds magic pins → find_pinning magic pins ≢ none
unfolding find_pinning
Holds-found magic [] (i, pin, at, same) = absurd (cc at)
Holds-found magic (pin ∷ pins) (zero, p, at, same) =
    let here : (magic == pin.magic) ≡ true = ground arith in rw here (λ e. cc e)
Holds-found magic (pin ∷ pins) (suc i, p, at, same) =
    let more = Holds-found magic pins (i, p, at, same) in
    elim (Bool-cases (magic == pin.magic)) [
      | inl here ↦ rw here (λ e. cc e)
      | inr later ↦ elim (Option-cases (find_pinning magic pins)) [
        | inl out ↦ absurd (more out)
        | inr (q, found) ↦ rw (later, found) (λ e. cc e)
      ]
    ]

-- The handle can be read, is one of this user's, and names one of its pinnings.
pub record Names (r : Replies) (copied : Bool) (info : ProcInfo) : Type 0 where
  pub cmd_copied : copied ≡ true
  pub handle_copied : r.handle_copied ≡ true
  pub same_user : r.handle.user_magic ≡ info.magic
  pub held : Holds r.handle.pin_magic info.pinning_list

-- The buffer has from 1 to 1024 pages, all of them can be pinned, mapped and told, and there is memory
-- for them.
pub record Pins (page_to_phys : Page → ℕ) (r : Replies) (copied : Bool) (buf buf_sz : ℕ)
    : Type 0 where
  pub cmd_copied : copied ≡ true
  pub some_pages : 0 < num_pages_for (buf % page_size) buf_sz
  pub few_pages : num_pages_for (buf % page_size) buf_sz ≤ max_pages
  pub array : r.array_ok ≡ true
  pub all_pages : length r.got ≡ num_pages_for (buf % page_size) buf_sz
  pub pinning : r.pinning_ok ≡ true
  pub list : r.sglist_ok ≡ true
  pub mapped : List ScatterEnt
  pub map_eq : r.dma_map (fill_sglist page_to_phys r.got (buf % page_size) buf_sz) ≡ inr mapped
  pub entries : r.entries_ok ≡ true
  pub num_copied : r.num_copied ≡ true
  pub entries_copied : r.entries_copied ≡ true
  pub handle_copied : r.handle_copied ≡ true

-- A helper returns 0 only if its request succeeds.
done-sent :
    (ok : Bool) (c : PinnerCmd)
    → (if ok then Sent.done c else Sent.failed c) ≡ Sent.done c
    → ok ≡ true
done-sent true c e = refl
done-sent false c e = absurd (cc e)

Sum-cases : {A B : Type 0} (s : A ⊎ B) → ((a : A) × (s ≡ inl a)) ⊎ ((b : B) × (s ≡ inr b))
Sum-cases (inl a) = inl (a, refl)
Sum-cases (inr b) = inr (b, refl)

-- A request with no buffer.
abbrev pub request : (code handle : ℕ) → PinnerCmd
request code h = record { cmd = code; usr_buf = 0; usr_buf_sz = 0; handle = h; physlist = 0 }

module _ (page_to_phys : Page → ℕ) (r : Replies) (copied : Bool) (info : ProcInfo)
    (refs : Holdings) where
  -- The system call as the driver answers it.
  abbrev pub write_call : PinnerCmd → ℕ → Bool
  write_call c sz = succeeds (pinner_write page_to_phys r copied c sz info refs)

  pinner_do_flush-Names :
      (c : PinnerCmd)
      → copied ≡ true
      → (succeeds (pinner_do_flush r c info refs) ≡ true) ↔ Names r copied info
  unfolding pinner_do_flush
  pinner_do_flush-Names c read =
      elim (Option-cases (find_pinning r.handle.pin_magic info.pinning_list)) [
        | inl out ↦ (
          λ h. absurd (ground (arith, out)),
          λ n. absurd (Holds-found r.handle.pin_magic info.pinning_list n.held out),
        )
        | inr (q, found) ↦ (
          λ h. record {
            cmd_copied = read;
            handle_copied = ground arith;
            same_user = ground arith;
            held = found-Holds r.handle.pin_magic info.pinning_list found;
          },
          λ n. ground (arith, found, n.same_user, n.handle_copied),
        )
      ]

  pinner_do_unpin-Names :
      copied ≡ true → (succeeds (pinner_do_unpin r info refs) ≡ true) ↔ Names r copied info
  unfolding pinner_do_unpin
  pinner_do_unpin-Names read =
      elim (Option-cases (find_pinning r.handle.pin_magic info.pinning_list)) [
        | inl out ↦ (
          λ h. absurd (ground (arith, out)),
          λ n. absurd (Holds-found r.handle.pin_magic info.pinning_list n.held out),
        )
        | inr (q, found) ↦ (
          λ h. record {
            cmd_copied = read;
            handle_copied = ground arith;
            same_user = ground arith;
            held = found-Holds r.handle.pin_magic info.pinning_list found;
          },
          λ n. ground (arith, found, n.same_user, n.handle_copied),
        )
      ]

  pinner_do_pin-Pins :
      (c : PinnerCmd)
      → copied ≡ true
      → (succeeds (pinner_do_pin page_to_phys r c info refs) ≡ true)
        ↔ Pins page_to_phys r copied c.usr_buf c.usr_buf_sz
  unfolding pinner_do_pin pin_mapped pinner_send_physlist
  pinner_do_pin-Pins c read =
      let n = num_pages_for (c.usr_buf % page_size) c.usr_buf_sz in
      let filled = fill_sglist page_to_phys r.got (c.usr_buf % page_size) c.usr_buf_sz in
      elim (Sum-cases (r.dma_map filled)) [
        | inl (e, out) ↦ (λ h. absurd (ground (arith, out)), λ w. absurd (cc (w.map_eq, out)))
        | inr (mapped, found) ↦ (
          λ h. record {
            cmd_copied = read;
            some_pages = ground arith;
            few_pages = ground arith;
            array = ground arith;
            all_pages = ground arith;
            pinning = ground arith;
            list = ground arith;
            mapped = mapped;
            map_eq = found;
            entries = ground (arith, found);
            num_copied = ground (arith, found);
            entries_copied = ground (arith, found);
            handle_copied = ground (arith, found);
          },
          λ w.
              let small : ltb max_pages n ≡ false = ground (arith, w.few_pages) in
              let some_left : (n == 0) ≡ false = ground (arith, w.some_pages) in
              let all : (length r.got == n) ≡ true = ground (arith, w.all_pages) in
              rw
                (
                  small, some_left, w.array, all, w.pinning, w.list, found, w.entries, w.num_copied,
                  w.entries_copied, w.handle_copied,
                )
                refl,
        )
      ]

  -- With the driver behind an open file, whatever the kernel answers: `pin_buf` returns 0 exactly when
  -- the command is read, its buffer has from 1 to 1024 pages, all of them can be pinned and mapped and
  -- the user told, and every allocation succeeds; `flush_buf_cache` and `unpin_buf` exactly when the
  -- command and the handle are read, and the handle is of this user and names one of its pinnings.
  pub requests-pinner_write :
      (fd buf buf_sz h p : ℕ)
      → ((pin_buf write_call (some fd) buf buf_sz h p ≡ Sent.done (pin_request buf buf_sz h p))
          ↔ Pins page_to_phys r copied buf buf_sz)
        × ((flush_buf_cache write_call (some fd) h ≡ Sent.done (request flush_code h))
            ↔ Names r copied info)
        × ((unpin_buf write_call (some fd) h ≡ Sent.done (unpin_request h)) ↔ Names r copied info)
  unfolding pin_buf flush_buf_cache unpin_buf pinner_write
  requests-pinner_write fd buf buf_sz h p = elim (Bool-cases copied) [
    | inr unread ↦ (
      (λ e. absurd (ground (arith, unread)), λ w. absurd (cc (w.cmd_copied, unread))),
      (λ e. absurd (ground (arith, unread)), λ w. absurd (cc (w.cmd_copied, unread))),
      (λ e. absurd (ground (arith, unread)), λ w. absurd (cc (w.cmd_copied, unread))),
    )
    | inl read ↦
        let c = pin_request buf buf_sz h p in
        let (pin_only, pin_all) = pinner_do_pin-Pins c read in
        let (flush_only, flush_all) = pinner_do_flush-Names (request flush_code h) read in
        let (unpin_only, unpin_all) = pinner_do_unpin-Names read in
        (
          (λ e. pin_only (done-sent _ c (rw read at e)), λ w. rw (read, pin_all w) refl),
          (
            λ e. flush_only (done-sent _ (request flush_code h) (rw read at e)),
            λ w. rw (read, flush_all w) refl,
          ),
          (
            λ e. unpin_only (done-sent _ (unpin_request h) (rw read at e)),
            λ w. rw (read, unpin_all w) refl,
          ),
        )
  ]
