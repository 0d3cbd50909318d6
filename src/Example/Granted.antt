-- ===== src/Example/Granted.antt =====
-- The requests of the main of example.c that the driver grants, and what they leave it with.
use mpsoc_axidma.Base.{ℕ, ◌%◌, ◌≡◌, ◌≢◌, refl, List, map, some}
use mpsoc_axidma.PinnerApi.{sizeof_pinner_cmd, PinnerHandle, pin_request, unpin_request}
use mpsoc_axidma.Pinner.{Page, ScatterEnt, ProcInfo, page_size, fill_sglist, to_physlist}
use mpsoc_axidma.Pinner.Mapping.{at_bus}
use mpsoc_axidma.Pinner.Files.{Driver}
use mpsoc_axidma.Pinner.Ops.{Replies, pinned, pinner_write}
use mpsoc_axidma.Pinner.Account.{KeepsPages}
use mpsoc_axidma.Pinner.RoundTrip.{Succeeds, with_pinning, pinner_do_unpin-pinner_do_pin}
use mpsoc_axidma.Pinner.Returns.{pinner_do_unpin-Returns}
use mpsoc_axidma.Pinner.Driver.{write_request}
use mpsoc_axidma.Pinner.User.{HasUser, Restored, pinner_release-Restored, write_request-HasUser}
use mpsoc_axidma.Example.Main.{MainReplies, sg_buf_size, data_buf_size, unpin, unpin_both}

module _ (page_to_phys : Page → ℕ) (r : MainReplies) where
  -- An unpin leaves the driver with the user.
  unpin-HasUser :
      (d0 : Driver) (answers : Replies) (h : PinnerHandle) (address : ℕ) (u : ProcInfo) (d : Driver)
      → KeepsPages answers
      → HasUser d0 r.id u d
      → (u' : ProcInfo) × (d' : Driver) × (unpin page_to_phys r answers h address d ≡ some d')
        × HasUser d0 r.id u' d'
  unfolding unpin pinner_write
  unpin-HasUser d0 answers h address u d k w =
      let q : Replies = record answers { handle = h } in
      let (rep, u', refs', ran) = pinner_do_unpin-Returns q u d.refs in
      let (d', run, w') =
        write_request-HasUser d0 r.id page_to_phys q (unpin_request address) u u' d rep refs'
          (record { keeps = k.keeps }) w ran in
      (u', d', rw (run, unpin) refl, w')

  pub unpin_both-Restored :
      (d0 : Driver) (sg_h data_h : PinnerHandle) (u : ProcInfo) (d : Driver)
      → KeepsPages r.unpin_data
      → KeepsPages r.unpin_sg
      → HasUser d0 r.id u d
      → (d' : Driver) × (unpin_both page_to_phys r sg_h data_h d ≡ some d') × Restored d0 r.id d'
  unfolding unpin_both
  unpin_both-Restored d0 sg_h data_h u d k k' w =
      let (u1, d1, run1, w1) = unpin-HasUser d0 r.unpin_data data_h r.data_handle u d k w in
      let (u2, d2, run2, w2) = unpin-HasUser d0 r.unpin_sg sg_h r.sg_handle u1 d1 k' w1 in
      let (d3, run3, back) = pinner_release-Restored d0 r.id page_to_phys u2 d2 w2 in
      (d3, rw (run1, run2, run3, unpin_both) refl, back)

-- The list that the driver fills with a buffer's pages, mapped for a device that sees physical
-- addresses.
abbrev pub pieces : (Page → ℕ) → Replies → (buf buf_sz : ℕ) → List ScatterEnt
pieces page_to_phys answers buf buf_sz =
    map (at_bus page_to_phys) (fill_sglist page_to_phys answers.got (buf % page_size) buf_sz)

-- The calls of `main` are granted: it has a context and the driver's file, `malloc` gives it two
-- page-aligned buffers, and both pins succeed, with the list that the driver fills mapped by
-- `dma_map_sg` for a device that sees physical addresses.
pub record Granted (page_to_phys : Page → ℕ) (r : MainReplies) (ctx_fd base ret fd : ℕ)
    : Type 0 where
  pub ctx_eq : r.ctx ≡ record { fd = some ctx_fd; reg_base = some base; ret = some ret }
  pub fd_eq : r.pinner_fd ≡ some fd
  pub real : r.sg_buf ≢ 0
  pub aligned : r.sg_buf % page_size ≡ 0
  pub data_aligned : r.data_buf % page_size ≡ 0
  pub sg_Succeeds :
      Succeeds page_to_phys r.pin_sg
        (pin_request r.sg_buf sg_buf_size r.sg_handle r.sg_plist)
        (pieces page_to_phys r.pin_sg r.sg_buf sg_buf_size)
  pub data_Succeeds :
      Succeeds page_to_phys r.pin_data
        (pin_request r.data_buf data_buf_size r.data_handle r.data_plist)
        (pieces page_to_phys r.pin_data r.data_buf data_buf_size)
  pub sg_keeps : KeepsPages r.pin_sg
  pub data_keeps : KeepsPages r.pin_data
  pub unpin_data_keeps : KeepsPages r.unpin_data
  pub unpin_sg_keeps : KeepsPages r.unpin_sg

-- A pin that succeeds, as a request of the user of the file.
pub pin-HasUser :
    (page_to_phys : Page → ℕ) (answers : Replies) (buf buf_sz h p : ℕ) (id : ℕ) (d0 : Driver)
    (u : ProcInfo) (d : Driver)
    → KeepsPages answers
    → Succeeds page_to_phys answers
        (pin_request buf buf_sz h p)
        (pieces page_to_phys answers buf buf_sz)
    → HasUser d0 id u d
    → (handle : PinnerHandle) × (u' : ProcInfo) × (d' : Driver) × (write_request page_to_phys
          answers
          (pin_request buf buf_sz h p)
          sizeof_pinner_cmd
          id
          d
        ≡ some (pinned (to_physlist (pieces page_to_phys answers buf buf_sz)) handle, d'))
      × HasUser d0 id u' d'
unfolding pinner_write
pin-HasUser page_to_phys answers buf buf_sz h p id d0 u d k s w =
    let c = pin_request buf buf_sz h p in
    let mapped = pieces page_to_phys answers buf buf_sz in
    let u' = with_pinning page_to_phys answers c u mapped in
    let (ran, _) = pinner_do_unpin-pinner_do_pin page_to_phys answers c u d.refs mapped s in
    let (d', run, w') = write_request-HasUser d0 id page_to_phys answers c u u' d _ _ k w ran in
    (_, u', d', run, w')
