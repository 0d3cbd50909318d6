-- ===== src/Example/Main.antt =====
-- The `main` of example.c, over the pinner driver and what the process holds.
use mpsoc_axidma.Base.{ℕ, Bool, true, false, Option, none, some, ◌==◌, if◌then◌else◌}
use mpsoc_axidma.Physlist.{Physlist}
use mpsoc_axidma.Heap.{Ptr, Heap, fault, Cmd, pure, ◌>>=◌}
use mpsoc_axidma.PinnerApi.{sizeof_pinner_cmd, PinnerHandle, PinnerCmd, pin_request, unpin_request}
use mpsoc_axidma.Pinner.{Page}
use mpsoc_axidma.Pinner.Files.{Driver, pinner_open, pinner_release}
use mpsoc_axidma.Pinner.Ops.{Replies, Reply, failed, pinned}
use mpsoc_axidma.Pinner.Driver.{write_request}
use mpsoc_axidma.Dma.{Transfer, DescMem, AxidmaCtx}
use mpsoc_axidma.Context.{Process, set, OpenReplies, close_fd, axidma_open, axidma_close}
use mpsoc_axidma.Example.{Finish, exited, make_and_receive}

abbrev pub sg_buf_size : ℕ
sg_buf_size = 5000

abbrev pub data_buf_size : ℕ
data_buf_size = 20000

abbrev pub num_buffers : ℕ
num_buffers = 10

abbrev pub buffer_sz : ℕ
buffer_sz = 1600

-- What the calls of `main` find: the replies to `axidma_open`; the descriptor of `/dev/pinner`,
-- `none` for -1, with the address and the magic of its user in the driver; the buffers that `malloc`
-- gives, 0 for `NULL`; the addresses of the locals; and the kernel's answers to each request.
pub record MainReplies : Type 0 where
  pub ctx : OpenReplies
  pub pinner_fd : Option ℕ
  pub id : ℕ
  pub magic : ℕ
  pub sg_buf : ℕ
  pub data_buf : ℕ
  pub sg_handle : ℕ
  pub sg_plist : ℕ
  pub data_handle : ℕ
  pub data_plist : ℕ
  pub pin_sg : Replies
  pub pin_data : Replies
  pub flush_sg : Replies
  pub unpin_data : Replies
  pub unpin_sg : Replies

-- Where `main` ends: for its arguments, for lack of a context or of a pinned buffer, where the driver
-- steps on an invalid pointer, or after the list.
pub data MainEnd : Type 0 where
  usage no_ctx not_pinned bad_pointer : MainEnd
  ran : Finish → MainEnd

-- What it leaves.
pub record Left : Type 0 where
  pub how : MainEnd
  pub process : Process
  pub driver : Driver

abbrev pub left : MainEnd → Process → Driver → Left
left how p d = record { how = how; process = p; driver = d }

abbrev pub open_file : ℕ → Process → Process
open_file fd p = record p { open_fds = set p.open_fds fd true }

abbrev pub allocate : ℕ → Process → Process
allocate a p = if a == 0 then p else record p { allocated = set p.allocated a true }

-- Whether a request succeeds.
abbrev pub succeeds : Option (Reply × Driver) → Bool
succeeds none = false
succeeds (some (failed e, d)) = false
succeeds (some (rep, d)) = true

abbrev pub after : Option (Reply × Driver) → Option Driver
after none = none
after (some (rep, d)) = some d

module _ (page_to_phys : Page → ℕ) (r : MainReplies) where
  -- An unpin with the handle; its result is not looked at.
  unfoldable pub unpin : Replies → PinnerHandle → (address : ℕ) → Driver → Option Driver
  unfolding write_request
  unpin answers h address d = after (
      write_request page_to_phys (record answers { handle = h }) (unpin_request address)
        sizeof_pinner_cmd r.id d)

  -- Whether the flush with the handle succeeds, which leaves the driver as it is.
  abbrev pub accepts : PinnerHandle → Driver → PinnerCmd → ℕ → Bool
  accepts sg_h d c sz =
      succeeds (write_request page_to_phys (record r.flush_sg { handle = sg_h }) c sz r.id d)

  -- The two unpins and `pinner_close`.
  unfoldable pub unpin_both : (sg_h data_h : PinnerHandle) → Driver → Option Driver
  unfolding unpin pinner_release
  unpin_both sg_h data_h d = elim (unpin r.unpin_data data_h r.data_handle d) [
    | none ↦ none
    | some d1 ↦ elim (unpin r.unpin_sg sg_h r.sg_handle d1) [
      | none ↦ none
      | some d2 ↦ pinner_release r.id d2
    ]
  ]

  module _ (pick : Heap → Ptr) (stack : Ptr) (rounds fuel : ℕ)
      (engine : Transfer → DescMem → DescMem) (m : DescMem) where
    module _ (ret : ℕ) (ctx : AxidmaCtx) (fd : ℕ) (p : Process) where
      -- From `axidma_close` on.
      unfoldable pub clean_up : (sg_h data_h : PinnerHandle) → Driver → Finish → Left
      unfolding axidma_close unpin_both
      clean_up sg_h data_h d exited = left (ran exited) p d
      clean_up sg_h data_h d f = elim (unpin_both sg_h data_h d) [
        | none ↦ left bad_pointer p d
        | some d' ↦ left (ran f) (close_fd fd (axidma_close ret ctx p)) d'
      ]

      -- With both buffers pinned. The cache of the first is flushed with its handle.
      unfoldable pub data_pinned : Physlist → PinnerHandle → Reply → Driver → Cmd Left
      unfolding make_and_receive clean_up write_request
      data_pinned sg_plist sg_h (pinned data_plist data_h) d = do
        f ←
            make_and_receive pick stack (accepts sg_h d) rounds fuel engine ctx m (some fd)
              r.sg_handle r.sg_buf sg_plist r.data_buf data_plist num_buffers buffer_sz
        pure (clean_up sg_h data_h d f)
      data_pinned sg_plist sg_h _ d = pure (left not_pinned p d)

      unfoldable pub sg_pinned : Reply → Driver → Cmd Left
      unfolding write_request data_pinned
      sg_pinned (pinned sg_plist sg_h) d =
          elim (write_request page_to_phys r.pin_data
            (pin_request r.data_buf data_buf_size r.data_handle r.data_plist) sizeof_pinner_cmd r.id
            d) [
              | none ↦ pure (left bad_pointer p d)
              | some (rep, d') ↦ data_pinned sg_plist sg_h rep d'
            ]
      sg_pinned _ d = pure (left not_pinned p d)

    -- With what `axidma_open` returned. Zeros are written to the first buffer.
    unfoldable pub with_ctx : Process × Option (ℕ × AxidmaCtx) → Driver → Cmd Left
    unfolding pinner_open write_request sg_pinned
    with_ctx (p, none) d = pure (left no_ctx p d)
    with_ctx (p, some (ret, ctx)) d = if r.sg_buf == 0 then (λ _. fault) else elim r.pinner_fd [
      | none ↦ pure (left not_pinned (allocate r.data_buf (allocate r.sg_buf p)) d)
      | some fd ↦
          let p' = allocate r.data_buf (allocate r.sg_buf (open_file fd p)) in
          let d' = (pinner_open (some r.id) r.magic d).0 in
          elim (write_request page_to_phys r.pin_sg
            (pin_request r.sg_buf sg_buf_size r.sg_handle r.sg_plist) sizeof_pinner_cmd r.id d') [
              | none ↦ pure (left bad_pointer p' d')
              | some (rep, d'') ↦ sg_pinned ret ctx fd p' rep d''
            ]
    ]

    unfoldable pub example_main : (argc : ℕ) → Process → Driver → Cmd Left
    unfolding axidma_open with_ctx
    example_main argc p d =
        if argc == 2 then with_ctx (axidma_open r.ctx p) d else pure (left usage p d)
