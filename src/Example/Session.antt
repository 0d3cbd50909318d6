-- ===== src/Example/Session.antt =====
-- The main of example.c from its start to its end, where what it asks the system for is granted.
mod Counts
mod Tests
use mpsoc_axidma.Base.{
  ℕ, ◌+◌, subst, ◌-◌, ◌*◌, ◌%◌, ◌^◌, ◌≤◌, ◌<◌, ◌≡◌, ◌≢◌, refl, Bool, true, false, suc, List, [],
  ◌∷◌, map, length, Option, none, some, ◌==◌, ◌∙◌, ap, arith, inl, inr, Bool-cases,
}
use mpsoc_axidma.Physlist.{Physlist}
use mpsoc_axidma.Physlist.Layout.{size}
use mpsoc_axidma.Context.Session.{set_back}
use mpsoc_axidma.Heap.{Ptr, Heap, null}
use mpsoc_axidma.SgList.Loop.{Ends, ends}
use mpsoc_axidma.SgList.Outcome.{Ends-bind}
use mpsoc_axidma.PinnerApi.{PinnerHandle}
use mpsoc_axidma.Pinner.{
  Page, ScatterEnt, ProcInfo, page_size, num_pages_for, fill_sglist, fill_rest, to_physlist,
}
use mpsoc_axidma.Pinner.Mapping.{at_bus, IsMapped, to_physlist-IsMapped, IsMapped-Steady}
use mpsoc_axidma.Physlist.Steady.{Steady}
use mpsoc_axidma.Pinner.Memory.{Resource, page_array}
use mpsoc_axidma.Pinner.Files.{Driver, pinner_open}
use mpsoc_axidma.Pinner.Ops.{Reply, pinned}
use mpsoc_axidma.Pinner.Driver.{Accounted}
use mpsoc_axidma.Pinner.User.{HasUser, Restored, Restored-refs, new_user, pinner_open-HasUser}
use mpsoc_axidma.Dma.{DescMem, AxidmaCtx, Transfer}
use mpsoc_axidma.Context.{Process, set, axidma_open, axidma_close, close_fd}
use mpsoc_axidma.Example.{
  Filling, all_added, no_descriptors, no_data, exits, Received, Finish, exited, finished,
}
use mpsoc_axidma.Dma.Engine.{Serves, Maps}
use mpsoc_axidma.Example.Sent.{Delivered}
use mpsoc_axidma.Example.Whole.{NoMemory, Outcome, gave_up, received}
use mpsoc_axidma.Example.Pinned.{make_and_receive-fill_sglist}
use mpsoc_axidma.Example.Granted.{pieces, Granted, pin-HasUser, unpin_both-Restored}
use mpsoc_axidma.Example.Session.Counts.{
  both_back, length-fill_sglist, length-sent, few_pages, allocate-open_fds, allocate-mapped, all_of,
}
use mpsoc_axidma.Example.Main.{
  MainReplies, MainEnd, ran, Left, sg_buf_size, data_buf_size, num_buffers, buffer_sz, open_file,
  allocate, clean_up, sg_pinned, data_pinned, with_ctx, accepts, example_main,
}

-- How it ends: the allocator gives no block, or it has added and received all 10 buffers; then the
-- blocks of the list's memory are allocated that were, the driver has the users and, page arrays
-- aside, what it had, and the process its files and mappings.
pub data Served (pick : Heap → Ptr) (h : Heap) (stack : Ptr) (sg_list plist : Physlist)
    (data_buf : ℕ) (p : Process) (d : Driver) : Left → Heap → Type 0 where
  no_block :
      {l : Left} {h' : Heap}
      → NoMemory pick h stack sg_list plist num_buffers buffer_sz h'
      → l.how ≡ ran exited
      → Served pick h stack sg_list plist data_buf p d l h'
  served :
      {l : Left} {h' : Heap} (t : Transfer) (got : Received)
      → l.how ≡ ran (finished all_added t got)
      → Delivered data_buf buffer_sz num_buffers t got
      → ((a : Ptr) → h'.alive a ≡ h.alive a)
      → l.driver.users ≡ d.users
      → ((x : Resource) → x ≢ page_array → l.driver.refs x ≡ d.refs x)
      → ((a : ℕ) → l.process.open_fds a ≡ p.open_fds a)
      → ((a : ℕ) → l.process.mapped a ≡ p.mapped a)
      → Served pick h stack sg_list plist data_buf p d l h'

-- Nothing of the process is in use that the system gives.
pub record Free (ctx_fd base fd : ℕ) (p : Process) : Type 0 where
  pub ctx_fd_free : p.open_fds ctx_fd ≡ false
  pub base_free : p.mapped base ≡ false
  pub fd_free : set p.open_fds ctx_fd true fd ≡ false

module _ (page_to_phys : Page → ℕ) (r : MainReplies) (pick : Heap → Ptr) (stack : Ptr)
    (rounds fuel : ℕ) (engine : Transfer → DescMem → DescMem) (m : DescMem) (ctx_fd base ret fd : ℕ)
    (g : Granted page_to_phys r ctx_fd base ret fd) (p : Process) (free : Free ctx_fd base fd p)
    (d : Driver) (account : Accounted d) where
  abbrev ctx : AxidmaCtx
  ctx = record { fd = ctx_fd; reg_base = base; lst = null }

  -- The process with the context, the file and the buffers.
  abbrev p1 : Process
  p1 = record p {
    open_fds = set p.open_fds ctx_fd true;
    mapped = set p.mapped base true;
    allocated = set p.allocated ret true;
  }

  abbrev p2 : Process
  p2 = allocate r.data_buf (allocate r.sg_buf (open_file fd p1))

  fds_back : (a : ℕ) → (close_fd fd (axidma_close ret ctx p2)).open_fds a ≡ p.open_fds a
  unfolding axidma_close
  fds_back a =
      ap (λ f. set (set f ctx_fd false) fd false a)
        (allocate-open_fds r.data_buf (allocate r.sg_buf (open_file fd p1))
          ∙ allocate-open_fds r.sg_buf (open_file fd p1))
      ∙ both_back p.open_fds ctx_fd fd a free.ctx_fd_free free.fd_free

  maps_back : (a : ℕ) → (close_fd fd (axidma_close ret ctx p2)).mapped a ≡ p.mapped a
  unfolding axidma_close
  maps_back a =
      ap (λ f. set f base false a)
        (allocate-mapped r.data_buf (allocate r.sg_buf (open_file fd p1))
          ∙ allocate-mapped r.sg_buf (open_file fd p1))
      ∙ set_back p.mapped base a free.base_free

  clean_up-Served :
      (h h' : Heap) (sg_list plist : Physlist) (sg_h data_h : PinnerHandle) (u : ProcInfo)
      (dn : Driver) (f : Finish)
      → size plist ≡ data_buf_size
      → length plist ≤ 6
      → size sg_list ≡ sg_buf_size
      → (c : ℕ) × (c ≤ 64) × Steady c sg_list
      → HasUser d r.id u dn
      → Outcome pick h stack sg_list r.data_buf plist num_buffers buffer_sz f h'
      → Served pick h stack sg_list plist r.data_buf p d
          (clean_up page_to_phys r pick stack rounds fuel engine m ret ctx fd p2 sg_h data_h dn f)
          h'
  unfolding clean_up
  clean_up-Served h h' sg_list plist sg_h data_h u dn exited whole small room st w
        (gave_up nothing) =
      no_block nothing refl
  clean_up-Served h h' sg_list plist sg_h data_h u dn (finished f t got) whole small room
        (c, low, steady) w (received k few all short crowded going delivered same) =
      let (d', run, back) =
        unpin_both-Restored page_to_phys r d sg_h data_h u dn g.unpin_data_keeps g.unpin_sg_keeps
          w in
      let added =
        all_of f k (length plist) few small (λ e. absurd (omega (arith, short e, whole, few)))
          (λ e. let near = crowded c steady e in omega (arith, near, room, low)) going in
      rw (run, clean_up)
        (served t got (ap (λ x. ran (finished x t got)) added)
          (subst (λ x. Delivered r.data_buf buffer_sz x t got) (all added) delivered) same
          back.users_eq (Restored-refs d d' r.id account back) fds_back maps_back)

  -- The pages are page-aligned and in the physical address space; the allocator of the list's memory
  -- gives free blocks, never the callee's stack block; what the program asks the system for is granted,
  -- with both buffers page-aligned and mapped for a device that sees physical addresses, and was free;
  -- the driver accounts for what it has; the engine has the descriptor buffer at the addresses of its
  -- pinned pages, and completes the descriptors that lead from the one it is started with to the last;
  -- and there is fuel for more than 60 rounds. Then `main` ends without a fault: with `exit(-1)` if the
  -- allocator gives no block for the list, or none for a node that the list, as it is then, is to have
  -- next, or with all 10 buffers added, as there is room for them and their descriptors, and received,
  -- each of 1600 bytes, good and where the one before ends. Then the list's memory is as it was, the
  -- process has its files and mappings as before, and the driver its users and, page arrays aside, what
  -- it had.
  pub example_main-Served :
      (aligned : (a : Page) → page_to_phys a % page_size ≡ 0)
      (in_space : (a : Page) → page_to_phys a + page_size ≤ 2 ^ 64)
      (fresh : (h : Heap) → pick h ≢ null → h.alive (pick h) ≡ false)
      (apart : (h : Heap) → pick h ≢ stack) (to_virt : ℕ → ℕ) (serves : Serves to_virt engine)
      (maps : Maps to_virt r.sg_buf
        (to_physlist (pieces page_to_phys r.pin_sg r.sg_buf sg_buf_size)))
      (h : Heap)
      → 60 < fuel
      → 60 < rounds
      → h.alive stack ≡ false
      → Ends
          (Served pick h stack
            (to_physlist (pieces page_to_phys r.pin_sg r.sg_buf sg_buf_size))
            (to_physlist (pieces page_to_phys r.pin_data r.data_buf data_buf_size))
            r.data_buf
            p
            d)
          (example_main page_to_phys r pick stack rounds fuel engine m 2 p d h)
  unfolding example_main with_ctx sg_pinned data_pinned axidma_open
  example_main-Served aligned in_space fresh apart to_virt serves maps h enough turns dead =
      let w0 = pinner_open-HasUser page_to_phys r.id r.magic d account in
      let (sg_h, u1, d1, run1, w1) =
        pin-HasUser page_to_phys r.pin_sg r.sg_buf sg_buf_size r.sg_handle r.sg_plist r.id d _ _
          g.sg_keeps g.sg_Succeeds w0 in
      let (data_h, u2, d2, run2, w2) =
        pin-HasUser page_to_phys r.pin_data r.data_buf data_buf_size r.data_handle r.data_plist r.id
          d _ _ g.data_keeps g.data_Succeeds w1 in
      let real : (r.sg_buf == 0) ≡ false = ground (arith, g.real) in
      let few = few_pages (r.data_buf % page_size) (omega arith) in
      let count =
        length-sent page_to_phys
          (fill_sglist page_to_phys r.pin_data.got (r.data_buf % page_size) data_buf_size)
        ∙ length-fill_sglist page_to_phys r.pin_data.got (r.data_buf % page_size) data_buf_size in
      let pages = g.data_Succeeds.all_pages in
      let (whole, _, _, _, _) =
        to_physlist-IsMapped page_to_phys aligned in_space r.pin_data.got _ (r.data_buf % page_size)
          data_buf_size (omega arith) (omega arith) (omega arith) pages refl in
      let sg_pages = g.sg_Succeeds.all_pages in
      let (room, _, _, _, _) =
        to_physlist-IsMapped page_to_phys aligned in_space r.pin_sg.got _ (r.sg_buf % page_size)
          sg_buf_size (omega arith) (omega arith) (omega arith) sg_pages refl in
      let data_n =
        subst (λ o. length r.pin_data.got ≡ num_pages_for o data_buf_size) g.data_aligned pages in
      let sg_n =
        subst (λ o. length r.pin_sg.got ≡ num_pages_for o sg_buf_size) g.aligned sg_pages in
      let sg_mapped = pieces page_to_phys r.pin_sg r.sg_buf sg_buf_size in
      let sg_is : IsMapped page_to_phys (fill_sglist page_to_phys r.pin_sg.got 0 sg_buf_size)
          sg_mapped =
        ap (λ o. map (at_bus page_to_phys) (fill_sglist page_to_phys r.pin_sg.got o sg_buf_size))
          g.aligned in
      let steady =
        IsMapped-Steady page_to_phys aligned in_space r.pin_sg.got sg_mapped sg_buf_size sg_n
          sg_is in
      let opened : axidma_open r.ctx p ≡ (p1, some (ret, ctx)) =
        ap (λ c. axidma_open c p) g.ctx_eq in
      rw (opened, real, g.fd_eq, run1, sg_pinned, run2, data_pinned)
        (Ends-bind
          (make_and_receive-fill_sglist page_to_phys aligned in_space pick fresh stack apart
            (accepts page_to_phys r sg_h d2) rounds fuel engine ctx m (some fd) r.sg_handle r.sg_buf
            r.data_buf r.pin_sg.got r.pin_data.got sg_mapped _ sg_buf_size data_buf_size num_buffers
            buffer_sz to_virt h refl serves (omega arith) (omega arith) (omega arith) g.aligned sg_n
            refl (omega arith) (omega arith) g.data_aligned data_n refl (omega arith) maps
            (omega (arith, few, count, pages, enough)) (omega (arith, few, count, pages, enough))
            (omega (arith, few, count, pages, turns)) dead)
          λ f h' o. ends (
            clean_up-Served h h' _ _ sg_h data_h u2 d2 f whole (omega (arith, few, count, pages))
              room (64, omega arith, steady) w2 o))
