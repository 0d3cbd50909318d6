-- ===== src/Example/Whole.antt =====
-- The program from its list to the buffers received.
use mpsoc_axidma.Base.{
  ◌||◌, if◌then◌else◌, ◌==◌, Bool-cases, inl, inr, ℕ, ◌+◌, ◌*◌, ◌^◌, ◌≤◌, ◌<◌, ◌≡◌, refl, ◌≢◌, ◌∙◌,
  ap, sym, subst, inl, inr, Bool, false, List, [], ◌∷◌, ◌==◌, length, All, Option, some, arith,
}
use mpsoc_axidma.Physlist.{Physlist}
use mpsoc_axidma.Physlist.Layout.{size, Fits}
use mpsoc_axidma.Physlist.Steady.{Steady}
use mpsoc_axidma.Physlist.Room.{HoldsDescriptors}
use mpsoc_axidma.Heap.{Ptr, Heap, pure, ◌>>◌, and_then, null}
use mpsoc_axidma.Heap.Ring.{has, ◌∈◌, Ring}
use mpsoc_axidma.SgList.{SgList, axidma_list_del}
use mpsoc_axidma.SgList.Free.{axidma_list_del-without}
use mpsoc_axidma.SgList.Loop.{Ends, ends}
use mpsoc_axidma.SgList.Outcome.{Ends-bind, NoBlock, plan_for}
use mpsoc_axidma.SgList.Invariant.{HoldsData, WellFormed}
use mpsoc_axidma.SgList.State.{new_list, axidma_list_new-WellFormed}
use mpsoc_axidma.PinnerApi.{PinnerCmd}
use mpsoc_axidma.Dma.{DescMem, AxidmaCtx, Transfer}
use mpsoc_axidma.Example.{
  Filling, all_added, no_descriptors, no_data, exits, Received, transfer_and_receive, Finish,
  exited, finished, after_filling, make_and_receive,
}
use mpsoc_axidma.Example.Split.{flat}
use mpsoc_axidma.Example.Fill.{Filled, add_buffers-Filled}
use mpsoc_axidma.Dma.Engine.{Serves, Maps}
use mpsoc_axidma.Example.Sent.{Delivered, transfer-Delivered}

-- Why the program gives up in the memory `h'`. The allocator has no block for the list, and memory is as
-- it was; or there are the list, well formed and with `k` buffers added, and its nodes, no other block
-- is allocated that was not, and a call of `malloc` for the next buffer fails.
pub data NoMemory (pick : Heap → Ptr) (h : Heap) (stack : Ptr) (sg_plist data_plist : Physlist)
    (n sz : ℕ) (h' : Heap) : Type 0 where
  no_list : pick h ≡ null → h' ≡ h → NoMemory pick h stack sg_plist data_plist n sz h'
  no_node :
      (lst : SgList) (zs : List Ptr) (k : ℕ)
      → lst.sentinel ≡ pick h
      → lst.sg_plist ≡ sg_plist
      → lst.data_plist ≡ data_plist
      → k ≤ n
      → lst.data_offset ≡ k * sz
      → length zs ≤ k * length data_plist
      → WellFormed h' lst zs
      → ((a : Ptr) → h'.alive a ≡ (has a (pick h ∷ zs) || h.alive a))
      → NoBlock pick h' stack (plan_for lst sz)
      → NoMemory pick h stack sg_plist data_plist n sz h'

-- How the program may end: the allocator gives no block, or it receives the `k` buffers that it added,
-- all `n` of them if it did not leave the loop before, and none too few for the data, nor, where
-- places are 64 bytes apart, for the descriptors that so many buffers can need; then the blocks that
-- were allocated in `h` are so again, and no others.
pub data Outcome (pick : Heap → Ptr) (h : Heap) (stack : Ptr) (sg_plist : Physlist) (data_buf : ℕ)
    (data_plist : Physlist) (n sz : ℕ) : Finish → Heap → Type 0 where
  gave_up :
      {h' : Heap}
      → NoMemory pick h stack sg_plist data_plist n sz h'
      → Outcome pick h stack sg_plist data_buf data_plist n sz exited h'
  received :
      {f : Filling} {t : Transfer} {got : Received} {h' : Heap} (k : ℕ)
      → k ≤ n
      → (f ≡ all_added → k ≡ n)
      → (f ≡ no_data → size data_plist < (k + 1) * sz)
      → ((c : ℕ)
          → Steady c sg_plist
          → f ≡ no_descriptors
          → size sg_plist < c + 64 * ((k + 1) * length data_plist) + 64)
      → f ≢ exits
      → Delivered data_buf sz k t got
      → ((a : Ptr) → h'.alive a ≡ h.alive a)
      → Outcome pick h stack sg_plist data_buf data_plist n sz (finished f t got) h'

-- A list is made at `s`, gets the new blocks `zs`, and is deleted.
freed_again :
    (h g h' g' : Heap) (s : Ptr) (zs : List Ptr)
    → h.alive s ≡ false
    → ((a : Ptr) → a ≢ s → g.alive a ≡ h.alive a)
    → ((a : Ptr) → a ∈ zs → g.alive a ≡ false)
    → ((a : Ptr) → h'.alive a ≡ (has a zs || g.alive a))
    → ((a : Ptr) → g'.alive a ≡ (if has a (s ∷ zs) then false else h'.alive a))
    → (a : Ptr) → g'.alive a ≡ h.alive a
freed_again h g h' g' s zs dead others new added deleted a = elim (Bool-cases (a == s)) [
  | inl e ↦ let same : a ≡ s = ground arith in ground (arith, deleted a, e, ap h.alive same, dead)
  | inr e ↦
      let ne : a ≢ s = ground arith in
      elim (Bool-cases (has a zs)) [
        | inl m ↦ ground (arith, deleted a, m, new a m, others a ne)
        | inr o ↦ ground (arith, deleted a, e, o, added a, others a ne)
      ]
]

le_mul : (a b c : ℕ) → a ≤ b → a * c ≤ b * c
le_mul a b c le = grind (arith, le)

module _ (pick : Heap → Ptr) (fresh : (h : Heap) → pick h ≢ null → h.alive (pick h) ≡ false)
    (stack : Ptr) (apart : (h : Heap) → pick h ≢ stack) (write : PinnerCmd → ℕ → Bool)
    (rounds fuel : ℕ) (engine : Transfer → DescMem → DescMem) (ctx : AxidmaCtx) (m : DescMem)
    (pinner_fd : Option ℕ) (sg_handle : ℕ) (unused : ctx.lst ≡ null) (to_virt : ℕ → ℕ)
    (serves : Serves to_virt engine) (sg_buf : ℕ) (sg_plist : Physlist)
    (maps : Maps to_virt sg_buf sg_plist) (data_buf : ℕ) (data_plist : Physlist) (n sz : ℕ)
    (good_sg : HoldsDescriptors sg_plist) (fits : All Fits sg_plist)
    (good_data : HoldsData data_plist) (pos : 0 < sz) (enough : length data_plist < fuel)
    (enough_all : n * length data_plist < fuel) (turns : n * length data_plist < rounds) where
  -- The transfer, for a list that the loop left with the buffers `zss`.
  sent-Outcome :
      (h g h' : Heap) (s : Ptr) (f : Filling) (lst : SgList)
      → f ≢ exits
      → s ≢ null
      → h.alive s ≡ false
      → ((a : Ptr) → a ≢ s → g.alive a ≡ h.alive a)
      → Filled pick g stack (new_list sg_buf sg_plist data_buf data_plist s) [] n sz (f, lst) h'
      → Ends (Outcome pick h stack sg_plist data_buf data_plist n sz) (
          and_then
            (transfer_and_receive write rounds fuel engine ctx lst m pinner_fd sg_handle h')
            (λ r. axidma_list_del fuel (some r.1.list) >> pure (finished f r.0 r.1)))
  sent-Outcome h g h' s f lst going real dead others w =
      let bufs = w.bufs in
      let k = length w.zss in
      let bound = le_mul k n (length data_plist) w.rounds in
      let few : length (flat w.zss) < fuel = omega (arith, w.few, bound) in
      let small : 0 < k → sz < 2 ^ 32 = λ some_buffer.
        let one = le_mul 1 k sz some_buffer in
        omega
          (arith, w.moved, w.well.within, ap (λ l. size l.data_plist) bufs, good_data.small, one) in
      Ends-bind
        (transfer-Delivered write rounds fuel engine ctx m pinner_fd sg_handle unused to_virt serves
          h' lst w.zss sz w.well w.frames small (ap (λ l. l.to_vist) bufs)
          (subst (λ l. Maps to_virt l.sg_buf l.sg_plist) (sym bufs) maps)
          (subst (All Fits) (sym (ap (λ l. l.sg_plist) bufs)) fits)
          (subst (λ a. a ≢ null) (sym (ap (λ l. l.sentinel) bufs)) real, w.real) few
          (omega (arith, w.few, bound)))
        λ (t, got) h₁ (d, same, at).
          let at_s : got.list.sentinel ≡ s = at ∙ ap (λ l. l.sentinel) bufs in
          let ring : Ring h₁ got.list.sentinel (flat w.zss) =
            subst (λ x. Ring x got.list.sentinel (flat w.zss)) (sym same)
              (subst (λ x. Ring h' x (flat w.zss)) (sym at) w.well.ring) in
          let (g', deleted, left, _) =
            axidma_list_del-without fuel h₁ got.list (flat w.zss) ring few in
          rw deleted (
            ends (
              received k w.rounds w.all (λ e. omega (arith, w.out e))
                (λ c steady e. w.packed c c steady refl (omega arith) e) going
                (subst (λ b. Delivered b sz k t got) (ap (λ l. l.data_buf) bufs) d)
                (freed_again h g h₁ g' s (flat w.zss) dead others w.new
                  (λ a. ap (λ x. x.alive a) same ∙ w.blocks a)
                  (subst
                    (λ x.
                      (a : Ptr)
                      → g'.alive a ≡ (if has a (x ∷ flat w.zss) then false else h₁.alive a))
                    at_s left))))

  exits-Outcome :
      (h g h' : Heap) (lst : SgList)
      → ((a : Ptr) → a ≢ pick h → g.alive a ≡ h.alive a)
      → Filled pick g stack
          (new_list sg_buf sg_plist data_buf data_plist (pick h))
          []
          n
          sz
          (exits, lst)
          h'
      → NoMemory pick h stack sg_plist data_plist n sz h'
  exits-Outcome h g h' lst others w =
      let at : lst.sentinel ≡ pick h = ap (λ l. l.sentinel) w.bufs in
      no_node lst (flat w.zss) (length w.zss) at (ap (λ l. l.sg_plist) w.bufs)
        (ap (λ l. l.data_plist) w.bufs) w.rounds (omega (arith, w.moved)) w.few w.well
        (λ a. elim (Bool-cases (a == pick h)) [
          | inl e ↦
              let q : a ≡ lst.sentinel = ground (arith, at) in
              ground (arith, e, ap h'.alive q, w.well.ring.live.0)
          | inr e ↦ let ne : a ≢ pick h = ground arith in ground (arith, w.blocks a, others a ne, e)
        ])
        (w.broke refl)

  after_filling-Outcome :
      (h g h' : Heap) (s : Ptr) (f : Filling) (lst : SgList)
      → s ≢ null
      → s ≡ pick h
      → h.alive s ≡ false
      → ((a : Ptr) → a ≢ s → g.alive a ≡ h.alive a)
      → Filled pick g stack (new_list sg_buf sg_plist data_buf data_plist s) [] n sz (f, lst) h'
      → Ends
          (Outcome pick h stack sg_plist data_buf data_plist n sz)
          (after_filling pick stack write rounds fuel engine ctx m pinner_fd sg_handle f lst h')
  unfolding after_filling
  after_filling-Outcome h g h' s all_added lst real is dead others w =
      sent-Outcome h g h' s all_added lst (λ e. cc e) real dead others w
  after_filling-Outcome h g h' s no_descriptors lst real is dead others w =
      sent-Outcome h g h' s no_descriptors lst (λ e. cc e) real dead others w
  after_filling-Outcome h g h' s no_data lst real is dead others w =
      sent-Outcome h g h' s no_data lst (λ e. cc e) real dead others w
  after_filling-Outcome h g h' s exits lst real is dead others w = ends (
      gave_up (
        exits-Outcome h g h' lst (subst (λ x. (a : Ptr) → a ≢ x → g.alive a ≡ h.alive a) is others)
          (subst
            (λ x.
              Filled pick g stack (new_list sg_buf sg_plist data_buf data_plist x) [] n sz
                (exits, lst) h')
            is w)))

  -- The allocator gives free blocks, never the callee's stack block; the descriptor buffer holds
  -- descriptors in the physical address space, the data buffer data; the size is not zero; there is
  -- fuel for the descriptors that `n` buffers can take; no list was written before; the engine has the
  -- descriptor buffer at the addresses of its physlist, and completes the descriptors that lead from
  -- the one it is started with to the last, each buffer full and each packet ended where the frame
  -- ends. Then the program ends without a fault. It exits only if the allocator gives no block for the
  -- list, in the memory it was started in, or none for a node: in a memory that has, beside what was
  -- allocated, the list with the nodes of `k` buffers, and the nodes made so far for the next one.
  -- Otherwise it added `k` of the `n` buffers, all if its loop ran to the end, and stopped for lack of
  -- data only if the next one did not fit, and for lack of descriptors, where their places are 64 bytes
  -- apart, only if those that `k + 1` buffers can need come within 64 bytes of the end of their buffer;
  -- it starts the engine, for `k` frames if that is not 0, and receives `k` good buffers of `sz` bytes,
  -- each where the one before ends, from the start of the data buffer; and every block that it took
  -- from the allocator is given back.
  pub make_and_receive-Outcome :
      (h : Heap)
      → h.alive stack ≡ false
      → Ends (Outcome pick h stack sg_plist data_buf data_plist n sz) (
          make_and_receive pick stack write rounds fuel engine ctx m pinner_fd sg_handle sg_buf
            sg_plist data_buf data_plist n sz h)
  unfolding make_and_receive
  make_and_receive-Outcome h dead =
      Ends-bind (axidma_list_new-WellFormed pick sg_buf sg_plist data_buf data_plist h good_sg)
        λ made g made_lem. elim made_lem [
          | inl (none_made, nothing, same) ↦ rw none_made (ends (gave_up (no_list nothing same)))
          | inr (is_list, real, well, kept) ↦ rw is_list (
              Ends-bind
                (add_buffers-Filled pick fresh stack fuel sz pos n g
                  (new_list sg_buf sg_plist data_buf data_plist (pick h)) [] well good_sg good_data
                  (kept stack (λ e. apart h (sym e)) ∙ dead) enough)
                λ (f, lst) h' w.
                  after_filling-Outcome h g h' (pick h) f lst real refl (fresh h real) kept w)
        ]
