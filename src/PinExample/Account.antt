-- ===== src/PinExample/Account.antt =====
-- What the example leaves the driver and the process with.
use mpsoc_axidma.Base.{
  ℕ, ◌≡◌, refl, ◌≢◌, true, false, ◌∷◌, Option, some, ◌==◌, ◌⊎◌, inl, inr, Bool-cases,
}
use mpsoc_axidma.PinnerApi.{sizeof_pinner_cmd, PinnerCmd}
use mpsoc_axidma.Pinner.{Page, ProcInfo}
use mpsoc_axidma.Pinner.Memory.{Resource, page_array, proc_block, Holdings, kmalloc}
use mpsoc_axidma.Pinner.Files.{Driver, pinner_open}
use mpsoc_axidma.Pinner.Ops.{
  Replies, Reply, Errno, failed, eagain, Outcome, returns, bad_pointer, pinner_write,
  pinner_do_flush,
}
use mpsoc_axidma.Pinner.Account.{KeepsPages}
use mpsoc_axidma.Pinner.Driver.{Accounted}
use mpsoc_axidma.Pinner.User.{
  HasUser, Restored, Restored-refs, pinner_release-Restored, write_request-HasUser, new_user,
  pinner_open-HasUser,
}
use mpsoc_axidma.Context.{Process, set}
use mpsoc_axidma.Context.Session.{SameProcess, set_back}
use mpsoc_axidma.PinExample.{
  Stop, pin_refused, flush_refused, pin_cmd, flush_cmd, at_handle, is_ok, write_cmd, close_file,
  attempt, set_buf, give_back, commands, userspace_main,
}

at_handle-KeepsPages : (c : PinnerCmd) (r : Replies) → KeepsPages r → KeepsPages (at_handle c r)
at_handle-KeepsPages c r k = elim (Bool-cases (c.handle == 0)) [
  | inl null_handle ↦ rw null_handle (record { keeps = k.keeps })
  | inr some_handle ↦ rw some_handle k
]

module _ (d0 : Driver) (id : ℕ) where
  module _ (page_to_phys : Page → ℕ) where
    close_file-Restored :
        (s : Stop) (u : ProcInfo) (d : Driver)
        → HasUser d0 id u d
        → (d' : Driver) × (close_file id s d ≡ some (s, d')) × Restored d0 id d'
    unfolding close_file
    close_file-Restored s u d w =
        let (d', run, back) = pinner_release-Restored d0 id page_to_phys u d w in
        (d', rw (run, close_file) refl, back)

    write_cmd-HasUser :
        (r : Replies) (c : PinnerCmd) (u u' : ProcInfo) (d : Driver) (rep : Reply)
        (refs' : Holdings)
        → KeepsPages r
        → HasUser d0 id u d
        → pinner_write page_to_phys (at_handle c r) true c sizeof_pinner_cmd u d.refs
          ≡ returns rep u' refs'
        → (d' : Driver) × (write_cmd page_to_phys r c id d ≡ some (is_ok rep, d'))
          × HasUser d0 id u' d'
    unfolding write_cmd
    write_cmd-HasUser r c u u' d rep refs' k w ran =
        let (d', run, w') =
          write_request-HasUser d0 id page_to_phys (at_handle c r) c u u' d rep refs'
            (at_handle-KeepsPages c r k) w ran in
        (d', rw (run, write_cmd) refl, w')

    flush_refused_lem :
        (r : Replies) (buf : ℕ) (u : ProcInfo) (refs : Holdings)
        → pinner_write page_to_phys
            (at_handle (flush_cmd buf) r)
            true
            (flush_cmd buf)
            sizeof_pinner_cmd
            u
            refs
          ≡ returns (failed eagain) u refs
    unfolding pinner_write pinner_do_flush
    flush_refused_lem r buf u refs = refl

    -- A command that is refused ends the program.
    attempt-refused :
        (r : Replies) (c : PinnerCmd) (u u' : ProcInfo) (d : Driver) (e : Errno) (refs' : Holdings)
        (s : Stop) (next : Driver → Option (Stop × Driver))
        → KeepsPages r
        → HasUser d0 id u d
        → pinner_write page_to_phys (at_handle c r) true c sizeof_pinner_cmd u d.refs
          ≡ returns (failed e) u' refs'
        → (d' : Driver) × (attempt page_to_phys r c id s next d ≡ some (s, d')) × Restored d0 id d'
    unfolding attempt
    attempt-refused r c u u' d e refs' s next k w ran =
        let (d1, wrote, w1) = write_cmd-HasUser r c u u' d (failed e) refs' k w ran in
        let (d', closed, back) = close_file-Restored s u' d1 w1 in
        (d', rw (wrote, attempt) closed, back)

    -- After a pin that succeeds, the flush is refused.
    attempt-done :
        (r : Replies) (c : PinnerCmd) (u u' : ProcInfo) (d : Driver) (rep : Reply)
        (refs' : Holdings) (s : Stop) (for_flush : Replies) (buf : ℕ)
        (next : Driver → Option (Stop × Driver))
        → KeepsPages r
        → KeepsPages for_flush
        → HasUser d0 id u d
        → is_ok rep ≡ true
        → pinner_write page_to_phys (at_handle c r) true c sizeof_pinner_cmd u d.refs
          ≡ returns rep u' refs'
        → (d' : Driver) × (attempt page_to_phys r c id s
              (attempt page_to_phys for_flush (flush_cmd buf) id flush_refused next)
              d
            ≡ some (flush_refused, d'))
          × Restored d0 id d'
    unfolding attempt
    attempt-done r c u u' d rep refs' s for_flush buf next k k' w ok ran =
        let (d1, wrote, w1) = write_cmd-HasUser r c u u' d rep refs' k w ran in
        let (d', refused, back) =
          attempt-refused for_flush (flush_cmd buf) u' u' d1 eagain d1.refs flush_refused next k' w1
            (flush_refused_lem for_flush buf u' d1.refs) in
        (d', rw (wrote, ok, attempt) refused, back)

-- How the commands end: after the pin or the flush is refused, and with the driver as it was.
abbrev DriverBack : Driver → Option (Stop × Driver) → Type 0
DriverBack d r =
    (s : Stop) × (d' : Driver) × (r ≡ some (s, d'))
    × ((s ≡ pin_refused) ⊎ (s ≡ flush_refused))
    × (d'.users ≡ d.users)
    × ((x : Resource) → x ≢ page_array → d'.refs x ≡ d.refs x)

commands-DriverBack :
    (page_to_phys : Page → ℕ) (id magic : ℕ) (for_pin for_flush for_unpin : Replies)
    (buf handle plist : ℕ) (d : Driver)
    → KeepsPages for_pin
    → KeepsPages for_flush
    → Accounted d
    → pinner_write page_to_phys
        (at_handle (pin_cmd buf handle plist) for_pin)
        true
        (pin_cmd buf handle plist)
        sizeof_pinner_cmd
        (new_user id magic)
        (kmalloc proc_block d.refs)
      ≢ bad_pointer
    → DriverBack d (commands page_to_phys id magic for_pin for_flush for_unpin buf handle plist d)
unfolding commands pinner_open
commands-DriverBack page_to_phys id magic for_pin for_flush for_unpin buf handle plist d k k' a
      sound =
    go _ refl
  where
    c : PinnerCmd
    c = pin_cmd buf handle plist

    opened : Driver
    opened = record d { users = new_user id magic ∷ d.users; refs = kmalloc proc_block d.refs }

    w : HasUser d id (new_user id magic) opened
    w = pinner_open-HasUser page_to_phys id magic d a

    wrote : Outcome
    wrote =
        pinner_write page_to_phys (at_handle c for_pin) true c sizeof_pinner_cmd (new_user id magic)
          (kmalloc proc_block d.refs)

    go :
        (o : Outcome)
        → wrote ≡ o
        → DriverBack d
            (commands page_to_phys id magic for_pin for_flush for_unpin buf handle plist d)
    go bad_pointer q = absurd (sound q)
    go (returns (failed e) u' refs') q =
        let (d', run, back) =
          attempt-refused d id page_to_phys for_pin c (new_user id magic) u' opened e refs'
            pin_refused _ k w q in
        (pin_refused, d', run, inl refl, back.users_eq, Restored-refs d d' id a back)
    go (returns rep u' refs') q =
        let (d', run, back) =
          attempt-done d id page_to_phys for_pin c (new_user id magic) u' opened rep refs'
            pin_refused for_flush buf _ k k' w refl q in
        (flush_refused, d', run, inr refl, back.users_eq, Restored-refs d d' id a back)

-- A block that is taken and freed is free as before, and nothing else of the process changes.
set_buf-set_buf :
    (fd buf : ℕ) (p : Process)
    → p.open_fds fd ≡ false
    → p.allocated buf ≡ false
    → SameProcess p
        (give_back fd buf (set_buf buf true (record p { open_fds = set p.open_fds fd true })))
set_buf-set_buf fd buf p fd_free buf_free = elim (Bool-cases (buf == 0)) [
  | inl nothing ↦ rw nothing (record {
    fds_eq = λ a. set_back p.open_fds fd a fd_free;
    maps_eq = λ a. refl;
    blocks_eq = λ a. refl;
  })
  | inr block ↦ rw block (record {
    fds_eq = λ a. set_back p.open_fds fd a fd_free;
    maps_eq = λ a. refl;
    blocks_eq = λ a. set_back p.allocated buf a buf_free;
  })
]

-- How the program ends: after its pin or its flush is refused, and with the driver and the process as
-- they were.
abbrev pub EndsEarly : Process → Driver → Option (Stop × Process × Driver) → Type 0
EndsEarly p d r =
    (s : Stop) × (p' : Process) × (d' : Driver) × (r ≡ some (s, p', d'))
    × ((s ≡ pin_refused) ⊎ (s ≡ flush_refused))
    × SameProcess p p'
    × (d'.users ≡ d.users)
    × ((x : Resource) → x ≢ page_array → d'.refs x ≡ d.refs x)

-- For a driver that accounts for what it has, where the mapping keeps the pages and the pin does
-- not step on an invalid pointer: once its file is open, with a descriptor and a buffer that were free,
-- the program ends because its pin or, after a pin that succeeds, its flush is refused, for the flush
-- has no handle; it leaves the process with the files, mappings and blocks that it had, and the driver
-- with the users, the page references and, page arrays aside, the blocks that it had.
pub userspace_main-EndsEarly :
    (page_to_phys : Page → ℕ) (fd id magic : ℕ) (for_pin for_flush for_unpin : Replies)
    (buf handle plist : ℕ) (p : Process) (d : Driver)
    → p.open_fds fd ≡ false
    → p.allocated buf ≡ false
    → KeepsPages for_pin
    → KeepsPages for_flush
    → Accounted d
    → pinner_write page_to_phys
        (at_handle (pin_cmd buf handle plist) for_pin)
        true
        (pin_cmd buf handle plist)
        sizeof_pinner_cmd
        (new_user id magic)
        (kmalloc proc_block d.refs)
      ≢ bad_pointer
    → EndsEarly p d (
        userspace_main page_to_phys
          (some (fd, id))
          magic
          for_pin
          for_flush
          for_unpin
          buf
          handle
          plist
          p
          d)
unfolding userspace_main
userspace_main-EndsEarly page_to_phys fd id magic for_pin for_flush for_unpin buf handle plist p d
      fd_free buf_free k k' a sound =
    let (s, d', run, why, users, refs) =
      commands-DriverBack page_to_phys id magic for_pin for_flush for_unpin buf handle plist d k k'
        a sound in
    (
      s,
      _,
      d',
      rw (run, userspace_main) refl,
      why,
      set_buf-set_buf fd buf p fd_free buf_free,
      users,
      refs,
    )
