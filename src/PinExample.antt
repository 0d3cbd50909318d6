-- ===== src/PinExample.antt =====
-- The example program for the pinner driver, modules/pinner/userspace_example.c: its calls into the
-- driver, and its file and its buffer.
pub mod Account
mod Tests
use mpsoc_axidma.Base.{ℕ, Bool, true, false, Option, none, some, ◌==◌, if◌then◌else◌}
use mpsoc_axidma.PinnerApi.{sizeof_pinner_cmd, PinnerCmd, pin_code, unpin_code, flush_code}
use mpsoc_axidma.Pinner.{Page}
use mpsoc_axidma.Pinner.Files.{Driver, pinner_open, pinner_release}
use mpsoc_axidma.Pinner.Ops.{Replies, Reply, failed, returns, bad_pointer, pinner_write}
use mpsoc_axidma.Pinner.Driver.{write_request}
use mpsoc_axidma.Context.{Process, set, close_fd}

-- Where the program stops.
pub data Stop : Type 0 where
  not_opened pin_refused flush_refused unpin_refused completed : Stop

abbrev pub buf_size : ℕ
buf_size = 5215

-- The three commands. What an initialiser does not name is 0.
abbrev pub pin_cmd : (buf handle plist : ℕ) → PinnerCmd
pin_cmd buf handle plist = record {
  cmd = pin_code;
  usr_buf = buf;
  usr_buf_sz = buf_size;
  handle = handle;
  physlist = plist;
}

abbrev pub flush_cmd : (buf : ℕ) → PinnerCmd
flush_cmd buf = record {
  cmd = flush_code;
  usr_buf = buf;
  usr_buf_sz = buf_size;
  handle = 0;
  physlist = 0;
}

abbrev pub unpin_cmd : (handle : ℕ) → PinnerCmd
unpin_cmd handle = record {
  cmd = unpin_code;
  usr_buf = 0;
  usr_buf_sz = 0;
  handle = handle;
  physlist = 0;
}

-- Nothing is copied from or to `NULL`.
abbrev pub at_handle : PinnerCmd → Replies → Replies
at_handle c r = if c.handle == 0 then record r { handle_copied = false } else r

-- `cleanup`, with the file open.
unfoldable pub close_file : (id : ℕ) → Stop → Driver → Option (Stop × Driver)
unfolding pinner_release
close_file id s d = elim (pinner_release id d) [ none ↦ none | some d' ↦ some (s, d') ]

-- Whether a command succeeds.
abbrev pub is_ok : Reply → Bool
is_ok (failed e) = false
is_ok _ = true

-- The process once `malloc` has given it the buffer at `buf`, 0 for `NULL`, or `free` has taken it.
abbrev pub set_buf : (buf : ℕ) → Bool → Process → Process
set_buf buf held p = if buf == 0 then p else record p { allocated = set p.allocated buf held }

-- `cleanup`, for the process.
abbrev pub give_back : (fd buf : ℕ) → Process → Process
give_back fd buf p = close_fd fd (set_buf buf false p)

module _ (page_to_phys : Page → ℕ) where
  -- A call of `write` on the file of the user at `id`, and whether it succeeds; `none` is a step on an
  -- invalid pointer.
  unfoldable pub write_cmd : Replies → PinnerCmd → (id : ℕ) → Driver → Option (Bool × Driver)
  unfolding write_request
  write_cmd r c id d = elim (write_request page_to_phys (at_handle c r) c sizeof_pinner_cmd id d) [
    | none ↦ none
    | some (rep, d') ↦ some (is_ok rep, d')
  ]

  -- A command, and what follows it unless it fails.
  unfoldable pub attempt :
      Replies
      → PinnerCmd
      → (id : ℕ) → Stop
      → (Driver → Option (Stop × Driver))
      → Driver
      → Option (Stop × Driver)
  unfolding write_cmd close_file
  attempt r c id s next d = elim (write_cmd r c id d) [
    | none ↦ none
    | some (ok, d') ↦ if ok then next d' else close_file id s d'
  ]

  -- The commands on the file of the user at `id`, and what its end makes of the driver.
  unfoldable pub commands :
      (id magic : ℕ) (for_pin for_flush for_unpin : Replies) (buf handle plist : ℕ)
      → Driver
      → Option (Stop × Driver)
  unfolding pinner_open attempt close_file
  commands id magic for_pin for_flush for_unpin buf handle plist d =
      attempt for_pin (pin_cmd buf handle plist) id pin_refused
        (attempt for_flush (flush_cmd buf) id flush_refused
          (attempt for_unpin (unpin_cmd handle) id unpin_refused (close_file id completed)))
        (pinner_open (some id) magic d).0

  -- `opened` is the descriptor of the file and its new user, `none` where `open` fails.
  unfoldable pub userspace_main :
      (opened : Option (ℕ × ℕ)) (magic : ℕ) (for_pin for_flush for_unpin : Replies)
      (buf handle plist : ℕ)
      → Process
      → Driver
      → Option (Stop × Process × Driver)
  unfolding commands
  userspace_main none magic for_pin for_flush for_unpin buf handle plist p d =
      some (not_opened, p, d)
  userspace_main (some (fd, id)) magic for_pin for_flush for_unpin buf handle plist p d =
      elim (commands id magic for_pin for_flush for_unpin buf handle plist d) [
        | none ↦ none
        | some (s, d') ↦
            let opened = record p { open_fds = set p.open_fds fd true } in
            some (s, give_back fd buf (set_buf buf true opened), d')
      ]
