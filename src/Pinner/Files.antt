-- ===== src/Pinner/Files.antt =====
-- Loading, opening, closing and removing the driver of modules/pinner/pinner.c.
use mpsoc_axidma.Base.{ℕ, Bool, true, false, List, [], ◌∷◌, Option, none, some, ◌==◌, if◌then◌else◌}
use mpsoc_axidma.Pinner.{ProcInfo}
use mpsoc_axidma.Pinner.Memory.{proc_block, Holdings, kmalloc, kfree}
use mpsoc_axidma.Pinner.Ops.{Errno, enomem, free_pinnings}

-- The driver: its list of users, what it has from the kernel, the static `registered`, and whether
-- its device is there.
pub record Driver : Type 0 where
  pub users : List ProcInfo
  pub refs : Holdings
  pub registered : Bool
  pub device : Bool

-- `fresh` is the address of the new struct, or `none` where it cannot be allocated.
unfoldable pub pinner_open : (fresh : Option ℕ) → (magic : ℕ) → Driver → Driver × Option Errno
pinner_open none magic d = (d, some enomem)
pinner_open (some id) magic d = (
  record d {
    users = record { id = id; pinning_list = []; magic = magic } ∷ d.users;
    refs = kmalloc proc_block d.refs;
  },
  none,
)

-- The user with the address, and the others.
unfoldable pub take_user : ℕ → List ProcInfo → Option (ProcInfo × List ProcInfo)
take_user id [] = none
take_user id (u ∷ us) =
    let rest = take_user id us in
    if id == u.id
    then some (u, us)
    else elim rest [ none ↦ none | some (found, others) ↦ some (found, u ∷ others) ]

-- What `pinner_free_proc_info` gives back.
abbrev pub free_user : ProcInfo → Holdings → Holdings
free_user u refs = kfree proc_block (free_pinnings refs u.pinning_list)

-- `pinner_free_proc_info` of the user with the address.
unfoldable pub pinner_release : ℕ → Driver → Option Driver
unfolding take_user
pinner_release id d = elim (take_user id d.users) [
  | none ↦ none
  | some (u, others) ↦ some (record d { users = others; refs = free_user u d.refs })
]

-- `rc` is what `misc_register` returns, `none` for 0 or more; the result is that.
unfoldable pub pinner_init : (rc : Option ℕ) → Driver → Driver × Option ℕ
pinner_init none d = (record d { registered = true; device = true }, none)
pinner_init (some rc) d = (d, some rc)

-- The loop of `pinner_exit`: every user that is left is freed.
abbrev pub free_users : List ProcInfo → Holdings → Holdings
free_users [] refs = refs
free_users (u ∷ us) refs = free_users us (free_user u refs)

unfoldable pub pinner_exit : Driver → Driver
pinner_exit d = record d {
  users = [];
  refs = free_users d.users d.refs;
  device = if d.registered then false else d.device;
}
