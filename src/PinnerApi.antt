-- ===== src/PinnerApi.antt =====
-- include/pinner.h, the interface between user programs and the pinner driver, and the requests that
-- src/pinner_fns.c writes to `/dev/pinner`.
use mpsoc_axidma.Base.{ℕ, Bool, Option, none, some, if◌then◌else◌}

abbrev pub max_pages : ℕ
max_pages = 1024

-- The codes `PINNER_PIN`, `PINNER_UNPIN` and `PINNER_FLUSH`.
abbrev pub pin_code : ℕ
pin_code = 1

abbrev pub unpin_code : ℕ
unpin_code = 2

abbrev pub flush_code : ℕ
flush_code = 3

-- `struct pinner_handle`
pub record PinnerHandle : Type 0 where
  pub user_magic : ℕ
  pub pin_magic : ℕ

-- `struct pinner_cmd`. The addresses of the handle and of the physlist are numbers, 0 for `NULL`.
pub record PinnerCmd : Type 0 where
  pub cmd : ℕ
  pub usr_buf : ℕ
  pub usr_buf_sz : ℕ
  pub handle : ℕ
  pub physlist : ℕ

-- The requests to pin and to unpin.
abbrev pub pin_request : (buf buf_sz h p : ℕ) → PinnerCmd
pin_request buf buf_sz h p = record {
  cmd = pin_code;
  usr_buf = buf;
  usr_buf_sz = buf_sz;
  handle = h;
  physlist = p;
}

abbrev pub unpin_request : ℕ → PinnerCmd
unpin_request h = record { cmd = unpin_code; usr_buf = 0; usr_buf_sz = 0; handle = h; physlist = 0 }

-- `sizeof(struct pinner_cmd)`
abbrev pub sizeof_pinner_cmd : ℕ
sizeof_pinner_cmd = 40

-- What a helper did: the request that it wrote, if any, and whether it returned 0 or -1.
pub data Sent : Type 0 where
  bad_fd : Sent
  failed : PinnerCmd → Sent
  done : PinnerCmd → Sent

-- `none` is the descriptor -1. `write` says whether the call of `write`
-- with a command and a size succeeds.
module _ (write : PinnerCmd → ℕ → Bool) where
  abbrev send : Option ℕ → PinnerCmd → Sent
  send none c = bad_fd
  send (some fd) c = if write c sizeof_pinner_cmd then done c else failed c

  unfoldable pub pin_buf : Option ℕ → (buf buf_sz h p : ℕ) → Sent
  pin_buf fd buf buf_sz h p = send fd (pin_request buf buf_sz h p)

  unfoldable pub flush_buf_cache : Option ℕ → ℕ → Sent
  flush_buf_cache fd h =
      send fd (record { cmd = flush_code; usr_buf = 0; usr_buf_sz = 0; handle = h; physlist = 0 })

  unfoldable pub unpin_buf : Option ℕ → ℕ → Sent
  unpin_buf fd h = send fd (unpin_request h)
