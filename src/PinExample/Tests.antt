-- ===== src/PinExample/Tests.antt =====
-- The example program on a driver with no users.
use mpsoc_axidma.Base.{ℕ, ◌*◌, ◌%◌, ◌^◌, refl, true, false, [], ◌∷◌, map, some, inr}
use mpsoc_axidma.Pinner.{Page, page_size, num_pages_for}
use mpsoc_axidma.Pinner.Files.{pinner_init}
use mpsoc_axidma.Pinner.Ops.{Replies, pinner_do_pin, pinner_write}
use mpsoc_axidma.Pinner.Mapping.{at_bus, at_bus-keeps}
use mpsoc_axidma.Pinner.Driver.{loaded}
use mpsoc_axidma.Context.{Process}
use mpsoc_axidma.PinExample.{userspace_main}
use mpsoc_axidma.PinExample.Account.{EndsEarly, userspace_main-EndsEarly}

-- A memory of 2 ^ 20 pages, and page 0 for the rest.
abbrev small_memory : Page → ℕ
small_memory p = p % 2 ^ 20 * page_size

abbrev willing : Replies
willing = record {
  array_ok = true;
  pinning_ok = true;
  sglist_ok = true;
  entries_ok = true;
  got = 7 ∷ 3 ∷ [];
  magic = 99;
  dma_map = λ ss. inr (map (at_bus small_memory) ss);
  num_copied = true;
  entries_copied = true;
  handle_copied = true;
  handle = record { user_magic = 5; pin_magic = 99 };
}

-- A process that holds nothing.
abbrev new_process : Process
new_process = record { open_fds = λ a. false; mapped = λ a. false; allocated = λ a. false }

userspace_main-EndsEarly_example : EndsEarly new_process loaded (
    userspace_main small_memory
      (some (3, 64))
      5
      willing
      willing
      willing
      0x7010
      0x500
      0x600
      new_process
      loaded)
unfolding pinner_init pinner_write pinner_do_pin num_pages_for
userspace_main-EndsEarly_example =
    userspace_main-EndsEarly small_memory 3 64 5 willing willing willing 0x7010 0x500 0x600
      new_process loaded refl refl (record { keeps = at_bus-keeps small_memory })
      (record { keeps = at_bus-keeps small_memory })
      (record { refs_eq = λ x other. refl; device_eq = refl }) (λ e. cc e)
