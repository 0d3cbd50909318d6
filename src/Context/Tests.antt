-- ===== src/Context/Tests.antt =====
-- A context that is opened and closed.
use mpsoc_axidma.Base.{refl, false, some}
use mpsoc_axidma.Context.{Process, OpenReplies, axidma_open}
use mpsoc_axidma.Context.Session.{SameProcess, finished, axidma_close-axidma_open}

abbrev idle : Process
idle = record { open_fds = λ a. false; mapped = λ a. false; allocated = λ a. false }

abbrev all_given : OpenReplies
all_given = record { fd = some 3; reg_base = some 0x70000000; ret = some 0x5000 }

axidma_close-axidma_open_example : SameProcess idle (finished (axidma_open all_given idle))
axidma_close-axidma_open_example =
    axidma_close-axidma_open all_given idle
      (record { fd_free = λ a e. refl; base_free = λ a e. refl; ret_free = λ a e. refl })
