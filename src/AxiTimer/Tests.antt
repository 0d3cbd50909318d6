-- ===== src/AxiTimer/Tests.antt =====
-- Loading the timer's driver, with the kernel's answers written out.
use mpsoc_axidma.Base.{◌≡◌, refl, true, false, none, some}
use mpsoc_axidma.Uio.{pos, negsuc}
use mpsoc_axidma.AxiTimer.{unloaded, LoadReplies, our_init, our_exit}
use mpsoc_axidma.Context.{Process}
use mpsoc_axidma.Context.Session.{SameProcess}
use mpsoc_axidma.AxiTimer.User.{word, disable, load_timer, one_int_per_sec, timer_main}
use mpsoc_axidma.AxiTimer.Stops.{in_order, stopped, timer_main-SameProcess}
use mpsoc_axidma.AxiTimer.Load.{IsUnloaded, Loads, our_init-Loads, our_exit-our_init}

-- All that is asked for is given, with a new interrupt 45.
abbrev willing : LoadReplies
willing = record {
  remapped = some 0x1000;
  device_rc = none;
  node_found = true;
  domain_found = true;
  found_virq = pos 0;
  created_virq = pos 45;
  uio_rc = none;
}

-- No interrupt can be allocated.
our_init-Loads_example :
    let r = record willing { created_virq = negsuc 21 } in Loads false true (our_init r unloaded)
our_init-Loads_example = our_init-Loads (record willing { created_virq = negsuc 21 })

our_exit-our_init_example : IsUnloaded false (our_exit (our_init willing unloaded).0)
unfolding our_init
our_exit-our_init_example = our_exit-our_init willing refl refl

abbrev idle_process : Process
idle_process = record { open_fds = λ a. false; mapped = λ a. false; allocated = λ a. false }

timer_main-SameProcess_example :
    let r = timer_main 2 (some 3) (some 0x1000) idle_process in
    SameProcess idle_process r.process × (in_order stopped r.accesses ≡ true)
timer_main-SameProcess_example =
    timer_main-SameProcess 2 (some 3) (some 0x1000) idle_process (λ f e. refl) (λ b e. refl)

-- The words of the three settings.
words : (word disable ≡ 0x100) × (word load_timer ≡ 0x20) × (word one_int_per_sec ≡ 0x4D2)
words = (refl, refl, refl)
