-- ===== src/Uio/Tests.antt =====
-- The UIO driver when it is loaded, enabled, and a parameter is set.
use mpsoc_axidma.Base.{
  ℕ, ◌-◌, ◌*◌, ◌/◌, ◌%◌, ◌^◌, ◌==◌, if◌then◌else◌, ◌≡◌, refl, none, some, true, false, arith,
}
use mpsoc_axidma.Uio.{
  ℤ, pos, negsuc, UioDriver, InitReplies, initial, EnableReplies, axidma_init, create_files,
  enable_store, phys_base_store, irq_line_store, axidma_exit,
}
use mpsoc_axidma.Uio.Params.{
  IsSound, IsClear, LoadedOrClear, Reach, here, next, enable, irq_line, axidma_init-IsSound,
  Reach-IsSound, enable_store-leaks,
}
use mpsoc_axidma.Uio.Irq.{Registers}
use mpsoc_axidma.Uio.Show.{Format, enable_show, phys_base_show, irq_line_show, store-show}

abbrev loads : InitReplies
loads = record { device_rc = none; file_rc = λ a. none }

abbrev replies : EnableReplies
replies = record {
  node_found = true;
  domain_found = true;
  virq = pos 48;
  uio_registered = true;
  remapped = some 0x7F000000;
}

axidma_init-IsSound_example :
    LoadedOrClear (axidma_init (record loads { device_rc = some 12 }) initial)
axidma_init-IsSound_example = axidma_init-IsSound (record loads { device_rc = some 12 })

abbrev loaded : UioDriver
loaded = (axidma_init loads initial).0

abbrev enabled : UioDriver
enabled = enable_store replies (some (pos 1)) (irq_line_store (some (pos 3)) loaded)

enabled-Reach : Reach loaded enabled
enabled-Reach =
    next (next here (irq_line (some (pos 3)))) (enable replies (some (pos 1)) (ground arith))

enabled-IsSound : IsSound enabled
unfolding axidma_init create_files
enabled-IsSound = (Reach-IsSound loads refl enabled-Reach).0

Reach-IsSound_example : IsSound enabled × IsClear (axidma_exit enabled)
unfolding axidma_init create_files
Reach-IsSound_example = Reach-IsSound loads refl enabled-Reach

abbrev unmapped : EnableReplies
unmapped = record replies { remapped = none }

enable_store-leaks_example :
    let e = enable_store unmapped (some (pos 1)) initial in
    (e.enable ≡ false) × ((axidma_exit e).registered ≡ 1)
enable_store-leaks_example = enable_store-leaks unmapped 0 initial refl refl refl refl refl refl

-- Text as the numbers that it shows.
abbrev numbers : Format ℤ
numbers = record {
  print_int = λ z. z;
  print_hex = pos;
  scan_int = some;
  scan_hex = λ z. elim z [ pos n ↦ some n | negsuc n ↦ none ];
}

store-show_example :
    (enable_store replies (numbers.scan_int (enable_show numbers enabled)) enabled ≡ enabled)
    × (phys_base_store (numbers.scan_hex (phys_base_show numbers enabled)) enabled ≡ enabled)
    × (irq_line_store (numbers.scan_int (irq_line_show numbers enabled)) enabled ≡ enabled)
store-show_example =
    store-show numbers replies enabled (record { int_back = λ n le. refl; hex_back = λ n le. refl })
      enabled-IsSound

-- A word without the bits 14 to 12 that are set in another.
abbrev drop_bit : (i word value : ℕ) → ℕ
drop_bit i word v = if word / 2 ^ i % 2 == 1 then v - v / 2 ^ i % 2 * 2 ^ i else v

abbrev drop_flags : (word value : ℕ) → ℕ
drop_flags word v = drop_bit 12 word (drop_bit 13 word (drop_bit 14 word v))

-- Registers whose flags are cleared by writing 1.
abbrev engine_registers : Registers (ℕ → ℕ)
engine_registers = record {
  read = λ g a. g a;
  write = λ g a word b. if b == a then drop_flags word (g b) else g b;
}

-- The error flag of the second channel stands.
abbrev error_raised : ℕ → ℕ
error_raised a = if a == 0x7F000034 then 0x4001 else 1
