-- ===== src/Uio/Show.antt =====
-- The text of the attribute files: what is read from one and written back changes nothing.
use mpsoc_axidma.Base.{ℕ, ◌≤◌, ◌≡◌, refl, Bool, true, false, Option, some, arith, if◌then◌else◌}
use mpsoc_axidma.Uio.{
  ℤ, pos, UioDriver, EnableReplies, disable_device, enable_store, phys_base_store, irq_line_store,
}
use mpsoc_axidma.Uio.Params.{IsSound}

-- `sprintf` and `sscanf` with "%d" and "%lx".
pub record Format (Text : Type 0) : Type 0 where
  pub print_int : ℤ → Text
  pub print_hex : ℕ → Text
  pub scan_int : Text → Option ℤ
  pub scan_hex : Text → Option ℕ

-- `sscanf` reads back what `sprintf` wrote, for values of the type.
pub record ReadsBack {Text : Type 0} (f : Format Text) : Type 0 where
  pub int_back : (n : ℕ) → n ≤ 7 → f.scan_int (f.print_int (pos n)) ≡ some (pos n)
  pub hex_back : (n : ℕ) → n ≤ 0xB0000000 → f.scan_hex (f.print_hex n) ≡ some n

kept : (used : Bool) (d x : UioDriver) → x ≡ d → (if used then d else x) ≡ d
kept true d x same = refl
kept false d x same = same

module _ {Text : Type 0} (f : Format Text) where
  unfoldable pub enable_show : UioDriver → Text
  enable_show d = f.print_int (pos (if d.enable then 1 else 0))

  unfoldable pub phys_base_show : UioDriver → Text
  phys_base_show d = f.print_hex d.phys_base

  unfoldable pub irq_line_show : UioDriver → Text
  irq_line_show d = f.print_int (pos d.irq_line)

  module _ (d : UioDriver) (b : ReadsBack f) (s : IsSound d) where
    -- With the state of `enable` written out.
    abbrev with_enable : Bool → UioDriver
    with_enable e = record d { enable = e }

    enabled_back :
        (r : EnableReplies) (e : Bool)
        → enable_store r (f.scan_int (enable_show (with_enable e))) (with_enable e) ≡ with_enable e
    unfolding enable_store disable_device enable_show
    enabled_back r true = kept d.in_use (with_enable true) _ (rw (b.int_back 1 (omega arith)) refl)
    enabled_back r false =
        kept d.in_use (with_enable false) _ (rw (b.int_back 0 (omega arith)) refl)

    phys_base_back : phys_base_store (f.scan_hex (phys_base_show d)) d ≡ d
    unfolding phys_base_store phys_base_show
    phys_base_back = kept d.in_use d _ (rw (b.hex_back d.phys_base s.base_high) (kept _ d _ refl))

    irq_line_back : irq_line_store (f.scan_int (irq_line_show d)) d ≡ d
    unfolding irq_line_store irq_line_show
    irq_line_back = kept d.in_use d _ (rw (b.int_back d.irq_line s.line_in) (kept _ d _ refl))

  -- Where `sscanf` reads back what `sprintf` wrote: in a driver that satisfies the invariant, writing to
  -- an attribute file what was read from it changes nothing.
  pub store-show :
      (r : EnableReplies) (d : UioDriver)
      → ReadsBack f
      → IsSound d
      → (enable_store r (f.scan_int (enable_show d)) d ≡ d)
        × (phys_base_store (f.scan_hex (phys_base_show d)) d ≡ d)
        × (irq_line_store (f.scan_int (irq_line_show d)) d ≡ d)
  store-show r d b s = (enabled_back d b s r d.enable, phys_base_back d b s, irq_line_back d b s)
