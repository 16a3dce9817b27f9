-- ===== src/Printk/Number/Flags.antt =====
-- The flag byte of kernel/printk.c, over all its values.
use armv8_os.Prelude.{
  ℕ, ◌<◌, ◌≡◌, refl, true, not, ◌&&◌, ◌||◌, ◌==◌, ==_iff, if◌then◌else◌, bit_and, bit_or,
}
use armv8_os.Prelude.Bits.{check_below, checked}
use armv8_os.Ctype.Classes.{iff, iff_sound, both}
use armv8_os.Printk.Spec.{
  sign_flag, left_flag, plus_flag, space_flag, zeropad_flag, small_flag, has,
}
use armv8_os.Printk.Number.{drop_zeropad}
use armv8_os.Printk.Number.Text.{case_bit}

flag_table :
    check_below 256 (λ f.
      (iff (has left_flag (drop_zeropad f)) (has left_flag f)
        && iff
            (has (bit_or zeropad_flag left_flag) (drop_zeropad f))
            (has left_flag f || has zeropad_flag f))
      && (bit_and (drop_zeropad f) zeropad_flag
          == (if not (has left_flag f) && has zeropad_flag f then 16 else 0)))
    ≡ true
unfolding check_below has drop_zeropad
flag_table = refl

sign_table :
    check_below 256 (λ f.
      (iff (has sign_flag (drop_zeropad f)) (has sign_flag f)
        && iff (has plus_flag (drop_zeropad f)) (has plus_flag f))
      && (iff (has space_flag (drop_zeropad f)) (has space_flag f)
          && (bit_and f small_flag == case_bit (not (has small_flag f)))))
    ≡ true
unfolding check_below has drop_zeropad
sign_table = refl

module _ (f : ℕ) (byte : f < 256) where
  pub padding_flags :
      (has left_flag (drop_zeropad f) ≡ has left_flag f)
      × (has (bit_or zeropad_flag left_flag) (drop_zeropad f)
          ≡ (has left_flag f || has zeropad_flag f))
      × (bit_and (drop_zeropad f) zeropad_flag
          ≡ (if not (has left_flag f) && has zeropad_flag f then 16 else 0))
  padding_flags =
      let (p, q) = both _ _ (checked _ 256 byte flag_table) in
      let (p', p'') = both _ _ p in (iff_sound _ _ p', iff_sound _ _ p'', (==_iff _ _).0 q)

  pub sign_flags :
      (has sign_flag (drop_zeropad f) ≡ has sign_flag f)
      × (has plus_flag (drop_zeropad f) ≡ has plus_flag f)
      × (has space_flag (drop_zeropad f) ≡ has space_flag f)
      × (bit_and f small_flag ≡ case_bit (not (has small_flag f)))
  sign_flags =
      let (p, q) = both _ _ (checked _ 256 byte sign_table) in
      let (p', p'') = both _ _ p in
      let (q', q'') = both _ _ q in
      (iff_sound _ _ p', iff_sound _ _ p'', iff_sound _ _ q', (==_iff _ _).0 q'')
