-- ===== src/Printk/Spec.antt =====
-- struct printf_spec of kernel/printk.c with its flags, and enum format_type.
use armv8_os.Prelude.{ℕ, Bool, not, ◌==◌, bit_and}
use armv8_os.Prelude.Int.{ℤ}

pub data FormatType : Type 0 where
  none width precision char str ptr percent_char invalid : FormatType
  long_long ulong long ubyte byte ushort short uint int size_t : FormatType

-- `field_width` has 24 bits and `precision` 16, both signed; `flags` and `base` have 8.
pub record PrintfSpec : Type 0 where
  pub kind : FormatType
  pub field_width : ℤ
  pub flags : ℕ
  pub base : ℕ
  pub precision : ℤ

abbrev pub sign_flag : ℕ
sign_flag = 1

abbrev pub left_flag : ℕ
left_flag = 2

abbrev pub plus_flag : ℕ
plus_flag = 4

abbrev pub space_flag : ℕ
space_flag = 8

abbrev pub zeropad_flag : ℕ
zeropad_flag = 16

abbrev pub small_flag : ℕ
small_flag = 32

abbrev pub special_flag : ℕ
special_flag = 64

-- flags & mask, as a condition.
unfoldable pub has : ℕ → ℕ → Bool
has mask flags = not (bit_and flags mask == 0)
