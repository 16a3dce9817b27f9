-- ===== src/Printk/Render.antt =====
-- The text that a format of kernel/printk.c stands for: what vsnprintf is measured by.
use armv8_os.Prelude.{
  ℕ, zero, suc, ◌+◌, ◌-◌, ◌%◌, ◌^◌, Bool, true, false, if◌then◌else◌, List, [], ◌∷◌, ◌++◌, Option,
  none, some, replicate, bit_or, length, min, get_or, ltb, leb, ◌==◌,
}
use armv8_os.Prelude.Int.{ℤ, pos, negsuc}
use armv8_os.Libc.Number.Digits.{value}
use armv8_os.Printk.Spec
use armv8_os.Printk.Spec.{
  FormatType, PrintfSpec, sign_flag, left_flag, plus_flag, space_flag, zeropad_flag, small_flag,
  special_flag, has,
}
use armv8_os.Printk.Number.Layout.{number_text}
use armv8_os.Printk.Str.Laws.{string_text}
use armv8_os.Memory.{Mem, patch}
use armv8_os.Printk.Format.{
  Flag, minus, plus, space, hash, nought, Amount, absent, digits, star, Qualifier, plain, short,
  byte, long, longlong, big_long, size, ptrdiff, Conversion, char, percent, octal, hex, big_hex,
  decimal, integer, unsigned, string, pointer, Directive, Item, text, directive,
}

-- What the parts mean.
abbrev pub flag_bit : Flag → ℕ
flag_bit minus = left_flag
flag_bit plus = plus_flag
flag_bit space = space_flag
flag_bit hash = special_flag
flag_bit nought = zeropad_flag

abbrev pub flag_bits : ℕ → List Flag → ℕ
flag_bits acc [] = acc
flag_bits acc (f ∷ fs) = flag_bits (bit_or acc (flag_bit f)) fs

-- The argument behind an amount.
abbrev pub taken_by : Amount → ℕ
taken_by star = 1
taken_by _ = 0

abbrev pub taken_by_precision : Option Amount → ℕ
taken_by_precision none = 0
taken_by_precision (some a) = taken_by a

-- What a signed field of `bits` bits, and an int, make of a number.
abbrev pub field : (bits : ℕ) → ℕ → ℤ
field bits n =
    if ltb (n % 2 ^ bits) (2 ^ (bits - 1))
    then pos (n % 2 ^ bits)
    else negsuc (2 ^ bits - n % 2 ^ bits - 1)

abbrev pub at_least_zero : ℤ → ℤ
at_least_zero (pos n) = pos n
at_least_zero (negsuc n) = pos 0

abbrev pub is_absent : ℤ → Bool
is_absent (negsuc zero) = true
is_absent _ = false

-- A width of 24 bits, -1 if it is left out. A negative one from the arguments stands for its amount and
-- the flag LEFT.
abbrev pub turned : ℤ → (flags : ℕ) → ℤ × ℕ
turned (pos n) flags = (pos n, flags)
turned (negsuc n) flags = (field 24 (suc n), bit_or flags left_flag)

abbrev pub width_of : Amount → (arg flags : ℕ) → ℤ × ℕ
width_of absent arg flags = (negsuc 0, flags)
width_of (digits ds) arg flags = (field 24 (value 10 0 ds), flags)
width_of star arg flags = turned (field 24 arg) flags

-- A precision of 16 bits, -1 if there is none; a negative one stands for 0.
abbrev pub precision_of : Option Amount → (arg : ℕ) → ℤ
precision_of none arg = negsuc 0
precision_of (some absent) arg = negsuc 0
precision_of (some (digits ds)) arg = at_least_zero (field 16 (value 10 0 ds))
precision_of (some star) arg = at_least_zero (field 16 arg)

abbrev pub base_of : Conversion → ℕ
base_of octal = 8
base_of hex = 16
base_of big_hex = 16
base_of _ = 10

abbrev pub more_flags : Conversion → ℕ → ℕ
more_flags hex flags = bit_or flags small_flag
more_flags decimal flags = bit_or flags sign_flag
more_flags integer flags = bit_or flags sign_flag
more_flags _ flags = flags

-- The type of an argument, signed or not. The qualifier t changes nothing.
abbrev pub type_of : Qualifier → (signed : Bool) → FormatType
type_of plain signed = if signed then Spec.int else Spec.uint
type_of short signed = if signed then Spec.short else Spec.ushort
type_of byte signed = if signed then Spec.byte else Spec.ubyte
type_of long signed = if signed then Spec.long else Spec.ulong
type_of longlong signed = Spec.long_long
type_of big_long signed = Spec.long_long
type_of size signed = Spec.size_t
type_of ptrdiff signed = if signed then Spec.int else Spec.uint

abbrev pub kind_of : Qualifier → Conversion → FormatType
kind_of q char = Spec.char
kind_of q percent = Spec.percent_char
kind_of q (string xs) = Spec.str
kind_of q (pointer ext) = Spec.ptr
kind_of q decimal = type_of q true
kind_of q integer = type_of q true
kind_of q octal = type_of q false
kind_of q hex = type_of q false
kind_of q big_hex = type_of q false
kind_of q unsigned = type_of q false

-- The specification of a directive whose width and precision come from `first` and `second` if they are
-- arguments.
abbrev pub spec_of : Directive → (first second : ℕ) → PrintfSpec
spec_of e first second =
    let (width, flags) = width_of e.width first (flag_bits 0 e.flags) in
    record {
      kind = kind_of e.qualifier e.conversion;
      field_width = width;
      flags = more_flags e.conversion flags;
      base = base_of e.conversion;
      precision = precision_of e.precision second;
    }

-- The spaces that a loop prints which counts a width of 24 bits down before it looks: one less than a
-- positive width. The least width has no predecessor and wraps to the greatest.
abbrev pub counted : ℤ → ℕ
counted (pos n) = n - 1
counted (negsuc k) = if k == 2 ^ 23 - 1 then 2 ^ 23 - 1 else 0

-- The width behind that loop.
abbrev pub counted_out : ℤ → ℤ
counted_out (pos n) = if n == 0 then negsuc 0 else pos 0
counted_out (negsuc k) = if k == 2 ^ 23 - 1 then pos 0 else negsuc (suc k)

-- A character stands before the spaces with LEFT and behind them without. The loop behind it counts
-- on, which shows only for the width -2^23 + 1.
abbrev pub char_text : PrintfSpec → ℕ → List ℕ
char_text spec ch =
    if has left_flag spec.flags
    then ch ∷ replicate (counted spec.field_width) b' '
    else replicate (counted spec.field_width) b' '
      ++ ch ∷ replicate (counted (counted_out spec.field_width)) b' '

-- An argument of an integer type, as a number of 64 bits.
abbrev pub bits_of : Qualifier → ℕ
bits_of byte = 8
bits_of short = 16
bits_of plain = 32
bits_of ptrdiff = 32
bits_of _ = 64

abbrev pub extended : (bits : ℕ) → ℕ → ℕ
extended bits n =
    if leb (2 ^ (bits - 1)) (n % 2 ^ bits) then n % 2 ^ bits + (2 ^ 64 - 2 ^ bits) else n % 2 ^ bits

abbrev pub argument : Qualifier → (signed : Bool) → ℕ → ℕ
argument q signed arg = if signed then extended (bits_of q) arg else arg % 2 ^ bits_of q

-- A pointer is a number in lower case, of 16 digits if no width is given.
abbrev pub pointer_layout : PrintfSpec → PrintfSpec
pointer_layout spec = record spec {
  base = 16;
  flags =
      if is_absent spec.field_width
      then bit_or (bit_or spec.flags small_flag) zeropad_flag
      else bit_or spec.flags small_flag;
  field_width = if is_absent spec.field_width then pos 16 else spec.field_width;
}

abbrev pub converted : Qualifier → Conversion → PrintfSpec → (arg : ℕ) → List ℕ
converted q char spec arg = char_text spec (arg % 2 ^ 8)
converted q percent spec arg = b'%' ∷ []
converted q (string xs) spec arg = string_text spec xs
converted q (pointer ext) spec arg = number_text (arg % 2 ^ 64) (pointer_layout spec)
converted q decimal spec arg = number_text (argument q true arg) spec
converted q integer spec arg = number_text (argument q true arg) spec
converted q _ spec arg = number_text (argument q false arg) spec

abbrev pub taken_by_conversion : Conversion → ℕ
taken_by_conversion percent = 0
taken_by_conversion _ = 1

-- Where a directive finds its arguments if `k` were taken before it.
abbrev pub second_of : Directive → ℕ → ℕ
second_of e k = k + taken_by e.width

abbrev pub third_of : Directive → ℕ → ℕ
third_of e k = second_of e k + taken_by_precision e.precision

abbrev pub behind : Directive → ℕ → ℕ
behind e k = third_of e k + taken_by_conversion e.conversion

-- The text that a format stands for.
abbrev pub render : (args : ℕ → ℕ) → (taken : ℕ) → List Item → List ℕ
render args k [] = []
render args k (text first others ∷ items) = first ∷ (others ++ render args k items)
render args k (directive e ∷ items) =
    converted e.qualifier e.conversion (spec_of e (args k) (args (second_of e k)))
      (args (third_of e k))
    ++ render args (behind e k) items

-- A buffer that a text is put into: as much of it as leaves room for a NUL, and the NUL.
abbrev pub shown : Mem → (buf room : ℕ) → List ℕ → Mem
shown m buf room xs =
    if room == 0
    then m
    else (let n = min (length xs) (room - 1) in
        patch m buf (suc n) (λ i. if i == n then 0 else get_or xs i 0))
