-- ===== src/Printk/Number.antt =====
-- number and pointer_string of kernel/printk.c. `stack` is what the local array `tmp` holds at the
-- start. The arithmetic on widths is on `int`, and stays far from its bounds.
pub mod Keep
pub mod Text
pub mod Layout
pub mod Print
pub mod Parts
pub mod Flags
pub mod Laws
use armv8_os.Prelude.{
  ℕ, zero, suc, ◌+◌, ◌-◌, ◌/◌, ◌%◌, ◌^◌, List, [], ◌∷◌, Bool, not, ◌&&◌, ◌||◌, ◌==◌, ltb, leb,
  if◌then◌else◌, get_or, bit_and, bit_or,
}
use armv8_os.Prelude.Int.{ℤ, pos, negsuc, ◌-ℤ◌, ltb_ℤ}
use armv8_os.Memory.{Mem, store}
use armv8_os.Printk.Spec.{
  PrintfSpec, sign_flag, left_flag, plus_flag, space_flag, zeropad_flag, small_flag, special_flag,
  has,
}
use armv8_os.Printk.Decimal.{put_dec}
use armv8_os.Printk.Output.{Out, put, pad_gt, pad_ge, pad_zeros, put_tmp}

-- hex_asc_upper
abbrev pub hex_asc_upper : List ℕ
hex_asc_upper =
    b'0' ∷ b'1' ∷ b'2' ∷ b'3' ∷ b'4' ∷ b'5' ∷ b'6' ∷ b'7' ∷ b'8' ∷ b'9' ∷ b'A' ∷ b'B' ∷ b'C' ∷ b'D'
    ∷ b'E' ∷ b'F' ∷ []

unfoldable pub hex_digit : ℕ → ℕ → ℕ
hex_digit locase d = bit_or (get_or hex_asc_upper d 0) locase

-- The sign character, 0 for none, with the number and the width that are left.
unfoldable pub take_sign : ℕ → ℕ → ℤ → ℕ × ℕ × ℤ
take_sign flags num width =
    if has sign_flag flags
    then (if leb (2 ^ 63) num
        then (b'-', (2 ^ 64 - num) % 2 ^ 64, width -ℤ pos 1)
        else (if has plus_flag flags
            then (b'+', num, width -ℤ pos 1)
            else (if has space_flag flags then (b' ', num, width -ℤ pos 1) else (0, num, width))))
    else (0, num, width)

-- do { tmp[i++] = hex_asc_upper[((unsigned char)num) & mask] | locase; num >>= shift; } while (num);
-- The fuel is more than the digits of 64 bits.
unfoldable pub digit_loop : ℕ → ℕ → ℕ → ℕ → Mem → ℕ → ℕ → Mem × ℕ
digit_loop locase mask shift zero tmp i num = (tmp, i)
digit_loop locase mask shift (suc fuel) tmp i num =
    let tmp' : Mem = store tmp i (hex_digit locase (bit_and (num % 256) mask)) in
    let more = digit_loop locase mask shift fuel tmp' (suc i) (num / 2 ^ shift) in
    if num / 2 ^ shift == 0 then (tmp', suc i) else more

unfoldable pub to_tmp : Mem → ℕ → ℕ → ℕ → Mem × ℕ
to_tmp stack locase base num =
    if ltb num base
    then (store stack 0 (hex_digit locase num), 1)
    else (if base == 10
        then put_dec stack 0 num
        else digit_loop locase (base - 1) (if base == 16 then 4 else 3) 64 stack 0 num)

-- if (sign) put it
unfoldable pub put_sign : ℕ → ℕ → Out → Out
put_sign end sign o = if sign == 0 then o else put end sign o

-- The prefix 0 or 0x.
unfoldable pub put_prefix : ℕ → Bool → ℕ → Bool → ℕ → Out → Out
put_prefix end need_pfx base is_zero locase o =
    if need_pfx
    then (let o1 : Out = if (base == 16) || not is_zero then put end b'0' o else o in
        if base == 16 then put end (bit_or b'X' locase) o1 else o1)
    else o

unfoldable pub prefix_width : Bool → ℕ → Bool → ℤ → ℤ
prefix_width need_pfx base is_zero width =
    if need_pfx
    then (if base == 16 then width -ℤ pos 2 else (if is_zero then width else width -ℤ pos 1))
    else width

-- The output half: padding, sign, prefix, zeros, digits, padding.
unfoldable pub print_number :
    ℕ
    → (flags base locase sign : ℕ) → (need_pfx is_zero : Bool) → Mem
    → ℕ
    → (width precision : ℤ) → Out
    → Out
print_number end flags base locase sign need_pfx is_zero tmp i width precision o =
    let precision' : ℤ = if ltb_ℤ precision (pos i) then pos i else precision in
    let width' : ℤ = width -ℤ precision' in
    let (o1, w1) =
      if has (bit_or zeropad_flag left_flag) flags then (o, width') else pad_gt end b' ' width' o in
    let o2 = put_prefix end need_pfx base is_zero locase (put_sign end sign o1) in
    let (o3, w3) =
      if has left_flag flags
      then (o2, w1)
      else pad_ge end (b' ' + bit_and flags zeropad_flag) w1 o2 in
    let o4 = pad_zeros end i precision' o3 in
    let o5 = put_tmp end tmp i o4 in (pad_ge end b' ' w3 o5).0

-- if (spec.flags & LEFT) spec.flags &= ~ZEROPAD;
unfoldable pub drop_zeropad : ℕ → ℕ
drop_zeropad flags = if has left_flag flags then bit_and flags (255 - zeropad_flag) else flags

unfoldable pub number : Mem → ℕ → ℕ → PrintfSpec → Out → Out
number stack end num spec o =
    let need_pfx = has special_flag spec.flags && not (spec.base == 10) in
    let is_zero = num == 0 in
    let locase = bit_and spec.flags small_flag in
    let flags = drop_zeropad spec.flags in
    let (sign, num', width) = take_sign flags num spec.field_width in
    let width' = prefix_width need_pfx spec.base is_zero width in
    let (tmp, i) = to_tmp stack locase spec.base num' in
    print_number end flags spec.base locase sign need_pfx is_zero tmp i width' spec.precision o

-- spec.base = 16; spec.flags |= SMALL; if (spec.field_width == -1) { ... }
unfoldable pub pointer_spec : PrintfSpec → PrintfSpec
pointer_spec spec =
    let flags = bit_or spec.flags small_flag in
    elim spec.field_width [
      | negsuc zero ↦ record spec {
        base = 16;
        flags = bit_or flags zeropad_flag;
        field_width = pos 16;
      }
      | _ ↦ record spec { base = 16; flags = flags }
    ]

-- `ptr` is an address, of 64 bits.
unfoldable pub pointer_string : Mem → ℕ → ℕ → PrintfSpec → Out → Out
unfolding number
pointer_string stack end ptr spec o = number stack end ptr (pointer_spec spec) o
