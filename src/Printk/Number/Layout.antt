-- ===== src/Printk/Number/Layout.antt =====
-- The text that `number` of kernel/printk.c prints, as a function of the number and the
-- specification.
use armv8_os.Prelude.{
  ℕ, ◌+◌, ◌-◌, ◌^◌, max, List, [], ◌∷◌, ◌++◌, Bool, not, ◌&&◌, ◌==◌, leb, if◌then◌else◌, length,
  replicate, reverse,
}
use armv8_os.Prelude.Int.{pos_part}
use armv8_os.Libc.Number.Digits.{chars}
use armv8_os.Printk.Digits.{rev_digits}
use armv8_os.Printk.Spec.{
  PrintfSpec, sign_flag, left_flag, plus_flag, space_flag, zeropad_flag, small_flag, special_flag,
  has,
}

-- Where the padding goes.
pub data Mode : Type 0 where
  left zeros right : Mode

abbrev pub mode_of : ℕ → Mode
mode_of flags =
    if has left_flag flags then left else (if has zeropad_flag flags then zeros else right)

-- At least `precision` digits.
abbrev pub body : ℕ → List ℕ → List ℕ
body precision ds = replicate (max (length ds) precision - length ds) b'0' ++ ds

-- `gap` is the width that is left. In mode `right` one space less is printed.
abbrev pub layout : Mode → ℕ → (sign prefix ds : List ℕ) → List ℕ
layout left gap sign prefix ds = sign ++ (prefix ++ (ds ++ replicate gap b' '))
layout zeros gap sign prefix ds = sign ++ (prefix ++ (replicate gap b'0' ++ ds))
layout right gap sign prefix ds = replicate (gap - 1) b' ' ++ (sign ++ (prefix ++ ds))

-- The number is signed if the flag says so, in two's complement.
abbrev pub is_negative : ℕ → ℕ → Bool
is_negative flags num = has sign_flag flags && leb (2 ^ 63) num

abbrev pub magnitude : ℕ → ℕ → ℕ
magnitude flags num = if is_negative flags num then 2 ^ 64 - num else num

abbrev pub sign_text : ℕ → ℕ → List ℕ
sign_text flags num =
    if has sign_flag flags
    then (if leb (2 ^ 63) num
        then b'-' ∷ []
        else (if has plus_flag flags
            then b'+' ∷ []
            else (if has space_flag flags then b' ' ∷ [] else [])))
    else []

abbrev pub prefix_text : ℕ → ℕ → ℕ → List ℕ
prefix_text flags base num =
    if has special_flag flags && not (base == 10)
    then (if base == 16
        then b'0' ∷ (if has small_flag flags then b'x' else b'X') ∷ []
        else (if num == 0 then [] else b'0' ∷ []))
    else []

abbrev pub digits_text : ℕ → ℕ → ℕ → List ℕ
digits_text flags base num =
    reverse (chars (not (has small_flag flags)) (rev_digits base 24 (magnitude flags num)))

unfoldable pub number_text : ℕ → PrintfSpec → List ℕ
number_text num spec =
    let sign : List ℕ = sign_text spec.flags num in
    let prefix : List ℕ = prefix_text spec.flags spec.base num in
    let ds : List ℕ = digits_text spec.flags spec.base num in
    let used = length sign + length prefix + max (length ds) (pos_part spec.precision) in
    layout (mode_of spec.flags) (pos_part spec.field_width - used) sign prefix
      (body (pos_part spec.precision) ds)
