-- ===== src/Printk/Number/Laws.antt =====
-- `number` of kernel/printk.c prints the text of Number/Layout.
use armv8_os.Prelude.{
  ◌&&◌, ◌==◌, not, bit_and, ℕ, ◌+◌, ◌-◌, ◌^◌, ◌<◌, ◌≡◌, max, ◌∙◌, ap, List, [], ◌++◌, length,
  length-reverse_aux, replicate, arith,
}
use armv8_os.Prelude.Int.{ℤ, pos_part}
use armv8_os.Memory.{Mem}
use armv8_os.Libc.Number.Digits.{chars}
use armv8_os.Printk.Digits.{rev_digits}
use armv8_os.Printk.Spec.{PrintfSpec, small_flag, has}
use armv8_os.Printk.Output.{Out, emit}
use armv8_os.Printk.Output.Laws.{down}
use armv8_os.Printk.Number.{
  put_prefix, special_flag, prefix_width, put_sign, drop_zeropad, take_sign, to_tmp, number,
}
use armv8_os.Printk.Number.Text.{IsBase, Collected, to_tmp-Collected}
use armv8_os.Printk.Number.Layout.{
  body, mode_of, layout, sign_text, prefix_text, magnitude, number_text, digits_text,
}
use armv8_os.Printk.Number.Flags.{sign_flags}
use armv8_os.Printk.Number.Parts.{take_sign-emit, put_prefix-emit, prefix_width-sub, down_reverse}
use armv8_os.Printk.Number.Print.{print_number-emit}

pub record IsSpec (spec : PrintfSpec) : Type 0 where
  pub byte : spec.flags < 256
  pub base : IsBase spec.base

magnitude-lt : (flags num : ℕ) → num < 2 ^ 64 → magnitude flags num < 2 ^ 64
magnitude-lt flags num h = ground arith

-- Dropping ZEROPAD leaves the flags of the sign alone.
sign_text-drop :
    (f num : ℕ)
    → f < 256
    → (sign_text (drop_zeropad f) num ≡ sign_text f num)
      × (magnitude (drop_zeropad f) num ≡ magnitude f num)
sign_text-drop f num byte = let (s, p, q, _) = sign_flags f byte in (rw (s, p, q), rw s)

module _ (stack : Mem) (end num : ℕ) (spec : PrintfSpec) (ok : IsSpec spec) (h : num < 2 ^ 64) where
  abbrev flags : ℕ
  flags = drop_zeropad spec.flags

  abbrev signed : ℕ × ℕ × ℤ
  signed = take_sign flags num spec.field_width

  abbrev st : List ℕ
  st = sign_text spec.flags num

  abbrev pt : List ℕ
  pt = prefix_text spec.flags spec.base num

  abbrev low_first : List ℕ
  low_first =
      chars (not (has small_flag spec.flags)) (rev_digits spec.base 24 (magnitude spec.flags num))

  abbrev tmp : Mem × ℕ
  tmp = to_tmp stack (bit_and spec.flags small_flag) spec.base signed.1

  signed_lem :
      ((o : Out) → put_sign end signed.0 o ≡ emit end st o)
      × (signed.1 ≡ magnitude spec.flags num)
      × (pos_part signed.2 ≡ pos_part spec.field_width - length st)
  signed_lem =
      let (e, e') = sign_text-drop spec.flags num ok.byte in
      (
        λ o. (take_sign-emit end flags num spec.field_width o h).0 ∙ ap (λ t. emit end t o) e,
        (take_sign-emit end flags num spec.field_width (record { mem = stack; cur = 0 }) h).1 ∙ e',
        rw (← e)
            ((take_sign-emit end flags num spec.field_width (record { mem = stack; cur = 0 }) h).2),
      )

  tmp-Collected : Collected stack 0 low_first tmp
  tmp-Collected =
      let (_, e, _) = signed_lem in
      rw (e, (sign_flags spec.flags ok.byte).3)
        (to_tmp-Collected stack (not (has small_flag spec.flags)) spec.base
          (magnitude spec.flags num) ok.base (magnitude-lt spec.flags num h))

  tmp_text : down tmp.0 tmp.1 ≡ digits_text spec.flags spec.base num
  tmp_text =
      let e : tmp.1 ≡ 0 + length low_first = tmp-Collected.end in
      rw e (down_reverse tmp.0 0 low_first tmp-Collected.holds)

  tmp-length : tmp.1 ≡ length (digits_text spec.flags spec.base num)
  tmp-length = omega (arith, tmp-Collected.end, length-reverse_aux low_first [])

  width_left :
      pos_part (
        prefix_width
          (has special_flag spec.flags && not (spec.base == 10))
          spec.base
          (num == 0)
          signed.2)
      ≡ pos_part spec.field_width - length st - length pt
  width_left =
      prefix_width-sub spec.flags spec.base num signed.2 ∙ ap (λ n. n - length pt) signed_lem.2

  abbrev lowered : ℤ
  lowered =
      prefix_width (has special_flag spec.flags && not (spec.base == 10)) spec.base (num == 0)
        signed.2

  prefixes :
      (o : Out)
      → put_prefix end
          (has special_flag spec.flags && not (spec.base == 10))
          spec.base
          (num == 0)
          (bit_and spec.flags small_flag)
          o
        ≡ emit end pt o
  prefixes o =
      rw ((sign_flags spec.flags ok.byte).3) (put_prefix-emit end spec.flags spec.base num o)

  same_text :
      layout
        (mode_of spec.flags)
        (pos_part lowered - max tmp.1 (pos_part spec.precision))
        st
        pt
        (replicate (max tmp.1 (pos_part spec.precision) - tmp.1) b'0' ++ down tmp.0 tmp.1)
      ≡ number_text num spec
  unfolding number_text
  same_text =
      rw (tmp_text, tmp-length, width_left)
        (ap
          (λ (g : ℕ).
            layout (mode_of spec.flags) g st pt
              (body (pos_part spec.precision) (digits_text spec.flags spec.base num)))
          (omega arith))

  -- For a flag byte, base 8, 10 or 16 and a number of 64 bits, `number` prints exactly the text
  -- `number_text`, whatever its buffer holds: padding, sign, prefix, zeros and digits in the order
  -- and number that the flags, width and precision give; the memory and the cursor are those of
  -- printing that text.
  pub number-emit : (o : Out) → number stack end num spec o ≡ emit end (number_text num spec) o
  unfolding number
  number-emit o =
      print_number-emit end spec.flags spec.base (bit_and spec.flags small_flag) signed.0
        (has special_flag spec.flags && not (spec.base == 10)) (num == 0) st pt ok.byte signed_lem.0
        prefixes tmp.0 tmp.1 lowered spec.precision o
      ∙ ap (λ t. emit end t o) same_text
