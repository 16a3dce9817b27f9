-- ===== src/Printk/Number/Print.antt =====
-- The output half of `number` of kernel/printk.c, in each padding mode.
use armv8_os.Prelude.{
  ℕ, ◌-◌, ◌<◌, ◌≡◌, max, List, ◌++◌, Bool, true, false, replicate, Bool-cases, inl, inr,
}
use armv8_os.Prelude.Int.{ℤ, pos_part}
use armv8_os.Memory.{Mem}
use armv8_os.Printk.Spec.{left_flag, zeropad_flag, has}
use armv8_os.Printk.Output.{Out, emit}
use armv8_os.Printk.Output.Laws.{
  emit-nil, emit-append, pad_ge-emit, pad_ge-width, pad_gt-emit, pad_gt-width, pad_zeros-emit,
  put_tmp-emit, down,
}
use armv8_os.Printk.Number.{drop_zeropad, put_sign, put_prefix, print_number}
use armv8_os.Printk.Number.Layout.{mode_of, layout}
use armv8_os.Printk.Number.Flags.{padding_flags}
use armv8_os.Printk.Number.Parts.{pos_part-sub, clamp}

ruleset printing = (
  clamp, pos_part-sub, emit-nil, emit-append, pad_ge-emit, pad_ge-width, pad_gt-emit, pad_gt-width,
  pad_zeros-emit, put_tmp-emit,
)

module _ (end f base locase sign : ℕ) (need_pfx is_zero : Bool) (st pt : List ℕ) (byte : f < 256)
    (signs : (o : Out) → put_sign end sign o ≡ emit end st o)
    (prefixes : (o : Out) → put_prefix end need_pfx base is_zero locase o ≡ emit end pt o)
    (tmp : Mem) (i : ℕ) (w prec : ℤ) (o : Out) where
  abbrev pub printed : List ℕ
  printed =
      layout (mode_of f) (pos_part w - max i (pos_part prec)) st pt
        (replicate (max i (pos_part prec) - i) b'0' ++ down tmp i)

  print_left :
      has left_flag f ≡ true
      → print_number end (drop_zeropad f) base locase sign need_pfx is_zero tmp i w prec o
        ≡ emit end printed o
  unfolding print_number
  print_left l =
      let (p, q, r) = padding_flags f byte in
      simp (p, q, r, l, print_number, printing, signs, prefixes)

  print_zeros :
      has left_flag f ≡ false
      → has zeropad_flag f ≡ true
      → print_number end (drop_zeropad f) base locase sign need_pfx is_zero tmp i w prec o
        ≡ emit end printed o
  unfolding print_number
  print_zeros l z =
      let (p, q, r) = padding_flags f byte in
      simp (p, q, r, l, z, print_number, printing, signs, prefixes)

  print_right :
      has left_flag f ≡ false
      → has zeropad_flag f ≡ false
      → print_number end (drop_zeropad f) base locase sign need_pfx is_zero tmp i w prec o
        ≡ emit end printed o
  unfolding print_number
  print_right l z =
      let (p, q, r) = padding_flags f byte in
      simp (p, q, r, l, z, print_number, printing, signs, prefixes)

  pub print_number-emit :
      print_number end (drop_zeropad f) base locase sign need_pfx is_zero tmp i w prec o
      ≡ emit end printed o
  print_number-emit = elim (Bool-cases (has left_flag f)) [
    | inl l ↦ print_left l
    | inr l ↦ elim (Bool-cases (has zeropad_flag f)) [
      | inl z ↦ print_zeros l z
      | inr z ↦ print_right l z
    ]
  ]
