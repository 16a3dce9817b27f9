-- ===== src/Printk/Number/Keep.antt =====
-- number and pointer_string of kernel/printk.c write nothing outside their buffer.
use armv8_os.Prelude.{
  if_holds, if◌then◌else◌, ℕ, ◌+◌, ◌==◌, Bool, true, false, not, ◌||◌, bit_and, bit_or,
}
use armv8_os.Prelude.Int.{ltb_ℤ, ◌-ℤ◌, ℤ, pos}
use armv8_os.Memory.{Mem}
use armv8_os.Printk.Spec.{PrintfSpec, has, zeropad_flag, left_flag}
use armv8_os.Printk.Output.{Out, put}
use armv8_os.Printk.Output.Kept.{
  Kept, put-Kept, pad_gt-Kept, pad_ge-Kept, pad_zeros-Kept, put_tmp-Kept,
}
use armv8_os.Printk.Number.{
  pointer_spec, pad_gt, put_sign, put_prefix, print_number, number, pointer_string,
}

module _ {m : Mem} {lo end : ℕ} where
  put_sign-Kept : (sign : ℕ) (o : Out) → Kept m lo end o → Kept m lo end (put_sign end sign o)
  unfolding put_sign
  put_sign-Kept sign o k = if_holds (Kept m lo end) (sign == 0) (λ _. k) (λ _. put-Kept sign o k)

  put_prefix-Kept :
      (need_pfx : Bool) (base : ℕ) (is_zero : Bool) (locase : ℕ) (o : Out)
      → Kept m lo end o
      → Kept m lo end (put_prefix end need_pfx base is_zero locase o)
  unfolding put_prefix
  put_prefix-Kept false base is_zero locase o k = k
  put_prefix-Kept true base is_zero locase o k =
      let k1 =
        if_holds (Kept m lo end) ((base == 16) || not is_zero) {x = put end b'0' o} {y = o}
          (λ _. put-Kept b'0' o k) (λ _. k) in
      if_holds (Kept m lo end) (base == 16) (λ _. put-Kept (bit_or b'X' locase) _ k1) (λ _. k1)

  print_number-Kept :
      (flags base locase sign : ℕ) (need_pfx is_zero : Bool) (tmp : Mem) (i : ℕ)
      (width precision : ℤ) (o : Out)
      → Kept m lo end o
      → Kept m lo end
          (print_number end flags base locase sign need_pfx is_zero tmp i width precision o)
  unfolding print_number
  print_number-Kept flags base locase sign need_pfx is_zero tmp i width precision o k =
      let precision' : ℤ = if ltb_ℤ precision (pos i) then pos i else precision in
      let width' : ℤ = width -ℤ precision' in
      let k1 =
        if_holds (λ (r : Out × ℤ). Kept m lo end r.0) (has (bit_or zeropad_flag left_flag) flags)
          {x = (o, width')} {y = pad_gt end b' ' width' o} (λ _. k)
          (λ _. pad_gt-Kept b' ' width' o k) in
      let k2 = put_prefix-Kept need_pfx base is_zero locase _ (put_sign-Kept sign _ k1) in
      let k3 =
        if_holds (λ (r : Out × ℤ). Kept m lo end r.0) (has left_flag flags) (λ _. k2)
          (λ _. pad_ge-Kept (b' ' + bit_and flags zeropad_flag) _ _ k2) in
      pad_ge-Kept b' ' _ _ (put_tmp-Kept tmp i _ (pad_zeros-Kept i precision' _ k3))

  pub number-Kept :
      (stack : Mem) (num : ℕ) (spec : PrintfSpec) (o : Out)
      → Kept m lo end o
      → Kept m lo end (number stack end num spec o)
  unfolding number
  number-Kept stack num spec o k = print_number-Kept _ _ _ _ _ _ _ _ _ _ o k

  pub pointer_string-Kept :
      (stack : Mem) (ptr : ℕ) (spec : PrintfSpec) (o : Out)
      → Kept m lo end o
      → Kept m lo end (pointer_string stack end ptr spec o)
  unfolding pointer_string
  pointer_string-Kept stack ptr spec o k = number-Kept stack ptr (pointer_spec spec) o k
