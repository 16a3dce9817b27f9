-- ===== src/Printk/Number/Parts.antt =====
-- Each part of `number` of kernel/printk.c prints its part of the text.
use armv8_os.Prelude.{
  ℕ, suc, ◌+◌, ◌-◌, ◌^◌, ◌<◌, ◌≡◌, max, List, [], ◌∷◌, not, ◌&&◌, ◌==◌, if◌then◌else◌, length,
  reverse_aux, arith,
}
use armv8_os.Prelude.Int.{ℤ, pos, negsuc, ◌-ℤ◌, ltb_ℤ, pos_part}
use armv8_os.Memory.{Mem, Holds}
use armv8_os.Printk.Spec.{small_flag, special_flag, has}
use armv8_os.Printk.Output.{Out, emit}
use armv8_os.Printk.Output.Laws.{down}
use armv8_os.Printk.Number.{take_sign, put_sign, put_prefix, prefix_width}
use armv8_os.Printk.Number.Text.{case_bit}
use armv8_os.Printk.Number.Layout.{magnitude, sign_text, prefix_text}

pub pos_part-sub : (a : ℤ) (k : ℕ) → pos_part (a -ℤ pos k) ≡ pos_part a - k
unfolding ◌-ℤ◌
pos_part-sub a k = ground arith

pub clamp : (p : ℤ) (i : ℕ) → (if ltb_ℤ p (pos i) then pos i else p) ≡ pos (max i (pos_part p))
clamp (pos n) i = ground arith
clamp (negsuc n) i = ground arith

-- The sign.
pub take_sign-emit :
    (end flags num : ℕ) (w : ℤ) (o : Out)
    → num < 2 ^ 64
    → let (sign, num', w') = take_sign flags num w in
      (put_sign end sign o ≡ emit end (sign_text flags num) o)
      × (num' ≡ magnitude flags num)
      × (pos_part w' ≡ pos_part w - length (sign_text flags num))
unfolding take_sign put_sign emit
take_sign-emit end flags num w o h = (ground arith, ground arith, ground (arith, pos_part-sub w 1))

-- The prefix.
pub put_prefix-emit :
    (end flags base num : ℕ) (o : Out)
    → put_prefix end
        (has special_flag flags && not (base == 10))
        base
        (num == 0)
        (case_bit (not (has small_flag flags)))
        o
      ≡ emit end (prefix_text flags base num) o
unfolding put_prefix emit
put_prefix-emit end flags base num o = ground arith

pub prefix_width-sub :
    (flags base num : ℕ) (w : ℤ)
    → pos_part (prefix_width (has special_flag flags && not (base == 10)) base (num == 0) w)
      ≡ pos_part w - length (prefix_text flags base num)
unfolding prefix_width
prefix_width-sub flags base num w = ground (arith, pos_part-sub w 1, pos_part-sub w 2)

-- The characters of `tmp` come out in the opposite order.
pub down_reverse :
    (tmp : Mem) (s : ℕ) (cs : List ℕ)
    → Holds tmp s cs
    → down tmp (s + length cs) ≡ reverse_aux cs (down tmp s)
down_reverse tmp s [] h = let e : s + 0 ≡ s = omega arith in rw e
down_reverse tmp s (c ∷ cs) h =
    let e : s + suc (length cs) ≡ suc s + length cs = omega arith in
    rw (e, ← h.0) (down_reverse tmp (suc s) cs h.1)
