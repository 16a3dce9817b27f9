-- ===== src/Printk/Decimal/Value.antt =====
-- What put_dec of kernel/printk.c leaves in its buffer, as a number.
use armv8_os.Prelude.{ℕ, ◌^◌, ◌≤◌, ◌<◌, ◌≡◌, List, length, arith}
use armv8_os.Memory.{Mem}
use armv8_os.Printk.Digits.{
  rev_digits, rev_value, AllBelow, top, rev_value-rev_digits, rev_digits-AllBelow, top-rev_digits,
  length-rev_digits, rev_digits-fuel,
}
use armv8_os.Printk.Decimal.{put_dec}
use armv8_os.Printk.Decimal.Laws.{digit_chars, Written, put_dec-Written}

-- `ds` is the canonical decimal numeral of `n`, least significant digit first.
pub record IsDecimal (n : ℕ) (ds : List ℕ) : Type 0 where
  pub value : rev_value 10 ds ≡ n
  pub below : AllBelow 10 ds
  pub no_leading_zero : 0 < n → 0 < top ds
  pub short : length ds ≤ 20

rev_digits-IsDecimal : (n : ℕ) → n < 2 ^ 64 → IsDecimal n (rev_digits 10 24 n)
rev_digits-IsDecimal n h = record {
  value = rev_value-rev_digits 10 (omega arith) 24 n (omega arith);
  below = rev_digits-AllBelow 10 (omega arith) 24 n;
  no_leading_zero = λ p. top-rev_digits 10 (omega arith) 24 n p (omega arith);
  short =
      rw (← rev_digits-fuel 10 (omega arith) 20 24 n (omega arith) (omega arith) (omega arith))
        (length-rev_digits 10 20 n);
}

-- For every number of 64 bits, `put_dec` writes its canonical decimal numeral, least significant
-- digit first: the digits are below 10 and stand for the number, there is no leading zero but in
-- 0, there are at most 20; the result points behind them, and no byte changes but these and the
-- one behind them.
pub put_dec-IsDecimal :
    (m : Mem) (buf n : ℕ)
    → n < 2 ^ 64
    → (ds : List ℕ) × IsDecimal n ds × Written m buf (digit_chars ds) (put_dec m buf n)
put_dec-IsDecimal m buf n h =
    (rev_digits 10 24 n, rev_digits-IsDecimal n h, put_dec-Written m buf n h)
