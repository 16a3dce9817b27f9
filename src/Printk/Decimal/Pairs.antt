-- ===== src/Printk/Decimal/Pairs.antt =====
-- The multiplications of kernel/printk.c that stand for divisions by 100, and the table of digit pairs.
use armv8_os.Prelude.{ℕ, ◌+◌, ◌/◌, ◌%◌, ◌<◌, ◌≡◌, ◌==◌, ◌&&◌, refl, true, arith}
use armv8_os.Prelude.Bits.{check_below, checked}
use armv8_os.Printk.Decimal.{decpair, quot, quot_small, rest}

pub quot-div : (x : ℕ) → x < 100_000_000 → (quot x ≡ x / 100) × (rest x (quot x) ≡ x % 100)
unfolding quot rest
quot-div x h = omega arith

pub quot_small-div :
    (x : ℕ) → x < 10_000 → (quot_small x ≡ x / 100) × (rest x (quot_small x) ≡ x % 100)
unfolding quot_small rest
quot_small-div x h = omega arith

pair_table :
    check_below 100
      (λ x. (decpair x % 256 == b'0' + x % 10) && (decpair x / 256 % 256 == b'0' + x / 10))
    ≡ true
unfolding check_below decpair
pair_table = refl

pub decpair_lem :
    (x : ℕ) → x < 100 → (decpair x % 256 ≡ b'0' + x % 10) × (decpair x / 256 % 256 ≡ b'0' + x / 10)
decpair_lem x h = ground (arith, checked _ 100 h pair_table)
