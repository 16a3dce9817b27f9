-- ===== src/Printk/Output/Kept.antt =====
-- What every printer of kernel/printk.c keeps: the cursor stays behind the start of the buffer, and
-- memory outside the buffer stays as it was.
use armv8_os.Prelude.{if_holds, ℕ, zero, suc, ◌≤◌, ◌<◌, ◌≡◌, ◌⊎◌, ◌==◌, leb, arith}
use armv8_os.Prelude.Int.{ℤ, pos, negsuc}
use armv8_os.Memory.{Mem}
use armv8_os.Printk.Output.{Out, put, pad_gt, pad_ge, pad_zeros, put_tmp}

abbrev pub Outside : ℕ → ℕ → ℕ → Type 0
Outside lo end a = (a < lo) ⊎ (end ≤ a)

pub record Kept (m : Mem) (lo end : ℕ) (o : Out) : Type 0 where
  pub start : lo ≤ o.cur
  pub kept : (a : ℕ) → Outside lo end a → o.mem a ≡ m a

module _ {m : Mem} {lo end : ℕ} where
  pub put-Kept : (c : ℕ) (o : Out) → Kept m lo end o → Kept m lo end (put end c o)
  unfolding put
  put-Kept c o k = record {
    start = ground (arith, k.start);
    kept = λ a h. ground (arith, k.start, k.kept a);
  }

  pub pad_gt-Kept :
      (c : ℕ) (width : ℤ) (o : Out) → Kept m lo end o → Kept m lo end ((pad_gt end c width o).0)
  unfolding pad_gt
  pad_gt-Kept c (pos zero) o k = k
  pad_gt-Kept c (pos (suc n)) o k =
      if_holds (λ (r : Out × ℤ). Kept m lo end r.0) (n == 0) (λ _. k)
        (λ _. pad_gt-Kept c (pos n) (put end c o) (put-Kept c o k))
  pad_gt-Kept c (negsuc n) o k = k

  pub pad_ge-Kept :
      (c : ℕ) (width : ℤ) (o : Out) → Kept m lo end o → Kept m lo end ((pad_ge end c width o).0)
  unfolding pad_ge
  pad_ge-Kept c (pos zero) o k = k
  pad_ge-Kept c (pos (suc n)) o k = pad_ge-Kept c (pos n) (put end c o) (put-Kept c o k)
  pad_ge-Kept c (negsuc n) o k = k

  pub pad_zeros-Kept :
      (i : ℕ) (precision : ℤ) (o : Out)
      → Kept m lo end o
      → Kept m lo end (pad_zeros end i precision o)
  unfolding pad_zeros
  pad_zeros-Kept i (pos zero) o k = k
  pad_zeros-Kept i (pos (suc n)) o k =
      if_holds (Kept m lo end) (leb i n)
        (λ _. pad_zeros-Kept i (pos n) (put end b'0' o) (put-Kept b'0' o k)) (λ _. k)
  pad_zeros-Kept i (negsuc n) o k = k

  pub put_tmp-Kept :
      (tmp : Mem) (i : ℕ) (o : Out) → Kept m lo end o → Kept m lo end (put_tmp end tmp i o)
  unfolding put_tmp
  put_tmp-Kept tmp zero o k = k
  put_tmp-Kept tmp (suc i) o k = put_tmp-Kept tmp i (put end (tmp i) o) (put-Kept (tmp i) o k)
