-- ===== src/Printk/Output.antt =====
-- The output cursor of kernel/printk.c: every function that prints stores a character only while its
-- pointer is below `end`, and advances the pointer in any case.
pub mod Kept
pub mod Laws
use armv8_os.Prelude.{ℕ, zero, suc, ltb, leb, if◌then◌else◌, ◌==◌, List, [], ◌∷◌}
use armv8_os.Prelude.Int.{ℤ, pos, negsuc}
use armv8_os.Memory.{Mem, store}

pub record Out : Type 0 where
  pub mem : Mem
  pub cur : ℕ

-- if (buf < end) *buf = c; ++buf;
unfoldable pub put : ℕ → ℕ → Out → Out
put end c o = record { mem = if ltb o.cur end then store o.mem o.cur c else o.mem; cur = suc o.cur }

-- while (--width > 0) put c, with the width after the loop.
unfoldable pub pad_gt : ℕ → ℕ → ℤ → Out → Out × ℤ
pad_gt end c (pos zero) o = (o, negsuc 0)
pad_gt end c (pos (suc n)) o =
    let more = pad_gt end c (pos n) (put end c o) in if n == 0 then (o, pos 0) else more
pad_gt end c (negsuc k) o = (o, negsuc (suc k))

-- while (--width >= 0) put c
unfoldable pub pad_ge : ℕ → ℕ → ℤ → Out → Out × ℤ
pad_ge end c (pos zero) o = (o, negsuc 0)
pad_ge end c (pos (suc n)) o = pad_ge end c (pos n) (put end c o)
pad_ge end c (negsuc k) o = (o, negsuc (suc k))

-- while (i <= --precision) put '0'
unfoldable pub pad_zeros : ℕ → ℕ → ℤ → Out → Out
pad_zeros end i (pos zero) o = o
pad_zeros end i (pos (suc n)) o =
    let more = pad_zeros end i (pos n) (put end b'0' o) in if leb i n then more else o
pad_zeros end i (negsuc k) o = o

-- while (--i >= 0) put tmp[i]
unfoldable pub put_tmp : ℕ → Mem → ℕ → Out → Out
put_tmp end tmp zero o = o
put_tmp end tmp (suc i) o = put_tmp end tmp i (put end (tmp i) o)

-- What a printer does with a text: the reference that the loops are measured by.
unfoldable pub emit : ℕ → List ℕ → Out → Out
emit end [] o = o
emit end (c ∷ cs) o = emit end cs (put end c o)
