-- ===== src/Printk/Format/Stored.antt =====
-- Strings in memory that vsnprintf of kernel/printk.c does not print over.
use armv8_os.Prelude.{ℕ, suc, ◌<◌, List, [], ◌∷◌, length, arith}
use armv8_os.Memory.{IsString}
use armv8_os.Printk.Output.{Out, put, emit}
use armv8_os.Printk.Str.Laws.{Apart, put-IsString}

-- A string that stands in memory and is not printed over, with fuel for it.
pub record Stored (end fuel : ℕ) (o : Out) (f : ℕ) (xs : List ℕ) : Type 0 where
  pub holds : IsString o.mem f xs
  pub apart : Apart end f xs o
  pub few : length xs < fuel

pub put-Stored :
    (end fuel ch : ℕ) (o : Out) (f : ℕ) (xs : List ℕ)
    → Stored end fuel o f xs
    → Stored end fuel (put end ch o) f xs
unfolding put
put-Stored end fuel ch o f xs t = record {
  holds = put-IsString end f ch xs o t.holds t.apart;
  apart = ground (arith, t.apart);
  few = t.few;
}

pub Stored-tail :
    (end fuel : ℕ) (o : Out) (f x : ℕ) (xs : List ℕ)
    → Stored end fuel o f (x ∷ xs)
    → Stored end fuel o (suc f) xs
Stored-tail end fuel o f x xs t = record {
  holds = t.holds.2;
  apart = ground (arith, t.apart);
  few = omega (arith, t.few);
}

-- Printing leaves it as it is.
pub emit-Stored :
    (end fuel : ℕ) (text : List ℕ) (o : Out) (f : ℕ) (xs : List ℕ)
    → Stored end fuel o f xs
    → Stored end fuel (emit end text o) f xs
unfolding emit
emit-Stored end fuel [] o f xs t = t
emit-Stored end fuel (ch ∷ text) o f xs t =
    emit-Stored end fuel text (put end ch o) f xs (put-Stored end fuel ch o f xs t)
