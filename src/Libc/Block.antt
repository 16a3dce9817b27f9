-- ===== src/Libc/Block.antt =====
-- memcpy, memmove and memset of lib/libc/string.c. Each returns its first argument, so the model
-- gives the new memory. `count` is the number of rounds left.
pub mod Laws
use armv8_os.Prelude.{ℕ, zero, suc, ◌+◌, ◌%◌, leb, if◌then◌else◌}
use armv8_os.Memory.{Mem, store}

-- while (count--) *tmp++ = *s++;
unfoldable pub copy_up : ℕ → Mem → ℕ → ℕ → Mem
copy_up zero m tmp s = m
copy_up (suc count) m tmp s = copy_up count (store m tmp (m s)) (suc tmp) (suc s)

-- while (count--) *--tmp = *--s, from `tmp` and `s` that stand `count` behind their starts.
unfoldable pub copy_down : ℕ → Mem → ℕ → ℕ → Mem
copy_down zero m dest src = m
copy_down (suc count) m dest src =
    copy_down count (store m (dest + count) (m (src + count))) dest src

unfoldable pub memcpy : Mem → ℕ → ℕ → ℕ → Mem
unfolding copy_up
memcpy m dest src count = copy_up count m dest src

unfoldable pub memmove : Mem → ℕ → ℕ → ℕ → Mem
unfolding copy_up copy_down
memmove m dest src count =
    if leb dest src then copy_up count m dest src else copy_down count m dest src

unfoldable pub memset : Mem → ℕ → ℕ → ℕ → Mem
memset m s c zero = m
memset m s c (suc count) = memset (store m s (c % 256)) (suc s) c count
