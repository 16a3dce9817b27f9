-- ===== src/Libc/Block/Laws.antt =====
-- What the block operations of lib/libc/string.c leave in memory, address by address.
use armv8_os.Prelude.{refl, ◌<◌, ℕ, zero, suc, ◌+◌, ◌≤◌, ◌%◌, ◌≡◌, ◌⊎◌, arith}
use armv8_os.Memory.{Mem, store, patch}
use armv8_os.Libc.Block.{copy_up, copy_down, memcpy, memmove, memset}

copy_up_lem :
    (count : ℕ) (m : Mem) (tmp s a : ℕ)
    → (tmp ≤ s) ⊎ (s + count ≤ tmp)
    → copy_up count m tmp s a ≡ patch m tmp count (λ i. m (s + i)) a
unfolding copy_up
copy_up_lem zero m tmp s a h = ground arith
copy_up_lem (suc count) m tmp s a h =
    ground (arith, copy_up_lem count (store m tmp (m s)) (suc tmp) (suc s) a)

copy_down_lem :
    (count : ℕ) (m : Mem) (dest src a : ℕ)
    → src ≤ dest
    → copy_down count m dest src a ≡ patch m dest count (λ i. m (src + i)) a
unfolding copy_down
copy_down_lem zero m dest src a h = ground arith
copy_down_lem (suc count) m dest src a h =
    ground (arith, copy_down_lem count (store m (dest + count) (m (src + count))) dest src a)

-- If the destination does not begin inside the source block, `memcpy` leaves at the destination
-- what stood at the source, and changes no other byte.
pub memcpy-patch :
    (m : Mem) (dest src count a : ℕ)
    → (dest ≤ src) ⊎ (src + count ≤ dest)
    → memcpy m dest src count a ≡ patch m dest count (λ i. m (src + i)) a
unfolding memcpy
memcpy-patch m dest src count a h = copy_up_lem count m dest src a h

-- For any two blocks, overlapping or not, `memmove` leaves at the destination what stood at the
-- source before the call, and changes no other byte.
pub memmove-patch :
    (m : Mem) (dest src count a : ℕ)
    → memmove m dest src count a ≡ patch m dest count (λ i. m (src + i)) a
unfolding memmove
memmove-patch m dest src count a =
    ground (arith, copy_up_lem count m dest src a, copy_down_lem count m dest src a)

-- `memset` leaves the low byte of its argument in every byte of the block, and changes no other
-- byte.
pub memset-patch :
    (m : Mem) (s c count a : ℕ) → memset m s c count a ≡ patch m s count (λ _. c % 256) a
unfolding memset
memset-patch m s c zero a = ground arith
memset-patch m s c (suc count) a =
    ground (arith, memset-patch (store m s (c % 256)) (suc s) c count a)

copy_up-outside :
    (count : ℕ) (m : Mem) (tmp s a : ℕ)
    → (a < tmp) ⊎ (tmp + count ≤ a)
    → copy_up count m tmp s a ≡ m a
unfolding copy_up
copy_up-outside zero m tmp s a h = refl
copy_up-outside (suc count) m tmp s a h =
    let later : (a < suc tmp) ⊎ (suc tmp + count ≤ a) = ground arith in
    ground (arith, copy_up-outside count (store m tmp (m s)) (suc tmp) (suc s) a later)

pub memcpy-outside :
    (m : Mem) (dest src count a : ℕ)
    → (a < dest) ⊎ (dest + count ≤ a)
    → memcpy m dest src count a ≡ m a
unfolding memcpy
memcpy-outside m dest src count a h = copy_up-outside count m dest src a h
