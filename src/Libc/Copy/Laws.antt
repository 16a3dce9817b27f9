-- ===== src/Libc/Copy/Laws.antt =====
-- What strcpy and strncpy of lib/libc/string.c leave in memory.
use armv8_os.Run.{done}
use armv8_os.Prelude.{ℕ, zero, suc, ◌+◌, ◌≤◌, ◌<◌, ◌≡◌, ◌⊎◌, List, [], ◌∷◌, length, get_or, arith}
use armv8_os.Memory.{Mem, store, patch, IsString}
use armv8_os.Libc.Copy.{strcpy, strncpy}

pub IsString-store :
    (m : Mem) (s a v : ℕ) (xs : List ℕ)
    → IsString m s xs
    → (a < s) ⊎ (s + length xs < a)
    → IsString (store m a v) s xs
IsString-store m s a v [] h o = ground arith
IsString-store m s a v (x ∷ xs) h o =
    (ground arith, ground arith, IsString-store m (suc s) a v xs h.2 (ground arith))

-- For a string that the destination does not run into, with enough fuel, `strcpy` ends, leaves the
-- bytes of the string and its NUL at the destination and changes no other byte.
pub strcpy-patch :
    (fuel : ℕ) (m : Mem) (dest src : ℕ) (xs : List ℕ)
    → IsString m src xs
    → length xs < fuel
    → (dest < src) ⊎ (src + length xs < dest)
    → (m' : Mem) × (strcpy fuel m dest src ≡ done m')
      × ((a : ℕ) → m' a ≡ patch m dest (suc (length xs)) (λ i. get_or xs i 0) a)
unfolding strcpy
strcpy-patch zero m dest src xs h f o = absurd (omega arith)
strcpy-patch (suc fuel) m dest src [] h f o =
    (store m dest (m src), ground arith, λ a. ground arith)
strcpy-patch (suc fuel) m dest src (x ∷ xs) h f o =
    let kept : IsString (store m dest (m src)) (suc src) xs =
      IsString-store m (suc src) dest (m src) xs h.2 (ground arith) in
    let (m', e, p) =
      strcpy-patch fuel (store m dest (m src)) (suc dest) (suc src) xs kept (omega arith)
        (ground arith) in
    (m', ground arith, λ a. ground (arith, p a))

-- For a string apart from the destination, `strncpy` fills exactly `count` bytes at the
-- destination, with the bytes of the string as far as they go and NULs behind them, and changes no
-- other byte.
strncpy-patch :
    (count : ℕ) (m : Mem) (dest src : ℕ) (xs : List ℕ) (a : ℕ)
    → IsString m src xs
    → (dest + count ≤ src) ⊎ (src + length xs < dest)
    → strncpy m dest src count a ≡ patch m dest count (λ i. get_or xs i 0) a
unfolding strncpy
strncpy-patch zero m dest src xs a h o = ground arith
strncpy-patch (suc count) m dest src [] a h o =
    ground (arith, strncpy-patch count (store m dest 0) (suc dest) src [] a)
strncpy-patch (suc count) m dest src (x ∷ xs) a h o = ground (
  arith,
  IsString-store m (suc src) dest x xs,
  strncpy-patch count (store m dest x) (suc dest) (suc src) xs a,
)
