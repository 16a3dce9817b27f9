-- ===== src/Libc/Compare/Order.antt =====
-- The order that strcmp, strncmp and memcmp of lib/libc/string.c compute.
use armv8_os.Run.{done}
use armv8_os.Prelude.{
  ℕ, zero, suc, ◌<◌, ◌≡◌, refl, List, [], ◌∷◌, length, take, ◌==◌, ltb, if◌then◌else◌, arith,
}
use armv8_os.Prelude.Int.{ℤ, pos, negsuc}
use armv8_os.Memory.{Mem, IsString}
use armv8_os.Libc.Compare.{strcmp, strncmp}

-- The order of two byte strings as strcmp signs it: 1 if the first stands before the second in the
-- lexicographic order, -1 if it stands behind it, 0 if they are equal.
abbrev pub order : List ℕ → List ℕ → ℤ
order [] [] = pos 0
order [] (y ∷ ys) = pos 1
order (x ∷ xs) [] = negsuc 0
order (x ∷ xs) (y ∷ ys) = if x == y then order xs ys else (if ltb x y then pos 1 else negsuc 0)

-- On two strings, with enough fuel, `strcmp` ends and returns 0 if they are equal, 1 if the first
-- stands before the second in the lexicographic order of unsigned bytes, and -1 if it stands
-- behind it.
pub strcmp-order :
    (fuel : ℕ) (m : Mem) (cs ct : ℕ) (xs ys : List ℕ)
    → IsString m cs xs
    → IsString m ct ys
    → length xs < fuel
    → strcmp fuel m cs ct ≡ done (order xs ys)
unfolding strcmp
strcmp-order zero m cs ct xs ys h k f = absurd (omega arith)
strcmp-order (suc fuel) m cs ct [] [] h k f = ground arith
strcmp-order (suc fuel) m cs ct [] (y ∷ ys) h k f = ground arith
strcmp-order (suc fuel) m cs ct (x ∷ xs) [] h k f = ground arith
strcmp-order (suc fuel) m cs ct (x ∷ xs) (y ∷ ys) h k f =
    ground (arith, strcmp-order fuel m (suc cs) (suc ct) xs ys)

-- On two strings, `strncmp` returns what that order gives for their first `count` bytes.
pub strncmp-order :
    (count : ℕ) (m : Mem) (cs ct : ℕ) (xs ys : List ℕ)
    → IsString m cs xs
    → IsString m ct ys
    → strncmp m cs ct count ≡ order (take count xs) (take count ys)
unfolding strncmp
strncmp-order zero m cs ct xs ys h k = refl
strncmp-order (suc fuel) m cs ct [] [] h k = ground arith
strncmp-order (suc fuel) m cs ct [] (y ∷ ys) h k = ground arith
strncmp-order (suc fuel) m cs ct (x ∷ xs) [] h k = ground arith
strncmp-order (suc fuel) m cs ct (x ∷ xs) (y ∷ ys) h k =
    ground (arith, strncmp-order fuel m (suc cs) (suc ct) xs ys)

order_refl : (xs : List ℕ) → order xs xs ≡ pos 0
order_refl [] = refl
order_refl (x ∷ xs) = ground (arith, order_refl xs)

order_zero : (xs ys : List ℕ) → order xs ys ≡ pos 0 → xs ≡ ys
order_zero [] [] e = refl
order_zero [] (y ∷ ys) e = ground arith
order_zero (x ∷ xs) [] e = ground arith
order_zero (x ∷ xs) (y ∷ ys) e = ground (arith, order_zero xs ys)
