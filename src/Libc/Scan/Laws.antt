-- ===== src/Libc/Scan/Laws.antt =====
-- Where the scanning functions of lib/libc/string.c stop.
use armv8_os.Run.{done}
use armv8_os.Prelude.{
  ℕ, zero, suc, ◌+◌, ◌≤◌, ◌<◌, ◌%◌, ◌≡◌, min, ◌≢◌, List, [], ◌∷◌, Option, none, some, length, ◌==◌,
  if◌then◌else◌, arith, Bool-cases, inl, inr,
}
use armv8_os.Memory.{Mem, IsString}
use armv8_os.Libc.Scan.{
  strlen_loop, strlen, strnlen_loop, strnlen, memchr, strchr, strrchr_loop, strrchr,
}

strlen_loop-IsString :
    (fuel : ℕ) (m : Mem) (s : ℕ) (xs : List ℕ)
    → IsString m s xs
    → length xs < fuel
    → strlen_loop fuel m s ≡ done (s + length xs)
unfolding strlen_loop
strlen_loop-IsString zero m s xs h f = absurd (omega arith)
strlen_loop-IsString (suc fuel) m s [] h f = ground arith
strlen_loop-IsString (suc fuel) m s (x ∷ xs) h f =
    ground (arith, strlen_loop-IsString fuel m (suc s) xs)

-- On a string, with more fuel than it has bytes, `strlen` ends and returns the number of bytes
-- before its NUL.
pub strlen-length :
    (fuel : ℕ) (m : Mem) (s : ℕ) (xs : List ℕ)
    → IsString m s xs
    → length xs < fuel
    → strlen fuel m s ≡ done (length xs)
unfolding strlen
strlen-length fuel m s xs h f = ground (arith, strlen_loop-IsString fuel m s xs)

strnlen_loop-IsString :
    (count : ℕ) (m : Mem) (s : ℕ) (xs : List ℕ)
    → IsString m s xs
    → strnlen_loop count m s ≡ s + min count (length xs)
unfolding strnlen_loop
strnlen_loop-IsString zero m s xs h = ground arith
strnlen_loop-IsString (suc fuel) m s [] h = ground arith
strnlen_loop-IsString (suc fuel) m s (x ∷ xs) h =
    ground (arith, strnlen_loop-IsString fuel m (suc s) xs)

-- On a string, `strnlen` returns the smaller of its length and `count`.
pub strnlen-min :
    (count : ℕ) (m : Mem) (s : ℕ) (xs : List ℕ)
    → IsString m s xs
    → strnlen m s count ≡ min count (length xs)
unfolding strnlen
strnlen-min count m s xs h = omega (arith, strnlen_loop-IsString count m s xs h)

-- The index of the first and of the last byte `c`.
abbrev pub first_index : ℕ → List ℕ → Option ℕ
first_index c [] = none
first_index c (x ∷ xs) =
    if x == c then some 0 else elim (first_index c xs) [ none ↦ none | some i ↦ some (suc i) ]

abbrev pub last_index : ℕ → List ℕ → Option ℕ
last_index c [] = none
last_index c (x ∷ xs) = elim (last_index c xs) [
  | some i ↦ some (suc i)
  | none ↦ if x == c then some 0 else none
]

abbrev pub address : ℕ → Option ℕ → Option ℕ
address s none = none
address s (some i) = some (s + i)

-- The bytes of a string with its NUL.
abbrev pub with_nul : List ℕ → List ℕ
with_nul [] = 0 ∷ []
with_nul (x ∷ xs) = x ∷ with_nul xs

-- On a string, with enough fuel, `strchr` returns the address of the first byte that equals the
-- low byte of its argument, the NUL included, and NULL if there is none.
strchr-first_index :
    (fuel : ℕ) (m : Mem) (s c : ℕ) (xs : List ℕ)
    → IsString m s xs
    → length xs < fuel
    → strchr fuel m s c ≡ done (address s (first_index (c % 256) (with_nul xs)))
unfolding strchr
strchr-first_index zero m s c xs h f = absurd (omega arith)
strchr-first_index (suc fuel) m s c [] h f = ground arith
strchr-first_index (suc fuel) m s c (x ∷ xs) h f =
    ground (arith, strchr-first_index fuel m (suc s) c xs)

strrchr_loop-last_index :
    (fuel : ℕ) (m : Mem) (s c : ℕ) (xs : List ℕ) (last : Option ℕ)
    → IsString m s xs
    → length xs < fuel
    → strrchr_loop fuel m s c last
      ≡ done (elim (last_index (c % 256) (with_nul xs)) [ none ↦ last | some i ↦ some (s + i) ])
unfolding strrchr_loop
strrchr_loop-last_index zero m s c xs last h f = absurd (omega arith)
strrchr_loop-last_index (suc fuel) m s c [] last h f = ground arith
strrchr_loop-last_index (suc fuel) m s c (x ∷ xs) last h f =
    ground
      (arith, strrchr_loop-last_index fuel m (suc s) c xs (if m s == c % 256 then some s else last))

-- On a string, with enough fuel, `strrchr` returns the address of the last byte that equals the
-- low byte of its argument, the NUL included, and NULL if there is none.
pub strrchr-last_index :
    (fuel : ℕ) (m : Mem) (s c : ℕ) (xs : List ℕ)
    → IsString m s xs
    → length xs < fuel
    → strrchr fuel m s c ≡ done (address s (last_index (c % 256) (with_nul xs)))
unfolding strrchr
strrchr-last_index fuel m s c xs h f = ground (arith, strrchr_loop-last_index fuel m s c xs none)

-- An address that `memchr` returns lies in the block and holds the low byte of its argument, and
-- no earlier byte of the block does.
pub memchr-some :
    (n : ℕ) (m : Mem) (p c a : ℕ)
    → memchr m p c n ≡ some a
    → (p ≤ a) × (a < p + n) × (m a ≡ c % 256) × ((b : ℕ) → p ≤ b → b < a → m b ≢ c % 256)
unfolding memchr
memchr-some zero m p c a h = absurd (ground arith)
memchr-some (suc n) m p c a h = elim (Bool-cases (c % 256 == m p)) [
  | inl e ↦ (ground arith, ground arith, ground arith, λ b lo hi. ground arith)
  | inr e ↦
      let ih = memchr-some n m (suc p) c a (rw e at h) in
      (ground arith, ground arith, ground arith, λ b lo hi. ground (arith, ih.3 b))
]

pub memchr-none :
    (n : ℕ) (m : Mem) (p c : ℕ)
    → memchr m p c n ≡ none
    → (b : ℕ) → p ≤ b
    → b < p + n
    → m b ≢ c % 256
unfolding memchr
memchr-none zero m p c h b lo hi = absurd (omega arith)
memchr-none (suc n) m p c h b lo hi =
    ground (arith, memchr-none n m (suc p) c, memchr-none n m (suc p) c (ground arith) b)
