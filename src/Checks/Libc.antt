-- ===== src/Checks/Libc.antt =====
-- Runs and examples of lib/libc/string.c and lib/ctype.c.
use armv8_os.Run.{done}
use armv8_os.Prelude.{ℕ, ◌+◌, ◌≡◌, refl, inl, inr, [], ◌∷◌, false, ◌||◌, some, get_or, arith}
use armv8_os.Prelude.Int.{pos}
use armv8_os.Memory.{Mem, patch}
use armv8_os.Ctype.{isalnum, isalpha, isdigit, isgraph, islower, ispunct, isupper, isxdigit}
use armv8_os.Ctype.Classes.{classes_partition}
use armv8_os.Libc.Block.{memmove}
use armv8_os.Libc.Block.Laws.{memmove-patch}
use armv8_os.Libc.Scan.{memchr}
use armv8_os.Libc.Compare.{strcmp, strstr, strnsrt}
use armv8_os.Libc.Compare.Order.{strcmp-order}
use armv8_os.Libc.Compare.Find.{strstr-first_match, strnsrt-first_match}
use armv8_os.Libc.Copy.{strcpy}
use armv8_os.Libc.Copy.Laws.{strcpy-patch}
use armv8_os.Libc.Number.{strtoul}
use armv8_os.Libc.Number.Digits.{strtoul-value, strtoul-hex}
use armv8_os.Checks.Data.{text_at, abc}

abbrev m : Mem
m = text_at 10 abc

classes_partition_example :
    (isalnum b'7' ≡ (isalpha b'7' || isdigit b'7'))
    × (isalpha b'7' ≡ (isupper b'7' || islower b'7'))
    × (isgraph b'7' ≡ (isalnum b'7' || ispunct b'7'))
classes_partition_example = classes_partition b'7' (omega arith)

-- The blocks overlap.
memmove-patch_example : memmove m 11 10 3 13 ≡ patch m 11 3 (λ i. m (10 + i)) 13
memmove-patch_example = memmove-patch m 11 10 3 13

memchr_runs : memchr m 9 b'b' 5 ≡ some 11
unfolding memchr
memchr_runs = refl

strcmp-order_example : strcmp 5 m 10 11 ≡ done (pos 1)
strcmp-order_example =
    strcmp-order 5 m 10 11 abc (b'b' ∷ b'c' ∷ []) (omega arith) (omega arith) (omega arith)

strstr-first_match_example : strstr 5 m 10 11 ≡ done (some 11)
strstr-first_match_example =
    strstr-first_match 5 m 10 11 abc (b'b' ∷ b'c' ∷ []) (omega arith) (omega arith) (omega arith)
      (omega arith) (ground arith)

strnsrt-first_match_example : strnsrt 5 m 10 12 3 ≡ done (some 12)
strnsrt-first_match_example =
    strnsrt-first_match 5 m 10 12 abc (b'c' ∷ []) (omega arith) (omega arith) (omega arith)
      (ground arith)

strcpy-patch_example :
    (m' : Mem) × (strcpy 5 m 20 10 ≡ done m')
    × ((a : ℕ) → m' a ≡ patch m 20 4 (λ i. get_or abc i 0) a)
strcpy-patch_example = strcpy-patch 5 m 20 10 abc (omega arith) (omega arith) (inr (omega arith))

-- In base 10 the letter a is read as ten.
strtoul-value_example : strtoul 5 (text_at 10 (b'1' ∷ b'a' ∷ [])) 10 10 ≡ done (20, 12)
strtoul-value_example =
    strtoul-value 5 (text_at 10 (b'1' ∷ b'a' ∷ [])) 10 10 false (1 ∷ 10 ∷ []) (omega arith)
      (omega arith) (unfold isxdigit in refl) (omega arith) (omega arith) (omega arith)

strtoul-hex_example : strtoul 5 (text_at 10 (b'0' ∷ b'x' ∷ b'f' ∷ [])) 10 16 ≡ done (15, 13)
strtoul-hex_example =
    strtoul-hex 5 (text_at 10 (b'0' ∷ b'x' ∷ b'f' ∷ [])) 10 b'x' false (15 ∷ []) (omega arith)
      (inl refl) (omega arith) (unfold isxdigit in refl) (omega arith)
