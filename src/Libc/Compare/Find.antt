-- ===== src/Libc/Compare/Find.antt =====
-- strstr and strnsrt of lib/libc/string.c find the first occurrence.
use armv8_os.Run.{done}
use armv8_os.Prelude.{
  ℕ, suc, ◌≤◌, ◌<◌, ◌≡◌, ◌≢◌, refl, Bool, List, [], ◌∷◌, Option, none, some, length, ◌==◌, ◌&&◌,
  if◌then◌else◌, true, false, arith,
}
use armv8_os.Memory.{Mem, IsString, Holds}
use armv8_os.Libc.Scan.Laws.{strlen-length, address}
use armv8_os.Libc.Compare.{memcmp, is_zero, find_loop, strstr, strnsrt}

abbrev pub is_prefix : List ℕ → List ℕ → Bool
is_prefix [] xs = true
is_prefix (y ∷ ys) [] = false
is_prefix (y ∷ ys) (x ∷ xs) = (x == y) && is_prefix ys xs

-- The least index of `xs` at which `ys` stands.
abbrev pub first_match : List ℕ → List ℕ → Option ℕ
first_match ys [] = none
first_match ys (x ∷ xs) =
    if is_prefix ys (x ∷ xs)
    then some 0
    else (elim (first_match ys xs) [ none ↦ none | some i ↦ some (suc i) ])

memcmp-is_prefix :
    (m : Mem) (a b : ℕ) (xs ys : List ℕ)
    → Holds m a xs
    → IsString m b ys
    → length ys ≤ length xs
    → is_zero (memcmp m a b (length ys)) ≡ is_prefix ys xs
unfolding memcmp
memcmp-is_prefix m a b xs [] h k le = refl
memcmp-is_prefix m a b [] (y ∷ ys) h k le = absurd (omega arith)
memcmp-is_prefix m a b (x ∷ xs) (y ∷ ys) h k le =
    ground (arith, memcmp-is_prefix m (suc a) (suc b) xs ys)

is_prefix_short : (xs ys : List ℕ) → length xs < length ys → is_prefix ys xs ≡ false
is_prefix_short xs [] h = absurd (omega arith)
is_prefix_short [] (y ∷ ys) h = refl
is_prefix_short (x ∷ xs) (y ∷ ys) h = ground (arith, is_prefix_short xs ys)

first_match_short : (xs ys : List ℕ) → length xs < length ys → first_match ys xs ≡ none
first_match_short [] ys h = refl
first_match_short (x ∷ xs) ys h =
    ground (arith, is_prefix_short (x ∷ xs) ys, first_match_short xs ys)

find_loop-first_match :
    (m : Mem) (s1 s2 : ℕ) (xs ys : List ℕ)
    → Holds m s1 xs
    → IsString m s2 ys
    → find_loop (length xs) m s1 s2 (length ys) ≡ address s1 (first_match ys xs)
unfolding find_loop
find_loop-first_match m s1 s2 [] ys h k = refl
find_loop-first_match m s1 s2 (x ∷ xs) ys h k = ground (
  arith,
  memcmp-is_prefix m s1 s2 (x ∷ xs) ys,
  first_match_short (x ∷ xs) ys,
  find_loop-first_match m (suc s1) s2 xs ys,
)

IsString-Holds : (m : Mem) (s : ℕ) (xs : List ℕ) → IsString m s xs → Holds m s xs
IsString-Holds m s [] h = tt
IsString-Holds m s (x ∷ xs) h = (h.0, IsString-Holds m (suc s) xs h.2)

-- For two strings, the second not empty, and enough fuel, `strstr` returns the address of the
-- first occurrence of the second in the first, and NULL if there is none.
pub strstr-first_match :
    (fuel : ℕ) (m : Mem) (s1 s2 : ℕ) (xs ys : List ℕ)
    → IsString m s1 xs
    → IsString m s2 ys
    → length xs < fuel
    → length ys < fuel
    → ys ≢ []
    → strstr fuel m s1 s2 ≡ done (address s1 (first_match ys xs))
unfolding strstr
strstr-first_match fuel m s1 s2 xs [] h k f g ne = absurd (ne refl)
strstr-first_match fuel m s1 s2 xs (y ∷ ys) h k f g ne = ground (
  arith,
  strlen-length fuel m s2 (y ∷ ys),
  strlen-length fuel m s1 xs,
  find_loop-first_match m s1 s2 xs (y ∷ ys) (IsString-Holds m s1 xs h),
)

-- For a block of bytes and a string that is not empty, with enough fuel, `strnsrt` returns the
-- address of the first occurrence of the string in the block, and NULL if there is none.
pub strnsrt-first_match :
    (fuel : ℕ) (m : Mem) (s1 s2 : ℕ) (xs ys : List ℕ)
    → Holds m s1 xs
    → IsString m s2 ys
    → length ys < fuel
    → ys ≢ []
    → strnsrt fuel m s1 s2 (length xs) ≡ done (address s1 (first_match ys xs))
unfolding strnsrt
strnsrt-first_match fuel m s1 s2 xs [] h k g ne = absurd (ne refl)
strnsrt-first_match fuel m s1 s2 xs (y ∷ ys) h k g ne =
    ground (arith, strlen-length fuel m s2 (y ∷ ys), find_loop-first_match m s1 s2 xs (y ∷ ys))
