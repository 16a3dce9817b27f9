-- ===== src/Libc/Number/Digits.antt =====
-- strtoul of lib/libc/string.c on a numeral.
use armv8_os.Run.{done}
use armv8_os.Prelude.{
  inr, inl, ◌⊎◌, ℕ, zero, suc, ◌+◌, ◌-◌, ◌*◌, ◌%◌, ◌^◌, ◌<◌, ◌≤◌, ◌≡◌, ap, ◌/◌, refl, Bool, true,
  false, ◌&&◌, List, [], ◌∷◌, length, ltb, ◌==◌, if◌then◌else◌, arith,
}
use armv8_os.Prelude.Bits.{check_below, checked}
use armv8_os.Memory.{Mem, Holds}
use armv8_os.Ctype.{tolower, isxdigit}
use armv8_os.Libc.Number.{digit_value, strtoul_loop, hex_prefix, strtoul}

-- The character of a digit, in the case that `capital` says.
abbrev pub digit_char : Bool → ℕ → ℕ
digit_char capital d =
    if ltb d 10 then b'0' + d else (if capital then b'A' + (d - 10) else b'a' + (d - 10))

digit_table :
    check_below 16 (λ d.
      (isxdigit (digit_char true d) && isxdigit (digit_char false d))
      && (digit_value (digit_char true d) == d && digit_value (digit_char false d) == d))
    ≡ true
unfolding check_below isxdigit digit_value
digit_table = refl

digit_char_lem :
    (capital : Bool) (d : ℕ)
    → d < 16
    → (isxdigit (digit_char capital d) ≡ true) × (digit_value (digit_char capital d) ≡ d)
digit_char_lem true d h = ground (arith, checked _ 16 h digit_table)
digit_char_lem false d h = ground (arith, checked _ 16 h digit_table)

-- The characters of a numeral, and the number that it stands for in front of which `acc` was read.
abbrev pub chars : Bool → List ℕ → List ℕ
chars capital [] = []
chars capital (d ∷ ds) = digit_char capital d ∷ chars capital ds

abbrev pub value : ℕ → ℕ → List ℕ → ℕ
value base acc [] = acc
value base acc (d ∷ ds) = value base (acc * base + d) ds

-- What strtoul takes for a digit of the base: up to the base itself.
abbrev pub AllUpTo : ℕ → List ℕ → Type 0
AllUpTo base [] = Unit
AllUpTo base (d ∷ ds) = (d ≤ base) × (d < 16) × AllUpTo base ds

split_mod : (a : ℕ) → a ≡ 2 ^ 64 * (a / 2 ^ 64) + a % 2 ^ 64
split_mod a = omega arith

mul_add_mod :
    (base d a a' : ℕ)
    → a % 2 ^ 64 ≡ a' % 2 ^ 64
    → (a * base + d) % 2 ^ 64 ≡ (a' * base + d) % 2 ^ 64
mul_add_mod base d a a' h =
    let times : ℕ → ℕ = λ t. t * base in
    omega (arith, ap times (split_mod a), ap times (split_mod a'), ap times h)

value_mod :
    (base acc acc' : ℕ) (ds : List ℕ)
    → acc % 2 ^ 64 ≡ acc' % 2 ^ 64
    → value base acc ds % 2 ^ 64 ≡ value base acc' ds % 2 ^ 64
value_mod base acc acc' [] h = h
value_mod base acc acc' (d ∷ ds) h =
    value_mod base (acc * base + d) (acc' * base + d) ds (mul_add_mod base d acc acc' h)

strtoul_loop-value :
    (fuel : ℕ) (m : Mem) (cp base acc : ℕ) (capital : Bool) (ds : List ℕ)
    → Holds m cp (chars capital ds)
    → AllUpTo base ds
    → isxdigit (m (cp + length ds)) ≡ false
    → length ds < fuel
    → acc < 2 ^ 64
    → strtoul_loop fuel m cp base acc ≡ done (value base acc ds % 2 ^ 64, cp + length ds)
unfolding strtoul_loop
strtoul_loop-value zero m cp base acc capital ds h a e f lt = absurd (omega arith)
strtoul_loop-value (suc fuel) m cp base acc capital [] h a e f lt = ground arith
strtoul_loop-value (suc fuel) m cp base acc capital (d ∷ ds) h a e f lt = ground (
  arith,
  digit_char_lem capital d,
  strtoul_loop-value fuel m (suc cp) base ((acc * base + d) % 2 ^ 64) capital ds,
  value_mod base ((acc * base + d) % 2 ^ 64) (acc * base + d) ds (omega arith),
)

-- In a base from 1 to 15, `strtoul` on a numeral that ends before a character which is no hex
-- digit, with enough fuel, gives its value modulo 2^64 and the address behind it; the numeral may
-- have digits up to and including the base itself.
pub strtoul-value :
    (fuel : ℕ) (m : Mem) (cp base : ℕ) (capital : Bool) (ds : List ℕ)
    → Holds m cp (chars capital ds)
    → AllUpTo base ds
    → isxdigit (m (cp + length ds)) ≡ false
    → length ds < fuel
    → 0 < base
    → base < 16
    → strtoul fuel m cp base ≡ done (value base 0 ds % 2 ^ 64, cp + length ds)
unfolding strtoul
strtoul-value fuel m cp base capital ds h a e f lo hi =
    ground (arith, strtoul_loop-value fuel m cp base 0 capital ds)

tolower-x : (x : ℕ) → (x ≡ b'x') ⊎ (x ≡ b'X') → tolower x ≡ b'x'
unfolding tolower
tolower-x x (inl e) = rw e
tolower-x x (inr e) = rw e

hex_prefix-true :
    (m : Mem) (cp x : ℕ)
    → m cp ≡ b'0'
    → m (suc cp) ≡ x
    → (x ≡ b'x') ⊎ (x ≡ b'X')
    → hex_prefix m cp 16 ≡ true
unfolding hex_prefix
hex_prefix-true m cp x zero_char h c = ground (arith, ap tolower h, tolower-x x c)

two_more : (a b : ℕ) → suc (suc a) + b ≡ a + 2 + b
two_more a b = omega arith

-- In base 16, `strtoul` on a numeral behind 0x or 0X that ends before a character which is no hex
-- digit, with enough fuel, gives its value modulo 2^64 and the address behind it.
pub strtoul-hex :
    (fuel : ℕ) (m : Mem) (cp x : ℕ) (capital : Bool) (ds : List ℕ)
    → Holds m cp (b'0' ∷ x ∷ chars capital ds)
    → (x ≡ b'x') ⊎ (x ≡ b'X')
    → AllUpTo 16 ds
    → isxdigit (m (cp + 2 + length ds)) ≡ false
    → length ds < fuel
    → strtoul fuel m cp 16 ≡ done (value 16 0 ds % 2 ^ 64, cp + 2 + length ds)
unfolding strtoul
strtoul-hex fuel m cp x capital ds h c a e f = ground (
  arith,
  hex_prefix-true m cp x h.0 h.1.0 c,
  ap isxdigit (ap m (two_more cp (length ds))),
  strtoul_loop-value fuel m (suc (suc cp)) 16 0 capital ds,
)
