-- ===== src/Printk/Number/Text.antt =====
-- The digits that `number` of kernel/printk.c collects in `tmp`, in every base.
use native.Mathlib.Nat.{pow-le-pow_left, mod-lt, le_trans, div-eq_of_lt, mod-eq_of_lt}
use armv8_os.Prelude.{
  ℕ, zero, suc, ◌+◌, ◌-◌, ◌/◌, ◌%◌, ◌^◌, ◌<◌, ◌≤◌, ◌≡◌, refl, ◌⊎◌, inl, inr, List, [], ◌∷◌, Bool,
  true, false, ◌&&◌, ◌==◌, ltb, if◌then◌else◌, length, bit_and, arith, Bool-cases,
}
use armv8_os.Prelude.Bits.{check_below, checked}
use armv8_os.Memory.{Mem, store, Holds}
use armv8_os.Libc.Number.Digits.{digit_char, chars}
use armv8_os.Printk.Digits.{div_pos, rev_digits, rev_digits-fuel, AllBelow, rev_digits-AllBelow}
use armv8_os.Printk.Decimal.Laws.{digit_chars, put_dec-Written}
use armv8_os.Printk.Number.{put_dec, hex_digit, digit_loop, to_tmp}

-- 0 or 0x20, as `flags & SMALL` is.
abbrev pub case_bit : Bool → ℕ
case_bit capital = if capital then 0 else 32

hex_table :
    check_below 16
      (λ d. (hex_digit 0 d == digit_char true d) && (hex_digit 32 d == digit_char false d))
    ≡ true
unfolding check_below hex_digit
hex_table = refl

hex_digit_lem :
    (capital : Bool) (d : ℕ) → d < 16 → hex_digit (case_bit capital) d ≡ digit_char capital d
hex_digit_lem true d h = ground (arith, checked _ 16 h hex_table)
hex_digit_lem false d h = ground (arith, checked _ 16 h hex_table)

mask_table : check_below 256 (λ x. (bit_and x 7 == x % 8) && (bit_and x 15 == x % 16)) ≡ true
unfolding check_below
mask_table = refl

mask-mod : (n : ℕ) → (bit_and (n % 256) 7 ≡ n % 8) × (bit_and (n % 256) 15 ≡ n % 16)
mask-mod n = let lt : n % 256 < 256 = omega arith in ground (arith, checked _ 256 lt mask_table)

-- The buffer `r` got the characters of `ds` from `i` on.
pub record Collected (tmp : Mem) (i : ℕ) (cs : List ℕ) (r : Mem × ℕ) : Type 0 where
  pub end : r.1 ≡ i + length cs
  pub holds : Holds r.0 i cs
  pub below : (a : ℕ) → a < i → r.0 a ≡ tmp a

pub length-chars : (capital : Bool) (ds : List ℕ) → length (chars capital ds) ≡ length ds
length-chars capital [] = refl
length-chars capital (d ∷ ds) = omega (arith, length-chars capital ds)

Collected-cons :
    (tmp : Mem) (i c : ℕ) (cs : List ℕ) (r : Mem × ℕ)
    → Collected (store tmp i c) (suc i) cs r
    → Collected tmp i (c ∷ cs) r
Collected-cons tmp i c cs r w = record {
  end = omega (arith, w.end);
  holds = (ground (arith, w.below i), w.holds);
  below = λ a h. ground (arith, w.below a);
}

Collected-one : (tmp : Mem) (i c : ℕ) → Collected tmp i (c ∷ []) (store tmp i c, suc i)
Collected-one tmp i c = record {
  end = omega arith;
  holds = (ground arith, tt);
  below = λ a h. ground arith;
}

module _ (capital : Bool) (base mask shift : ℕ) (two : 2 ≤ base) (small : base ≤ 16)
    (pow : 2 ^ shift ≡ base) (masks : (n : ℕ) → bit_and (n % 256) mask ≡ n % base) where
  loop_digit :
      (n : ℕ)
      → hex_digit (case_bit capital) (bit_and (n % 256) mask) ≡ digit_char capital (n % base)
  loop_digit n =
      rw (masks n)
        (hex_digit_lem capital (n % base) (omega (arith, mod-lt n {m = base} (omega arith))))

  digit_loop-Collected :
      (fuel i n : ℕ) (tmp : Mem)
      → Collected tmp i
          (chars capital (rev_digits base fuel n))
          (digit_loop (case_bit capital) mask shift fuel tmp i n)
  unfolding digit_loop rev_digits
  digit_loop-Collected zero i n tmp = record { end = omega arith; holds = tt; below = λ a h. refl }
  digit_loop-Collected (suc fuel) i n tmp = elim (Bool-cases (ltb n base)) [
    | inl last ↦
        let lt : n < base = ground arith in
        let z : n / base ≡ 0 = div-eq_of_lt lt in
        let e : n % base ≡ n = mod-eq_of_lt lt in
        rw (loop_digit n, pow, last, z, e) (Collected-one tmp i (digit_char capital n))
    | inr more ↦
        let nz : (n / base == 0) ≡ false =
          ground (arith, div_pos base two {n = n} (ground arith)) in
        rw (loop_digit n, pow, more, nz)
          (Collected-cons tmp i (digit_char capital (n % base)) _ _ (
            digit_loop-Collected fuel (suc i) (n / base)
              (store tmp i (digit_char capital (n % base)))))
  ]

chars-digit_chars :
    (capital : Bool) (ds : List ℕ) → AllBelow 10 ds → digit_chars ds ≡ chars capital ds
chars-digit_chars capital [] h = refl
chars-digit_chars capital (d ∷ ds) h = ground (arith, chars-digit_chars capital ds)

abbrev pub IsBase : ℕ → Type 0
IsBase base = (base ≡ 8) ⊎ (base ≡ 10) ⊎ (base ≡ 16)

one_digit :
    (stack : Mem) (capital : Bool) (base num : ℕ)
    → num < base
    → base ≤ 16
    → Collected stack 0
        (chars capital (rev_digits base 24 num))
        (to_tmp stack (case_bit capital) base num)
unfolding to_tmp rev_digits
one_digit stack capital base num lt small =
    let e : ltb num base ≡ true = ground arith in
    rw (e, hex_digit_lem capital num (omega arith)) (Collected-one stack 0 (digit_char capital num))

-- 24 digits are enough in every base.
enough : (base num : ℕ) → 8 ≤ base → num < 2 ^ 64 → num < base ^ 24
enough base num h lt = le_trans lt (le_trans (omega arith) (pow-le-pow_left h 24))

many_digits :
    (stack : Mem) (capital : Bool) (base mask shift num : ℕ)
    → 8 ≤ base
    → base ≤ 16
    → 2 ^ shift ≡ base
    → ((n : ℕ) → bit_and (n % 256) mask ≡ n % base)
    → num < 2 ^ 64
    → Collected stack 0
        (chars capital (rev_digits base 24 num))
        (digit_loop (case_bit capital) mask shift 64 stack 0 num)
many_digits stack capital base mask shift num lo hi pow masks h =
    rw
      (rev_digits-fuel base (omega arith) 24 64 num (enough base num lo h) (omega arith)
        (omega arith))
      (digit_loop-Collected capital base mask shift (omega arith) hi pow masks 64 0 num stack)

decimal :
    (stack : Mem) (capital : Bool) (num : ℕ)
    → num < 2 ^ 64
    → Collected stack 0 (chars capital (rev_digits 10 24 num)) (put_dec stack 0 num)
decimal stack capital num h =
    let w = put_dec-Written stack 0 num h in
    rw
      (← chars-digit_chars capital (rev_digits 10 24 num)
        (rev_digits-AllBelow 10 (omega arith) 24 num))
      (record { end = w.end; holds = w.holds; below = w.below })

-- `tmp` holds the digits of the number, least significant first, in each base.
pub to_tmp-Collected :
    (stack : Mem) (capital : Bool) (base num : ℕ)
    → IsBase base
    → num < 2 ^ 64
    → Collected stack 0
        (chars capital (rev_digits base 24 num))
        (to_tmp stack (case_bit capital) base num)
unfolding to_tmp
to_tmp-Collected stack capital base num b h = elim (Bool-cases (ltb num base)) [
  | inl one ↦ one_digit stack capital base num (ground arith) (omega (arith, b))
  | inr many ↦ rw many (go b)
]
  where
    go :
        IsBase base
        → Collected stack 0 (chars capital (rev_digits base 24 num)) (
            if base == 10
            then put_dec stack 0 num
            else digit_loop
                (case_bit capital)
                (base - 1)
                (if base == 16 then 4 else 3)
                64
                stack
                0
                num)
    go (inl e) = rw e (
        many_digits stack capital 8 7 3 num (omega arith) (omega arith) refl (λ n. (mask-mod n).0)
          h)
    go (inr (inl e)) = rw e (decimal stack capital num h)
    go (inr (inr e)) = rw e (
        many_digits stack capital 16 15 4 num (omega arith) (omega arith) refl (λ n. (mask-mod n).1)
          h)
