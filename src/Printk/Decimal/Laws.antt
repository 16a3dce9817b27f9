-- ===== src/Printk/Decimal/Laws.antt =====
-- put_dec of kernel/printk.c writes the decimal digits of its argument.
use armv8_os.Prelude.{
  sym, ap, ◌∙◌, true, ℕ, zero, suc, ◌+◌, ◌*◌, ◌/◌, ◌%◌, ◌^◌, ◌<◌, ◌≤◌, ◌≡◌, List, [], ◌∷◌, ◌++◌,
  length, ltb, leb, arith, Bool-cases, inl, inr,
}
use armv8_os.Memory.{Mem, Holds}
use armv8_os.Printk.Digits.{rev_digits-fuel, rev_digits}
use armv8_os.Printk.Decimal.{
  finish, trunc4, trunc6, decpair, store16, out_r, put_dec_trunc8, put_dec_full8, hundred_million,
  div_step, put_dec,
}
use armv8_os.Printk.Decimal.Pairs.{quot-div, quot_small-div, decpair_lem}

abbrev pub digit_chars : List ℕ → List ℕ
digit_chars [] = []
digit_chars (d ∷ ds) = (b'0' + d) ∷ digit_chars ds

-- `xs` was written from `buf` on, and nothing else changed but the byte behind it.
pub record Written (m : Mem) (buf : ℕ) (xs : List ℕ) (r : Mem × ℕ) : Type 0 where
  pub end : r.1 ≡ buf + length xs
  pub holds : Holds r.0 buf xs
  pub below : (a : ℕ) → a < buf → r.0 a ≡ m a
  pub above : (a : ℕ) → buf + length xs < a → r.0 a ≡ m a

two_more : (a : ℕ) → suc (suc a) ≡ a + 2
two_more a = omega arith

Written-pair :
    (m : Mem) (buf v x y : ℕ) (xs : List ℕ) (r : Mem × ℕ)
    → v % 256 ≡ x
    → v / 256 % 256 ≡ y
    → Written (store16 m buf v) (buf + 2) xs r
    → Written m buf (x ∷ y ∷ xs) r
unfolding store16
Written-pair m buf v x y xs r lo hi w = record {
  end = omega (arith, w.end);
  holds =
      (ground (arith, w.below buf), (ground (arith, w.below (suc buf)), rw (two_more buf) w.holds));
  below = λ a lt. ground (arith, w.below a);
  above = λ a lt. ground (arith, w.above a);
}

rev_pair :
    (fuel n : ℕ)
    → 100 ≤ n
    → rev_digits 10 (suc (suc fuel)) n ≡ n % 100 % 10 ∷ n % 100 / 10 ∷ rev_digits 10 fuel (n / 100)
unfolding rev_digits
rev_pair fuel n h =
    let e : n / 10 / 10 ≡ n / 100 = omega arith in
    let e1 : n % 10 ≡ n % 100 % 10 = omega arith in
    let e2 : n / 10 % 10 ≡ n % 100 / 10 = omega arith in ground (arith, e, e1, e2)

out_r-Written :
    (fuel : ℕ) (m : Mem) (buf r : ℕ)
    → r < 100
    → Written m buf (digit_chars (rev_digits 10 (suc (suc fuel)) r)) (out_r m buf r)
unfolding out_r store16 rev_digits
out_r-Written fuel m buf r h = elim (Bool-cases (ltb r 10)) [
  | inl one ↦ rw one (record {
    end = omega arith;
    holds = (ground (arith, decpair_lem r), tt);
    below = λ a lt. ground arith;
    above = λ a lt. ground arith;
  })
  | inr two ↦
      let small : ltb (r / 10) 10 ≡ true = ground arith in
      rw (two, small)
        (record {
          end = omega arith;
          holds = (ground (arith, decpair_lem r), (ground (arith, decpair_lem r), tt));
          below = λ a lt. ground arith;
          above = λ a lt. ground arith;
        })
]

-- One step of the chain: a pair, and the rest of the number behind it.
pair-Written :
    (fuel : ℕ) (m : Mem) (buf n : ℕ) (r : Mem × ℕ)
    → 100 ≤ n
    → Written
        (store16 m buf (decpair (n % 100)))
        (buf + 2)
        (digit_chars (rev_digits 10 fuel (n / 100)))
        r
    → Written m buf (digit_chars (rev_digits 10 (suc (suc fuel)) n)) r
pair-Written fuel m buf n r h w =
    let (lo, hi) = decpair_lem (n % 100) (omega arith) in
    rw (rev_pair fuel n h) (
      Written-pair m buf (decpair (n % 100)) (b'0' + n % 100 % 10) (b'0' + n % 100 / 10) _ r lo hi
        w)

trunc4-Written :
    (m : Mem) (buf n : ℕ)
    → n < 10_000
    → Written m buf (digit_chars (rev_digits 10 4 n)) (trunc4 m buf n)
unfolding trunc4
trunc4-Written m buf n h = elim (Bool-cases (ltb n 100)) [
  | inl small ↦ rw small (out_r-Written 2 m buf n (ground arith))
  | inr large ↦
      let (q, r) = quot_small-div n h in
      rw (large, r, q)
        (pair-Written 2 m buf n _ (ground arith)
          (out_r-Written 0 _ (buf + 2) (n / 100) (omega arith)))
]

trunc6-Written :
    (m : Mem) (buf n : ℕ)
    → n < 1_000_000
    → Written m buf (digit_chars (rev_digits 10 6 n)) (trunc6 m buf n)
unfolding trunc6
trunc6-Written m buf n h = elim (Bool-cases (ltb n 100)) [
  | inl small ↦ rw small (out_r-Written 4 m buf n (ground arith))
  | inr large ↦
      let (q, r) = quot-div n (omega arith) in
      rw (large, r, q)
        (pair-Written 4 m buf n _ (ground arith)
          (trunc4-Written _ (buf + 2) (n / 100) (omega arith)))
]

put_dec_trunc8-Written :
    (m : Mem) (buf n : ℕ)
    → n < 100_000_000
    → Written m buf (digit_chars (rev_digits 10 8 n)) (put_dec_trunc8 m buf n)
unfolding put_dec_trunc8
put_dec_trunc8-Written m buf n h = elim (Bool-cases (ltb n 100)) [
  | inl small ↦ rw small (out_r-Written 6 m buf n (ground arith))
  | inr large ↦
      let (q, r) = quot-div n h in
      rw (large, r, q)
        (pair-Written 6 m buf n _ (ground arith)
          (trunc6-Written _ (buf + 2) (n / 100) (omega arith)))
]

-- Eight digits, with leading zeros.
abbrev pub digits : ℕ → ℕ → List ℕ
digits zero n = []
digits (suc k) n = n % 10 ∷ digits k (n / 10)

Written-step :
    (m : Mem) (buf n k : ℕ) (xs : List ℕ) (r : Mem × ℕ)
    → Written
        (store16 m buf (decpair (n % 100)))
        (buf + 2)
        (digit_chars (digits k (n / 100)) ++ xs)
        r
    → Written m buf (digit_chars (digits (suc (suc k)) n) ++ xs) r
Written-step m buf n k xs r w =
    let (lo, hi) = decpair_lem (n % 100) (omega arith) in
    let e : n / 10 / 10 ≡ n / 100 = omega arith in
    rw e (
      Written-pair m buf (decpair (n % 100)) (b'0' + n % 10) (b'0' + n / 10 % 10) _ r
        (omega (arith, lo)) (omega (arith, hi)) w)

-- What follows put_dec_full8 is written behind its eight digits.
put_dec_full8-Written :
    (m : Mem) (buf n : ℕ) (xs : List ℕ) (k : Mem × ℕ → Mem × ℕ)
    → n < 100_000_000
    → ((m' : Mem) → Written m' (buf + 2 + 2 + 2 + 2) xs (k (m', buf + 2 + 2 + 2 + 2)))
    → Written m buf (digit_chars (digits 8 n) ++ xs) (k (put_dec_full8 m buf n))
unfolding put_dec_full8
put_dec_full8-Written m buf n xs k h next =
    let (q, r) = quot-div n h in
    let (q2, r2) = quot-div (n / 100) (omega arith) in
    let (q3, r3) = quot_small-div (n / 100 / 100) (omega arith) in
    let last : n / 100 / 100 / 100 ≡ n / 100 / 100 / 100 % 100 = omega arith in
    rw (r, q, r2, q2, r3, q3)
      (Written-step m buf n 6 xs _ (
        Written-step _ (buf + 2) (n / 100) 4 xs _ (
          Written-step _ (buf + 2 + 2) (n / 100 / 100) 2 xs _ (
            Written-step _ (buf + 2 + 2 + 2) (n / 100 / 100 / 100) 0 xs _ (rw (← last) (next _))))))

-- A number of more than eight digits, split as `do_div` by 10^8 splits it.
digits_mod : (n : ℕ) → digits 8 (n % 100_000_000) ≡ digits 8 n
digits_mod n = ground arith

rev_step : (fuel n : ℕ) → 10 ≤ n → rev_digits 10 (suc fuel) n ≡ n % 10 ∷ rev_digits 10 fuel (n / 10)
unfolding rev_digits
rev_step fuel n h = ground arith

div_eight : (n : ℕ) → n / 10 / 10 / 10 / 10 / 10 / 10 / 10 / 10 ≡ n / 100_000_000
div_eight n = omega arith

rev_eight :
    (fuel n : ℕ)
    → 100_000_000 ≤ n
    → rev_digits 10 (suc (suc (suc (suc (suc (suc (suc (suc fuel)))))))) n
      ≡ digits 8 n ++ rev_digits 10 fuel (n / 100_000_000)
rev_eight fuel n h = rw (
  rev_step (suc (suc (suc (suc (suc (suc (suc fuel))))))) n (omega arith),
  rev_step (suc (suc (suc (suc (suc (suc fuel)))))) (n / 10) (omega arith),
  rev_step (suc (suc (suc (suc (suc fuel))))) ((n / 10) / 10) (omega arith),
  rev_step (suc (suc (suc (suc fuel)))) (((n / 10) / 10) / 10) (omega arith),
  rev_step (suc (suc (suc fuel))) ((((n / 10) / 10) / 10) / 10) (omega arith),
  rev_step (suc (suc fuel)) (((((n / 10) / 10) / 10) / 10) / 10) (omega arith),
  rev_step (suc fuel) ((((((n / 10) / 10) / 10) / 10) / 10) / 10) (omega arith),
  rev_step fuel (((((((n / 10) / 10) / 10) / 10) / 10) / 10) / 10) (omega arith),
  div_eight n,
)

rev_split :
    (fuel n : ℕ)
    → 100_000_000 ≤ n
    → rev_digits 10 (suc (suc (suc (suc (suc (suc (suc (suc fuel)))))))) n
      ≡ digits 8 (n % 100_000_000) ++ rev_digits 10 fuel (n / 100_000_000)
rev_split fuel n h =
    rev_eight fuel n h ∙ ap (λ ds. ds ++ rev_digits 10 fuel (n / 100_000_000)) (sym (digits_mod n))

-- Either step of put_dec, taken or not, before a rest `k` that writes the remaining digits.
module _ (k : (Mem × ℕ) × ℕ → Mem × ℕ) (m : Mem) (buf n : ℕ) where
  div_step-taken :
      (fuel : ℕ)
      → 100_000_000 ≤ n
      → ((m' : Mem)
          → let buf' = buf + 2 + 2 + 2 + 2 in
            Written m' buf'
              (digit_chars (rev_digits 10 fuel (n / 100_000_000)))
              (k ((m', buf'), n / 100_000_000)))
      → Written m buf
          (digit_chars (rev_digits 10 (suc (suc (suc (suc (suc (suc (suc (suc fuel)))))))) n))
          (k (div_step ((m, buf), n)))
  unfolding div_step
  div_step-taken fuel h next =
      let large : leb hundred_million n ≡ true = ground arith in
      rw (large, rev_split fuel n h)
        (put_dec_full8-Written m buf (n % 100_000_000) _ (λ r. k (r, n / 100_000_000)) (omega arith)
          next)

div_step-skipped : (m : Mem) (buf n : ℕ) → n < 100_000_000 → div_step ((m, buf), n) ≡ ((m, buf), n)
unfolding div_step
div_step-skipped m buf n h = ground arith

finish-Written :
    (m : Mem) (buf n : ℕ)
    → n < 100_000_000
    → Written m buf (digit_chars (rev_digits 10 8 n)) (finish ((m, buf), n))
unfolding finish
finish-Written m buf n h =
    let e : n % 2 ^ 32 ≡ n = omega arith in rw e (put_dec_trunc8-Written m buf n h)

one_step-Written :
    (m : Mem) (buf n : ℕ)
    → n < 100_000_000 * 100_000_000
    → Written m buf (digit_chars (rev_digits 10 16 n)) (finish (div_step ((m, buf), n)))
one_step-Written m buf n h = elim (Bool-cases (ltb n 100_000_000)) [
  | inl small ↦
      rw
        (
          div_step-skipped m buf n (ground arith),
          ← rev_digits-fuel 10 (omega arith) 8 16 n (ground arith) (omega arith) (omega arith),
        )
        (finish-Written m buf n (ground arith))
  | inr large ↦
      div_step-taken finish m buf n 8 (ground arith)
        (λ m'. finish-Written m' _ (n / 100_000_000) (omega arith))
]

pub put_dec-Written :
    (m : Mem) (buf n : ℕ)
    → n < 2 ^ 64
    → Written m buf (digit_chars (rev_digits 10 24 n)) (put_dec m buf n)
unfolding put_dec
put_dec-Written m buf n h = elim (Bool-cases (ltb n 100_000_000)) [
  | inl small ↦
      rw
        (
          div_step-skipped m buf n (ground arith),
          ← rev_digits-fuel 10 (omega arith) 16 24 n (ground arith) (omega arith) (omega arith),
        )
        (one_step-Written m buf n (ground arith))
  | inr large ↦
      div_step-taken (λ r. finish (div_step r)) m buf n 16 (ground arith)
        (λ m'. one_step-Written m' _ (n / 100_000_000) (omega arith))
]
