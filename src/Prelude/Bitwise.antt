-- ===== src/Prelude/Bitwise.antt =====
-- The laws of `&` and `|` on the native numbers that the drivers' masks need. Both follow from one
-- recursion on the binary digits, so they are proved for any operation on digits.
use Prim.Native.Nat.{digits, bit_and-bitwise, bit_or-bitwise}
use native.Mathlib.Nat.{pow-succ', div-div-eq-div-mul, div-one, one-le-pow, mul_left_comm}
use armv8_os.Prelude.{
  ℕ, zero, suc, ◌+◌, ◌*◌, ◌-◌, ◌/◌, ◌%◌, ◌^◌, ◌<◌, ◌≤◌, ◌≡◌, refl, ap, ◌∙◌, min, max, bit_and,
  bit_or, arith,
}

-- The digit of `n` at place `j`.
abbrev pub bit : ℕ → ℕ → ℕ
bit n j = n / 2 ^ j % 2

module _ (z : ℕ → ℕ) (f : ℕ → ℕ → ℕ) where
  enough : (n m a b : ℕ) → a ≤ n → a ≤ m → digits z f n a b ≡ digits z f m a b
  enough zero zero zero b p q = refl
  enough zero (suc m) zero b p q = refl
  enough (suc n) zero zero b p q = refl
  enough (suc n) (suc m) zero b p q = refl
  enough zero m (suc a) b p q = absurd (omega arith)
  enough (suc n) zero (suc a) b p q = absurd (omega arith)
  enough (suc n) (suc m) (suc a) b p q =
      let half = enough n m (suc a / 2) (b / 2) (omega arith) (omega arith) in
      ap (λ (t : ℕ). t * 2 + f (suc a % 2) (b % 2)) half

-- `op` works digit by digit, by `f`.
record Digitwise (op : ℕ → ℕ → ℕ) (f : ℕ → ℕ → ℕ) : Type 0 where
  step : (a b : ℕ) → op a b ≡ op (a / 2) (b / 2) * 2 + f (a % 2) (b % 2)
  at_zero : op 0 0 ≡ 0
  small : (x y : ℕ) → x < 2 → y < 2 → f x y < 2

bit-suc : (n j : ℕ) → bit n (suc j) ≡ bit (n / 2) j
bit-suc n j = rw (div-div-eq-div-mul n 2 (2 ^ j), pow-succ' 2 j) refl

module _ {op : ℕ → ℕ → ℕ} {f : ℕ → ℕ → ℕ} (d : Digitwise op f) where
  -- Fields that do not overlap go their own ways.
  fields :
      (k q p x y : ℕ)
      → x < 2 ^ k
      → y < 2 ^ k
      → op (q * 2 ^ k + x) (p * 2 ^ k + y) ≡ op q p * 2 ^ k + op x y
  fields zero q p x y hx hy =
      let x0 : x ≡ 0 = omega arith in
      let y0 : y ≡ 0 = omega arith in
      let qq : q * 2 ^ 0 + x ≡ q = omega arith in
      let pp : p * 2 ^ 0 + y ≡ p = omega arith in rw (qq, pp, x0, y0, d.at_zero) (omega arith)
  fields (suc k) q p x y hx hy =
      let qs = ap (λ (t : ℕ). q * t) (pow-succ' 2 k) ∙ mul_left_comm q 2 (2 ^ k) in
      let ps = ap (λ (t : ℕ). p * t) (pow-succ' 2 k) ∙ mul_left_comm p 2 (2 ^ k) in
      let os = ap (λ (t : ℕ). op q p * t) (pow-succ' 2 k) ∙ mul_left_comm (op q p) 2 (2 ^ k) in
      let a2 : (q * 2 ^ suc k + x) / 2 ≡ q * 2 ^ k + x / 2 = omega (arith, qs) in
      let b2 : (p * 2 ^ suc k + y) / 2 ≡ p * 2 ^ k + y / 2 = omega (arith, ps) in
      let a1 : (q * 2 ^ suc k + x) % 2 ≡ x % 2 = omega (arith, qs) in
      let b1 : (p * 2 ^ suc k + y) % 2 ≡ y % 2 = omega (arith, ps) in
      let hx' : x / 2 < 2 ^ k = omega (arith, pow-succ' 2 k) in
      let hy' : y / 2 < 2 ^ k = omega (arith, pow-succ' 2 k) in
      let ih = fields k q p (x / 2) (y / 2) hx' hy' in
      d.step (q * 2 ^ suc k + x) (p * 2 ^ suc k + y)
      ∙ rw (a2, b2, a1, b1) (omega (arith, ih, os, d.step x y))

  digit : (a b j : ℕ) → bit (op a b) j ≡ f (bit a j) (bit b j)
  digit a b zero =
      let s = d.step a b in
      let small = d.small (a % 2) (b % 2) (omega arith) (omega arith) in
      rw (div-one, div-one, div-one) (omega (arith, s, small))
  digit a b (suc j) =
      let s = d.step a b in
      let small = d.small (a % 2) (b % 2) (omega arith) (omega arith) in
      let half : op a b / 2 ≡ op (a / 2) (b / 2) = omega (arith, s, small) in
      rw (bit-suc (op a b) j, bit-suc a j, bit-suc b j, half) (digit (a / 2) (b / 2) j)

or_digits : Digitwise bit_or max
or_digits = record { step = or_step; at_zero = refl; small = λ x y p q. omega arith }
  where
    or_step : (a b : ℕ) → bit_or a b ≡ bit_or (a / 2) (b / 2) * 2 + max (a % 2) (b % 2)
    or_step zero b =
        let e : max 0 (b % 2) ≡ b % 2 = omega arith in
        omega (arith, bit_or-bitwise 0 b, bit_or-bitwise 0 (b / 2))
    or_step (suc a) b =
        let half =
          enough (λ b. b) max a (suc a / 2) (suc a / 2) (b / 2) (omega arith) (omega arith) in
        omega (arith, bit_or-bitwise (suc a) b, bit_or-bitwise (suc a / 2) (b / 2), half)

and_digits : Digitwise bit_and min
and_digits = record { step = and_step; at_zero = refl; small = λ x y p q. omega arith }
  where
    and_step : (a b : ℕ) → bit_and a b ≡ bit_and (a / 2) (b / 2) * 2 + min (a % 2) (b % 2)
    and_step zero b = omega (arith, bit_and-bitwise 0 b, bit_and-bitwise 0 (b / 2))
    and_step (suc a) b =
        let half =
          enough (λ b. 0) min a (suc a / 2) (suc a / 2) (b / 2) (omega arith) (omega arith) in
        omega (arith, bit_and-bitwise (suc a) b, bit_and-bitwise (suc a / 2) (b / 2), half)

pub bit-bit_or : (a b j : ℕ) → bit (bit_or a b) j ≡ max (bit a j) (bit b j)
bit-bit_or = digit or_digits

pub bit-bit_and : (a b j : ℕ) → bit (bit_and a b) j ≡ min (bit a j) (bit b j)
bit-bit_and = digit and_digits

pub bit_or-zero : (a : ℕ) → bit_or a 0 ≡ a
bit_or-zero a = below a a (omega arith)
  where
    below : (n a : ℕ) → a ≤ n → bit_or a 0 ≡ a
    below n zero h = refl
    below zero (suc a) h = absurd (omega arith)
    below (suc n) (suc a) h =
        omega (arith, (or_digits).step (suc a) 0, below n (suc a / 2) (omega arith))

bit_and-zero : (a : ℕ) → bit_and a 0 ≡ 0
bit_and-zero a = below a a (omega arith)
  where
    below : (n a : ℕ) → a ≤ n → bit_and a 0 ≡ 0
    below n zero h = refl
    below zero (suc a) h = absurd (omega arith)
    below (suc n) (suc a) h =
        omega (arith, (and_digits).step (suc a) 0, below n (suc a / 2) (omega arith))

pub bit_or_fields :
    (k q p x y : ℕ)
    → x < 2 ^ k
    → y < 2 ^ k
    → bit_or (q * 2 ^ k + x) (p * 2 ^ k + y) ≡ bit_or q p * 2 ^ k + bit_or x y
bit_or_fields = fields or_digits

-- `|` with low bits leaves a high part alone.
pub bit_or_high :
    (k q x y : ℕ) → x < 2 ^ k → y < 2 ^ k → bit_or (q * 2 ^ k + x) y ≡ q * 2 ^ k + bit_or x y
bit_or_high k q x y hx hy =
    let low : y ≡ 0 * 2 ^ k + y = omega arith in
    ap (bit_or (q * 2 ^ k + x)) low
    ∙ fields or_digits k q 0 x y hx hy
    ∙ ap (λ (t : ℕ). t * 2 ^ k + bit_or x y) (bit_or-zero q)

pub bit_or_base : (k q y : ℕ) → y < 2 ^ k → bit_or (q * 2 ^ k) y ≡ q * 2 ^ k + y
bit_or_base k q y hy =
    let start : q * 2 ^ k ≡ q * 2 ^ k + 0 = omega arith in
    ap (λ (t : ℕ). bit_or t y) start
    ∙ bit_or_high k q 0 y (omega (arith, one-le-pow k 2)) hy
    ∙ ap (λ (t : ℕ). q * 2 ^ k + t) (bit_or-bitwise 0 y)

-- `&` with `k` ones.
pub bit_and_ones : (k x : ℕ) → x < 2 ^ k → bit_and x (2 ^ k - 1) ≡ x
bit_and_ones zero x h = ground arith
bit_and_ones (suc k) x h =
    let ones : (2 ^ suc k - 1) / 2 ≡ 2 ^ k - 1 = omega (arith, pow-succ' 2 k, one-le-pow k 2) in
    let one : (2 ^ suc k - 1) % 2 ≡ 1 = omega (arith, pow-succ' 2 k, one-le-pow k 2) in
    let ih = bit_and_ones k (x / 2) (omega (arith, pow-succ' 2 k)) in
    and_digits.step x (2 ^ suc k - 1) ∙ rw (ones, one) (omega (arith, ih))

-- `&` with ones from place `k` on clears the places below.
pub bit_and_high :
    (k n q x : ℕ)
    → q < 2 ^ n
    → x < 2 ^ k
    → bit_and (q * 2 ^ k + x) ((2 ^ n - 1) * 2 ^ k) ≡ q * 2 ^ k
bit_and_high k n q x hq hx =
    let mask : (2 ^ n - 1) * 2 ^ k ≡ (2 ^ n - 1) * 2 ^ k + 0 = omega arith in
    let none : bit_and x 0 ≡ 0 = bit_and-zero x in
    ap (bit_and (q * 2 ^ k + x)) mask
    ∙ fields and_digits k q (2 ^ n - 1) x 0 hx (omega (arith, one-le-pow k 2))
    ∙ rw (bit_and_ones n q hq, none) (omega arith)

-- The low bits of a word.
pub bit_and_mask : (k a : ℕ) → bit_and a (2 ^ k - 1) ≡ a % 2 ^ k
bit_and_mask k a =
    let positive = one-le-pow k 2 in
    let split : a ≡ a / 2 ^ k * 2 ^ k + a % 2 ^ k = omega arith in
    let small : a % 2 ^ k < 2 ^ k = omega (arith, positive) in
    let high : 2 ^ k - 1 ≡ 0 * 2 ^ k + (2 ^ k - 1) = omega arith in
    ap (λ (t : ℕ). bit_and t (2 ^ k - 1)) split
    ∙ ap (bit_and (a / 2 ^ k * 2 ^ k + a % 2 ^ k)) high
    ∙ fields and_digits k (a / 2 ^ k) 0 (a % 2 ^ k) (2 ^ k - 1) small (omega (arith, positive))
    ∙ rw (bit_and-zero (a / 2 ^ k), bit_and_ones k (a % 2 ^ k) small) (omega arith)

-- One bit of a word.
pub bit_and-bit : (k a : ℕ) → bit_and a (2 ^ k) ≡ bit a k * 2 ^ k
bit_and-bit k a =
    let positive = one-le-pow k 2 in
    let split : a ≡ a / 2 ^ k * 2 ^ k + a % 2 ^ k = omega arith in
    let one : 2 ^ k ≡ 1 * 2 ^ k + 0 = omega arith in
    let small : a % 2 ^ k < 2 ^ k = omega (arith, positive) in
    ap (λ (t : ℕ). bit_and t (2 ^ k)) split
    ∙ ap (bit_and (a / 2 ^ k * 2 ^ k + a % 2 ^ k)) one
    ∙ fields and_digits k (a / 2 ^ k) 1 (a % 2 ^ k) 0 small (omega (arith, positive))
    ∙ rw (bit_and_mask 1 (a / 2 ^ k), bit_and-zero (a % 2 ^ k)) (omega arith)
