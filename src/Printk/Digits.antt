-- ===== src/Printk/Digits.antt =====
-- Positional numerals, least significant digit first: what the digits that kernel/printk.c leaves in
-- its buffers stand for.
use native.Mathlib.Nat.{
  div-add-mod, pow-suc, pow-zero, div-lt_iff_lt-mul, le-div_iff_mul-le, mod-lt,
}
use armv8_os.Prelude.{
  ℕ, zero, suc, ◌+◌, ◌*◌, ◌/◌, ◌%◌, ◌^◌, ◌<◌, ◌≡◌, ◌≤◌, ap, List, [], ◌∷◌, ltb, if◌then◌else◌,
  length, arith, Bool-cases, inl, inr,
}

-- The digits of `n`, with fuel for as many of them.
unfoldable pub rev_digits : ℕ → ℕ → ℕ → List ℕ
rev_digits base zero n = []
rev_digits base (suc fuel) n =
    if ltb n base then n ∷ [] else (n % base) ∷ rev_digits base fuel (n / base)

abbrev pub rev_value : ℕ → List ℕ → ℕ
rev_value base [] = 0
rev_value base (d ∷ ds) = d + base * rev_value base ds

abbrev pub AllBelow : ℕ → List ℕ → Type 0
AllBelow base [] = Unit
AllBelow base (d ∷ ds) = (d < base) × AllBelow base ds

-- The most significant digit.
abbrev pub top : List ℕ → ℕ
top [] = 0
top (d ∷ []) = d
top (d ∷ e ∷ ds) = top (e ∷ ds)

top-cons : (d : ℕ) (ds : List ℕ) → 0 < top ds → 0 < top (d ∷ ds)
top-cons d [] h = absurd (omega arith)
top-cons d (e ∷ ds) h = h

module _ (base : ℕ) (two : 2 ≤ base) where
  div_fits : (fuel n : ℕ) → n < base ^ suc fuel → n / base < base ^ fuel
  div_fits fuel n h = (div-lt_iff_lt-mul (omega arith)).1 (rw (← pow-suc base fuel) h)

  pub div_pos : {n : ℕ} → base ≤ n → 0 < n / base
  div_pos {n} h = (le-div_iff_mul-le {k = base} {x = 1} {y = n} (omega arith)).1 (omega arith)

  -- The fuel suffices when it bounds the number of digits.
  pub rev_value-rev_digits :
      (fuel n : ℕ) → n < base ^ fuel → rev_value base (rev_digits base fuel n) ≡ n
  unfolding rev_digits
  rev_value-rev_digits zero n h = omega (arith, pow-zero base)
  rev_value-rev_digits (suc fuel) n h = ground (
    arith,
    ap (λ (t : ℕ). base * t) (rev_value-rev_digits fuel (n / base) (div_fits fuel n h)),
    div-add-mod n base,
  )

  pub rev_digits-AllBelow : (fuel n : ℕ) → AllBelow base (rev_digits base fuel n)
  unfolding rev_digits
  rev_digits-AllBelow zero n = tt
  rev_digits-AllBelow (suc fuel) n =
      ground (arith, mod-lt n {m = base} (omega arith), rev_digits-AllBelow fuel (n / base))

  pub top-rev_digits : (fuel n : ℕ) → 0 < n → n < base ^ fuel → 0 < top (rev_digits base fuel n)
  unfolding rev_digits
  top-rev_digits zero n p h = absurd (omega (arith, pow-zero base))
  top-rev_digits (suc fuel) n p h = elim (Bool-cases (ltb n base)) [
    | inl small ↦ rw small p
    | inr large ↦ rw large (
        top-cons (n % base) (rev_digits base fuel (n / base))
          (top-rev_digits fuel (n / base) (div_pos (ground arith)) (div_fits fuel n h)))
  ]

  -- More fuel than there are digits changes nothing.
  pub rev_digits-fuel :
      (fuel more n : ℕ)
      → n < base ^ fuel
      → fuel ≤ more
      → 0 < fuel
      → rev_digits base fuel n ≡ rev_digits base more n
  unfolding rev_digits
  rev_digits-fuel zero more n h le p = absurd (omega arith)
  rev_digits-fuel (suc fuel) zero n h le p = absurd (omega arith)
  rev_digits-fuel (suc zero) (suc more) n h le p = ground (arith, pow-suc base 0, pow-zero base)
  rev_digits-fuel (suc (suc fuel)) (suc more) n h le p = rw (
      rev_digits-fuel (suc fuel) more (n / base) (div_fits (suc fuel) n h) (omega arith)
        (omega arith))

pub length-rev_digits : (base fuel n : ℕ) → length (rev_digits base fuel n) ≤ fuel
unfolding rev_digits
length-rev_digits base zero n = omega arith
length-rev_digits base (suc fuel) n = ground (arith, length-rev_digits base fuel (n / base))
