-- ===== src/Gicv3/Enabled.antt =====
-- Which interrupt lines the controller of driver/interrupt/gicv3/gicv3.c forwards after a trace: the
-- architecture says that a one written to a set-enable register enables a line, a one to a
-- clear-enable register disables it, and zeros and all other accesses change nothing.
use native.Mathlib.Nat.{mul-div_cancel}
use armv8_os.Prelude.{
  ℕ, zero, suc, ◌+◌, ◌*◌, ◌/◌, ◌%◌, ◌^◌, ◌<◌, ◌≤◌, ◌≡◌, ◌⊎◌, refl, ◌∙◌, Bool, true, false, ltb, leb,
  ◌==◌, ◌&&◌, if◌then◌else◌, [], ◌∷◌, arith,
}
use armv8_os.Prelude.Bits.{check_below, checked}
use armv8_os.Prelude.Bitwise.{bit}
use armv8_os.Io.{Event, Trace, Bus, writel}
use armv8_os.Gicv3.{fill, fill_priority}

-- The distributor at `gicd`, the frame of the banked lines at `sgi`; before the trace, `start`.
module _ (gicd sgi : ℕ) where
  abbrev pub set_reg : ℕ → ℕ
  set_reg irq = (if ltb irq 32 then sgi else gicd) + 0x100 + irq / 32 * 4

  abbrev pub clear_reg : ℕ → ℕ
  clear_reg irq = (if ltb irq 32 then sgi else gicd) + 0x180 + irq / 32 * 4

  abbrev pub effect : Event → ℕ → Bool → Bool
  effect (Event.write width addr val) irq before =
      if (addr == set_reg irq) && (bit val (irq % 32) == 1)
      then true
      else (if (addr == clear_reg irq) && (bit val (irq % 32) == 1) then false else before)
  effect _ irq before = before

  abbrev pub enabled : (start : ℕ → Bool) → Trace → ℕ → Bool
  enabled start [] irq = start irq
  enabled start (e ∷ t) irq = effect e irq (enabled start t irq)

-- A word with one bit set.
one_bit_table :
    check_below 32 (λ a. check_below 32 (λ b. bit (2 ^ a % 2 ^ 32) b == (if a == b then 1 else 0)))
    ≡ true
unfolding check_below
one_bit_table = refl

pub one_bit : (a b : ℕ) → a < 32 → b < 32 → bit (2 ^ a % 2 ^ 32) b ≡ (if a == b then 1 else 0)
one_bit a b ha hb =
    let row =
      checked (λ x. check_below 32 (λ y. bit (2 ^ x % 2 ^ 32) y == (if x == y then 1 else 0))) 32 ha
        one_bit_table in
    let cell = checked (λ y. bit (2 ^ a % 2 ^ 32) y == (if a == y then 1 else 0)) 32 hb row in
    ground (arith, cell)

all_ones_table : check_below 32 (λ b. bit (0xffffffff % 2 ^ 32) b == 1) ≡ true
unfolding check_below
all_ones_table = refl

pub all_ones : (b : ℕ) → b < 32 → bit (0xffffffff % 2 ^ 32) b ≡ 1
all_ones b h = ground (arith, checked _ 32 h all_ones_table)

halves_table :
    check_below 32 (λ b.
      (bit (0xffff0000 % 2 ^ 32) b == (if ltb b 16 then 0 else 1))
      && (bit (0x0000ffff % 2 ^ 32) b == (if ltb b 16 then 1 else 0)))
    ≡ true
unfolding check_below
halves_table = refl

pub halves :
    (b : ℕ)
    → b < 32
    → (bit (0xffff0000 % 2 ^ 32) b ≡ (if ltb b 16 then 0 else 1))
      × (bit (0x0000ffff % 2 ^ 32) b ≡ (if ltb b 16 then 1 else 0))
halves b h = ground (arith, checked _ 32 h halves_table)

-- The frames do not overlap; the registers of each lie in its first 64 KiB.
pub record Frames (gicd sgi : ℕ) : Type 0 where
  pub apart : (gicd + 2 ^ 16 ≤ sgi) ⊎ (sgi + 2 ^ 16 ≤ gicd)

-- The addresses from `lo` to `hi` hold no enable register.
pub record Quiet (gicd sgi lo hi : ℕ) : Type 0 where
  pub off_gicd : (hi ≤ gicd + 0x100) ⊎ (gicd + 0x200 ≤ lo)
  pub off_sgi : (hi ≤ sgi + 0x100) ⊎ (sgi + 0x200 ≤ lo)

module _ {gicd sgi : ℕ} (start : ℕ → Bool) (irq : ℕ) (valid : irq < 1024) where
  pub write-Quiet :
      (lo hi : ℕ) (val addr : ℕ) (t : Trace)
      → Quiet gicd sgi lo hi
      → lo ≤ addr
      → addr < hi
      → enabled gicd sgi start (writel val addr t) irq ≡ enabled gicd sgi start t irq
  write-Quiet lo hi val addr t q low high = ground (arith, q.off_gicd, q.off_sgi)

  pub fill-Quiet :
      (lo hi : ℕ) (rounds n per val reg : ℕ) (t : Trace)
      → Quiet gicd sgi lo hi
      → 0 < per
      → lo ≤ reg + n * 4
      → reg + n * 4 + rounds * 4 ≤ hi
      → enabled gicd sgi start (fill rounds (n * per) per val reg t) irq
        ≡ enabled gicd sgi start t irq
  unfolding fill
  fill-Quiet lo hi zero n per val reg t q p low high = refl
  fill-Quiet lo hi (suc rounds) n per val reg t q p low high =
      let next : n * per + per ≡ suc n * per = omega arith in
      let place : n * per / per ≡ n = mul-div_cancel n p in
      let one = write-Quiet lo hi val (reg + n * 4) t q low (omega arith) in
      rw (next, place)
        (fill-Quiet lo hi rounds (suc n) per val reg (writel val (reg + n * 4) t) q p (omega arith)
            (omega arith)
          ∙ one)

  write-disables :
      (n : ℕ) (t : Trace)
      → Frames gicd sgi
      → 0 < n
      → n < 32
      → enabled gicd sgi start (writel 0xffffffff (gicd + 0x180 + n * 4) t) irq
        ≡ (if irq / 32 == n then false else enabled gicd sgi start t irq)
  write-disables n t f p h = ground (arith, f.apart, all_ones (irq % 32))

  pub fill_priority-Quiet :
      (bus : Bus) (lo hi : ℕ) (rounds n reg : ℕ) (t : Trace)
      → Quiet gicd sgi lo hi
      → lo ≤ reg + n * 4
      → reg + n * 4 + rounds * 4 ≤ hi
      → enabled gicd sgi start (fill_priority bus rounds (n * 4) reg t) irq
        ≡ enabled gicd sgi start t irq
  unfolding fill_priority
  fill_priority-Quiet bus lo hi zero n reg t q low high = refl
  fill_priority-Quiet bus lo hi (suc rounds) n reg t q low high =
      let next : n * 4 + 4 ≡ suc n * 4 = omega arith in
      let place : n * 4 / 4 ≡ n = omega arith in
      let one = write-Quiet lo hi 0xa0a0a0a0 (reg + n * 4) t q low (omega arith) in
      rw (next, place)
        (fill_priority-Quiet bus lo hi rounds (suc n) reg _ q (omega arith) (omega arith) ∙ one)

  -- A whole word of lines is disabled in every round.
  pub fill-disables :
      (rounds n : ℕ) (t : Trace)
      → Frames gicd sgi
      → 0 < n
      → n + rounds ≤ 32
      → enabled gicd sgi start (fill rounds (n * 32) 32 0xffffffff (gicd + 0x180) t) irq ≡ (
          if leb (n * 32) irq && ltb irq ((n + rounds) * 32)
          then false
          else enabled gicd sgi start t irq)
  unfolding fill
  fill-disables zero n t f p h = ground arith
  fill-disables (suc rounds) n t f p h =
      let next : n * 32 + 32 ≡ suc n * 32 = omega arith in
      let place : n * 32 / 32 ≡ n = omega arith in
      let one = write-disables n t f p (omega arith) in
      rw (next, place)
        (fill-disables rounds (suc n) (writel 0xffffffff (gicd + 0x180 + n * 4) t) f (omega arith)
            (omega arith)
          ∙ ground (arith, one))
