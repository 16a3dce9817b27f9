-- ===== src/Prelude/Bits.antt =====
-- A test on small numbers, run on each of them.
use armv8_os.Prelude.{ℕ, zero, suc, ◌<◌, ◌≡◌, Bool, true, false, if◌then◌else◌, arith}

-- `p` holds of `n - 1` down to 0.
unfoldable pub check_below : ℕ → (ℕ → Bool) → Bool
check_below zero p = true
check_below (suc n) p = if p n then check_below n p else false

module _ (p : ℕ → Bool) {x : ℕ} where
  pub checked : (n : ℕ) → x < n → check_below n p ≡ true → p x ≡ true
  unfolding check_below
  checked zero below all = elim below [ ]
  checked (suc n) below all = ground (arith, checked n)
