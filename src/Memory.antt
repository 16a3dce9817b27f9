-- ===== src/Memory.antt =====
-- Byte-addressed memory: the machine runs the kernel in one flat address space, so a memory is a
-- function from addresses to bytes, and a pointer is an address.
use armv8_os.Prelude.{
  ℕ, suc, ◌+◌, ◌-◌, ◌≡◌, ◌≢◌, List, [], ◌∷◌, ◌&&◌, ltb, leb, ◌==◌, if◌then◌else◌,
}

abbrev pub Mem : Type 0
Mem = ℕ → ℕ

-- `*a = v` on a byte.
abbrev pub store : Mem → ℕ → ℕ → Mem
store m a v x = if x == a then v else m x

-- `m` with the `n` bytes from `d` on replaced by the values of `f`.
abbrev pub patch : Mem → ℕ → ℕ → (ℕ → ℕ) → Mem
patch m d n f a = if leb d a && ltb a (d + n) then f (a - d) else m a

-- The bytes `xs` stand at `s`, none of them is NUL, and a NUL follows.
abbrev pub IsString : Mem → ℕ → List ℕ → Type 0
IsString m s [] = m s ≡ 0
IsString m s (x ∷ xs) = (m s ≡ x) × (x ≢ 0) × IsString m (suc s) xs

-- The bytes `xs` stand at `s`.
abbrev pub Holds : Mem → ℕ → List ℕ → Type 0
Holds m s [] = Unit
Holds m s (x ∷ xs) = (m s ≡ x) × Holds m (suc s) xs
