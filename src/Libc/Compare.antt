-- ===== src/Libc/Compare.antt =====
-- strcmp, strncmp, memcmp, strstr and strnsrt of lib/libc/string.c. The loops that run up to a NUL
-- take fuel.
pub mod Order
pub mod Find
use armv8_os.Run.{Run, done, out}
use armv8_os.Prelude.{
  ℕ, zero, suc, ◌+◌, Bool, true, false, Option, none, some, ◌==◌, ltb, if◌then◌else◌,
}
use armv8_os.Prelude.Int.{ℤ, pos, negsuc, sub_ℕ}
use armv8_os.Memory.{Mem}
use armv8_os.Libc.Scan.{strlen}

-- c1 < c2 ? 1 : -1
abbrev pub differ : ℕ → ℕ → ℤ
differ c1 c2 = if ltb c1 c2 then pos 1 else negsuc 0

unfoldable pub strcmp : ℕ → Mem → ℕ → ℕ → Run ℤ
strcmp zero m cs ct = out
strcmp (suc fuel) m cs ct =
    let rest = strcmp fuel m (suc cs) (suc ct) in
    if m cs == m ct then (if m cs == 0 then done (pos 0) else rest) else done (differ (m cs) (m ct))

unfoldable pub strncmp : Mem → ℕ → ℕ → ℕ → ℤ
strncmp m cs ct zero = pos 0
strncmp m cs ct (suc count) =
    if m cs == m ct
    then (if m cs == 0 then pos 0 else strncmp m (suc cs) (suc ct) count)
    else differ (m cs) (m ct)

-- The difference of the first two bytes that differ.
unfoldable pub memcmp : Mem → ℕ → ℕ → ℕ → ℤ
memcmp m su1 su2 zero = pos 0
memcmp m su1 su2 (suc count) =
    if m su1 == m su2 then memcmp m (suc su1) (suc su2) count else sub_ℕ (m su1) (m su2)

abbrev pub is_zero : ℤ → Bool
is_zero (pos n) = n == 0
is_zero (negsuc n) = false

-- while (l1 >= l2) { l1--; if (!memcmp(s1, s2, l2)) return s1; s1++; } with `l2` not 0.
find_loop : ℕ → Mem → ℕ → ℕ → ℕ → Option ℕ
find_loop zero m s1 s2 l2 = none
find_loop (suc l1) m s1 s2 l2 =
    if ltb (suc l1) l2
    then none
    else (if is_zero (memcmp m s1 s2 l2) then some s1 else find_loop l1 m (suc s1) s2 l2)

unfoldable pub strstr : ℕ → Mem → ℕ → ℕ → Run (Option ℕ)
unfolding find_loop
strstr fuel m s1 s2 = elim (strlen fuel m s2) [
  | out ↦ out
  | done l2 ↦
      if l2 == 0
      then done (some s1)
      else (elim (strlen fuel m s1) [ out ↦ out | done l1 ↦ done (find_loop l1 m s1 s2 l2) ])
]

unfoldable pub strnsrt : ℕ → Mem → ℕ → ℕ → ℕ → Run (Option ℕ)
unfolding find_loop
strnsrt fuel m s1 s2 len = elim (strlen fuel m s2) [
  | out ↦ out
  | done l2 ↦ if l2 == 0 then done (some s1) else done (find_loop len m s1 s2 l2)
]
