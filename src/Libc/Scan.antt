-- ===== src/Libc/Scan.antt =====
-- strlen, strnlen, memchr, strchr and strrchr of lib/libc/string.c. A search returns the address
-- that it finds, and `none` is NULL. A loop that runs up to the NUL takes fuel; `out` means that
-- the fuel ran out before the loop ended.
pub mod Laws
use armv8_os.Run.{Run, done, out}
use armv8_os.Prelude.{
  ℕ, zero, suc, ◌+◌, ◌-◌, ◌%◌, Bool, true, false, Option, none, some, ◌==◌, if◌then◌else◌,
}
use armv8_os.Memory.{Mem}

strlen_loop : ℕ → Mem → ℕ → Run ℕ
strlen_loop zero m sc = out
strlen_loop (suc fuel) m sc =
    let rest = strlen_loop fuel m (suc sc) in if m sc == 0 then done sc else rest

-- The length is `sc - s`.
unfoldable pub strlen : ℕ → Mem → ℕ → Run ℕ
unfolding strlen_loop
strlen fuel m s = elim (strlen_loop fuel m s) [ done sc ↦ done (sc - s) | out ↦ out ]

-- for (sc = s; count-- && *sc != '\0'; ++sc);
strnlen_loop : ℕ → Mem → ℕ → ℕ
strnlen_loop zero m sc = sc
strnlen_loop (suc count) m sc = if m sc == 0 then sc else strnlen_loop count m (suc sc)

unfoldable pub strnlen : Mem → ℕ → ℕ → ℕ
unfolding strnlen_loop
strnlen m s count = strnlen_loop count m s - s

unfoldable pub memchr : Mem → ℕ → ℕ → ℕ → Option ℕ
memchr m p c zero = none
memchr m p c (suc n) = if c % 256 == m p then some p else memchr m (suc p) c n

unfoldable pub strchr : ℕ → Mem → ℕ → ℕ → Run (Option ℕ)
strchr zero m src ch = out
strchr (suc fuel) m src ch =
    let rest = strchr fuel m (suc src) ch in
    if m src == ch % 256 then done (some src) else if m src == 0 then done none else rest

strrchr_loop : ℕ → Mem → ℕ → ℕ → Option ℕ → Run (Option ℕ)
strrchr_loop zero m s c last = out
strrchr_loop (suc fuel) m s c last =
    let last' : Option ℕ = if m s == c % 256 then some s else last in
    let rest = strrchr_loop fuel m (suc s) c last' in if m s == 0 then done last' else rest

unfoldable pub strrchr : ℕ → Mem → ℕ → ℕ → Run (Option ℕ)
unfolding strrchr_loop
strrchr fuel m s c = strrchr_loop fuel m s c none
