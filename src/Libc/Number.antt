-- ===== src/Libc/Number.antt =====
-- strtoul of lib/libc/string.c. The loop takes fuel; the result is the value and the address that
-- is stored in `*endp`. `unsigned long` has 64 bits and wraps.
pub mod Digits
use armv8_os.Run.{Run, done, out}
use armv8_os.Prelude.{ℕ, zero, suc, ◌+◌, ◌-◌, ◌*◌, ◌%◌, ◌^◌, Bool, ◌&&◌, ◌==◌, ltb, if◌then◌else◌}
use armv8_os.Memory.{Mem}
use armv8_os.Ctype.{isxdigit, isdigit, tolower}

-- isdigit(*cp) ? *cp - '0' : tolower(*cp) - 'a' + 10
unfoldable pub digit_value : ℕ → ℕ
unfolding isdigit tolower
digit_value c = if isdigit c then c - b'0' else tolower c - b'a' + 10

strtoul_loop : ℕ → Mem → ℕ → ℕ → ℕ → Run (ℕ × ℕ)
unfolding isxdigit digit_value
strtoul_loop zero m cp base result = out
strtoul_loop (suc fuel) m cp base result =
    let rest = strtoul_loop fuel m (suc cp) base ((result * base + digit_value (m cp)) % 2 ^ 64) in
    if isxdigit (m cp)
    then (if ltb base (digit_value (m cp)) then done (result, cp) else rest)
    else done (result, cp)

-- A leading 0x is skipped in base 16.
hex_prefix : Mem → ℕ → ℕ → Bool
unfolding tolower
hex_prefix m cp base = base == 16 && m cp == b'0' && tolower (m (suc cp)) == b'x'

unfoldable pub strtoul : ℕ → Mem → ℕ → ℕ → Run (ℕ × ℕ)
unfolding strtoul_loop hex_prefix
strtoul fuel m cp base =
    let base' : ℕ = if base == 0 then 10 else base in
    strtoul_loop fuel m (if hex_prefix m cp base' then suc (suc cp) else cp) base' 0
