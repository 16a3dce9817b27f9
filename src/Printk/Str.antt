-- ===== src/Printk/Str.antt =====
-- move_right, widen_string and string of kernel/printk.c, over memset and memmove of
-- lib/libc/string.c.
pub mod Keep
pub mod Widen
pub mod Laws
use armv8_os.Run.{Run, done, out}
use armv8_os.Prelude.{ℕ, zero, suc, ◌+◌, ◌-◌, Bool, ◌==◌, ltb, leb, if◌then◌else◌}
use armv8_os.Prelude.Int.{ℤ, pos, negsuc, ltb_ℤ, pos_part}
use armv8_os.Memory.{Mem}
use armv8_os.Libc.Block.{memmove, memset}
use armv8_os.Printk.Spec.{PrintfSpec, left_flag, has}
use armv8_os.Printk.Output.{Out, put}

unfoldable pub move_right : Mem → (buf end len spaces : ℕ) → Mem
move_right m buf end len spaces =
    if leb end buf
    then m
    else (let size = end - buf in
        if leb size spaces
        then memset m buf b' ' size
        else (let len' : ℕ = if ltb (size - spaces) len then size - spaces else len in
            memset (if len == 0 then m else memmove m (buf + spaces) buf len') buf b' ' spaces))

-- while (spaces--) put ' '
unfoldable pub put_spaces : ℕ → ℕ → Out → Out
put_spaces end zero o = o
put_spaces end (suc spaces) o = put_spaces end spaces (put end b' ' o)

-- `n` characters were put last.
unfoldable pub widen_string : ℕ → ℕ → PrintfSpec → Out → Out
widen_string n end spec o =
    if ltb_ℤ spec.field_width (pos n)
    then o
    else (let spaces = pos_part spec.field_width - n in
        if has left_flag spec.flags
        then put_spaces end spaces o
        else record { mem = move_right o.mem (o.cur - n) end n spaces; cur = o.cur + spaces })

-- while (lim--) { c = *s++; if (!c) break; put c; ++len; }, from a `lim` that is not 0.
unfoldable pub string_loop : ℕ → ℕ → ℕ → ℤ → ℕ → Out → Run (Out × ℕ)
string_loop zero end s lim len o = out
string_loop (suc fuel) end s (pos zero) len o = done (o, len)
string_loop (suc fuel) end s (pos (suc n)) len o =
    let rest = string_loop fuel end (suc s) (pos n) (suc len) (put end (o.mem s) o) in
    if o.mem s == 0 then done (o, len) else rest
string_loop (suc fuel) end s (negsuc n) len o =
    let rest = string_loop fuel end (suc s) (negsuc (suc n)) (suc len) (put end (o.mem s) o) in
    if o.mem s == 0 then done (o, len) else rest

unfoldable pub string : ℕ → ℕ → ℕ → PrintfSpec → Out → Run Out
string fuel end s spec o = elim (string_loop fuel end s spec.precision 0 o) [
  | out ↦ out
  | done (o', len) ↦ done (widen_string len end spec o')
]
