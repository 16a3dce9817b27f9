-- ===== src/Printk/Vsnprintf.antt =====
-- vsnprintf, vsprintf, snprintf and sprintf of kernel/printk.c. `args` is the argument area of the
-- va_list, a 64-bit word for each argument, and `fuel` bounds every loop over the format and over
-- the strings. `stack` is what the buffer of `number` holds when it is called.
pub mod Laws
use armv8_os.Run.{Run, done, out, ◌>>=◌}
use armv8_os.Prelude.{ℕ, zero, suc, ◌+◌, ◌-◌, ◌%◌, ◌^◌, ◌==◌, ltb, if◌then◌else◌}
use armv8_os.Prelude.Int.{negsuc, ℤ, pos}
use armv8_os.Memory.{Mem, store}
use armv8_os.Ctype.{isalnum}
use armv8_os.Libc.Block.{memcpy}
use armv8_os.Printk.Spec
use armv8_os.Printk.Spec.{FormatType, PrintfSpec, left_flag, has}
use armv8_os.Printk.Decode.{to_signed, format_decode}
use armv8_os.Printk.Output.{Out, put, pad_gt}
use armv8_os.Printk.Number.{number, pointer_string}
use armv8_os.Printk.Str.{string}

-- The variables of the loop: the format pointer, the output, the specification and the number of
-- arguments that were taken.
pub record State : Type 0 where
  pub fmt : ℕ
  pub str : Out
  pub spec : PrintfSpec
  pub taken : ℕ

-- Sign extension of the low `suc bits` bits to 64 bits.
unfoldable pub sign_extend : ℕ → ℕ → ℕ
sign_extend bits w =
    if ltb (w % 2 ^ suc bits) (2 ^ bits)
    then w % 2 ^ suc bits
    else w % 2 ^ suc bits + 2 ^ 64 - 2 ^ suc bits

-- The integer that va_arg and the casts give for each type.
unfoldable pub integer_arg : FormatType → ℕ → ℕ
integer_arg Spec.long_long w = w % 2 ^ 64
integer_arg Spec.ulong w = w % 2 ^ 64
integer_arg Spec.long w = w % 2 ^ 64
integer_arg Spec.size_t w = w % 2 ^ 64
integer_arg Spec.ubyte w = w % 2 ^ 8
integer_arg Spec.byte w = sign_extend 7 w
integer_arg Spec.ushort w = w % 2 ^ 16
integer_arg Spec.short w = sign_extend 15 w
integer_arg Spec.int w = sign_extend 31 w
integer_arg _ w = w % 2 ^ 32

-- FORMAT_TYPE_NONE: the text is copied as far as it fits.
unfoldable pub copy_text : ℕ → ℕ → ℕ → Out → Out
copy_text end old_fmt read o = record {
  mem =
      if ltb o.cur end
      then memcpy o.mem o.cur old_fmt (if ltb (end - o.cur) read then end - o.cur else read)
      else o.mem;
  cur = o.cur + read;
}

-- while (--spec.field_width > 0) put c, on the signed bit field of 24 bits: -2^23 wraps, as 2^23 would
-- be decremented.
unfoldable pub pad_field : ℕ → ℕ → ℤ → Out → Out × ℤ
pad_field end c (pos n) o = pad_gt end c (pos n) o
pad_field end c (negsuc k) o =
    if k == 2 ^ 23 - 1 then pad_gt end c (pos (2 ^ 23)) o else pad_gt end c (negsuc k) o

-- FORMAT_TYPE_CHAR, with the width that is left.
unfoldable pub put_char : ℕ → ℕ → PrintfSpec → Out → Out × ℤ
put_char end w spec o =
    let (o1, width) =
      if has left_flag spec.flags
      then (o, spec.field_width)
      else pad_field end b' ' spec.field_width o in
    pad_field end b' ' width (put end (w % 2 ^ 8) o1)

-- while (isalnum(*fmt)) fmt++;
unfoldable pub skip_alnum : ℕ → Mem → ℕ → Run ℕ
skip_alnum zero m fmt = out
skip_alnum (suc fuel) m fmt =
    let rest = skip_alnum fuel m (suc fmt) in if isalnum (m fmt) then rest else done fmt

-- The way on after one specification.
pub data Next : Type 0 where
  again : State → Next
  stop : Out → Next

module _ (fuel : ℕ) (stack : Mem) (end : ℕ) (args : ℕ → ℕ) where
  -- The switch on `spec.type`, behind `read` characters of the format.
  unfoldable pub convert : FormatType → ℕ → State → Run Next
  convert Spec.none old_fmt s =
      done (again (record s { str = copy_text end old_fmt (s.fmt - old_fmt) s.str }))
  convert Spec.width old_fmt s = done (
      again (record s {
        spec = record (s.spec) { field_width = to_signed 23 (args s.taken) };
        taken = suc s.taken;
      }))
  convert Spec.precision old_fmt s = done (
      again (record s {
        spec = record (s.spec) { precision = to_signed 15 (args s.taken) };
        taken = suc s.taken;
      }))
  convert Spec.char old_fmt s =
      let (o, width) = put_char end (args s.taken) s.spec s.str in
      done (
        again (record s {
          str = o;
          spec = record (s.spec) { field_width = width };
          taken = suc s.taken;
        }))
  convert Spec.str old_fmt s = string fuel end (args s.taken) s.spec s.str >>= λ o.
      done (again (record s { str = o; taken = suc s.taken }))
  convert Spec.ptr old_fmt s =
      let o = pointer_string stack end (args s.taken % 2 ^ 64) s.spec s.str in
      skip_alnum fuel o.mem s.fmt >>= λ fmt.
      done (again (record s { fmt = fmt; str = o; taken = suc s.taken }))
  convert Spec.percent_char old_fmt s = done (again (record s { str = put end b'%' s.str }))
  convert Spec.invalid old_fmt s = done (stop s.str)
  convert kind old_fmt s = done (
      again (record s {
        str = number stack end (integer_arg kind (args s.taken)) s.spec s.str;
        taken = suc s.taken;
      }))

  -- One round of the loop.
  unfoldable pub round : State → Run Next
  round s = format_decode fuel (s.str.mem) s.fmt s.spec >>= λ (fmt, spec).
      convert spec.kind s.fmt (record s { fmt = fmt; spec = spec })

  -- while (*fmt)
  unfoldable pub format_loop : ℕ → State → Run Out
  format_loop zero s = out
  format_loop (suc rounds) s =
      let rest = round s >>= λ n. elim n [ again s' ↦ format_loop rounds s' | stop o ↦ done o ] in
      if s.str.mem s.fmt == 0 then done s.str else rest

-- The terminating NUL, and the length that would have been written, as an int.
unfoldable pub terminate : ℕ → ℕ → ℕ → Out → Mem × ℤ
terminate buf end size o = (
  if size == 0
      then o.mem
      else (if ltb o.cur end then store o.mem o.cur 0 else store o.mem (end - 1) 0),
  to_signed 31 (o.cur - buf),
)

abbrev pub zero_spec : PrintfSpec
zero_spec = record { kind = Spec.none; field_width = pos 0; flags = 0; base = 0; precision = pos 0 }

-- if (end < buf) { end = (void *)-1; size = end - buf; }
unfoldable pub limits : ℕ → ℕ → ℕ × ℕ
limits buf size =
    let end = (buf + size) % 2 ^ 64 in
    if ltb end buf then (2 ^ 64 - 1, 2 ^ 64 - 1 - buf) else (end, size)

unfoldable pub vsnprintf : ℕ → Mem → Mem → (buf size fmt : ℕ) → (ℕ → ℕ) → Run (Mem × ℤ)
vsnprintf fuel stack m buf size fmt args =
    let (end, size') = limits buf size in
    format_loop fuel stack end args fuel
      (record { fmt = fmt; str = record { mem = m; cur = buf }; spec = zero_spec; taken = 0 })
    >>= λ o. done (terminate buf end size' o)

unfoldable pub vsprintf : ℕ → Mem → Mem → (buf fmt : ℕ) → (ℕ → ℕ) → Run (Mem × ℤ)
unfolding vsnprintf
vsprintf fuel stack m buf fmt args = vsnprintf fuel stack m buf 0xFFFFFFFF fmt args

-- The variadic functions: va_start makes `args` of the arguments behind the format.
unfoldable pub sprintf : ℕ → Mem → Mem → (buf fmt : ℕ) → (ℕ → ℕ) → Run (Mem × ℤ)
unfolding vsprintf
sprintf fuel stack m buf fmt args = vsprintf fuel stack m buf fmt args

unfoldable pub snprintf : ℕ → Mem → Mem → (buf size fmt : ℕ) → (ℕ → ℕ) → Run (Mem × ℤ)
unfolding vsnprintf
snprintf fuel stack m buf size fmt args = vsnprintf fuel stack m buf size fmt args
