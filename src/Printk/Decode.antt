-- ===== src/Printk/Decode.antt =====
-- skip_atoi and format_decode of kernel/printk.c. A format is read from memory at an address; the
-- loops over it take fuel. The result is the address behind what was read, with the specification.
pub mod Progress
use armv8_os.Run.{Run, done, out, ◌>>=◌}
use armv8_os.Prelude.{
  ℕ, zero, suc, ◌+◌, ◌-◌, ◌*◌, ◌%◌, ◌^◌, ◌||◌, ◌==◌, ltb, if◌then◌else◌, Option, none, some, bit_or,
}
use armv8_os.Prelude.Int.{ℤ, pos, negsuc}
use armv8_os.Memory.{Mem}
use armv8_os.Ctype.{isdigit, fast_tolower}
use armv8_os.Printk.Spec
use armv8_os.Printk.Spec.{
  FormatType, PrintfSpec, sign_flag, left_flag, plus_flag, space_flag, zeropad_flag, small_flag,
  special_flag, has,
}

-- The value that a signed bit field of `suc bits` bits holds after an assignment.
abbrev pub to_signed : ℕ → ℕ → ℤ
to_signed bits n =
    if ltb (n % 2 ^ suc bits) (2 ^ bits)
    then pos (n % 2 ^ suc bits)
    else negsuc (2 ^ suc bits - n % 2 ^ suc bits - 1)

-- do { i = i * 10 + *((*s)++) - '0'; } while (isdigit(**s)); The low bits of `i` that its users keep
-- do not depend on an overflow.
unfoldable pub skip_atoi : ℕ → Mem → ℕ → ℕ → Run (ℕ × ℕ)
skip_atoi zero m s i = out
skip_atoi (suc fuel) m s i =
    let i' = i * 10 + m s - b'0' in
    let rest = skip_atoi fuel m (suc s) i' in if isdigit (m (suc s)) then rest else done (i', suc s)

-- for (; *fmt; ++fmt) if (*fmt == '%') break;
unfoldable pub skip_text : ℕ → Mem → ℕ → Run ℕ
skip_text zero m fmt = out
skip_text (suc fuel) m fmt =
    let rest = skip_text fuel m (suc fmt) in
    if (m fmt == 0) || (m fmt == b'%') then done fmt else rest

unfoldable pub flag_of : ℕ → Option ℕ
flag_of c =
    if c == b'-'
    then some left_flag
    else (if c == b'+'
        then some plus_flag
        else (if c == b' '
            then some space_flag
            else (if c == b'#'
                then some special_flag
                else (if c == b'0' then some zeropad_flag else none))))

-- The loop over the flags: `fmt` stands before the character that is looked at.
unfoldable pub flag_loop : ℕ → Mem → ℕ → ℕ → Run (ℕ × ℕ)
flag_loop zero m fmt flags = out
flag_loop (suc fuel) m fmt flags = elim (flag_of (m (suc fmt))) [
  | some f ↦ flag_loop fuel m (suc fmt) (bit_or flags f)
  | none ↦ done (flags, suc fmt)
]

-- The qualifier, with hh as H and ll as L.
unfoldable pub qualifier : Mem → ℕ → ℕ × ℕ
qualifier m fmt =
    let c = m fmt in
    if (c == b'h') || (fast_tolower c == b'l') || (c == b'z') || (c == b't')
    then (if c == m (suc fmt)
        then (if c == b'l'
            then (b'L', suc (suc fmt))
            else (if c == b'h' then (b'H', suc (suc fmt)) else (c, suc fmt)))
        else (c, suc fmt))
    else (0, fmt)

abbrev signed_or : FormatType → FormatType → ℕ → FormatType
signed_or plain signed flags = if has sign_flag flags then signed else plain

-- The type of an integer, from the qualifier and the sign flag.
unfoldable pub integer_type : ℕ → ℕ → FormatType
integer_type q flags =
    if q == b'L'
    then Spec.long_long
    else (if q == b'l'
        then signed_or Spec.ulong Spec.long flags
        else (if q == b'z'
            then Spec.size_t
            else (if q == b'H'
                then signed_or Spec.ubyte Spec.byte flags
                else (if q == b'h'
                    then signed_or Spec.ushort Spec.short flags
                    else signed_or Spec.uint Spec.int flags))))

abbrev integer : ℕ → ℕ → ℕ → ℕ → PrintfSpec → ℕ × PrintfSpec
integer q fmt base flags spec =
    (suc fmt, record spec { base = base; flags = flags; kind = integer_type q flags })

-- The conversion character.
unfoldable pub conversion : Mem → ℕ → ℕ → PrintfSpec → ℕ × PrintfSpec
conversion m q fmt s =
    let spec : PrintfSpec = record s { base = 10 } in
    let c = m fmt in
    if c == b'c'
    then (suc fmt, record spec { kind = Spec.char })
    else (if c == b's'
        then (suc fmt, record spec { kind = Spec.str })
        else (if c == b'p'
            then (suc fmt, record spec { kind = Spec.ptr })
            else (if c == b'%'
                then (suc fmt, record spec { kind = Spec.percent_char })
                else (if c == b'o'
                    then integer q fmt 8 spec.flags spec
                    else (if c == b'x'
                        then integer q fmt 16 (bit_or spec.flags small_flag) spec
                        else (if c == b'X'
                            then integer q fmt 16 spec.flags spec
                            else (if (c == b'd') || (c == b'i')
                                then integer q fmt 10 (bit_or spec.flags sign_flag) spec
                                else (if c == b'u'
                                    then integer q fmt 10 spec.flags spec
                                    else (fmt, record spec { kind = Spec.invalid })))))))))

-- From the label `qualifier` on.
unfoldable pub from_qualifier : Mem → ℕ → PrintfSpec → ℕ × PrintfSpec
from_qualifier m fmt spec = let (q, fmt') = qualifier m fmt in conversion m q fmt' spec

abbrev pub not_negative : ℤ → ℤ
not_negative (pos n) = pos n
not_negative (negsuc n) = pos 0

-- From the label `precision` on.
unfoldable pub from_precision : ℕ → Mem → ℕ → PrintfSpec → Run (ℕ × PrintfSpec)
from_precision fuel m fmt s =
    let spec : PrintfSpec = record s { precision = negsuc 0 } in
    if m fmt == b'.'
    then (if isdigit (m (suc fmt))
        then (skip_atoi fuel m (suc fmt) 0 >>= λ (i, fmt').
            done
              (from_qualifier m fmt' (record spec { precision = not_negative (to_signed 15 i) })))
        else (if m (suc fmt) == b'*'
            then done (suc (suc fmt), record spec { kind = Spec.precision })
            else done (from_qualifier m (suc fmt) spec)))
    else done (from_qualifier m fmt spec)

-- After the % and the flags: the width.
unfoldable pub from_width : ℕ → Mem → ℕ → PrintfSpec → Run (ℕ × PrintfSpec)
from_width fuel m fmt s =
    let spec : PrintfSpec = record s { field_width = negsuc 0 } in
    if isdigit (m fmt)
    then (skip_atoi fuel m fmt 0 >>= λ (i, fmt').
        from_precision fuel m fmt' (record spec { field_width = to_signed 23 i }))
    else (if m fmt == b'*'
        then done (suc fmt, record spec { kind = Spec.width })
        else from_precision fuel m fmt spec)

-- A call that starts with no width or precision pending. A text in front of the % is returned alone.
unfoldable pub from_start : ℕ → Mem → ℕ → PrintfSpec → Run (ℕ × PrintfSpec)
from_start fuel m start s =
    let spec : PrintfSpec = record s { kind = Spec.none } in
    skip_text fuel m start >>= λ fmt.
    if ltb start fmt || (m fmt == 0)
    then done (fmt, spec)
    else (flag_loop fuel m fmt 0 >>= λ (flags, fmt').
        from_width fuel m fmt' (record spec { flags = flags }))

-- A negative width from the arguments means LEFT.
unfoldable pub absorb_width : PrintfSpec → PrintfSpec
absorb_width spec = elim spec.field_width [
  | negsuc n ↦ record spec {
    field_width = to_signed 23 (suc n);
    flags = bit_or spec.flags left_flag;
    kind = Spec.none;
  }
  | pos n ↦ record spec { kind = Spec.none }
]

unfoldable pub decode_as : FormatType → ℕ → Mem → ℕ → PrintfSpec → Run (ℕ × PrintfSpec)
decode_as Spec.width fuel m fmt spec = from_precision fuel m fmt (absorb_width spec)
decode_as Spec.precision fuel m fmt spec = done (
    from_qualifier m fmt
      (record spec { precision = not_negative spec.precision; kind = Spec.none }))
decode_as _ fuel m fmt spec = from_start fuel m fmt spec

unfoldable pub format_decode : ℕ → Mem → ℕ → PrintfSpec → Run (ℕ × PrintfSpec)
unfolding decode_as
format_decode fuel m fmt spec = decode_as spec.kind fuel m fmt spec
