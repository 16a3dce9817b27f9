-- ===== src/Checks/Printk.antt =====
-- Runs and examples of kernel/printk.c.
use armv8_os.Run.{Run, done, out, Ends}
use armv8_os.Ctype.{isdigit, fast_tolower}
use armv8_os.Libc.Block.{memcpy, copy_up}
use armv8_os.Printk.Decode.{
  format_decode, from_start, skip_text, flag_loop, flag_of, from_width, from_precision,
  from_qualifier, conversion, decode_as, integer_type, qualifier,
}
use armv8_os.Printk.Vsnprintf.{
  vsnprintf, format_loop, round, convert, copy_text, limits, integer_arg, sign_extend, terminate,
}
use armv8_os.Printk.Vsnprintf.Laws.{first_state, Formatted, vsnprintf-Formatted}
use armv8_os.Memory.{Mem, patch}
use armv8_os.Prelude.{◌+◌, map, ℕ, ◌-◌, ◌≡◌, refl, inl, inr, List, [], ◌∷◌, min, get_or, arith}
use armv8_os.Prelude.Int.{ℤ, pos, negsuc, ◌-ℤ◌}
use armv8_os.Printk.Spec
use armv8_os.Printk.Spec.{PrintfSpec, has}
use armv8_os.Printk.Digits.{rev_digits}
use armv8_os.Printk.Decimal.{
  put_dec, decpair, div_step, finish, out_r, put_dec_trunc8, quot, quot_small, rest, store16,
  trunc4, trunc6,
}
use armv8_os.Printk.Decimal.Laws.{digit_chars, Written}
use armv8_os.Printk.Decimal.Value.{IsDecimal, put_dec-IsDecimal}
use armv8_os.Printk.Output.{Out, emit, pad_ge, pad_gt, pad_zeros, put, put_tmp}
use armv8_os.Printk.Output.Laws.{emit-mem}
use armv8_os.Printk.Number.{
  number, drop_zeropad, hex_digit, prefix_width, print_number, put_prefix, put_sign, take_sign,
  to_tmp,
}
use armv8_os.Printk.Number.Layout.{number_text}
use armv8_os.Printk.Number.Laws.{IsSpec, number-emit}
use armv8_os.Printk.Str.{string, string_loop, widen_string}
use armv8_os.Printk.Str.Laws.{string-emit, string_text}
use armv8_os.Checks.Data.{text_at, blank, abc}

abbrev screen : Out
screen = record { mem = text_at 10 abc; cur = 100 }

abbrev five_wide : PrintfSpec
five_wide = record {
  kind = Spec.int;
  field_width = pos 5;
  flags = 1;
  base = 10;
  precision = negsuc 0;
}

five_wide-IsSpec : IsSpec five_wide
five_wide-IsSpec = record { byte = omega arith; base = inr (inl refl) }

put_dec-IsDecimal_example :
    (ds : List ℕ) × IsDecimal 12345678901 ds
    × Written blank 0 (digit_chars ds) (put_dec blank 0 12345678901)
put_dec-IsDecimal_example = put_dec-IsDecimal blank 0 12345678901 (omega arith)

emit-mem_example :
    (emit 102 abc screen).mem 102
    ≡ patch screen.mem 100 (min 3 (102 - 100)) (λ i. get_or abc i 0) 102
emit-mem_example = emit-mem 102 abc screen 102

number-emit_example :
    number blank 200 42 five_wide screen ≡ emit 200 (number_text 42 five_wide) screen
number-emit_example = number-emit blank 200 42 five_wide five_wide-IsSpec (omega arith) screen

-- A number of two digits is printed to a width of five with two spaces, not three.
five_wide_text : number_text 42 five_wide ≡ b' ' ∷ b' ' ∷ b'4' ∷ b'2' ∷ []
unfolding number_text rev_digits has
five_wide_text = refl

string-emit_example :
    string 5 200 10 five_wide screen ≡ done (emit 200 (string_text five_wide abc) screen)
string-emit_example =
    string-emit 5 200 10 five_wide screen abc (omega arith) (inr (omega arith)) (omega arith)

-- "n=%d %s" behind the buffer; every argument is the address of "abc".
abbrev session : Mem
session = text_at 200 (b'n' ∷ b'=' ∷ b'%' ∷ b'd' ∷ b' ' ∷ b'%' ∷ b's' ∷ 0 ∷ b'a' ∷ b'b' ∷ b'c' ∷ [])

vsnprintf-Formatted_example :
    let looped = format_loop 20 blank (100 + 8) (λ _. 208) 20 (first_state session 100 200) in
    Ends (Formatted session 100 8 looped) (vsnprintf 20 blank session 100 8 200 (λ _. 208))
vsnprintf-Formatted_example =
    vsnprintf-Formatted 20 blank session 100 8 200 207 (λ _. 208) (omega arith) refl
      (inr (omega arith)) (omega arith) (omega arith)
      (λ _. record {
        nul = 211;
        behind = omega arith;
        near = omega arith;
        holds = refl;
        apart = inr (omega arith);
      })

-- The text is cut to seven characters and a NUL, and the whole length is returned.
shown : Run (Mem × ℤ) → List ℕ × ℤ
shown (done (m, n)) = (map (λ i. m (100 + i)) (0 ∷ 1 ∷ 2 ∷ 3 ∷ 4 ∷ 5 ∷ 6 ∷ 7 ∷ 8 ∷ []), n)
shown out = ([], pos 0)

session_text :
    shown (vsnprintf 20 blank session 100 8 200 (λ _. 208))
    ≡ (b'n' ∷ b'=' ∷ b'2' ∷ b'0' ∷ b'8' ∷ b' ' ∷ b'a' ∷ 0 ∷ 0 ∷ [], pos 9)
unfolding shown vsnprintf format_loop round format_decode from_start skip_text convert copy_text
    limits memcpy flag_loop flag_of from_width isdigit from_precision from_qualifier fast_tolower
    copy_up ◌-ℤ◌ decpair div_step finish out_r put_dec put_dec_trunc8 quot quot_small rest store16
    trunc4 trunc6 conversion decode_as integer_type qualifier drop_zeropad hex_digit number
    prefix_width print_number put_prefix put_sign take_sign to_tmp pad_ge pad_gt pad_zeros put
    put_tmp has string string_loop widen_string integer_arg sign_extend terminate
session_text = refl
