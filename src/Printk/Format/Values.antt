-- ===== src/Printk/Format/Values.antt =====
-- Characters, integers and pointers of vsnprintf in kernel/printk.c: what is printed for one value.
use armv8_os.Prelude.{
  ◌&&◌, bit_or, ltb, ℕ, zero, suc, ◌-◌, ◌%◌, ◌^◌, ◌<◌, ◌≡◌, inl, inr, refl, ap, ◌==◌, if◌then◌else◌,
  ◌∙◌, Bool, true, false, List, [], ◌∷◌, replicate, arith, Bool-cases,
}
use armv8_os.Prelude.Int.{negsuc, ℤ, pos}
use armv8_os.Prelude.Bits.{check_below, checked}
use armv8_os.Memory.{Mem}
use armv8_os.Printk.Spec
use armv8_os.Printk.Spec.{FormatType, PrintfSpec, left_flag, has}
use armv8_os.Printk.Output.{Out, put, pad_gt, emit}
use armv8_os.Printk.Output.Laws.{emit-append, pad_gt-emit}
use armv8_os.Printk.Number.{number, pointer_string, pointer_spec}
use armv8_os.Printk.Number.Laws.{IsSpec, number-emit}
use armv8_os.Printk.Vsnprintf.{pad_field, sign_extend, integer_arg, put_char}
use armv8_os.Printk.Format.{
  number_text, Qualifier, plain, short, byte, long, longlong, big_long, size, ptrdiff,
}
use armv8_os.Printk.Render.{counted_out, counted, pointer_layout, argument, type_of, char_text}

pub emit-one : (end ch : ℕ) (o : Out) → put end ch o ≡ emit end (ch ∷ []) o
unfolding emit
emit-one end ch o = refl

pad_field-emit :
    (end c : ℕ) (w : ℤ) (o : Out) → (pad_field end c w o).0 ≡ emit end (replicate (counted w) c) o
unfolding pad_field
pad_field-emit end c (pos n) o = pad_gt-emit end c (pos n) o
pad_field-emit end c (negsuc k) o = elim (Bool-cases (k == 2 ^ 23 - 1)) [
  | inl least ↦ rw least (pad_gt-emit end c (pos (2 ^ 23)) o)
  | inr more ↦ rw more (pad_gt-emit end c (negsuc k) o)
]

-- The width that the loop leaves.
pad_gt_left :
    (end c n : ℕ) (o : Out) → (pad_gt end c (pos n) o).1 ≡ (if n == 0 then negsuc 0 else pos 0)
unfolding pad_gt
pad_gt_left end c zero o = refl
pad_gt_left end c (suc n) o = ground (arith, pad_gt_left end c n (put end c o))

pad_gt_negative : (end c k : ℕ) (o : Out) → (pad_gt end c (negsuc k) o).1 ≡ negsuc (suc k)
unfolding pad_gt
pad_gt_negative end c k o = refl

pad_field_left : (end c : ℕ) (w : ℤ) (o : Out) → (pad_field end c w o).1 ≡ counted_out w
unfolding pad_field
pad_field_left end c (pos n) o = pad_gt_left end c n o
pad_field_left end c (negsuc k) o = elim (Bool-cases (k == 2 ^ 23 - 1)) [
  | inl least ↦ rw least (pad_gt_left end c (2 ^ 23) o)
  | inr more ↦ rw more (pad_gt_negative end c k o)
]

pub put_char-emit :
    (end w : ℕ) (spec : PrintfSpec) (o : Out)
    → (put_char end w spec o).0 ≡ emit end (char_text spec (w % 2 ^ 8)) o
unfolding put_char emit
put_char-emit end w spec o = elim (Bool-cases (has left_flag spec.flags)) [
  | inl left ↦ rw (left) (pad_field-emit end b' ' spec.field_width (put end (w % 2 ^ 8) o))
  | inr right ↦
      let padded : Out × ℤ = pad_field end b' ' spec.field_width o in
      let e = pad_field_left end b' ' spec.field_width o in
      let behind = pad_field-emit end b' ' padded.1 (put end (w % 2 ^ 8) padded.0) in
      let spaces : List ℕ = replicate (counted (counted_out spec.field_width)) b' ' in
      rw right (
        behind
        ∙ rw
            (
              e,
              pad_field-emit end b' ' spec.field_width o,
              emit-append end (replicate (counted spec.field_width) b' ') (w % 2 ^ 8 ∷ spaces) o,
            )
            refl)
]

-- The integer is the argument, read in the type that the qualifier says.
pub argument_lem :
    (q : Qualifier) (signed : Bool) (w : ℕ) → integer_arg (type_of q signed) w ≡ argument q signed w
unfolding integer_arg sign_extend
argument_lem plain true w = ground arith
argument_lem short true w = ground arith
argument_lem byte true w = ground arith
argument_lem long true w = ground arith
argument_lem longlong true w = ground arith
argument_lem big_long true w = ground arith
argument_lem size true w = ground arith
argument_lem ptrdiff true w = ground arith
argument_lem plain false w = ground arith
argument_lem short false w = ground arith
argument_lem byte false w = ground arith
argument_lem long false w = ground arith
argument_lem longlong false w = ground arith
argument_lem big_long false w = ground arith
argument_lem size false w = ground arith
argument_lem ptrdiff false w = ground arith

pointer_layout_lem : (spec : PrintfSpec) → pointer_spec spec ≡ pointer_layout spec
unfolding pointer_spec
pointer_layout_lem spec =
    elim spec.field_width
      as (λ w.
        pointer_spec (record spec { field_width = w })
        ≡ pointer_layout (record spec { field_width = w })) [
          | pos n ↦ refl
          | negsuc zero ↦ refl
          | negsuc (suc n) ↦ refl
        ]

pub integer_arg-lt : (kind : FormatType) (w : ℕ) → integer_arg kind w < 2 ^ 64
unfolding integer_arg sign_extend
integer_arg-lt Spec.long_long w = omega arith
integer_arg-lt _ w = ground arith

pointer_table :
    check_below 256 (λ a. ltb (bit_or a 32) 256 && ltb (bit_or (bit_or a 32) 16) 256) ≡ true
unfolding check_below
pointer_table = refl

pointer_spec-IsSpec : (spec : PrintfSpec) → spec.flags < 256 → IsSpec (pointer_spec spec)
unfolding pointer_spec
pointer_spec-IsSpec spec small =
    let t = checked _ 256 small pointer_table in
    record { byte = ground (arith, t); base = inr (inr (ground arith)) }

pub pointer_string-emit :
    (stack : Mem) (end ptr : ℕ) (spec : PrintfSpec) (o : Out)
    → spec.flags < 256
    → ptr < 2 ^ 64
    → pointer_string stack end ptr spec o ≡ emit end (number_text ptr (pointer_layout spec)) o
unfolding pointer_string number
pointer_string-emit stack end ptr spec o small h =
    number-emit stack end ptr (pointer_spec spec) (pointer_spec-IsSpec spec small) h o
    ∙ ap (λ spec. emit end (number_text ptr spec) o) (pointer_layout_lem spec)
