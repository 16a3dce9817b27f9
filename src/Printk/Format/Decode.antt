-- ===== src/Printk/Format/Decode.antt =====
-- format_decode of kernel/printk.c reads what the grammar of formats writes.
use armv8_os.Run.{done}
use armv8_os.Prelude.{
  ℕ, zero, suc, ◌+◌, ◌*◌, ◌%◌, ◌<◌, ◌≡◌, ◌==◌, ◌&&◌, ◌||◌, refl, ap, ◌∙◌, Bool, true, false, List,
  [], ◌∷◌, ◌++◌, Option, none, some, length, bit_or, arith, ltb, not,
}
use armv8_os.Prelude.Bits.{check_below, checked}
use armv8_os.Memory.{Mem, IsString}
use armv8_os.Ctype.{isdigit, fast_tolower}
use armv8_os.Libc.Number.Digits.{chars, value}
use armv8_os.Printk.Spec.{PrintfSpec, sign_flag, has}
use armv8_os.Printk.Decode.{
  skip_atoi, flag_of, flag_loop, qualifier, integer_type, conversion, from_qualifier,
}
use armv8_os.Printk.Format.{
  Flag, minus, plus, space, hash, nought, Amount, absent, digits, star, Qualifier, plain, short,
  byte, long, longlong, big_long, size, ptrdiff, Conversion, char, percent, octal, hex, big_hex,
  decimal, integer, unsigned, string, pointer, flag_char, flag_chars, amount_chars, precision_chars,
  qualifier_chars, conversion_char, ending_chars, IsNumeral, IsWidth, first_of,
}
use armv8_os.Printk.Render.{flag_bit, flag_bits, more_flags, base_of, kind_of, type_of}

-- What the flags come to before a conversion: SIGN is not among them.
abbrev pub IsFlags : ℕ → Type 0
IsFlags flags = (flags < 128) × (flags % 2 ≡ 0)

flag_table :
    (f : Flag)
    → check_below 128 (λ a.
      (not (a % 2 == 0)) || ((ltb (bit_or a (flag_bit f)) 128) && (bit_or a (flag_bit f) % 2 == 0)))
      ≡ true
unfolding check_below
flag_table minus = refl
flag_table plus = refl
flag_table space = refl
flag_table hash = refl
flag_table nought = refl

pub flag_bit-IsFlags : (f : Flag) (flags : ℕ) → IsFlags flags → IsFlags (bit_or flags (flag_bit f))
flag_bit-IsFlags f flags h = ground (arith, checked _ 128 h.0 (flag_table f))

pub flag_bits-IsFlags : (fs : List Flag) (flags : ℕ) → IsFlags flags → IsFlags (flag_bits flags fs)
flag_bits-IsFlags [] flags h = h
flag_bits-IsFlags (f ∷ fs) flags h = flag_bits-IsFlags fs _ (flag_bit-IsFlags f flags h)

sign_table :
    check_below 128 (λ a.
      (has sign_flag (bit_or a 1) && (ltb (bit_or a 1) 128))
      && ((ltb (bit_or a 32) 128)
          && ((not (a % 2 == 0))
              || ((not (has sign_flag a)) && (not (has sign_flag (bit_or a 32)))))))
    ≡ true
unfolding check_below has
sign_table = refl

sign_lem :
    (a : ℕ)
    → IsFlags a
    → (has sign_flag (bit_or a 1) ≡ true)
      × (bit_or a 1 < 128)
      × (bit_or a 32 < 128)
      × (has sign_flag a ≡ false)
      × (has sign_flag (bit_or a 32) ≡ false)
sign_lem a h = ground (arith, checked _ 128 h.0 sign_table)

pub more_flags-lt : (v : Conversion) (a : ℕ) → IsFlags a → more_flags v a < 128
more_flags-lt hex a h = (sign_lem a h).2
more_flags-lt decimal a h = (sign_lem a h).1
more_flags-lt integer a h = (sign_lem a h).1
more_flags-lt _ a h = h.0

-- The qualifier as the code keeps it.
abbrev qualifier_code : Qualifier → ℕ
qualifier_code plain = 0
qualifier_code short = b'h'
qualifier_code byte = b'H'
qualifier_code long = b'l'
qualifier_code longlong = b'L'
qualifier_code big_long = b'L'
qualifier_code size = b'z'
qualifier_code ptrdiff = b't'

integer_type_lem :
    (q : Qualifier) (flags : ℕ) (signed : Bool)
    → has sign_flag flags ≡ signed
    → integer_type (qualifier_code q) flags ≡ type_of q signed
unfolding integer_type
integer_type_lem plain flags signed e = rw e
integer_type_lem short flags signed e = rw e
integer_type_lem byte flags signed e = rw e
integer_type_lem long flags signed e = rw e
integer_type_lem longlong flags signed e = refl
integer_type_lem big_long flags signed e = refl
integer_type_lem size flags signed e = refl
integer_type_lem ptrdiff flags signed e = rw e

-- The specification behind a conversion.
abbrev pub finished : Qualifier → Conversion → PrintfSpec → PrintfSpec
finished q v s = record s { kind = kind_of q v; flags = more_flags v s.flags; base = base_of v }

flag_of_char : (x : Flag) → flag_of (flag_char x) ≡ some (flag_bit x)
unfolding flag_of
flag_of_char minus = refl
flag_of_char _ = refl

-- The first character of a directive from its qualifier on, from its precision on, and from its width on
-- ends what stands before it.
pub ending_first :
    (q : Qualifier) (v : Conversion) (rest : List ℕ)
    → let c = first_of (ending_chars q v rest) in
      (isdigit c ≡ false) × ((c == b'.') ≡ false) × ((c == b'*') ≡ false) × (flag_of c ≡ none)
unfolding isdigit flag_of
ending_first plain char rest = (refl, refl, refl, refl)
ending_first plain _ rest = (refl, refl, refl, refl)
ending_first short v rest = (refl, refl, refl, refl)
ending_first _ v rest = (refl, refl, refl, refl)

pub precision_first :
    (p : Option Amount) (q : Qualifier) (v : Conversion) (rest : List ℕ)
    → let c = first_of (precision_chars p ++ ending_chars q v rest) in
      (isdigit c ≡ false) × ((c == b'*') ≡ false) × (flag_of c ≡ none)
unfolding isdigit flag_of
precision_first none q v rest = let e = ending_first q v rest in (e.0, e.2, e.3)
precision_first (some a) q v rest = (refl, refl, refl)

pub width_first :
    (w : Amount) (p : Option Amount) (q : Qualifier) (v : Conversion) (rest : List ℕ)
    → IsWidth w
    → flag_of (first_of (amount_chars w ++ (precision_chars p ++ ending_chars q v rest))) ≡ none
unfolding flag_of
width_first absent p q v rest h = (precision_first p q v rest).2
width_first star p q v rest h = refl
width_first (digits []) p q v rest h = absurd h.1
width_first (digits (d ∷ [])) p q v rest h = ground arith
width_first (digits (d ∷ e ∷ ds)) p q v rest h = ground arith

pub numeral_first :
    (ds tail : List ℕ) → IsNumeral ds → isdigit (first_of (chars false ds ++ tail)) ≡ true
unfolding isdigit
numeral_first [] tail n = absurd n
numeral_first (d ∷ []) tail n = ground arith
numeral_first (d ∷ e ∷ ds) tail n = ground arith

-- The character of a conversion is none of a qualifier.
differs :
    (v : Conversion)
    → ((b'h' == conversion_char v) ≡ false)
      × ((b'l' == conversion_char v) ≡ false)
      × ((b'L' == conversion_char v) ≡ false)
      × ((b'z' == conversion_char v) ≡ false)
      × ((b't' == conversion_char v) ≡ false)
differs char = (refl, refl, refl, refl, refl)
differs _ = (refl, refl, refl, refl, refl)

module _ (m : Mem) where
  conversion_lem :
      (q : Qualifier) (v : Conversion) (f : ℕ) (s : PrintfSpec)
      → m f ≡ conversion_char v
      → IsFlags s.flags
      → conversion m (qualifier_code q) f s ≡ (suc f, finished q v s)
  unfolding conversion
  conversion_lem q char f s e h = rw e
  conversion_lem q percent f s e h = rw e
  conversion_lem q (string xs) f s e h = rw e
  conversion_lem q (pointer ext) f s e h = rw e
  conversion_lem q octal f s e h = rw (e, integer_type_lem q _ _ (sign_lem s.flags h).3)
  conversion_lem q hex f s e h = rw (e, integer_type_lem q _ _ (sign_lem s.flags h).4)
  conversion_lem q big_hex f s e h = rw (e, integer_type_lem q _ _ (sign_lem s.flags h).3)
  conversion_lem q unsigned f s e h = rw (e, integer_type_lem q _ _ (sign_lem s.flags h).3)
  conversion_lem q decimal f s e h = rw (e, integer_type_lem q _ _ (sign_lem s.flags h).0)
  conversion_lem q integer f s e h = rw (e, integer_type_lem q _ _ (sign_lem s.flags h).0)

  unqualified : (v : Conversion) (f : ℕ) → m f ≡ conversion_char v → qualifier m f ≡ (0, f)
  unfolding qualifier fast_tolower
  unqualified char f e = rw e
  unqualified _ f e = rw e

  qualifier_lem :
      (q : Qualifier) (v : Conversion) (f : ℕ) (rest : List ℕ)
      → IsString m f (qualifier_chars q ++ conversion_char v ∷ rest)
      → qualifier m f ≡ (qualifier_code q, f + length (qualifier_chars q))
  unfolding qualifier fast_tolower
  qualifier_lem plain v f rest h = unqualified v f h.0 ∙ ap (λ k. (0, k)) (omega arith)
  qualifier_lem short v f rest h =
      rw (h.0, h.2.0, (differs v).0) (ap (λ k. (b'h', k)) (omega arith))
  qualifier_lem byte v f rest h = rw (h.0, h.2.0) (ap (λ k. (b'H', k)) (omega arith))
  qualifier_lem long v f rest h = rw (h.0, h.2.0, (differs v).1) (ap (λ k. (b'l', k)) (omega arith))
  qualifier_lem longlong v f rest h = rw (h.0, h.2.0) (ap (λ k. (b'L', k)) (omega arith))
  qualifier_lem big_long v f rest h =
      rw (h.0, h.2.0, (differs v).2) (ap (λ k. (b'L', k)) (omega arith))
  qualifier_lem size v f rest h = rw (h.0, h.2.0, (differs v).3) (ap (λ k. (b'z', k)) (omega arith))
  qualifier_lem ptrdiff v f rest h =
      rw (h.0, h.2.0, (differs v).4) (ap (λ k. (b't', k)) (omega arith))

  pub IsString-drop :
      (xs ys : List ℕ) (f : ℕ) → IsString m f (xs ++ ys) → IsString m (f + length xs) ys
  IsString-drop [] ys f h = let e : f + 0 ≡ f = omega arith in rw e h
  IsString-drop (x ∷ xs) ys f h =
      let e : f + suc (length xs) ≡ suc f + length xs = omega arith in
      rw e (IsString-drop xs ys (suc f) h.2)

  pub from_qualifier_lem :
      (q : Qualifier) (v : Conversion) (f : ℕ) (rest : List ℕ) (s : PrintfSpec)
      → IsString m f (qualifier_chars q ++ conversion_char v ∷ rest)
      → IsFlags s.flags
      → from_qualifier m f s ≡ (suc (f + length (qualifier_chars q)), finished q v s)
  unfolding from_qualifier
  from_qualifier_lem q v f rest s h k =
      let there = IsString-drop (qualifier_chars q) (conversion_char v ∷ rest) f h in
      rw (from_qualifier, qualifier_lem q v f rest h)
        (conversion_lem q v (f + length (qualifier_chars q)) s there.0 k)

  pub IsString-first : (xs : List ℕ) (f : ℕ) → IsString m f xs → m f ≡ first_of xs
  IsString-first [] f h = h
  IsString-first (x ∷ xs) f h = h.0

  pub skip_atoi-value :
      (fuel f acc : ℕ) (ds tail : List ℕ)
      → IsNumeral ds
      → IsString m f (chars false ds ++ tail)
      → isdigit (first_of tail) ≡ false
      → length ds < fuel
      → skip_atoi fuel m f acc ≡ done (value 10 acc ds, f + length ds)
  unfolding skip_atoi isdigit
  skip_atoi-value zero f acc ds tail n h last k = absurd (omega arith)
  skip_atoi-value (suc fuel) f acc [] tail n h last k = absurd n
  skip_atoi-value (suc fuel) f acc (d ∷ []) tail n h last k =
      let there = IsString-first tail (suc f) h.2 in ground (arith, there)
  skip_atoi-value (suc fuel) f acc (d ∷ e ∷ ds) tail n h last k =
      let more =
        skip_atoi-value fuel (suc f) (acc * 10 + d) (e ∷ ds) tail n.1 h.2 last (omega arith) in
      ground (arith, more)

  pub flag_loop_lem :
      (fuel f acc : ℕ) (fs : List Flag) (tail : List ℕ)
      → IsString m (suc f) (flag_chars fs ++ tail)
      → flag_of (first_of tail) ≡ none
      → length fs < fuel
      → flag_loop fuel m f acc ≡ done (flag_bits acc fs, suc (f + length fs))
  unfolding flag_loop
  flag_loop_lem zero f acc fs tail h last k = absurd (omega arith)
  flag_loop_lem (suc fuel) f acc [] tail h last k =
      let there = IsString-first tail (suc f) h in
      rw (flag_loop, there, last) (ap (λ k. done (acc, suc k)) (omega arith))
  flag_loop_lem (suc fuel) f acc (x ∷ fs) tail h last k =
      let more =
        flag_loop_lem fuel (suc f) (bit_or acc (flag_bit x)) fs tail h.2 last (omega arith) in
      let e : suc f + length fs ≡ f + suc (length fs) = omega arith in
      rw (flag_loop, h.0, flag_of_char x, more, e) refl
