-- ===== src/Printk/Format/Stages.antt =====
-- format_decode of kernel/printk.c from the % of a directive to its end, stage by stage.
use armv8_os.Run.{done}
use armv8_os.Prelude.{
  ℕ, zero, suc, ◌+◌, ◌<◌, ◌≡◌, ◌≢◌, refl, ap, ◌∙◌, false, List, ◌∷◌, ◌++◌, Option, none, some,
  length, arith, ltb,
}
use armv8_os.Prelude.Int.{negsuc}
use armv8_os.Memory.{Mem, IsString}
use armv8_os.Ctype.{isdigit}
use armv8_os.Libc.Number.Digits.{chars, value}
use armv8_os.Printk.Spec
use armv8_os.Printk.Spec.{FormatType, PrintfSpec, sign_flag, has}
use armv8_os.Printk.Decode.{
  skip_text, from_precision, from_width, from_start, to_signed, not_negative,
}
use armv8_os.Printk.Number.Text.{length-chars}
use armv8_os.Printk.Format.{
  Flag, Amount, absent, digits, star, Qualifier, Conversion, flag_chars, amount_chars,
  precision_chars, qualifier_chars, extension, ending_chars, IsWidth, IsPrecision,
}
use armv8_os.Printk.Render.{flag_bits, width_of, precision_of}
use armv8_os.Printk.Format.Decode.{
  IsFlags, finished, ending_first, precision_first, width_first, numeral_first, IsString-drop,
  IsString-first, from_qualifier_lem, skip_atoi-value, flag_loop_lem,
}

-- Behind a directive that is read from its qualifier on.
abbrev pub ending_at : Qualifier → ℕ → ℕ
ending_at q f = suc (f + length (qualifier_chars q))

module _ (m : Mem) (q : Qualifier) (v : Conversion) (rest : List ℕ) where
  abbrev ending : List ℕ
  ending = ending_chars q v rest

  -- A precision that is not taken from the arguments.
  pub from_precision_lem :
      (fuel f arg : ℕ) (p : Option Amount) (s : PrintfSpec)
      → IsPrecision p
      → p ≢ some star
      → IsString m f (precision_chars p ++ ending)
      → IsFlags s.flags
      → length (precision_chars p) < fuel
      → from_precision fuel m f s
        ≡ done (
          ending_at q (f + length (precision_chars p)),
          finished q v (record s { precision = precision_of p arg }),
        )
  unfolding from_precision
  from_precision_lem fuel f arg none s n fixed h k enough =
      let first = IsString-first m ending f h in
      let read =
        from_qualifier_lem m q v f (extension v ++ rest) (record s { precision = negsuc 0 }) h k in
      let e : f ≡ f + 0 = omega arith in
      rw (from_precision, first, (ending_first q v rest).1)
        (ap done
          (read ∙ ap (λ a. (ending_at q a, finished q v (record s { precision = negsuc 0 }))) e))
  from_precision_lem fuel f arg (some absent) s n fixed h k enough =
      let first = IsString-first m ending (suc f) h.2 in
      let read =
        from_qualifier_lem m q v (suc f) (extension v ++ rest) (record s { precision = negsuc 0 })
          h.2 k in
      let c = ending_first q v rest in
      let e : suc f ≡ f + 1 = omega arith in
      rw (from_precision, h.0, first, c.0, c.2)
        (ap done
          (read ∙ ap (λ a. (ending_at q a, finished q v (record s { precision = negsuc 0 }))) e))
  from_precision_lem fuel f arg (some star) s n fixed h k enough = absurd (fixed refl)
  from_precision_lem fuel f arg (some (digits ds)) s n fixed h k enough =
      let s' : PrintfSpec = record s { precision = not_negative (to_signed 15 (value 10 0 ds)) } in
      let len = length-chars false ds in
      let first = IsString-first m (chars false ds ++ ending) (suc f) h.2 in
      let number =
        skip_atoi-value m fuel (suc f) 0 ds ending n h.2 (ending_first q v rest).0
          (omega (arith, len)) in
      let e : suc f + length (chars false ds) ≡ suc f + length ds = omega (arith, len) in
      let there = IsString-drop m (chars false ds) ending (suc f) h.2 in
      let read =
        from_qualifier_lem m q v (suc f + length (chars false ds)) (extension v ++ rest) s' there
          k in
      let e' : suc f + length (chars false ds) ≡ f + suc (length (chars false ds)) = omega arith in
      rw (from_precision, h.0, first, numeral_first ds ending n, number, ← e)
        (ap done (read ∙ ap (λ a. (ending_at q a, finished q v s')) e'))

  pub from_precision_star :
      (fuel f : ℕ) (s : PrintfSpec)
      → IsString m f (precision_chars (some star) ++ ending)
      → from_precision fuel m f s
        ≡ done (f + 2, record s { kind = Spec.precision; precision = negsuc 0 })
  unfolding from_precision isdigit
  from_precision_star fuel f s h =
      rw (from_precision, h.0, h.2.0)
        (ap (λ a. done (a, record s { kind = Spec.precision; precision = negsuc 0 })) (omega arith))

  -- The width, up to the call of from_precision.
  pub from_width_lem :
      (fuel f arg : ℕ) (w : Amount) (p : Option Amount) (s : PrintfSpec)
      → IsWidth w
      → w ≢ star
      → IsString m f (amount_chars w ++ (precision_chars p ++ ending))
      → length (amount_chars w) < fuel
      → from_width fuel m f s
        ≡ from_precision fuel m
            (f + length (amount_chars w))
            (record s { field_width = (width_of w arg s.flags).0 })
  unfolding from_width
  from_width_lem fuel f arg absent p s n fixed h enough =
      let first = IsString-first m (precision_chars p ++ ending) f h in
      let c = precision_first p q v rest in
      let e : f ≡ f + 0 = omega arith in
      rw (from_width, first, c.0, c.1)
        (ap (λ a. from_precision fuel m a (record s { field_width = negsuc 0 })) e)
  from_width_lem fuel f arg star p s n fixed h enough = absurd (fixed refl)
  from_width_lem fuel f arg (digits ds) p s n fixed h enough =
      let tail = precision_chars p ++ ending in
      let len = length-chars false ds in
      let first = IsString-first m (chars false ds ++ tail) f h in
      let number =
        skip_atoi-value m fuel f 0 ds tail n.1 h (precision_first p q v rest).0
          (omega (arith, len)) in
      let e : f + length (chars false ds) ≡ f + length ds = omega (arith, len) in
      rw (from_width, first, numeral_first ds tail n.1, number, ← e) refl

  pub from_width_star :
      (fuel f : ℕ) (p : Option Amount) (s : PrintfSpec)
      → IsString m f (amount_chars star ++ (precision_chars p ++ ending))
      → from_width fuel m f s ≡ done (f + 1, record s { kind = Spec.width; field_width = negsuc 0 })
  unfolding from_width isdigit
  from_width_star fuel f p s h =
      rw (from_width, h.0)
        (ap (λ a. done (a, record s { kind = Spec.width; field_width = negsuc 0 })) (omega arith))

  -- From the % on, up to the width.
  pub from_start_lem :
      (fuel f : ℕ) (fs : List Flag) (w : Amount) (p : Option Amount) (s : PrintfSpec)
      → IsWidth w
      → IsString m f (b'%' ∷ (flag_chars fs ++ (amount_chars w ++ (precision_chars p ++ ending))))
      → length fs < fuel
      → from_start fuel m f s
        ≡ from_width fuel m
            (suc (f + length fs))
            (record s { kind = Spec.none; flags = flag_bits 0 fs })
  unfolding from_start skip_text
  from_start_lem zero f fs w p s n h enough = absurd (omega arith)
  from_start_lem (suc fuel) f fs w p s n h enough =
      let same : ltb f f ≡ false = ground arith in
      let flags =
        flag_loop_lem m (suc fuel) f 0 fs (amount_chars w ++ (precision_chars p ++ ending)) h.2
          (width_first w p q v rest n) enough in
      rw (from_start, skip_text, h.0, same, h.0, flags) refl
