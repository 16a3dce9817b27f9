-- ===== src/Printk/Decode/Progress.antt =====
-- format_decode of kernel/printk.c goes forward in the format and not past its NUL.
use armv8_os.Run.{done, Ends, Ends-bind, Ends-mono}
use armv8_os.Prelude.{
  Option, none, some, bit_or, ◌||◌, if_holds, ◌*◌, ◌-◌, ℕ, zero, suc, ◌+◌, ◌≤◌, ◌<◌, ◌≡◌, ◌≢◌, ◌⊎◌,
  ◌==◌, ltb, arith, refl,
}
use armv8_os.Memory.{Mem}
use armv8_os.Ctype.{isdigit, fast_tolower}
use armv8_os.Printk.Spec
use armv8_os.Printk.Spec.{FormatType, PrintfSpec}
use armv8_os.Printk.Decode.{
  skip_atoi, skip_text, flag_loop, flag_of, qualifier, conversion, from_qualifier, from_precision,
  from_width, from_start, decode_as, format_decode,
}

-- The pointer is behind `fmt` and not behind `z`.
abbrev Moved : ℕ → ℕ → ℕ → Type 0
Moved fmt z fmt' = (fmt < fmt') × (fmt' ≤ z)

-- The same after a specification, or the specification is invalid.
abbrev pub Decoded : ℕ → ℕ → ℕ × PrintfSpec → Type 0
Decoded fmt z (fmt', spec) = ((fmt < fmt') ⊎ (spec.kind ≡ Spec.invalid)) × (fmt' ≤ z)

Decoded-weaken :
    (fmt fmt' z : ℕ) (r : ℕ × PrintfSpec) → fmt ≤ fmt' → Decoded fmt' z r → Decoded fmt z r
Decoded-weaken fmt fmt' z r h d = ground (arith, d)

module _ (m : Mem) (z : ℕ) (nul : m z ≡ 0) where
  qualifier-Moved : (fmt : ℕ) → fmt ≤ z → (fmt ≤ (qualifier m fmt).1) × ((qualifier m fmt).1 ≤ z)
  unfolding qualifier fast_tolower
  qualifier-Moved fmt h = ground (arith, nul)

  conversion-Decoded : (q fmt : ℕ) (s : PrintfSpec) → fmt ≤ z → Decoded fmt z (conversion m q fmt s)
  unfolding conversion
  conversion-Decoded q fmt s h = ground (arith, nul)

  from_qualifier-Decoded :
      (fmt : ℕ) (s : PrintfSpec) → fmt ≤ z → Decoded fmt z (from_qualifier m fmt s)
  unfolding from_qualifier
  from_qualifier-Decoded fmt s h =
      let q = qualifier-Moved fmt h in
      let c = conversion-Decoded (qualifier m fmt).0 (qualifier m fmt).1 s q.1 in
      ground (arith, q, c)

  later-Decoded :
      (start fmt : ℕ) (s : PrintfSpec)
      → start ≤ fmt
      → fmt ≤ z
      → Decoded start z (from_qualifier m fmt s)
  later-Decoded start fmt s le h =
      Decoded-weaken start fmt z (from_qualifier m fmt s) le (from_qualifier-Decoded fmt s h)

  skip_atoi-Moved :
      (fuel s i : ℕ)
      → s < z
      → z < s + fuel
      → Ends (λ (r : ℕ × ℕ). Moved s z r.1) (skip_atoi fuel m s i)
  unfolding skip_atoi isdigit
  skip_atoi-Moved zero s i h e = omega arith
  skip_atoi-Moved (suc fuel) s i h e =
      if_holds (Ends (λ (r : ℕ × ℕ). Moved s z r.1)) (isdigit (m (suc s)))
        (λ digit.
          Ends-mono _ _ (skip_atoi fuel m (suc s) (i * 10 + m s - b'0')) (λ r p. ground arith)
            (skip_atoi-Moved fuel (suc s) _ (ground (arith, nul)) (omega arith)))
        (λ _. (omega arith, omega arith))

  skip_text-Moved :
      (fuel fmt : ℕ)
      → fmt ≤ z
      → z < fmt + fuel
      → Ends (λ r. (fmt ≤ r) × (r ≤ z)) (skip_text fuel m fmt)
  unfolding skip_text
  skip_text-Moved zero fmt h e = omega arith
  skip_text-Moved (suc fuel) fmt h e =
      if_holds (Ends (λ r. (fmt ≤ r) × (r ≤ z))) ((m fmt == 0) || (m fmt == b'%'))
        (λ _. (omega arith, h))
        (λ more.
          Ends-mono _ _ (skip_text fuel m (suc fmt)) (λ r p. ground arith)
            (skip_text-Moved fuel (suc fmt) (ground (arith, nul)) (omega arith)))

  flag_of-nul : flag_of 0 ≡ none
  unfolding flag_of
  flag_of-nul = refl

  flag_loop-Moved :
      (fuel fmt flags : ℕ)
      → fmt < z
      → z < fmt + fuel
      → Ends (λ (r : ℕ × ℕ). Moved fmt z r.1) (flag_loop fuel m fmt flags)
  unfolding flag_loop
  flag_loop-Moved zero fmt flags h e = omega arith
  flag_loop-Moved (suc fuel) fmt flags h e =
      by_flag (flag_of (m (suc fmt))) refl
        (λ g next. flag_loop-Moved fuel (suc fmt) g next (omega arith))
    where
      by_flag :
          (f : Option ℕ)
          → flag_of (m (suc fmt)) ≡ f
          → ((g : ℕ)
              → suc fmt < z
              → Ends (λ (r : ℕ × ℕ). Moved (suc fmt) z r.1) (flag_loop fuel m (suc fmt) g))
          → Ends
              (λ (r : ℕ × ℕ). Moved fmt z r.1)
              (elim f [
                | some g ↦ flag_loop fuel m (suc fmt) (bit_or flags g)
                | none ↦ done (flags, suc fmt)
              ])
      by_flag none eq more = (omega arith, omega arith)
      by_flag (some g) eq more =
          let next : suc fmt < z = grind (arith, nul, flag_of-nul) in
          Ends-mono _ _ (flag_loop fuel m (suc fmt) (bit_or flags g)) (λ r p. ground arith)
            (more _ next)

  from_precision-Decoded :
      (fuel fmt : ℕ) (s : PrintfSpec)
      → fmt ≤ z
      → z < fmt + fuel
      → Ends (Decoded fmt z) (from_precision fuel m fmt s)
  unfolding from_precision isdigit
  from_precision-Decoded fuel fmt s h e =
      if_holds (Ends (Decoded fmt z)) (m fmt == b'.')
        (λ dot.
          let next : suc fmt ≤ z = ground (arith, nul) in
          if_holds (Ends (Decoded fmt z)) (isdigit (m (suc fmt)))
            (λ digit.
              Ends-bind _ _ (skip_atoi fuel m (suc fmt) 0) _
                (skip_atoi-Moved fuel (suc fmt) 0 (ground (arith, nul)) (omega arith))
                (λ r moved. later-Decoded fmt r.1 _ (omega (arith, moved)) moved.1))
            (λ _.
              if_holds (Ends (Decoded fmt z)) (m (suc fmt) == b'*') (λ star. ground (arith, nul))
                (λ _. later-Decoded fmt (suc fmt) _ (omega arith) next)))
        (λ _. from_qualifier-Decoded fmt _ h)

  from_width-Decoded :
      (fuel fmt : ℕ) (s : PrintfSpec)
      → fmt ≤ z
      → z < fmt + fuel
      → Ends (Decoded fmt z) (from_width fuel m fmt s)
  unfolding from_width isdigit
  from_width-Decoded fuel fmt s h e =
      if_holds (Ends (Decoded fmt z)) (isdigit (m fmt))
        (λ digit.
          Ends-bind _ _ (skip_atoi fuel m fmt 0) _
            (skip_atoi-Moved fuel fmt 0 (ground (arith, nul)) e)
            (λ r moved.
              Ends-mono _ _ (from_precision fuel m r.1 _)
                (λ d. Decoded-weaken fmt r.1 z d (omega (arith, moved)))
                (from_precision-Decoded fuel r.1 _ moved.1 (omega (arith, moved)))))
        (λ _.
          if_holds (Ends (Decoded fmt z)) (m fmt == b'*') (λ star. ground (arith, nul))
            (λ _. from_precision-Decoded fuel fmt _ h e))

  from_start-Decoded :
      (fuel start : ℕ) (s : PrintfSpec)
      → start ≤ z
      → z < start + fuel
      → m start ≢ 0
      → Ends (Decoded start z) (from_start fuel m start s)
  unfolding from_start
  from_start-Decoded fuel start s h e some_left =
      Ends-bind _ _ (skip_text fuel m start) _ (skip_text-Moved fuel start h e) (λ fmt text.
        if_holds (Ends (Decoded start z)) (ltb start fmt || (m fmt == 0))
          (λ found. ground (arith, text, found, some_left))
          (λ percent.
            Ends-bind _ _ (flag_loop fuel m fmt 0) _
              (flag_loop-Moved fuel fmt 0 (ground (arith, nul, text, percent))
                (omega (arith, text)))
              (λ r moved.
                Ends-mono _ _ (from_width fuel m r.1 _)
                  (λ d. Decoded-weaken start r.1 z d (omega (arith, moved, text)))
                  (from_width-Decoded fuel r.1 _ moved.1 (omega (arith, moved, text))))))

  decode_as-Decoded :
      (kind : FormatType) (fuel fmt : ℕ) (spec : PrintfSpec)
      → fmt ≤ z
      → z < fmt + fuel
      → m fmt ≢ 0
      → Ends (Decoded fmt z) (decode_as kind fuel m fmt spec)
  unfolding decode_as
  decode_as-Decoded Spec.width fuel fmt spec h e some_left = from_precision-Decoded fuel fmt _ h e
  decode_as-Decoded Spec.precision fuel fmt spec h e some_left = from_qualifier-Decoded fmt _ h
  decode_as-Decoded _ fuel fmt spec h e some_left = from_start-Decoded fuel fmt spec h e some_left

  pub format_decode-Decoded :
      (fuel fmt : ℕ) (spec : PrintfSpec)
      → fmt ≤ z
      → z < fmt + fuel
      → m fmt ≢ 0
      → Ends (Decoded fmt z) (format_decode fuel m fmt spec)
  unfolding format_decode
  format_decode-Decoded fuel fmt spec = decode_as-Decoded spec.kind fuel fmt spec
