-- ===== src/Printk/Format/Rounds.antt =====
-- The rounds of the loop of vsnprintf in kernel/printk.c over one directive: one for a width and one for
-- a precision that is an argument, and one for the conversion.
use mathlib.Core.Path.{subst}
use armv8_os.Printk.Number.Text.{IsBase}
use armv8_os.Run.{Run, done}
use armv8_os.Prelude.{
  length-append, ℕ, suc, ◌+◌, ◌≡◌, ◌≢◌, ◌==◌, refl, sym, ap, ◌∙◌, false, List, [], ◌∷◌, ◌++◌,
  Option, none, some, length, arith, inl, inr,
}
use armv8_os.Prelude.Int.{ℤ, pos, negsuc}
use armv8_os.Memory.{Mem, IsString}
use armv8_os.Printk.Spec
use armv8_os.Printk.Spec.{FormatType, PrintfSpec}
use armv8_os.Printk.Decode.{
  not_negative, to_signed, from_start, from_precision, absorb_width, decode_as, format_decode,
}
use armv8_os.Printk.Output.{Out, emit}
use armv8_os.Printk.Number.Laws.{IsSpec}
use armv8_os.Printk.Vsnprintf.{Next, State, again, round, format_loop, convert}
use armv8_os.Printk.Format.{
  Amount, absent, digits, star, Qualifier, Conversion, conversion_char, extension, precision_chars,
  qualifier_chars, ending_chars, octal, hex, big_hex, IsPrecision, IsExtension,
}
use armv8_os.Printk.Render.{
  taken_by_precision, turned, precision_of, base_of, converted, taken_by_conversion,
}
use armv8_os.Printk.Format.Decode.{
  IsFlags, more_flags-lt, finished, IsString-drop, from_qualifier_lem,
}
use armv8_os.Printk.Format.Stages.{ending_at, from_precision_lem, from_precision_star}
use armv8_os.Printk.Format.Convert.{IsReady, IsSupplied, convert_lem}
use armv8_os.Printk.Format.Stored.{Stored, Stored-tail, emit-Stored}

pub Stored-drop :
    (end fuel : ℕ) (o : Out) (xs ys : List ℕ) (f : ℕ)
    → Stored end fuel o f (xs ++ ys)
    → Stored end fuel o (f + length xs) ys
Stored-drop end fuel o xs ys f t =
    let len = length-append xs ys in
    record {
      holds = IsString-drop o.mem xs ys f t.holds;
      apart = ground (arith, t.apart, len);
      few = omega (arith, t.few, len);
    }

pub some_left : (m : Mem) (xs ys : List ℕ) (c f : ℕ) → IsString m f (xs ++ c ∷ ys) → m f ≢ 0
some_left m [] ys c f h = λ e. h.1 (sym h.0 ∙ e)
some_left m (x ∷ xs) ys c f h = λ e. h.1 (sym h.0 ∙ e)

pub decode_as-start :
    (kind : FormatType) (fuel : ℕ) (m : Mem) (f : ℕ) (spec : PrintfSpec)
    → IsReady kind
    → decode_as kind fuel m f spec ≡ from_start fuel m f spec
unfolding decode_as
decode_as-start Spec.width fuel m f spec r = absurd r
decode_as-start Spec.precision fuel m f spec r = absurd r
decode_as-start _ fuel m f spec r = refl

pub absorb_width-turned :
    (s : PrintfSpec)
    → absorb_width s ≡ record s {
      kind = Spec.none;
      field_width = (turned s.field_width s.flags).0;
      flags = (turned s.field_width s.flags).1;
    }
unfolding absorb_width
absorb_width-turned s =
    elim s.field_width
      as (λ w. absorb_width (record s { field_width = w }) ≡ record s {
        kind = Spec.none;
        field_width = (turned w s.flags).0;
        flags = (turned w s.flags).1;
      }) [ pos n ↦ refl | negsuc n ↦ refl ]

base_of-IsBase : (v : Conversion) → IsBase (base_of v)
base_of-IsBase octal = inl refl
base_of-IsBase hex = inr (inr refl)
base_of-IsBase big_hex = inr (inr refl)
base_of-IsBase _ = inr (inl refl)

finished-IsSpec :
    (q : Qualifier) (v : Conversion) (s : PrintfSpec) → IsFlags s.flags → IsSpec (finished q v s)
finished-IsSpec q v s h = record {
  byte = omega (arith, more_flags-lt v s.flags h);
  base = base_of-IsBase v;
}

module _ (fuel : ℕ) (stack : Mem) (end : ℕ) (args : ℕ → ℕ) where
  -- `n` rounds that go on lead from one state to another.
  pub data Rounds : (n : ℕ) → State → State → Type 0 where
    stay : (s : State) → Rounds 0 s s
    go :
        {n : ℕ} {s s' s'' : State}
        → s.str.mem s.fmt ≢ 0
        → round fuel stack end args s ≡ done (again s')
        → Rounds n s' s''
        → Rounds (suc n) s s''

  pub Rounds-trans :
      (n k : ℕ) (s s' s'' : State) → Rounds n s s' → Rounds k s' s'' → Rounds (n + k) s s''
  Rounds-trans n k s s' s'' (stay _) r =
      let e : 0 + k ≡ k = omega arith in subst (λ j. Rounds j s s'') (sym e) r
  Rounds-trans (suc n) k s s' s'' (go left e more) r =
      let e' : suc n + k ≡ suc (n + k) = omega arith in
      subst (λ j. Rounds j s s'') (sym e') (go left e (Rounds-trans n k _ s' s'' more r))

  pub format_loop-Rounds :
      (n r : ℕ) (s s' : State)
      → Rounds n s s'
      → format_loop fuel stack end args (n + r) s ≡ format_loop fuel stack end args r s'
  unfolding format_loop
  format_loop-Rounds n r s s' (stay _) =
      let e : 0 + r ≡ r = omega arith in ap (λ j. format_loop fuel stack end args j s) e
  format_loop-Rounds (suc n) r s s' (go left e more) =
      let e' : suc n + r ≡ suc (n + r) = omega arith in
      let c : (s.str.mem s.fmt == 0) ≡ false = ground (arith, left) in
      let rest = format_loop-Rounds n r _ s' more in rw (e', format_loop, c, e) rest

  pub round_of :
      (s : State) (f : ℕ) (spec : PrintfSpec) (n : Run Next)
      → format_decode fuel s.str.mem s.fmt s.spec ≡ done (f, spec)
      → convert fuel stack end args spec.kind s.fmt (record s { fmt = f; spec = spec }) ≡ n
      → round fuel stack end args s ≡ n
  unfolding round
  round_of s f spec n decoded e = rw (round, decoded) e

  -- Behind the conversion of a directive, which printed `text` and stands `taken` arguments further.
  pub record After (rest text : List ℕ) (used : ℕ) (s s' : State) : Type 0 where
    pub str : s'.str ≡ emit end text s.str
    pub there : Stored end fuel s'.str s'.fmt rest
    pub taken : s'.taken ≡ used
    pub kind : IsReady s'.spec.kind

  module _ (q : Qualifier) (v : Conversion) (rest : List ℕ) (ext : IsExtension v rest) where
    -- The call of format_decode that reads the conversion. `k` arguments were taken.
    conversion-Rounds :
        (k : ℕ) (s : State) (f : ℕ) (spec : PrintfSpec)
        → k ≡ s.taken
        → s.str.mem s.fmt ≢ 0
        → format_decode fuel s.str.mem s.fmt s.spec ≡ done (ending_at q f, finished q v spec)
        → Stored end fuel s.str f (ending_chars q v rest)
        → IsFlags spec.flags
        → IsSupplied end fuel s.str v (args k)
        → (s' : State) × Rounds 1 s s'
          × After rest (converted q v (finished q v spec) (args k)) (k + taken_by_conversion v) s s'
    conversion-Rounds k s f spec eq left decoded there flags given =
        let given' : IsSupplied end fuel s.str v (args s.taken) = rw (← eq) given in
        let s1 : State = record s { fmt = ending_at q f; spec = finished q v spec } in
        let tail = Stored-drop end fuel s.str (qualifier_chars q) _ f there in
        let tail' = Stored-tail end fuel s.str _ _ (extension v ++ rest) tail in
        let (s', e, d) =
          convert_lem fuel stack end args q v rest s.fmt s1 refl (finished-IsSpec q v spec flags)
            given' tail' ext in
        let printed =
          emit-Stored end fuel (converted q v (finished q v spec) (args s.taken)) s.str _ _ tail' in
        let last = Stored-drop end fuel _ (extension v) rest _ printed in
        let after : After rest (converted q v (finished q v spec) (args s.taken))
            (s.taken + taken_by_conversion v) s s' =
          record { str = d.str; there = rw (d.str, d.fmt) last; taken = d.taken; kind = d.kind } in
        (
          s',
          go left (round_of s _ (finished q v spec) (done (again s')) decoded e) (stay s'),
          rw eq after,
        )

    abbrev with_precision : PrintfSpec → ℤ → PrintfSpec
    with_precision spec p = finished q v (record spec { precision = p })

    fixed_precision :
        (p : Option Amount) (k : ℕ) (s : State) (f : ℕ) (spec : PrintfSpec)
        → k ≡ s.taken
        → IsPrecision p
        → p ≢ some star
        → taken_by_precision p ≡ 0
        → s.str.mem s.fmt ≢ 0
        → format_decode fuel s.str.mem s.fmt s.spec ≡ from_precision fuel s.str.mem f spec
        → Stored end fuel s.str f (precision_chars p ++ ending_chars q v rest)
        → IsFlags spec.flags
        → IsSupplied end fuel s.str v (args (k + taken_by_precision p))
        → (s' : State) × Rounds 1 s s'
          × After rest
              (converted q v
                (with_precision spec (precision_of p (args k)))
                (args (k + taken_by_precision p)))
              (k + taken_by_precision p + taken_by_conversion v)
              s
              s'
    fixed_precision p k s f spec eq n fixed nothing left decoded there flags given =
        let len = length-append (precision_chars p) (ending_chars q v rest) in
        let read =
          from_precision_lem s.str.mem q v rest fuel f (args k) p spec n fixed there.holds flags
            (omega (arith, there.few, len)) in
        let there' =
          Stored-drop end fuel s.str (precision_chars p) (ending_chars q v rest) f there in
        conversion-Rounds (k + taken_by_precision p) s (f + length (precision_chars p))
          (record spec { precision = precision_of p (args k) }) (omega (arith, eq, nothing)) left
          (decoded ∙ read) there' flags given

    -- The call of format_decode that reads the precision.
    pub precision-Rounds :
        (p : Option Amount) (k : ℕ) (s : State) (f : ℕ) (spec : PrintfSpec)
        → k ≡ s.taken
        → IsPrecision p
        → s.str.mem s.fmt ≢ 0
        → format_decode fuel s.str.mem s.fmt s.spec ≡ from_precision fuel s.str.mem f spec
        → Stored end fuel s.str f (precision_chars p ++ ending_chars q v rest)
        → IsFlags spec.flags
        → IsSupplied end fuel s.str v (args (k + taken_by_precision p))
        → (s' : State) × Rounds (suc (taken_by_precision p)) s s'
          × After rest
              (converted q v
                (with_precision spec (precision_of p (args k)))
                (args (k + taken_by_precision p)))
              (k + taken_by_precision p + taken_by_conversion v)
              s
              s'
    unfolding format_decode decode_as convert
    precision-Rounds (some star) k s f spec eq n left decoded there flags given =
        let read = decoded ∙ from_precision_star s.str.mem q v rest fuel f spec there.holds in
        let prec = to_signed 15 (args s.taken) in
        let s1 : State = record s {
          fmt = f + 2;
          spec = record spec { kind = Spec.precision; precision = prec };
          taken = suc s.taken;
        } in
        let tail =
          Stored-drop end fuel s.str (precision_chars (some star)) (ending_chars q v rest) f
            there in
        let first : round fuel stack end args s ≡ done (again s1) =
          round_of s _ _ (done (again s1)) read refl in
        let given' : IsSupplied end fuel s.str v (args (s.taken + 1)) = rw (← eq) given in
        let (s', r, a) =
          conversion-Rounds (s.taken + 1) s1 (f + 2)
            (record spec { kind = Spec.none; precision = not_negative prec }) (omega arith)
            (some_left s.str.mem (qualifier_chars q) _ (conversion_char v) _ tail.holds)
            (ap done
              (from_qualifier_lem s.str.mem q v (f + 2) (extension v ++ rest) _ tail.holds flags))
            tail flags given' in
        rw eq (
          s',
          go left first r,
          record { str = a.str; there = a.there; taken = a.taken; kind = a.kind },
        )
    precision-Rounds none k s f spec eq n left decoded there flags given =
        fixed_precision none k s f spec eq n (ground arith) refl left decoded there flags given
    precision-Rounds (some absent) k s f spec eq n left decoded there flags given =
        fixed_precision (some absent) k s f spec eq n (ground arith) refl left decoded there flags
          given
    precision-Rounds (some (digits ds)) k s f spec eq n left decoded there flags given =
        fixed_precision (some (digits ds)) k s f spec eq n (ground arith) refl left decoded there
          flags given
