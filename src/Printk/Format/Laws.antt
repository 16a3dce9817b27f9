-- ===== src/Printk/Format/Laws.antt =====
-- vsnprintf of kernel/printk.c on a whole format.
use armv8_os.Run.{done, Ends}
use armv8_os.Prelude.{
  ltb, ℕ, suc, ◌+◌, ◌-◌, ◌^◌, ◌<◌, ◌≤◌, ◌≡◌, ◌==◌, ◌||◌, refl, sym, ap, ◌∙◌, true, List, [], ◌∷◌,
  ◌++◌, Option, none, some, length, length-append, arith,
}
use armv8_os.Memory.{Mem}
use armv8_os.Printk.Spec
use armv8_os.Printk.Decode.{skip_text, from_start, format_decode}
use armv8_os.Printk.Output.{Out, emit}
use armv8_os.Printk.Output.Laws.{emit-append, emit-nil, emit-cur, emit-mem}
use armv8_os.Printk.Vsnprintf.{State, again, convert, format_loop, terminate, vsnprintf}
use armv8_os.Printk.Vsnprintf.Laws.{limits-fit, first_state}
use armv8_os.Printk.Format.{
  PrintfSpec, Amount, absent, digits, star, Conversion, char, Directive, Item, text, directive,
  string, flag_chars, amount_chars, precision_chars, qualifier_chars, conversion_char, extension,
  ending_chars, directive_chars, format_chars, first_of, All, IsPlain, NoText, IsFormat,
}
use armv8_os.Printk.Render.{third_of, behind, render, shown, field}
use armv8_os.Printk.Format.Convert.{IsReady, IsSupplied}
use armv8_os.Printk.Format.Stored.{Stored, emit-Stored}
use armv8_os.Printk.Format.Text.{copy_text-emit, skip_text_lem}
use armv8_os.Printk.Format.Rounds.{
  Stored-drop, decode_as-start, Rounds, stay, go, Rounds-trans, format_loop-Rounds, round_of, After,
}
use armv8_os.Printk.Format.Width.{rounds_of, width-Rounds}

-- The arguments of the strings lead to their characters.
abbrev pub Supplied : (end fuel : ℕ) (args : ℕ → ℕ) → Out → (k : ℕ) → List Item → Type 0
Supplied end fuel args o k [] = Unit
Supplied end fuel args o k (text first others ∷ items) = Supplied end fuel args o k items
Supplied end fuel args o k (directive e ∷ items) =
    IsSupplied end fuel o e.conversion (args (third_of e k))
    × Supplied end fuel args o (behind e k) items

emit-IsSupplied :
    (end fuel : ℕ) (xs : List ℕ) (o : Out) (v : Conversion) (arg : ℕ)
    → IsSupplied end fuel o v arg
    → IsSupplied end fuel (emit end xs o) v arg
emit-IsSupplied end fuel xs o (string ys) arg h = emit-Stored end fuel xs o arg ys h
emit-IsSupplied end fuel xs o char arg h = tt
emit-IsSupplied end fuel xs o _ arg h = tt

emit-Supplied :
    (end fuel : ℕ) (args : ℕ → ℕ) (xs : List ℕ) (o : Out) (k : ℕ) (items : List Item)
    → Supplied end fuel args o k items
    → Supplied end fuel args (emit end xs o) k items
emit-Supplied end fuel args xs o k [] h = tt
emit-Supplied end fuel args xs o k (text first others ∷ items) h =
    emit-Supplied end fuel args xs o k items h
emit-Supplied end fuel args xs o k (directive e ∷ items) h = (
  emit-IsSupplied end fuel xs o e.conversion _ h.0,
  emit-Supplied end fuel args xs o (behind e k) items h.1,
)

rounds_of-lt :
    (w : Amount) (p : Option Amount)
    → rounds_of w p ≤ suc (length (amount_chars w) + length (precision_chars p))
rounds_of-lt star none = omega arith
rounds_of-lt star (some star) = omega arith
rounds_of-lt star (some absent) = omega arith
rounds_of-lt star (some (digits ds)) = omega arith
rounds_of-lt absent none = omega arith
rounds_of-lt absent (some star) = omega arith
rounds_of-lt absent (some absent) = omega arith
rounds_of-lt absent (some (digits ds)) = omega arith
rounds_of-lt (digits ds) none = omega arith
rounds_of-lt (digits ds) (some star) = omega arith
rounds_of-lt (digits ds) (some absent) = omega arith
rounds_of-lt (digits ds) (some (digits es)) = omega arith

-- No more rounds than characters.
rounds_of-length :
    (e : Directive) (rest : List ℕ)
    → rounds_of e.width e.precision + length rest ≤ length (directive_chars e rest)
rounds_of-length e rest =
    let few = rounds_of-lt e.width e.precision in
    let ending = ending_chars e.qualifier e.conversion rest in
    let a =
      length-append (flag_chars e.flags)
        (amount_chars e.width ++ (precision_chars e.precision ++ ending)) in
    let b = length-append (amount_chars e.width) (precision_chars e.precision ++ ending) in
    let c = length-append (precision_chars e.precision) ending in
    let d =
      length-append (qualifier_chars e.qualifier)
        (conversion_char e.conversion ∷ (extension e.conversion ++ rest)) in
    let x = length-append (extension e.conversion) rest in omega (arith, few, a, b, c, d, x)

-- A text ends the format or stands before a directive.
NoText_lem :
    (items : List Item)
    → NoText items
    → let c = first_of (format_chars items) in ((c == 0) || (c == b'%')) ≡ true
NoText_lem [] h = refl
NoText_lem (text first others ∷ items) h = absurd h
NoText_lem (directive e ∷ items) h = refl

module _ (fuel : ℕ) (stack : Mem) (end : ℕ) (args : ℕ → ℕ) where
  from_start_text :
      (m : Mem) (f n : ℕ) (spec : PrintfSpec)
      → skip_text fuel m f ≡ done (f + suc n)
      → from_start fuel m f spec ≡ done (f + suc n, record spec { kind = Spec.none })
  unfolding from_start
  from_start_text m f n spec e =
      let later : ltb f (f + suc n) ≡ true = ground arith in rw (from_start, e, later) refl

  text_round :
      (first : ℕ) (others rest : List ℕ) (s : State)
      → IsPlain first
      → All IsPlain others
      → ((first_of rest == 0) || (first_of rest == b'%')) ≡ true
      → IsReady s.spec.kind
      → Stored end fuel s.str s.fmt (first ∷ (others ++ rest))
      → (s' : State) × Rounds fuel stack end args 1 s s'
        × After fuel stack end args rest (first ∷ others) s.taken s s'
  unfolding convert format_decode
  text_round first others rest s p ps last ready there =
      let xs = first ∷ others in
      let len = length-append others rest in
      let skipped =
        skip_text_lem fuel s.str.mem s.fmt xs rest (p, ps) there.holds last
          (omega (arith, there.few, len)) in
      let s' : State = record s {
        fmt = s.fmt + length xs;
        str = emit end xs s.str;
        spec = record (s.spec) { kind = Spec.none };
      } in
      let read =
        decode_as-start s.spec.kind fuel s.str.mem s.fmt s.spec ready
        ∙ from_start_text s.str.mem s.fmt (length others) s.spec skipped in
      let e : s.fmt + suc (length others) - s.fmt ≡ suc (length others) = omega arith in
      let printed : convert fuel stack end args Spec.none s.fmt
            (record s { fmt = s.fmt + length xs; spec = record (s.spec) { kind = Spec.none } })
          ≡ done (again s') =
        rw (e, copy_text-emit end fuel xs rest s.str s.fmt there) refl in
      let kept =
        emit-Stored end fuel xs s.str (s.fmt + length xs) rest
          (Stored-drop end fuel s.str xs rest s.fmt there) in
      (
        s',
        go (λ e. p.0 (sym there.holds.0 ∙ e))
            (round_of fuel stack end args s _ _ (done (again s')) read printed) (stay s'),
        record { str = refl; there = kept; taken = refl; kind = tt },
      )

  -- Rounds over a whole text, which it prints.
  record Printed (len : ℕ) (xs : List ℕ) (s : State) : Type 0 where
    rounds : ℕ
    last : State
    few : rounds ≤ len
    steps : Rounds fuel stack end args rounds s last
    str : last.str ≡ emit end xs s.str
    nul : last.str.mem last.fmt ≡ 0

  Printed-step :
      (k len used : ℕ) (s s' : State) (items : List Item) (xs : List ℕ)
      → Rounds fuel stack end args k s s'
      → After fuel stack end args (format_chars items) xs used s s'
      → k + length (format_chars items) ≤ len
      → Printed (length (format_chars items)) (render args s'.taken items) s'
      → Printed len (xs ++ render args used items) s
  Printed-step k len used s s' items xs r a few p = record {
    rounds = k + p.rounds;
    last = p.last;
    few = omega (arith, p.few, few);
    steps = Rounds-trans fuel stack end args k p.rounds s s' p.last r p.steps;
    str = p.str ∙ rw (a.str, a.taken) (sym (emit-append end xs (render args used items) s.str));
    nul = p.nul;
  }

  After-Supplied :
      (used : ℕ) (s s' : State) (items : List Item) (xs : List ℕ)
      → After fuel stack end args (format_chars items) xs used s s'
      → Supplied end fuel args s.str used items
      → Supplied end fuel args s'.str s'.taken items
  After-Supplied used s s' items xs a given =
      rw (a.str, a.taken) (emit-Supplied end fuel args xs s.str used items given)

  format-Printed :
      (items : List Item) (s : State)
      → IsFormat items
      → IsReady s.spec.kind
      → Stored end fuel s.str s.fmt (format_chars items)
      → Supplied end fuel args s.str s.taken items
      → Printed (length (format_chars items)) (render args s.taken items) s
  format-Printed [] s h ready there given = record {
    rounds = 0;
    last = s;
    few = omega arith;
    steps = stay s;
    str = sym (emit-nil end s.str);
    nul = there.holds;
  }
  format-Printed (text first others ∷ items) s h ready there given =
      let (s', r, a) =
        text_round first others (format_chars items) s h.0 h.1 (NoText_lem items h.2) ready there in
      let given' = After-Supplied s.taken s s' items (first ∷ others) a given in
      Printed-step 1 _ s.taken s s' items (first ∷ others) r a
        (omega (arith, length-append others (format_chars items)))
        (format-Printed items s' h.3 a.kind a.there given')
  format-Printed (directive e ∷ items) s h ready there given =
      let (s', r, a) =
        width-Rounds fuel stack end args e.flags e.precision e.qualifier e.conversion
          (format_chars items) h.0.1 h.0.2 e.width s h.0.0 ready there given.0 in
      let given' = After-Supplied (behind e s.taken) s s' items _ a given.1 in
      Printed-step (rounds_of e.width e.precision) _ (behind e s.taken) s s' items _ r a
        (rounds_of-length e (format_chars items))
        (format-Printed items s' h.1 a.kind a.there given')

  format_loop-Printed :
      (len rounds : ℕ) (xs : List ℕ) (s : State)
      → Printed len xs s
      → len < rounds
      → format_loop fuel stack end args rounds s ≡ done (emit end xs s.str)
  unfolding format_loop
  format_loop-Printed len rounds xs s p enough =
      let r = rounds - suc p.rounds in
      let e : rounds ≡ p.rounds + suc r = omega (arith, enough, p.few) in
      let at_end : (p.last.str.mem p.last.fmt == 0) ≡ true = ground (arith, p.nul) in
      ap (λ j. format_loop fuel stack end args j s) e
      ∙ format_loop-Rounds fuel stack end args p.rounds (suc r) s p.last p.steps
      ∙ rw (format_loop, at_end) (ap done p.str)

-- What the loop prints, and what stands behind it.
vsnprintf-emit :
    (fuel : ℕ) (stack m : Mem) (buf size fmt : ℕ) (args : ℕ → ℕ) (items : List Item)
    → buf + size < 2 ^ 64
    → IsFormat items
    → Stored (buf + size) fuel (record { mem = m; cur = buf }) fmt (format_chars items)
    → Supplied (buf + size) fuel args (record { mem = m; cur = buf }) 0 items
    → vsnprintf fuel stack m buf size fmt args
      ≡ done (
          terminate buf
            (buf + size)
            size
            (emit (buf + size) (render args 0 items) (record { mem = m; cur = buf })))
unfolding vsnprintf format_loop
vsnprintf-emit fuel stack m buf size fmt args items fit h there given =
    let first = first_state m buf fmt in
    let p = format-Printed fuel stack (buf + size) args items first h tt there given in
    let loop =
      format_loop-Printed fuel stack (buf + size) args (length (format_chars items)) fuel
        (render args 0 items) first p there.few in
    rw (vsnprintf, limits-fit buf size fit, loop) refl

-- The buffer behind a text that was printed into it.
terminate-shown :
    (xs : List ℕ) (m : Mem) (buf size a : ℕ)
    → (terminate buf (buf + size) size (emit (buf + size) xs (record { mem = m; cur = buf }))).0 a
      ≡ shown m buf size xs a
unfolding terminate
terminate-shown xs m buf size a =
    let o : Out = record { mem = m; cur = buf } in
    let cur = emit-cur (buf + size) xs o in
    let there = emit-mem (buf + size) xs o a in ground (arith, cur, there)

terminate-length :
    (xs : List ℕ) (m : Mem) (buf size : ℕ)
    → (terminate buf (buf + size) size (emit (buf + size) xs (record { mem = m; cur = buf }))).1
      ≡ field 32 (length xs)
unfolding terminate
terminate-length xs m buf size =
    let cur = emit-cur (buf + size) xs (record { mem = m; cur = buf }) in
    ap (field 32) (omega (arith, cur))

-- For a buffer that does not run past the end of the address space, a format by the grammar
-- (numerals with a digit, a width that does not begin with 0, texts as long as they can be, the
-- letters and digits behind a pointer complete) that stands in memory apart from the buffer,
-- arguments of %s that lead to their strings, also apart from it, and more fuel than each of these
-- has characters, `vsnprintf` ends, returns the length of the text of the format, `render`, as an
-- int of 32 bits, and changes the memory only in the buffer, where, if it has room for a byte, as
-- much of the text stands as leaves room for a NUL, with the NUL behind it (`shown`). In the text,
-- flags, width and precision from digits or from the arguments, qualifiers and conversions have
-- the meaning that `spec_of` and `converted` give them, and every directive takes its arguments in
-- their order.
pub vsnprintf-render :
    (fuel : ℕ) (stack m : Mem) (buf size fmt : ℕ) (args : ℕ → ℕ) (items : List Item)
    → buf + size < 2 ^ 64
    → IsFormat items
    → Stored (buf + size) fuel (record { mem = m; cur = buf }) fmt (format_chars items)
    → Supplied (buf + size) fuel args (record { mem = m; cur = buf }) 0 items
    → Ends
        (λ (m', len).
          (len ≡ field 32 (length (render args 0 items)))
          × ((a : ℕ) → m' a ≡ shown m buf size (render args 0 items) a))
        (vsnprintf fuel stack m buf size fmt args)
vsnprintf-render fuel stack m buf size fmt args items fit h there given =
    let xs = render args 0 items in
    rw (vsnprintf-emit fuel stack m buf size fmt args items fit h there given)
      (terminate-length xs m buf size, terminate-shown xs m buf size)
