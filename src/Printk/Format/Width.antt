-- ===== src/Printk/Format/Width.antt =====
-- The rounds of the loop of vsnprintf in kernel/printk.c from the % of a directive on.
use armv8_os.Run.{done}
use armv8_os.Prelude.{
  ℕ, suc, ◌+◌, ◌<◌, ◌≡◌, ◌≢◌, refl, ap, ◌∙◌, List, [], ◌∷◌, ◌++◌, Option, none, some, length,
  length-append, arith,
}
use armv8_os.Prelude.Int.{ℤ, pos, negsuc}
use armv8_os.Memory.{Mem, IsString}
use armv8_os.Printk.Spec
use armv8_os.Printk.Spec.{FormatType, PrintfSpec}
use armv8_os.Printk.Decode.{to_signed, from_width, from_precision, decode_as, format_decode}
use armv8_os.Printk.Vsnprintf.{State, again, round, convert}
use armv8_os.Printk.Format.{
  Flag, Amount, absent, digits, star, Qualifier, Conversion, Directive, minus, conversion_char,
  extension, flag_chars, amount_chars, precision_chars, qualifier_chars, ending_chars,
  directive_chars, IsWidth, IsPrecision, IsExtension,
}
use armv8_os.Printk.Render.{
  flag_bits, taken_by, taken_by_precision, turned, width_of, spec_of, converted, second_of,
  third_of, behind,
}
use armv8_os.Printk.Format.Decode.{IsFlags, flag_bit-IsFlags, flag_bits-IsFlags}
use armv8_os.Printk.Format.Stages.{from_width_lem, from_width_star, from_start_lem}
use armv8_os.Printk.Format.Convert.{IsReady, IsSupplied}
use armv8_os.Printk.Format.Stored.{Stored, Stored-tail}
use armv8_os.Printk.Format.Rounds.{
  Stored-drop, some_left, decode_as-start, absorb_width-turned, Rounds, go, round_of, After,
  precision-Rounds,
}

length-flag_chars : (fs : List Flag) → length (flag_chars fs) ≡ length fs
length-flag_chars [] = refl
length-flag_chars (f ∷ fs) = ap suc (length-flag_chars fs)

-- A width that is an argument takes a round.
abbrev pub rounds_of : Amount → Option Amount → ℕ
rounds_of star p = suc (suc (taken_by_precision p))
rounds_of _ p = suc (taken_by_precision p)

turned-IsFlags : (w : ℤ) (flags : ℕ) → IsFlags flags → IsFlags (turned w flags).1
turned-IsFlags (pos n) flags h = h
turned-IsFlags (negsuc n) flags h = flag_bit-IsFlags minus flags h

tail_left :
    (p : Option Amount) (q : Qualifier) (v : Conversion) (rest : List ℕ) (m : Mem) (f : ℕ)
    → IsString m f (precision_chars p ++ ending_chars q v rest)
    → m f ≢ 0
tail_left none q v rest m f h =
    some_left m (qualifier_chars q) (extension v ++ rest) (conversion_char v) f h
tail_left (some a) q v rest m f h = some_left m [] _ b'.' f h

module _ (fuel : ℕ) (stack : Mem) (end : ℕ) (args : ℕ → ℕ) where
  module _ (fs : List Flag) (p : Option Amount) (q : Qualifier) (v : Conversion) (rest : List ℕ)
      (n : IsPrecision p) (ext : IsExtension v rest) where
    abbrev tail_chars : List ℕ
    tail_chars = precision_chars p ++ ending_chars q v rest

    abbrev directive_of : Amount → Directive
    directive_of w = record { flags = fs; width = w; precision = p; qualifier = q; conversion = v }

    abbrev text_of : Amount → ℕ → List ℕ
    text_of w k =
        converted q v (spec_of (directive_of w) (args k) (args (second_of (directive_of w) k)))
          (args (third_of (directive_of w) k))

    -- The first call of format_decode, up to the width.
    decode_lem :
        (w : Amount) (s : State)
        → IsWidth w
        → IsReady s.spec.kind
        → Stored end fuel s.str s.fmt (directive_chars (directive_of w) rest)
        → (format_decode fuel s.str.mem s.fmt s.spec
            ≡ from_width fuel s.str.mem
                (suc (s.fmt + length fs))
                (record (s.spec) { kind = Spec.none; flags = flag_bits 0 fs }))
          × Stored end fuel s.str (suc (s.fmt + length fs)) (amount_chars w ++ tail_chars)
          × (s.str.mem s.fmt ≢ 0)
    unfolding format_decode
    decode_lem w s h ready there =
        let len = length-flag_chars fs in
        let len' = length-append (flag_chars fs) (amount_chars w ++ tail_chars) in
        let e : suc (s.fmt + length fs) ≡ suc s.fmt + length (flag_chars fs) = omega (arith, len) in
        (
          decode_as-start s.spec.kind fuel s.str.mem s.fmt s.spec ready
              ∙ from_start_lem s.str.mem q v rest fuel s.fmt fs w p s.spec h there.holds
                  (omega (arith, there.few, len, len')),
          rw e (
              Stored-drop end fuel s.str (flag_chars fs) (amount_chars w ++ tail_chars) (suc s.fmt)
                (Stored-tail end fuel s.str s.fmt b'%' _ there)),
          some_left s.str.mem [] _ b'%' s.fmt there.holds,
        )

    fixed_width :
        (w : Amount) (s : State)
        → IsWidth w
        → w ≢ star
        → taken_by w ≡ 0
        → (width_of w (args s.taken) (flag_bits 0 fs)).1 ≡ flag_bits 0 fs
        → IsReady s.spec.kind
        → Stored end fuel s.str s.fmt (directive_chars (directive_of w) rest)
        → IsSupplied end fuel s.str v (args (third_of (directive_of w) s.taken))
        → (s' : State) × Rounds fuel stack end args (suc (taken_by_precision p)) s s'
          × After fuel stack end args rest
              (text_of w s.taken)
              (behind (directive_of w) s.taken)
              s
              s'
    fixed_width w s h fixed nothing same ready there given =
        let (read, there', left) = decode_lem w s h ready there in
        let len = length-append (amount_chars w) tail_chars in
        let few : length (amount_chars w) < fuel = omega (arith, there'.few, len) in
        let more =
          from_width_lem s.str.mem q v rest fuel (suc (s.fmt + length fs)) (args s.taken) w p
            (record (s.spec) { kind = Spec.none; flags = flag_bits 0 fs }) h fixed there'.holds
            few in
        let there'' = Stored-drop end fuel s.str (amount_chars w) tail_chars _ there' in
        let flags = flag_bits-IsFlags fs 0 (omega arith, refl) in
        rw same (
          precision-Rounds fuel stack end args q v rest ext p (s.taken + taken_by w) s
            (suc (s.fmt + length fs) + length (amount_chars w))
            (record (s.spec) {
              kind = Spec.none;
              field_width = (width_of w (args s.taken) (flag_bits 0 fs)).0;
              flags = flag_bits 0 fs;
            })
            (omega (arith, nothing)) n left (read ∙ more) there'' flags given)

    star_width :
        (s : State)
        → IsReady s.spec.kind
        → Stored end fuel s.str s.fmt (directive_chars (directive_of star) rest)
        → IsSupplied end fuel s.str v (args (third_of (directive_of star) s.taken))
        → (s' : State) × Rounds fuel stack end args (suc (suc (taken_by_precision p))) s s'
          × After fuel stack end args rest
              (text_of star s.taken)
              (behind (directive_of star) s.taken)
              s
              s'
    unfolding convert format_decode decode_as
    star_width s ready there given =
        let (read, there', left) = decode_lem star s tt ready there in
        let f = suc (s.fmt + length fs) in
        let width = to_signed 23 (args s.taken) in
        let flags = flag_bits 0 fs in
        let spec1 : PrintfSpec = record (s.spec) {
          kind = Spec.width;
          field_width = width;
          flags = flags;
        } in
        let s1 : State = record s { fmt = f + 1; spec = spec1; taken = suc s.taken } in
        let first : round fuel stack end args s ≡ done (again s1) =
          round_of fuel stack end args s _ _ (done (again s1))
            (read ∙ from_width_star s.str.mem q v rest fuel f p _ there'.holds) refl in
        let there'' = Stored-drop end fuel s.str (amount_chars star) tail_chars f there' in
        let ok = turned-IsFlags width flags (flag_bits-IsFlags fs 0 (omega arith, refl)) in
        let (s', r, a) =
          precision-Rounds fuel stack end args q v rest ext p (s.taken + 1) s1 (f + 1)
            (record spec1 {
              kind = Spec.none;
              field_width = (turned width flags).0;
              flags = (turned width flags).1;
            })
            (omega arith) n (tail_left p q v rest s.str.mem (f + 1) there''.holds)
            (ap (from_precision fuel s.str.mem (f + 1)) (absorb_width-turned spec1)) there'' ok
            given in
        (
          s',
          go left first r,
          record { str = a.str; there = a.there; taken = a.taken; kind = a.kind },
        )

    pub width-Rounds :
        (w : Amount) (s : State)
        → IsWidth w
        → IsReady s.spec.kind
        → Stored end fuel s.str s.fmt (directive_chars (directive_of w) rest)
        → IsSupplied end fuel s.str v (args (third_of (directive_of w) s.taken))
        → (s' : State) × Rounds fuel stack end args (rounds_of w p) s s'
          × After fuel stack end args rest
              (text_of w s.taken)
              (behind (directive_of w) s.taken)
              s
              s'
    width-Rounds star s h ready there given = star_width s ready there given
    width-Rounds absent s h ready there given =
        fixed_width absent s h (ground arith) refl refl ready there given
    width-Rounds (digits ds) s h ready there given =
        fixed_width (digits ds) s h (ground arith) refl refl ready there given
