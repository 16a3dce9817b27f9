-- ===== src/Printk/Format/Convert.antt =====
-- What the switch of vsnprintf in kernel/printk.c prints for one specification.
use armv8_os.Printk.Format.Values.{
  emit-one, put_char-emit, integer_arg-lt, argument_lem, pointer_string-emit,
}
use armv8_os.Run.{done}
use armv8_os.Prelude.{
  length-append, ℕ, zero, suc, ◌+◌, ◌%◌, ◌^◌, ◌<◌, ◌≡◌, refl, ap, ◌∙◌, Bool, true, false, List, [],
  ◌∷◌, ◌++◌, length, arith,
}
use armv8_os.Memory.{Mem, IsString}
use armv8_os.Ctype.{isalnum}
use armv8_os.Printk.Spec
use armv8_os.Printk.Spec.{FormatType, PrintfSpec, left_flag, has}
use armv8_os.Printk.Output.{Out, emit}
use armv8_os.Printk.Number.{number, pointer_string}
use armv8_os.Printk.Number.Laws.{IsSpec, number-emit}
use armv8_os.Printk.Str.Laws.{string-emit}
use armv8_os.Printk.Format.Decode.{IsString-first}
use armv8_os.Printk.Vsnprintf.{State, again, integer_arg, skip_alnum, convert}
use armv8_os.Printk.Format.{
  string_text, IsExtension, number_text, Qualifier, plain, Conversion, char, percent, octal, hex,
  big_hex, decimal, integer, unsigned, string, pointer, extension, All, first_of,
}
use armv8_os.Printk.Render.{
  pointer_layout, argument, type_of, kind_of, converted, taken_by_conversion,
}
use armv8_os.Printk.Format.Stored.{Stored, emit-Stored}

skip_alnum_lem :
    (fuel : ℕ) (m : Mem) (f : ℕ) (ext rest : List ℕ)
    → All (λ x. isalnum x ≡ true) ext
    → IsString m f (ext ++ rest)
    → isalnum (first_of rest) ≡ false
    → length ext < fuel
    → skip_alnum fuel m f ≡ done (f + length ext)
unfolding skip_alnum
skip_alnum_lem zero m f ext rest a h last few = absurd (omega arith)
skip_alnum_lem (suc fuel) m f [] rest a h last few =
    let e : m f ≡ first_of rest = IsString-first m rest f h in
    rw (skip_alnum, e, last) (ap done (omega arith))
skip_alnum_lem (suc fuel) m f (x ∷ ext) rest a h last few =
    let more = skip_alnum_lem fuel m (suc f) ext rest a.1 h.2 last (omega arith) in
    rw (skip_alnum, h.0, a.0, more) (ap done (omega arith))

-- A specification that no width or precision is still missing from.
abbrev pub IsReady : FormatType → Type 0
IsReady Spec.width = ⊥
IsReady Spec.precision = ⊥
IsReady _ = Unit

type_of-IsReady : (q : Qualifier) (signed : Bool) → IsReady (type_of q signed)
type_of-IsReady plain true = tt
type_of-IsReady _ true = tt
type_of-IsReady plain false = tt
type_of-IsReady _ false = tt

kind_of-IsReady : (q : Qualifier) (v : Conversion) → IsReady (kind_of q v)
kind_of-IsReady q decimal = type_of-IsReady q true
kind_of-IsReady q integer = type_of-IsReady q true
kind_of-IsReady q octal = type_of-IsReady q false
kind_of-IsReady q hex = type_of-IsReady q false
kind_of-IsReady q big_hex = type_of-IsReady q false
kind_of-IsReady q unsigned = type_of-IsReady q false
kind_of-IsReady q _ = tt

-- The argument of a %s leads to its characters.
abbrev pub IsSupplied : (end fuel : ℕ) → Out → Conversion → (arg : ℕ) → Type 0
IsSupplied end fuel o (string xs) arg = Stored end fuel o arg xs
IsSupplied end fuel o _ arg = Unit

-- What a conversion comes to.
pub record Done (end : ℕ) (args : ℕ → ℕ) (q : Qualifier) (v : Conversion) (s s' : State)
    : Type 0 where
  pub str : s'.str ≡ emit end (converted q v s.spec (args s.taken)) s.str
  pub fmt : s'.fmt ≡ s.fmt + length (extension v)
  pub taken : s'.taken ≡ s.taken + taken_by_conversion v
  pub kind : IsReady s'.spec.kind

module _ (fuel : ℕ) (stack : Mem) (end : ℕ) (args : ℕ → ℕ) where
  convert_integer :
      (q : Qualifier) (signed : Bool) (old : ℕ) (s : State)
      → convert fuel stack end args (type_of q signed) old s
        ≡ done (
            again (record s {
              str = number stack end (integer_arg (type_of q signed) (args s.taken)) s.spec s.str;
              taken = suc s.taken;
            }))
  unfolding convert
  convert_integer plain true old s = refl
  convert_integer _ true old s = refl
  convert_integer plain false old s = refl
  convert_integer _ false old s = refl

  abbrev IsInteger : Conversion → Type 0
  IsInteger char = ⊥
  IsInteger percent = ⊥
  IsInteger (string xs) = ⊥
  IsInteger (pointer ext) = ⊥
  IsInteger _ = Unit

  integer_Done :
      (q : Qualifier) (v : Conversion) (s s' : State)
      → IsInteger v
      → s'.str ≡ emit end (converted q v s.spec (args s.taken)) s.str
      → s'.fmt ≡ s.fmt
      → s'.taken ≡ suc s.taken
      → IsReady s'.spec.kind
      → Done end args q v s s'
  integer_Done q char s s' i e f t r = absurd i
  integer_Done q percent s s' i e f t r = absurd i
  integer_Done q (string xs) s s' i e f t r = absurd i
  integer_Done q (pointer ext) s s' i e f t r = absurd i
  integer_Done q _ s s' i e f t r = record {
    str = e;
    fmt = omega (arith, f);
    taken = omega (arith, t);
    kind = r;
  }

  integer_lem :
      (q : Qualifier) (v : Conversion) (signed : Bool) (old : ℕ) (s : State)
      → IsInteger v
      → ((spec : PrintfSpec) (w : ℕ)
          → converted q v spec w ≡ number_text (argument q signed w) spec)
      → s.spec.kind ≡ type_of q signed
      → IsSpec s.spec
      → (s' : State) × (convert fuel stack end args (type_of q signed) old s ≡ done (again s'))
        × Done end args q v s s'
  integer_lem q v signed old s i reads k ok = (
    _,
    convert_integer q signed old s,
    integer_Done q v s _ i
        (number-emit stack end _ s.spec ok (integer_arg-lt (type_of q signed) (args s.taken)) s.str
          ∙ rw (reads s.spec (args s.taken), argument_lem q signed (args s.taken)) refl)
        refl refl (rw k (type_of-IsReady q signed)),
  )

  -- The switch prints the text of the conversion, and the format goes on behind it.
  pub convert_lem :
      (q : Qualifier) (v : Conversion) (rest : List ℕ) (old : ℕ) (s : State)
      → s.spec.kind ≡ kind_of q v
      → IsSpec s.spec
      → IsSupplied end fuel s.str v (args s.taken)
      → Stored end fuel s.str s.fmt (extension v ++ rest)
      → IsExtension v rest
      → (s' : State) × (convert fuel stack end args (kind_of q v) old s ≡ done (again s'))
        × Done end args q v s s'
  unfolding convert
  convert_lem q char rest old s k ok given there ext = (
    _,
    refl,
    record {
      str = put_char-emit end (args s.taken) s.spec s.str;
      fmt = omega arith;
      taken = omega arith;
      kind = rw k tt;
    },
  )
  convert_lem q percent rest old s k ok given there ext = (
    _,
    refl,
    record {
      str = emit-one end b'%' s.str;
      fmt = omega arith;
      taken = omega arith;
      kind = rw k tt;
    },
  )
  convert_lem q (string xs) rest old s k ok given there ext =
      let printed =
        string-emit fuel end (args s.taken) s.spec s.str xs given.holds given.apart given.few in
      (
        record s { str = emit end (string_text s.spec xs) s.str; taken = suc s.taken },
        rw printed refl,
        record { str = refl; fmt = omega arith; taken = omega arith; kind = rw k tt },
      )
  convert_lem q (pointer ext) rest old s k ok given there letters =
      let o = pointer_string stack end (args s.taken % 2 ^ 64) s.spec s.str in
      let printed : o
          ≡ emit end (number_text (args s.taken % 2 ^ 64) (pointer_layout s.spec)) s.str =
        pointer_string-emit stack end _ s.spec s.str ok.byte (omega arith) in
      let kept =
        emit-Stored end fuel (number_text (args s.taken % 2 ^ 64) (pointer_layout s.spec)) s.str
          s.fmt (ext ++ rest) there in
      let skipped =
        skip_alnum_lem fuel o.mem s.fmt ext rest letters.0 (rw printed kept.holds) letters.1
          (omega (arith, there.few, length-append ext rest)) in
      (
        record s { fmt = s.fmt + length ext; str = o; taken = suc s.taken },
        rw skipped refl,
        record { str = printed; fmt = refl; taken = omega arith; kind = rw k tt },
      )
  convert_lem q octal rest old s k ok given there ext =
      integer_lem q octal false old s tt (λ spec w. refl) k ok
  convert_lem q hex rest old s k ok given there ext =
      integer_lem q hex false old s tt (λ spec w. refl) k ok
  convert_lem q big_hex rest old s k ok given there ext =
      integer_lem q big_hex false old s tt (λ spec w. refl) k ok
  convert_lem q unsigned rest old s k ok given there ext =
      integer_lem q unsigned false old s tt (λ spec w. refl) k ok
  convert_lem q decimal rest old s k ok given there ext =
      integer_lem q decimal true old s tt (λ spec w. refl) k ok
  convert_lem q integer rest old s k ok given there ext =
      integer_lem q integer true old s tt (λ spec w. refl) k ok
