-- ===== src/Printk/Format.antt =====
-- The format strings of kernel/printk.c by their grammar.
pub mod Stored
pub mod Decode
pub mod Stages
pub mod Values
pub mod Convert
pub mod Rounds
pub mod Text
pub mod Width
pub mod Laws
use armv8_os.Prelude.{
  ℕ, zero, suc, ◌+◌, ◌-◌, ◌%◌, ◌^◌, ◌<◌, ◌≡◌, ◌≢◌, ◌==◌, ◌||◌, Bool, true, false, if◌then◌else◌,
  List, [], ◌∷◌, ◌++◌, Option, none, some, length, replicate, bit_or,
}
use armv8_os.Prelude.Int.{ℤ, pos, negsuc, pos_part}
use armv8_os.Ctype.{isalnum}
use armv8_os.Libc.Number.Digits.{chars, value}
use armv8_os.Printk.Spec
use armv8_os.Printk.Spec.{
  FormatType, PrintfSpec, sign_flag, left_flag, plus_flag, space_flag, zeropad_flag, small_flag,
  special_flag, has,
}
use armv8_os.Printk.Decode.{to_signed, not_negative}
use armv8_os.Printk.Number.{pointer_spec}
use armv8_os.Printk.Number.Layout.{number_text}
use armv8_os.Printk.Str.Laws.{string_text}
use armv8_os.Printk.Vsnprintf.{integer_arg}

pub data Flag : Type 0 where
  minus plus space hash nought : Flag

-- A width or a precision: left out, a numeral, or taken from the arguments.
pub data Amount : Type 0 where
  absent : Amount
  digits : List ℕ → Amount
  star : Amount

-- h, hh, l, ll, L, z and t.
pub data Qualifier : Type 0 where
  plain short byte long longlong big_long size ptrdiff : Qualifier

-- c, %, o, x, X, d, i, u, s and p. A string carries its characters, and a pointer the letters and
-- digits that stand behind it in the format.
pub data Conversion : Type 0 where
  char percent octal hex big_hex decimal integer unsigned : Conversion
  string pointer : List ℕ → Conversion

pub record Directive : Type 0 where
  pub flags : List Flag
  pub width : Amount
  pub precision : Option Amount
  pub qualifier : Qualifier
  pub conversion : Conversion

pub data Item : Type 0 where
  text : (first : ℕ) → (others : List ℕ) → Item
  directive : Directive → Item

-- The characters of a format.
abbrev pub flag_char : Flag → ℕ
flag_char minus = b'-'
flag_char plus = b'+'
flag_char space = b' '
flag_char hash = b'#'
flag_char nought = b'0'

abbrev pub flag_chars : List Flag → List ℕ
flag_chars [] = []
flag_chars (f ∷ fs) = flag_char f ∷ flag_chars fs

abbrev pub amount_chars : Amount → List ℕ
amount_chars absent = []
amount_chars (digits ds) = chars false ds
amount_chars star = b'*' ∷ []

abbrev pub precision_chars : Option Amount → List ℕ
precision_chars none = []
precision_chars (some a) = b'.' ∷ amount_chars a

abbrev pub qualifier_chars : Qualifier → List ℕ
qualifier_chars plain = []
qualifier_chars short = b'h' ∷ []
qualifier_chars byte = b'h' ∷ b'h' ∷ []
qualifier_chars long = b'l' ∷ []
qualifier_chars longlong = b'l' ∷ b'l' ∷ []
qualifier_chars big_long = b'L' ∷ []
qualifier_chars size = b'z' ∷ []
qualifier_chars ptrdiff = b't' ∷ []

abbrev pub conversion_char : Conversion → ℕ
conversion_char char = b'c'
conversion_char percent = b'%'
conversion_char octal = b'o'
conversion_char hex = b'x'
conversion_char big_hex = b'X'
conversion_char decimal = b'd'
conversion_char integer = b'i'
conversion_char unsigned = b'u'
conversion_char (string xs) = b's'
conversion_char (pointer ext) = b'p'

abbrev pub extension : Conversion → List ℕ
extension (pointer ext) = ext
extension _ = []

-- A directive from its precision on, and a format; `rest` is what follows.
abbrev pub ending_chars : Qualifier → Conversion → List ℕ → List ℕ
ending_chars q v rest = qualifier_chars q ++ (conversion_char v ∷ (extension v ++ rest))

abbrev pub directive_chars : Directive → List ℕ → List ℕ
directive_chars e rest =
    b'%'
    ∷ (flag_chars e.flags
        ++ (amount_chars e.width
            ++ (precision_chars e.precision ++ ending_chars e.qualifier e.conversion rest)))

abbrev pub format_chars : List Item → List ℕ
format_chars [] = []
format_chars (text first others ∷ items) = first ∷ (others ++ format_chars items)
format_chars (directive e ∷ items) = directive_chars e (format_chars items)

-- The formats that are meant. A numeral has a digit, and that of a width does not begin with 0, which is
-- a flag; a text is as long as it can be, and so are the letters behind a pointer.
abbrev pub IsNumeral : List ℕ → Type 0
IsNumeral [] = ⊥
IsNumeral (d ∷ []) = d < 10
IsNumeral (d ∷ e ∷ ds) = (d < 10) × IsNumeral (e ∷ ds)

abbrev pub first_of : List ℕ → ℕ
first_of [] = 0
first_of (x ∷ xs) = x

abbrev pub IsWidth : Amount → Type 0
IsWidth (digits ds) = (first_of ds ≢ 0) × IsNumeral ds
IsWidth _ = Unit

abbrev pub IsPrecision : Option Amount → Type 0
IsPrecision (some (digits ds)) = IsNumeral ds
IsPrecision _ = Unit

abbrev pub All {ℓ} : (ℕ → Type ℓ) → List ℕ → Type ℓ
All P [] = Unit
All P (x ∷ xs) = P x × All P xs

abbrev pub IsPlain : ℕ → Type 0
IsPlain x = (x ≢ 0) × (x ≢ b'%')

abbrev pub NoText : List Item → Type 0
NoText (text first others ∷ items) = ⊥
NoText _ = Unit

abbrev pub IsExtension : Conversion → (rest : List ℕ) → Type 0
IsExtension (pointer ext) rest = All (λ x. isalnum x ≡ true) ext × (isalnum (first_of rest) ≡ false)
IsExtension _ rest = Unit

abbrev pub IsDirective : Directive → (rest : List ℕ) → Type 0
IsDirective e rest = IsWidth e.width × IsPrecision e.precision × IsExtension e.conversion rest

abbrev pub IsFormat : List Item → Type 0
IsFormat [] = Unit
IsFormat (text first others ∷ items) =
    IsPlain first × All IsPlain others × NoText items × IsFormat items
IsFormat (directive e ∷ items) = IsDirective e (format_chars items) × IsFormat items
