-- ===== src/Ctype.antt =====
-- lib/ctype.c and include/lib/ctype.h: the table of character classes, the tests on it, and the
-- case conversions. A character is a number below 256, as `__ismask` casts to unsigned char.
pub mod Classes
use armv8_os.Prelude.{
  ℕ, ◌+◌, ◌-◌, ◌%◌, List, [], ◌∷◌, Bool, not, ◌&&◌, ◌==◌, leb, if◌then◌else◌, get_or, bit_and,
  bit_or,
}

abbrev pub upper : ℕ
upper = 0x01

abbrev pub lower : ℕ
lower = 0x02

abbrev pub digit : ℕ
digit = 0x04

abbrev pub cntrl : ℕ
cntrl = 0x08

abbrev pub punct : ℕ
punct = 0x10

abbrev pub space : ℕ
space = 0x20

abbrev pub hex : ℕ
hex = 0x40

abbrev pub hard_space : ℕ
hard_space = 0x80

unfoldable pub ctype : List ℕ
ctype =
    cntrl
    ∷ cntrl
    ∷ cntrl
    ∷ cntrl
    ∷ cntrl
    ∷ cntrl
    ∷ cntrl
    ∷ cntrl
    ∷ cntrl
    ∷ (bit_or cntrl space)
    ∷ (bit_or cntrl space)
    ∷ (bit_or cntrl space)
    ∷ (bit_or cntrl space)
    ∷ (bit_or cntrl space)
    ∷ cntrl
    ∷ cntrl
    ∷ cntrl
    ∷ cntrl
    ∷ cntrl
    ∷ cntrl
    ∷ cntrl
    ∷ cntrl
    ∷ cntrl
    ∷ cntrl
    ∷ cntrl
    ∷ cntrl
    ∷ cntrl
    ∷ cntrl
    ∷ cntrl
    ∷ cntrl
    ∷ cntrl
    ∷ cntrl
    ∷ (bit_or space hard_space)
    ∷ punct
    ∷ punct
    ∷ punct
    ∷ punct
    ∷ punct
    ∷ punct
    ∷ punct
    ∷ punct
    ∷ punct
    ∷ punct
    ∷ punct
    ∷ punct
    ∷ punct
    ∷ punct
    ∷ punct
    ∷ digit
    ∷ digit
    ∷ digit
    ∷ digit
    ∷ digit
    ∷ digit
    ∷ digit
    ∷ digit
    ∷ digit
    ∷ digit
    ∷ punct
    ∷ punct
    ∷ punct
    ∷ punct
    ∷ punct
    ∷ punct
    ∷ punct
    ∷ (bit_or upper hex)
    ∷ (bit_or upper hex)
    ∷ (bit_or upper hex)
    ∷ (bit_or upper hex)
    ∷ (bit_or upper hex)
    ∷ (bit_or upper hex)
    ∷ upper
    ∷ upper
    ∷ upper
    ∷ upper
    ∷ upper
    ∷ upper
    ∷ upper
    ∷ upper
    ∷ upper
    ∷ upper
    ∷ upper
    ∷ upper
    ∷ upper
    ∷ upper
    ∷ upper
    ∷ upper
    ∷ upper
    ∷ upper
    ∷ upper
    ∷ upper
    ∷ punct
    ∷ punct
    ∷ punct
    ∷ punct
    ∷ punct
    ∷ punct
    ∷ (bit_or lower hex)
    ∷ (bit_or lower hex)
    ∷ (bit_or lower hex)
    ∷ (bit_or lower hex)
    ∷ (bit_or lower hex)
    ∷ (bit_or lower hex)
    ∷ lower
    ∷ lower
    ∷ lower
    ∷ lower
    ∷ lower
    ∷ lower
    ∷ lower
    ∷ lower
    ∷ lower
    ∷ lower
    ∷ lower
    ∷ lower
    ∷ lower
    ∷ lower
    ∷ lower
    ∷ lower
    ∷ lower
    ∷ lower
    ∷ lower
    ∷ lower
    ∷ punct
    ∷ punct
    ∷ punct
    ∷ punct
    ∷ cntrl
    ∷ 0
    ∷ 0
    ∷ 0
    ∷ 0
    ∷ 0
    ∷ 0
    ∷ 0
    ∷ 0
    ∷ 0
    ∷ 0
    ∷ 0
    ∷ 0
    ∷ 0
    ∷ 0
    ∷ 0
    ∷ 0
    ∷ 0
    ∷ 0
    ∷ 0
    ∷ 0
    ∷ 0
    ∷ 0
    ∷ 0
    ∷ 0
    ∷ 0
    ∷ 0
    ∷ 0
    ∷ 0
    ∷ 0
    ∷ 0
    ∷ 0
    ∷ 0
    ∷ (bit_or space hard_space)
    ∷ punct
    ∷ punct
    ∷ punct
    ∷ punct
    ∷ punct
    ∷ punct
    ∷ punct
    ∷ punct
    ∷ punct
    ∷ punct
    ∷ punct
    ∷ punct
    ∷ punct
    ∷ punct
    ∷ punct
    ∷ punct
    ∷ punct
    ∷ punct
    ∷ punct
    ∷ punct
    ∷ punct
    ∷ punct
    ∷ punct
    ∷ punct
    ∷ punct
    ∷ punct
    ∷ punct
    ∷ punct
    ∷ punct
    ∷ punct
    ∷ punct
    ∷ upper
    ∷ upper
    ∷ upper
    ∷ upper
    ∷ upper
    ∷ upper
    ∷ upper
    ∷ upper
    ∷ upper
    ∷ upper
    ∷ upper
    ∷ upper
    ∷ upper
    ∷ upper
    ∷ upper
    ∷ upper
    ∷ upper
    ∷ upper
    ∷ upper
    ∷ upper
    ∷ upper
    ∷ upper
    ∷ upper
    ∷ punct
    ∷ upper
    ∷ upper
    ∷ upper
    ∷ upper
    ∷ upper
    ∷ upper
    ∷ upper
    ∷ lower
    ∷ lower
    ∷ lower
    ∷ lower
    ∷ lower
    ∷ lower
    ∷ lower
    ∷ lower
    ∷ lower
    ∷ lower
    ∷ lower
    ∷ lower
    ∷ lower
    ∷ lower
    ∷ lower
    ∷ lower
    ∷ lower
    ∷ lower
    ∷ lower
    ∷ lower
    ∷ lower
    ∷ lower
    ∷ lower
    ∷ lower
    ∷ punct
    ∷ lower
    ∷ lower
    ∷ lower
    ∷ lower
    ∷ lower
    ∷ lower
    ∷ lower
    ∷ lower
    ∷ []

unfoldable pub ismask : ℕ → ℕ
unfolding ctype
ismask x = get_or ctype (x % 256) 0

-- (__ismask(c) & mask) != 0
unfoldable pub has_class : ℕ → ℕ → Bool
unfolding ismask
has_class mask c = not (bit_and (ismask c) mask == 0)

unfoldable pub isalnum : ℕ → Bool
unfolding has_class
isalnum = has_class (bit_or (bit_or upper lower) digit)

unfoldable pub isalpha : ℕ → Bool
unfolding has_class
isalpha = has_class (bit_or upper lower)

unfoldable pub iscntrl : ℕ → Bool
unfolding has_class
iscntrl = has_class cntrl

unfoldable pub isgraph : ℕ → Bool
unfolding has_class
isgraph = has_class (bit_or (bit_or (bit_or punct upper) lower) digit)

unfoldable pub islower : ℕ → Bool
unfolding has_class
islower = has_class lower

unfoldable pub isprint : ℕ → Bool
unfolding has_class
isprint = has_class (bit_or (bit_or (bit_or (bit_or punct upper) lower) digit) hard_space)

unfoldable pub ispunct : ℕ → Bool
unfolding has_class
ispunct = has_class punct

unfoldable pub isspace : ℕ → Bool
unfolding has_class
isspace = has_class space

unfoldable pub isupper : ℕ → Bool
unfolding has_class
isupper = has_class upper

unfoldable pub isxdigit : ℕ → Bool
unfolding has_class
isxdigit = has_class (bit_or digit hex)

unfoldable pub isascii : ℕ → Bool
isascii c = leb (c % 256) 0x7f

unfoldable pub toascii : ℕ → ℕ
toascii c = bit_and (c % 256) 0x7f

-- The test by range, on an `int`.
unfoldable pub isdigit : ℕ → Bool
isdigit c = leb b'0' c && leb c b'9'

-- c -= 'A' - 'a', on an unsigned char.
unfoldable pub tolower : ℕ → ℕ
unfolding isupper
tolower c = if isupper c then (c + 32) % 256 else c

-- c -= 'a' - 'A'
unfoldable pub toupper : ℕ → ℕ
unfolding islower
toupper c = if islower c then (c + 256 - 32) % 256 else c

-- `_tolower`, the fast form for letters.
unfoldable pub fast_tolower : ℕ → ℕ
fast_tolower c = bit_or c 0x20

unfoldable pub isodigit : ℕ → Bool
isodigit c = leb b'0' c && leb c b'7'
