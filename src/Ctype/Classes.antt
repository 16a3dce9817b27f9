-- ===== src/Ctype/Classes.antt =====
-- The table of lib/ctype.c against the classes that its names promise, over all 256 characters.
use armv8_os.Prelude.{
  ℕ, ◌<◌, ◌≡◌, refl, Bool, true, false, not, ◌&&◌, ◌||◌, leb, ◌==◌, ==_iff, arith,
}
use armv8_os.Prelude.Bits.{check_below, checked}
use armv8_os.Ctype.{
  isalnum, isalpha, isgraph, islower, ispunct, isupper, isxdigit, isdigit, tolower, toupper,
}

-- Two tests agree.
abbrev pub iff : Bool → Bool → Bool
iff true b = b
iff false b = not b

pub iff_sound : (a b : Bool) → iff a b ≡ true → a ≡ b
iff_sound true b h = ground arith
iff_sound false b h = ground arith

abbrev pub in_range : ℕ → ℕ → ℕ → Bool
in_range lo hi c = leb lo c && leb c hi

-- In ASCII the hex digits are 0-9, A-F and a-f.
xdigit_table :
    check_below 256
      (λ c. iff (isxdigit c) (isdigit c || in_range b'A' b'F' c || in_range b'a' b'f' c))
    ≡ true
unfolding check_below isxdigit isdigit
xdigit_table = refl

-- For every character, the table test `isxdigit` holds exactly for 0-9, A-F and a-f.
pub isxdigit-ranges :
    (c : ℕ) → c < 256 → isxdigit c ≡ (isdigit c || in_range b'A' b'F' c || in_range b'a' b'f' c)
isxdigit-ranges c h = iff_sound _ _ (checked _ 256 h xdigit_table)

-- The letters of Latin-1.
abbrev pub is_upper_latin : ℕ → Bool
is_upper_latin c = in_range b'A' b'Z' c || in_range 192 222 c && not (c == 215)

abbrev pub is_lower_latin : ℕ → Bool
is_lower_latin c = in_range b'a' b'z' c || in_range 223 255 c && not (c == 247)

letter_table :
    check_below 256 (λ c. iff (isupper c) (is_upper_latin c) && iff (islower c) (is_lower_latin c))
    ≡ true
unfolding check_below isupper islower
letter_table = refl

pub both : (a b : Bool) → (a && b) ≡ true → (a ≡ true) × (b ≡ true)
both a b h = ground arith

-- For every character, `isupper` and `islower` hold exactly for the upper and the lower case
-- letters of Latin-1.
pub case-ranges :
    (c : ℕ) → c < 256 → (isupper c ≡ is_upper_latin c) × (islower c ≡ is_lower_latin c)
case-ranges c h =
    let (p, q) = both _ _ (checked _ 256 h letter_table) in (iff_sound _ _ p, iff_sound _ _ q)

partition_table :
    check_below 256 (λ c.
      iff (isalnum c) (isalpha c || isdigit c)
      && iff (isalpha c) (isupper c || islower c)
      && iff (isgraph c) (isalnum c || ispunct c))
    ≡ true
unfolding check_below isalnum isalpha isdigit isupper islower isgraph ispunct
partition_table = refl

-- For every character, `isalnum` is `isalpha` or `isdigit`, `isalpha` is `isupper` or `islower`,
-- and `isgraph` is `isalnum` or `ispunct`.
pub classes_partition :
    (c : ℕ)
    → c < 256
    → (isalnum c ≡ (isalpha c || isdigit c))
      × (isalpha c ≡ (isupper c || islower c))
      × (isgraph c ≡ (isalnum c || ispunct c))
classes_partition c h =
    let (p, q) = both _ _ (checked _ 256 h partition_table) in
    let (p', q') = both _ _ p in (iff_sound _ _ p', iff_sound _ _ q', iff_sound _ _ q)

case_table :
    check_below 256 (λ c.
      not (isupper (tolower c))
      && iff (islower (tolower c)) (isalpha c)
      && (not (isupper c) || toupper (tolower c) == c))
    ≡ true
unfolding check_below isupper islower isalpha tolower toupper
case_table = refl

or_not : (a b : Bool) → (not a || b) ≡ true → a ≡ true → b ≡ true
or_not a b h k = ground arith

false_of_not : (b : Bool) → not b ≡ true → b ≡ false
false_of_not b h = ground arith

-- For every character, `tolower` gives no upper case letter, gives a lower case letter exactly for
-- a letter, and `toupper` undoes it on an upper case letter.
tolower_lem :
    (c : ℕ)
    → c < 256
    → (isupper (tolower c) ≡ false)
      × (islower (tolower c) ≡ isalpha c)
      × (isupper c ≡ true → toupper (tolower c) ≡ c)
tolower_lem c h =
    let (p, q) = both _ _ (checked _ 256 h case_table) in
    let (p', q') = both _ _ p in
    (false_of_not _ p', iff_sound _ _ q', λ u. (==_iff _ c).0 (or_not _ _ q u))
