-- ===== src/Printk/Str/Laws.antt =====
-- string of kernel/printk.c prints the string, cut to the precision and padded to the width.
use armv8_os.Run.{done}
use armv8_os.Prelude.{
  ℕ, zero, suc, ◌+◌, ◌≤◌, ◌<◌, ◌≡◌, ap, ◌⊎◌, List, [], ◌∷◌, length, take, ltb, arith, false, ◌==◌,
  Bool-cases, inl, inr,
}
use armv8_os.Prelude.Int.{ℤ, pos, negsuc, pos_part}
use armv8_os.Memory.{IsString}
use armv8_os.Libc.Copy.Laws.{IsString-store}
use armv8_os.Printk.Spec.{PrintfSpec}
use armv8_os.Printk.Output.{Out, put, emit}
use armv8_os.Printk.Str.{string_loop, string}
use armv8_os.Printk.Str.Widen.{pad_text, widen_string-emit}

-- A negative precision is no limit.
abbrev pub limited : ℤ → List ℕ → List ℕ
limited (pos n) xs = take n xs
limited (negsuc n) xs = xs

-- The string at `s` is not printed over.
abbrev pub Apart : ℕ → ℕ → List ℕ → Out → Type 0
Apart end s xs o = (end ≤ s) ⊎ (s + length xs < o.cur)

pub put-IsString :
    (end s c : ℕ) (xs : List ℕ) (o : Out)
    → IsString o.mem s xs
    → Apart end s xs o
    → IsString (put end c o).mem s xs
unfolding put
put-IsString end s c xs o h apart = elim (Bool-cases (ltb o.cur end)) [
  | inl room ↦ rw room (IsString-store o.mem s o.cur c xs h (ground arith))
  | inr full ↦ rw full h
]

Apart-put :
    (end s x c : ℕ) (xs : List ℕ) (o : Out)
    → Apart end s (x ∷ xs) o
    → Apart end (suc s) xs o × Apart end (suc s) xs (put end c o)
unfolding put
Apart-put end s x c xs o a = ground arith

string_loop-emit :
    (fuel end s : ℕ) (lim : ℤ) (len : ℕ) (o : Out) (xs : List ℕ)
    → IsString o.mem s xs
    → Apart end s xs o
    → length xs < fuel
    → string_loop fuel end s lim len o
      ≡ done (emit end (limited lim xs) o, len + length (limited lim xs))
unfolding string_loop emit
string_loop-emit zero end s lim len o xs h a f = absurd (omega arith)
string_loop-emit (suc fuel) end s (pos zero) len o xs h a f = ground arith
string_loop-emit (suc fuel) end s (pos (suc n)) len o [] h a f = ground arith
string_loop-emit (suc fuel) end s (pos (suc n)) len o (x ∷ xs) h a f =
    let nz : (x == 0) ≡ false = ground arith in
    let (near, far) = Apart-put end s x x xs o a in
    let kept = put-IsString end (suc s) x xs o h.2 near in
    let more =
      string_loop-emit fuel end (suc s) (pos n) (suc len) (put end x o) xs kept far (omega arith) in
    rw (h.0, nz, more)
      (ap (λ k. done (emit end (limited (pos n) xs) (put end x o), k)) (omega arith))
string_loop-emit (suc fuel) end s (negsuc n) len o [] h a f = ground arith
string_loop-emit (suc fuel) end s (negsuc n) len o (x ∷ xs) h a f =
    let nz : (x == 0) ≡ false = ground arith in
    let (near, far) = Apart-put end s x x xs o a in
    let kept = put-IsString end (suc s) x xs o h.2 near in
    let more =
      string_loop-emit fuel end (suc s) (negsuc (suc n)) (suc len) (put end x o) xs kept far
        (omega arith) in
    rw (h.0, nz, more)
      (ap (λ k. done (emit end (limited (negsuc (suc n)) xs) (put end x o), k)) (omega arith))

abbrev pub string_text : PrintfSpec → List ℕ → List ℕ
string_text spec xs = pad_text spec.flags (pos_part spec.field_width) (limited spec.precision xs)

-- For a string that is not printed over, with fuel for it, `string` ends and prints the string cut
-- to the precision (no limit if negative) and padded with spaces to the width, on the right if
-- LEFT is set and on the left if not; this holds also where the output ends in the middle of the
-- text, although the padding on the left is made by moving the text.
pub string-emit :
    (fuel end s : ℕ) (spec : PrintfSpec) (o : Out) (xs : List ℕ)
    → IsString o.mem s xs
    → Apart end s xs o
    → length xs < fuel
    → string fuel end s spec o ≡ done (emit end (string_text spec xs) o)
unfolding string
string-emit fuel end s spec o xs h a f =
    let loop = string_loop-emit fuel end s spec.precision 0 o xs h a f in
    let e : 0 + length (limited spec.precision xs) ≡ length (limited spec.precision xs) =
      omega arith in
    rw (loop, string, e) (ap done (widen_string-emit end spec (limited spec.precision xs) o))
