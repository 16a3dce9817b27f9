-- ===== src/Printk/Vsnprintf/Laws.antt =====
-- vsnprintf of kernel/printk.c ends on every format, stays inside its buffer and terminates it.
use armv8_os.Run.{Run, Ends-bind_with, done, Ends, Ends-bind, Ends-mono}
use armv8_os.Prelude.{
  ◌∙◌, ◌<◌, refl, false, ℕ, zero, suc, ◌+◌, ◌-◌, ◌%◌, ◌^◌, ◌≤◌, ◌≡◌, ◌≢◌, ◌⊎◌, ◌==◌, ltb, min,
  if◌then◌else◌, if_holds, arith,
}
use armv8_os.Prelude.Int.{negsuc, pos, ℤ}
use armv8_os.Memory.{Mem}
use armv8_os.Ctype.{isalnum}
use armv8_os.Libc.Block.Laws.{memcpy-outside}
use armv8_os.Printk.Spec
use armv8_os.Printk.Spec.{FormatType, PrintfSpec, has, left_flag}
use armv8_os.Printk.Decode.{to_signed, format_decode}
use armv8_os.Printk.Decode.Progress.{format_decode-Decoded}
use armv8_os.Printk.Output.{Out}
use armv8_os.Printk.Output.Kept.{Kept, Outside, put-Kept, pad_gt-Kept}
use armv8_os.Printk.Number.{pointer_string}
use armv8_os.Printk.Number.Keep.{number-Kept, pointer_string-Kept}
use armv8_os.Printk.Str.Keep.{Terminated, string-Kept}
use armv8_os.Printk.Vsnprintf.{
  pad_field, zero_spec, string, State, Next, again, stop, copy_text, put_char, skip_alnum, convert,
  round, format_loop, terminate, limits, vsnprintf, integer_arg,
}

isalnum-nul : isalnum 0 ≡ false
unfolding isalnum
isalnum-nul = refl

skip_alnum-Ends :
    (fuel : ℕ) (m : Mem) (fmt z : ℕ)
    → m z ≡ 0
    → fmt ≤ z
    → z < fmt + fuel
    → Ends (λ r. (fmt ≤ r) × (r ≤ z)) (skip_alnum fuel m fmt)
unfolding skip_alnum
skip_alnum-Ends zero m fmt z nul h e = omega arith
skip_alnum-Ends (suc fuel) m fmt z nul h e =
    if_holds (Ends (λ r. (fmt ≤ r) × (r ≤ z))) (isalnum (m fmt))
      (λ more.
        let next : suc fmt ≤ z = grind (arith, isalnum-nul) in
        Ends-mono _ _ (skip_alnum fuel m (suc fmt)) (λ r p. (omega (arith, p), p.1))
          (skip_alnum-Ends fuel m (suc fmt) z nul next (omega arith)))
      (λ _. (omega arith, h))

copy_text-Kept :
    (m : Mem) (lo end old_fmt read : ℕ) (o : Out)
    → Kept m lo end o
    → Kept m lo end (copy_text end old_fmt read o)
unfolding copy_text
copy_text-Kept m lo end old_fmt read o k = record {
  start = omega (arith, k.start);
  kept = λ a out_a.
      let count : ℕ = if ltb (end - o.cur) read then end - o.cur else read in
      ground (arith, k.start, k.kept a, memcpy-outside o.mem o.cur old_fmt count a);
}

pad_field-Kept :
    (m : Mem) (lo end c : ℕ) (width : ℤ) (o : Out)
    → Kept m lo end o
    → Kept m lo end ((pad_field end c width o).0)
unfolding pad_field
pad_field-Kept m lo end c (pos n) o k = pad_gt-Kept c (pos n) o k
pad_field-Kept m lo end c (negsuc n) o k =
    if_holds (λ (r : Out × ℤ). Kept m lo end r.0) (n == 2 ^ 23 - 1)
      (λ _. pad_gt-Kept c (pos (2 ^ 23)) o k) (λ _. pad_gt-Kept c (negsuc n) o k)

put_char-Kept :
    (m : Mem) (lo end w : ℕ) (spec : PrintfSpec) (o : Out)
    → Kept m lo end o
    → Kept m lo end ((put_char end w spec o).0)
unfolding put_char
put_char-Kept m lo end w spec o k =
    let k1 =
      if_holds (λ (r : Out × ℤ). Kept m lo end r.0) (has left_flag spec.flags)
        {x = (o, spec.field_width)} {y = pad_field end b' ' spec.field_width o} (λ _. k)
        (λ _. pad_field-Kept m lo end b' ' spec.field_width o k) in
    pad_field-Kept m lo end b' ' _ _ (put-Kept (w % 2 ^ 8) _ k1)

-- The state of the loop: the format's NUL at `z` is ahead, and the output is kept.
record Good (m : Mem) (lo end z : ℕ) (s : State) : Type 0 where
  ahead : s.fmt ≤ z
  output : Kept m lo end s.str

abbrev After : Mem → (lo end z fmt : ℕ) → Next → Type 0
After m lo end z fmt (again s) = Good m lo end z s × (fmt < s.fmt)
After m lo end z fmt (stop o) = Kept m lo end o

module _ (fuel : ℕ) (stack m : Mem) (lo end z : ℕ) (args : ℕ → ℕ) (nul : m z ≡ 0)
    (nul_apart : Outside lo end z) (strings : (k : ℕ) → Terminated m lo end fuel (args k)) where
  convert-After :
      (kind : FormatType) (old_fmt : ℕ) (s : State)
      → Good m lo end z s
      → (old_fmt < s.fmt) ⊎ (kind ≡ Spec.invalid)
      → z < old_fmt + fuel
      → Ends (After m lo end z old_fmt) (convert fuel stack end args kind old_fmt s)
  unfolding convert
  convert-After Spec.none old_fmt s g h e = (
    record { ahead = g.ahead; output = copy_text-Kept m lo end old_fmt _ s.str g.output },
    ground arith,
  )
  convert-After Spec.width old_fmt s g h e =
      (record { ahead = g.ahead; output = g.output }, ground arith)
  convert-After Spec.precision old_fmt s g h e =
      (record { ahead = g.ahead; output = g.output }, ground arith)
  convert-After Spec.char old_fmt s g h e = (
    record {
      ahead = g.ahead;
      output = put_char-Kept m lo end (args s.taken) s.spec s.str g.output;
    },
    ground arith,
  )
  convert-After Spec.str old_fmt s g h e =
      Ends-bind _ _ (string fuel end (args s.taken) s.spec s.str) _
        (string-Kept fuel (args s.taken) s.spec s.str (strings s.taken) g.output)
        (λ o k. (record { ahead = g.ahead; output = k }, ground arith))
  convert-After Spec.ptr old_fmt s g h e =
      let o = pointer_string stack end (args s.taken % 2 ^ 64) s.spec s.str in
      let k = pointer_string-Kept stack (args s.taken % 2 ^ 64) s.spec s.str g.output in
      Ends-bind _ _ (skip_alnum fuel o.mem s.fmt) _
        (skip_alnum-Ends fuel o.mem s.fmt z (k.kept z nul_apart ∙ nul) g.ahead (ground arith))
        (λ fmt p. (record { ahead = p.1; output = k }, ground (arith, p)))
  convert-After Spec.percent_char old_fmt s g h e =
      (record { ahead = g.ahead; output = put-Kept b'%' s.str g.output }, ground arith)
  convert-After Spec.invalid old_fmt s g h e = g.output
  convert-After kind old_fmt s g h e = (
    record {
      ahead = g.ahead;
      output = number-Kept stack (integer_arg kind (args s.taken)) s.spec s.str g.output;
    },
    ground arith,
  )

  round-After :
      (s : State)
      → Good m lo end z s
      → s.str.mem s.fmt ≢ 0
      → z < s.fmt + fuel
      → Ends (After m lo end z s.fmt) (round fuel stack end args s)
  unfolding round
  round-After s g some_left e =
      let nul' = g.output.kept z nul_apart ∙ nul in
      Ends-bind _ _ (format_decode fuel (s.str.mem) s.fmt s.spec) _
        (format_decode-Decoded (s.str.mem) z nul' fuel s.fmt s.spec g.ahead e some_left)
        (λ r d.
          convert-After r.1.kind s.fmt (record s { fmt = r.0; spec = r.1 })
            (record { ahead = d.1; output = g.output }) d.0 e)

  go_on :
      (rounds fmt : ℕ)
      → ((s : State)
          → Good m lo end z s
          → fmt < s.fmt
          → Ends (Kept m lo end) (format_loop fuel stack end args rounds s))
      → (n : Next) → After m lo end z fmt n
      → Ends
          (Kept m lo end)
          (elim n [ again s' ↦ format_loop fuel stack end args rounds s' | stop o ↦ done o ])
  go_on rounds fmt go (again s) after = go s after.0 after.1
  go_on rounds fmt go (stop o) after = after

  format_loop-Ends :
      (rounds : ℕ) (s : State)
      → Good m lo end z s
      → z < s.fmt + rounds
      → z < s.fmt + fuel
      → Ends (Kept m lo end) (format_loop fuel stack end args rounds s)
  unfolding format_loop
  format_loop-Ends zero s g h e = omega (arith, g.ahead)
  format_loop-Ends (suc rounds) s g h e =
      if_holds (Ends (Kept m lo end)) (s.str.mem s.fmt == 0) (λ _. g.output)
        (λ more. Ends-bind _ _ (round fuel stack end args s) _ (round-After s g (ground arith) e) (
          go_on rounds s.fmt (λ s' g' further.
            format_loop-Ends rounds s' g' (omega (arith, further)) (omega (arith, further)))))

pub limits-fit : (buf size : ℕ) → buf + size < 2 ^ 64 → limits buf size ≡ (buf + size, size)
unfolding limits
limits-fit buf size fit = ground arith

-- The result of vsnprintf, for the output that the loop ends with: only the buffer is written, the
-- text in it is terminated, and its length is returned as an int.
pub record Formatted (m : Mem) (buf size : ℕ) (looped : Run Out) (r : Mem × ℤ) : Type 0 where
  pub kept : (a : ℕ) → Outside buf (buf + size) a → r.0 a ≡ m a
  pub output : Out
  pub ends : looped ≡ done output
  pub terminated : size ≢ 0 → r.0 (min output.cur (buf + size - 1)) ≡ 0
  pub returned : r.1 ≡ to_signed 31 (output.cur - buf)

terminate-Formatted :
    (m : Mem) (buf size : ℕ) (looped : Run Out) (o : Out)
    → looped ≡ done o
    → Kept m buf (buf + size) o
    → Formatted m buf size looped (terminate buf (buf + size) size o)
unfolding terminate
terminate-Formatted m buf size looped o e k = record {
  kept = λ a out_a. ground (arith, k.start, k.kept a);
  output = o;
  ends = e;
  terminated = λ some_room. ground (arith, k.start);
  returned = refl;
}

abbrev pub first_state : Mem → (buf fmt : ℕ) → State
first_state m buf fmt = record {
  fmt = fmt;
  str = record { mem = m; cur = buf };
  spec = zero_spec;
  taken = 0;
}

-- For a buffer that does not run past the end of the address space, a format whose NUL is outside
-- the buffer, and arguments that as addresses lead to a NUL outside it, with fuel for the format
-- and for these strings, `vsnprintf` ends on every format, valid or not; it changes no byte
-- outside the buffer, a buffer that is not empty gets a NUL behind the text that the loop printed,
-- in its last byte if the text is cut, and the length of this text is returned as an int of 32
-- bits.
pub vsnprintf-Formatted :
    (fuel : ℕ) (stack m : Mem) (buf size fmt z : ℕ) (args : ℕ → ℕ)
    → buf + size < 2 ^ 64
    → m z ≡ 0
    → Outside buf (buf + size) z
    → fmt ≤ z
    → z < fmt + fuel
    → ((k : ℕ) → Terminated m buf (buf + size) fuel (args k))
    → Ends
        (Formatted m buf size
          (format_loop fuel stack (buf + size) args fuel (first_state m buf fmt)))
        (vsnprintf fuel stack m buf size fmt args)
unfolding vsnprintf
vsnprintf-Formatted fuel stack m buf size fmt z args fit nul apart ahead enough strings =
    let first = first_state m buf fmt in
    rw (limits-fit buf size fit) (
      Ends-bind_with _ _ (format_loop fuel stack (buf + size) args fuel first) _
        (format_loop-Ends fuel stack m buf (buf + size) z args nul apart strings fuel first
          (record {
            ahead = ahead;
            output = record { start = omega arith; kept = λ a out_a. refl };
          })
          enough enough)
        (λ o e k. terminate-Formatted m buf size _ o e k))
