-- ===== src/Printk/Str/Keep.antt =====
-- string of kernel/printk.c ends and writes nothing outside its buffer.
use armv8_os.Run.{Run, done, out, Ends}
use armv8_os.Prelude.{
  false, ℕ, zero, suc, ◌+◌, ◌-◌, ◌≤◌, ◌<◌, ◌≡◌, ◌==◌, ltb, if◌then◌else◌, if_holds, arith,
}
use armv8_os.Prelude.Int.{ℤ, pos, negsuc, ltb_ℤ, pos_part}
use armv8_os.Memory.{Mem}
use armv8_os.Libc.Block.{memmove}
use armv8_os.Libc.Block.Laws.{memmove-patch, memset-patch}
use armv8_os.Printk.Spec.{PrintfSpec, has, left_flag}
use armv8_os.Printk.Output.{Out, put}
use armv8_os.Printk.Output.Kept.{Kept, Outside, put-Kept}
use armv8_os.Printk.Str.{move_right, put_spaces, widen_string, string_loop, string}

move_right-Outside :
    (m : Mem) (buf end len spaces a : ℕ)
    → Outside buf end a
    → move_right m buf end len spaces a ≡ m a
unfolding move_right
move_right-Outside m buf end len spaces a h =
    let size = end - buf in
    let len' : ℕ = if ltb (size - spaces) len then size - spaces else len in
    let moved : Mem = if len == 0 then m else memmove m (buf + spaces) buf len' in
    ground (
      arith,
      memset-patch m buf b' ' size a,
      memset-patch moved buf b' ' spaces a,
      memmove-patch m (buf + spaces) buf len' a,
    )

-- `s` is an address outside the buffer with a NUL less than `fuel` bytes behind it, which is
-- outside too.
pub record Terminated (m : Mem) (lo end fuel s : ℕ) : Type 0 where
  pub nul : ℕ
  pub behind : s ≤ nul
  pub near : nul < s + fuel
  pub holds : m nul ≡ 0
  pub apart : Outside lo end nul

-- `len` characters were put so far.
record Put (m : Mem) (lo end : ℕ) (r : Out × ℕ) : Type 0 where
  keeps : Kept m lo end r.0
  room : lo + r.1 ≤ r.0.cur

module _ {m : Mem} {lo end : ℕ} where
  put_spaces-Kept :
      (spaces : ℕ) (o : Out) → Kept m lo end o → Kept m lo end (put_spaces end spaces o)
  unfolding put_spaces
  put_spaces-Kept zero o k = k
  put_spaces-Kept (suc spaces) o k = put_spaces-Kept spaces (put end b' ' o) (put-Kept b' ' o k)

  widen_string-Kept :
      (n : ℕ) (spec : PrintfSpec) (o : Out)
      → lo + n ≤ o.cur
      → Kept m lo end o
      → Kept m lo end (widen_string n end spec o)
  unfolding widen_string
  widen_string-Kept n spec o h k =
      let spaces = pos_part spec.field_width - n in
      if_holds (Kept m lo end) (ltb_ℤ spec.field_width (pos n)) (λ _. k)
        (λ _.
          if_holds (Kept m lo end) (has left_flag spec.flags) (λ _. put_spaces-Kept spaces o k)
            (λ _. record {
              start = omega (arith, k.start);
              kept = λ a out_a.
                  ground (arith, h, k.kept a, move_right-Outside o.mem (o.cur - n) end n spaces a);
            }))

  Terminated-next :
      (fuel s len : ℕ) (o : Out)
      → Terminated m lo end (suc fuel) s
      → Put m lo end (o, len)
      → (o.mem s == 0) ≡ false
      → Terminated m lo end fuel (suc s) × Put m lo end (put end (o.mem s) o, suc len)
  unfolding put
  Terminated-next fuel s len o t p more = (
    record {
      nul = t.nul;
      behind = ground (arith, t.behind, t.holds, p.keeps.kept t.nul t.apart);
      near = omega (arith, t.near);
      holds = t.holds;
      apart = t.apart;
    },
    record { keeps = put-Kept (o.mem s) o p.keeps; room = omega (arith, p.room) },
  )

  string_loop-Put :
      (fuel s : ℕ) (lim : ℤ) (len : ℕ) (o : Out)
      → Terminated m lo end fuel s
      → Put m lo end (o, len)
      → Ends (Put m lo end) (string_loop fuel end s lim len o)
  unfolding string_loop
  string_loop-Put zero s lim len o t p = omega (arith, t.behind, t.near)
  string_loop-Put (suc fuel) s (pos zero) len o t p = p
  string_loop-Put (suc fuel) s (pos (suc n)) len o t p =
      if_holds (Ends (Put m lo end)) (o.mem s == 0) (λ _. p)
        (λ more.
          let next = Terminated-next fuel s len o t p more in
          string_loop-Put fuel (suc s) (pos n) (suc len) _ next.0 next.1)
  string_loop-Put (suc fuel) s (negsuc n) len o t p =
      if_holds (Ends (Put m lo end)) (o.mem s == 0) (λ _. p)
        (λ more.
          let next = Terminated-next fuel s len o t p more in
          string_loop-Put fuel (suc s) (negsuc (suc n)) (suc len) _ next.0 next.1)

widened :
    (m : Mem) (lo end : ℕ) (spec : PrintfSpec) (r : Run (Out × ℕ))
    → Ends (Put m lo end) r
    → Ends
        (Kept m lo end)
        (elim r [ out ↦ out | done (o', len) ↦ done (widen_string len end spec o') ])
widened m lo end spec (done (o, len)) p = widen_string-Kept len spec o p.room p.keeps
widened m lo end spec out p = p

module _ {m : Mem} {lo end : ℕ} where
  pub string-Kept :
      (fuel s : ℕ) (spec : PrintfSpec) (o : Out)
      → Terminated m lo end fuel s
      → Kept m lo end o
      → Ends (Kept m lo end) (string fuel end s spec o)
  unfolding string
  string-Kept fuel s spec o t k = widened _ _ _ spec (string_loop fuel end s spec.precision 0 o) (
      string_loop-Put fuel s spec.precision 0 o t
        (record { keeps = k; room = omega (arith, k.start) }))
