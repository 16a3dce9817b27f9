-- ===== src/Printk/Format/Text.antt =====
-- A round of vsnprintf in kernel/printk.c over a text of the format, which memcpy prints.
use armv8_os.Run.{done}
use armv8_os.Prelude.{
  sym, ℕ, zero, suc, ◌+◌, ◌-◌, ◌<◌, ◌≤◌, ◌≡◌, ◌==◌, ◌||◌, refl, ap, ◌∙◌, true, false, if◌then◌else◌,
  List, [], ◌∷◌, ◌++◌, length, ltb, arith, Bool-cases, inl, inr, min,
}
use armv8_os.Memory.{store, Mem, IsString}
use armv8_os.Libc.Block.{copy_up, memcpy}
use armv8_os.Printk.Decode.{skip_text}
use armv8_os.Printk.Output.{Out, put, emit}
use armv8_os.Printk.Output.Laws.{emit-cur}
use armv8_os.Printk.Vsnprintf.{copy_text}
use armv8_os.Printk.Format.{All, IsPlain, first_of}
use armv8_os.Printk.Format.Decode.{IsString-first}
use armv8_os.Printk.Format.Stored.{Stored, put-Stored, Stored-tail}

emit_full : (end : ℕ) (xs : List ℕ) (o : Out) → end ≤ o.cur → (emit end xs o).mem ≡ o.mem
unfolding emit put
emit_full end [] o full = refl
emit_full end (x ∷ xs) o full =
    let e : ltb o.cur end ≡ false = ground arith in
    emit_full end xs (put end x o) (omega arith) ∙ rw e refl

copy_up-emit :
    (end fuel : ℕ) (xs rest : List ℕ) (o : Out) (f : ℕ)
    → Stored end fuel o f (xs ++ rest)
    → copy_up (min (end - o.cur) (length xs)) o.mem o.cur f ≡ (emit end xs o).mem
unfolding copy_up emit put
copy_up-emit end fuel [] rest o f t = let e : min (end - o.cur) 0 ≡ 0 = omega arith in rw e refl
copy_up-emit end fuel (x ∷ xs) rest o f t = elim (Bool-cases (ltb o.cur end)) [
  | inl room ↦
      let e : min (end - o.cur) (suc (length xs)) ≡ suc (min (end - suc o.cur) (length xs)) =
        ground arith in
      let put_there =
        put-Stored end fuel x o (suc f) (xs ++ rest) (Stored-tail end fuel o f x (xs ++ rest) t) in
      let more = copy_up-emit end fuel xs rest (put end x o) (suc f) put_there in
      let first : store o.mem o.cur (o.mem f) ≡ (put end x o).mem = rw (room, t.holds.0) refl in
      rw e
        (ap (λ m. copy_up (min (end - suc o.cur) (length xs)) m (suc o.cur) (suc f)) first ∙ more)
  | inr full ↦
      let e : min (end - o.cur) (suc (length xs)) ≡ 0 = ground arith in
      let kept = emit_full end (x ∷ xs) o (ground arith) in rw e (sym kept)
]

-- The text that is copied is the text that is printed.
pub copy_text-emit :
    (end fuel : ℕ) (xs rest : List ℕ) (o : Out) (f : ℕ)
    → Stored end fuel o f (xs ++ rest)
    → copy_text end f (length xs) o ≡ emit end xs o
unfolding copy_text memcpy copy_up
copy_text-emit end fuel xs rest o f t =
    let e : (if ltb (end - o.cur) (length xs) then end - o.cur else length xs)
        ≡ min (end - o.cur) (length xs) =
      ground arith in
    let mem : (copy_text end f (length xs) o).mem ≡ (emit end xs o).mem =
      elim (Bool-cases (ltb o.cur end)) [
        | inl room ↦ rw (room, e) (copy_up-emit end fuel xs rest o f t)
        | inr full ↦ rw full (sym (emit_full end xs o (ground arith)))
      ] in
    let cur : o.cur + length xs ≡ (emit end xs o).cur = sym (emit-cur end xs o) in
    λ i. record { mem = mem i; cur = cur i }

-- A text ends at a % or at the end of the format.
pub skip_text_lem :
    (fuel : ℕ) (m : Mem) (f : ℕ) (xs rest : List ℕ)
    → All IsPlain xs
    → IsString m f (xs ++ rest)
    → ((first_of rest == 0) || (first_of rest == b'%')) ≡ true
    → length xs < fuel
    → skip_text fuel m f ≡ done (f + length xs)
unfolding skip_text
skip_text_lem zero m f xs rest a h last few = absurd (omega arith)
skip_text_lem (suc fuel) m f [] rest a h last few =
    let e : m f ≡ first_of rest = IsString-first m rest f h in
    rw (skip_text, e, last) (ap done (omega arith))
skip_text_lem (suc fuel) m f (x ∷ xs) rest a h last few =
    let more = skip_text_lem fuel m (suc f) xs rest a.1 h.2 last (omega arith) in
    let e : ((x == 0) || (x == b'%')) ≡ false = ground (arith, a.0) in
    rw (skip_text, h.0, e, more) (ap done (omega arith))
