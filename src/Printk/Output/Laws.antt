-- ===== src/Printk/Output/Laws.antt =====
-- The loops of kernel/printk.c print texts, and a printed text stands in memory up to `end`.
use armv8_os.Prelude.{
  ◌∙◌, inr, inl, Bool-cases, false, ℕ, zero, suc, ◌+◌, ◌-◌, ◌≡◌, refl, min, List, [], ◌∷◌, ◌++◌,
  length, replicate, get_or, ltb, leb, ◌==◌, arith,
}
use armv8_os.Prelude.Int.{ℤ, pos, negsuc, pos_part}
use armv8_os.Memory.{Mem, store, patch}
use armv8_os.Printk.Output.{Out, put, pad_gt, pad_ge, pad_zeros, put_tmp, emit}

pub emit-nil : (end : ℕ) (o : Out) → emit end [] o ≡ o
unfolding emit
emit-nil end o = refl

pub emit-append :
    (end : ℕ) (xs ys : List ℕ) (o : Out) → emit end (xs ++ ys) o ≡ emit end ys (emit end xs o)
unfolding emit
emit-append end [] ys o = refl
emit-append end (x ∷ xs) ys o = emit-append end xs ys (put end x o)

pub emit-cur : (end : ℕ) (xs : List ℕ) (o : Out) → (emit end xs o).cur ≡ o.cur + length xs
unfolding emit put
emit-cur end [] o = omega arith
emit-cur end (x ∷ xs) o = omega (arith, emit-cur end xs (put end x o))

patch-cons :
    (m : Mem) (d x n : ℕ) (xs : List ℕ) (a : ℕ)
    → patch (store m d x) (suc d) n (λ i. get_or xs i 0) a
      ≡ patch m d (suc n) (λ i. get_or (x ∷ xs) i 0) a
patch-cons m d x n xs a = ground arith

patch_none :
    (m : Mem) (d d' n : ℕ) (f g : ℕ → ℕ) (a : ℕ) → n ≡ 0 → patch m d n f a ≡ patch m d' 0 g a
patch_none m d d' n f g a h = ground arith

-- A text that is printed stands in memory from the old cursor on, cut off at `end`; no byte at or
-- behind `end`, before the cursor or behind the text changes.
pub emit-mem :
    (end : ℕ) (xs : List ℕ) (o : Out) (a : ℕ)
    → (emit end xs o).mem a
      ≡ patch o.mem o.cur (min (length xs) (end - o.cur)) (λ i. get_or xs i 0) a
unfolding emit put
emit-mem end [] o a = ground arith
emit-mem end (x ∷ xs) o a = elim (Bool-cases (ltb o.cur end)) [
  | inl room ↦
      let e : min (suc (length xs)) (end - o.cur) ≡ suc (min (length xs) (end - suc o.cur)) =
        ground arith in
      emit-mem end xs (put end x o) a ∙ rw (room, e) (patch-cons o.mem o.cur x _ xs a)
  | inr full ↦
      let e : min (suc (length xs)) (end - o.cur) ≡ 0 = ground arith in
      let e' : min (length xs) (end - suc o.cur) ≡ 0 = ground arith in
      emit-mem end xs (put end x o) a
      ∙ rw (full, e, e')
          (patch_none o.mem (suc o.cur) o.cur 0 (λ i. get_or xs i 0) (λ i. get_or (x ∷ xs) i 0) a
            refl)
]

pub pad_ge-emit :
    (end c : ℕ) (w : ℤ) (o : Out) → (pad_ge end c w o).0 ≡ emit end (replicate (pos_part w) c) o
unfolding pad_ge emit
pad_ge-emit end c (pos zero) o = refl
pad_ge-emit end c (pos (suc n)) o = pad_ge-emit end c (pos n) (put end c o)
pad_ge-emit end c (negsuc k) o = refl

-- Both loops leave a negative or zero width behind.
pub pad_ge-width : (end c : ℕ) (w : ℤ) (o : Out) → pos_part (pad_ge end c w o).1 ≡ 0
unfolding pad_ge
pad_ge-width end c (pos zero) o = refl
pad_ge-width end c (pos (suc n)) o = pad_ge-width end c (pos n) (put end c o)
pad_ge-width end c (negsuc k) o = refl

pub pad_gt-emit :
    (end c : ℕ) (w : ℤ) (o : Out) → (pad_gt end c w o).0 ≡ emit end (replicate (pos_part w - 1) c) o
unfolding pad_gt emit
pad_gt-emit end c (pos zero) o = refl
pad_gt-emit end c (pos (suc zero)) o = refl
pad_gt-emit end c (pos (suc (suc n))) o =
    let e : suc (suc n) - 1 ≡ suc (suc n - 1) = omega arith in
    let s : (suc n == 0) ≡ false = ground arith in
    rw (s, e) (pad_gt-emit end c (pos (suc n)) (put end c o))
pad_gt-emit end c (negsuc k) o = refl

pub pad_gt-width : (end c : ℕ) (w : ℤ) (o : Out) → pos_part (pad_gt end c w o).1 ≡ 0
unfolding pad_gt
pad_gt-width end c (pos zero) o = refl
pad_gt-width end c (pos (suc n)) o = ground (arith, pad_gt-width end c (pos n) (put end c o))
pad_gt-width end c (negsuc k) o = refl

pub pad_zeros-emit :
    (end i : ℕ) (p : ℤ) (o : Out)
    → pad_zeros end i p o ≡ emit end (replicate (pos_part p - i) b'0') o
unfolding pad_zeros emit
pad_zeros-emit end i (pos zero) o = let e : 0 - i ≡ 0 = omega arith in rw e
pad_zeros-emit end i (pos (suc n)) o = elim (Bool-cases (leb i n)) [
  | inl more ↦
      let e : suc n - i ≡ suc (n - i) = ground arith in
      rw (more, e) (pad_zeros-emit end i (pos n) (put end b'0' o))
  | inr last ↦ let e : suc n - i ≡ 0 = ground arith in rw (last, e)
]
pad_zeros-emit end i (negsuc k) o = let e : 0 - i ≡ 0 = omega arith in rw e

-- The last `i` characters of the buffer, the last one first.
abbrev pub down : Mem → ℕ → List ℕ
down tmp zero = []
down tmp (suc i) = tmp i ∷ down tmp i

pub put_tmp-emit :
    (end : ℕ) (tmp : Mem) (i : ℕ) (o : Out) → put_tmp end tmp i o ≡ emit end (down tmp i) o
unfolding put_tmp emit
put_tmp-emit end tmp zero o = refl
put_tmp-emit end tmp (suc i) o = put_tmp-emit end tmp i (put end (tmp i) o)
