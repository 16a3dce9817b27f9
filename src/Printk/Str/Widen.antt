-- ===== src/Printk/Str/Widen.antt =====
-- widen_string of kernel/printk.c turns a text that was just printed into the padded text.
use mathlib.Core.List.{append-nil}
use armv8_os.Prelude.{
  ℕ, zero, suc, ◌+◌, ◌-◌, ◌≤◌, ◌<◌, ◌≡◌, refl, ◌∙◌, sym, fun_ext, min, List, [], ◌∷◌, ◌++◌, length,
  replicate, get_or, false, ◌==◌, ltb, leb, if◌then◌else◌, arith, Bool-cases, inl, inr,
  length-append, length-replicate,
}
use armv8_os.Prelude.Int.{pos, ltb_ℤ, pos_part}
use armv8_os.Memory.{Mem, patch}
use armv8_os.Libc.Block.{memmove, memset}
use armv8_os.Libc.Block.Laws.{memmove-patch, memset-patch}
use armv8_os.Printk.Spec.{PrintfSpec, left_flag, has}
use armv8_os.Printk.Output.{Out, put, emit}
use armv8_os.Printk.Output.Laws.{emit-append, emit-cur, emit-mem}
use armv8_os.Printk.Str.{move_right, put_spaces, widen_string}

put_spaces-emit : (end n : ℕ) (o : Out) → put_spaces end n o ≡ emit end (replicate n b' ') o
unfolding put_spaces emit
put_spaces-emit end zero o = refl
put_spaces-emit end (suc n) o = put_spaces-emit end n (put end b' ' o)

get_or-append :
    (xs ys : List ℕ) (i : ℕ)
    → get_or (xs ++ ys) i 0
      ≡ (if ltb i (length xs) then get_or xs i 0 else get_or ys (i - length xs) 0)
get_or-append [] ys i =
    let e : i - 0 ≡ i = omega arith in let f : ltb i 0 ≡ false = ground arith in rw (e, f)
get_or-append (x ∷ xs) ys zero = ground arith
get_or-append (x ∷ xs) ys (suc i) = ground (arith, get_or-append xs ys i)

get_or-replicate : (n c i : ℕ) → i < n → get_or (replicate n c) i 0 ≡ c
get_or-replicate zero c i h = absurd (omega arith)
get_or-replicate (suc n) c zero h = refl
get_or-replicate (suc n) c (suc i) h = get_or-replicate n c i (omega arith)

-- Where the text `xs` stands at `buf`, cut off at `end`, moving it leaves the spaces and the text.
module _ (m m' : Mem) (buf end spaces : ℕ) (xs : List ℕ)
    (printed : (b : ℕ)
      → m' b ≡ patch m buf (min (length xs) (end - buf)) (λ i. get_or xs i 0) b) where
  abbrev padded : ℕ → ℕ
  padded i = if ltb i spaces then b' ' else get_or xs (i - spaces) 0

  abbrev moved : ℕ → Mem
  moved k = memset (memmove m' (buf + spaces) buf k) buf b' ' spaces

  moved-patch :
      (k a : ℕ)
      → spaces < end - buf
      → k ≡ min (length xs) (end - buf - spaces)
      → moved k a ≡ patch m buf (min (spaces + length xs) (end - buf)) padded a
  moved-patch k a lt e = ground (
    arith,
    memset-patch (memmove m' (buf + spaces) buf k) buf b' ' spaces a,
    memmove-patch m' (buf + spaces) buf k a,
    printed a,
    printed (buf + (a - (buf + spaces))),
  )

  spaces_only :
      (a : ℕ)
      → end - buf ≤ spaces
      → memset m' buf b' ' (end - buf) a
        ≡ patch m buf (min (spaces + length xs) (end - buf)) padded a
  spaces_only a le = ground (arith, memset-patch m' buf b' ' (end - buf) a, printed a)

  no_text :
      (a : ℕ)
      → spaces < end - buf
      → length xs ≡ 0
      → memset m' buf b' ' spaces a ≡ patch m buf (min (spaces + length xs) (end - buf)) padded a
  no_text a lt e = ground (arith, memset-patch m' buf b' ' spaces a, printed a)

  move_right-patch :
      (a : ℕ)
      → move_right m' buf end (length xs) spaces a
        ≡ patch m buf (min (spaces + length xs) (end - buf)) padded a
  unfolding move_right
  move_right-patch a = elim (Bool-cases (leb end buf)) [
    | inl beyond ↦ rw beyond (ground (arith, printed a))
    | inr room ↦ elim (Bool-cases (leb (end - buf) spaces)) [
      | inl le ↦ rw (room, le) (spaces_only a (ground arith))
      | inr lt ↦ elim (Bool-cases (length xs == 0)) [
        | inl none ↦ rw (room, lt, none) (no_text a (ground arith) (ground arith))
        | inr some ↦
            rw (room, lt, some)
              (moved-patch
                (if ltb (end - buf - spaces) (length xs) then end - buf - spaces else length xs) a
                (ground arith) (ground arith))
      ]
    ]
  ]

-- The text with its padding.
abbrev pub pad_text : ℕ → ℕ → List ℕ → List ℕ
pad_text flags width xs =
    if has left_flag flags
    then xs ++ replicate (width - length xs) b' '
    else replicate (width - length xs) b' ' ++ xs

patch-ext :
    (m : Mem) (d n : ℕ) (f g : ℕ → ℕ) (a : ℕ)
    → f (a - d) ≡ g (a - d)
    → patch m d n f a ≡ patch m d n g a
patch-ext m d n f g a h = ground arith

out_path :
    (m m' : Mem) (c c' : ℕ)
    → m ≡ m'
    → c ≡ c'
    → ◌≡◌ {A = Out} (record { mem = m; cur = c }) (record { mem = m'; cur = c' })
out_path m m' c c' p q i = record { mem = p i; cur = q i }

padded_text :
    (spaces : ℕ) (xs : List ℕ) (i : ℕ)
    → get_or (replicate spaces b' ' ++ xs) i 0
      ≡ (if ltb i spaces then b' ' else get_or xs (i - spaces) 0)
padded_text spaces xs i = ground (
  arith,
  get_or-append (replicate spaces b' ') xs i,
  get_or-replicate spaces b' ' i,
  length-replicate {A = ℕ} spaces b' ',
)

padded-length :
    (spaces : ℕ) (xs : List ℕ) → length (replicate spaces b' ' ++ xs) ≡ spaces + length xs
padded-length spaces xs =
    omega (arith, length-append (replicate spaces b' ') xs, length-replicate {A = ℕ} spaces b' ')

module _ (end spaces : ℕ) (xs : List ℕ) (o : Out) where
  moved_mem :
      (a : ℕ)
      → move_right (emit end xs o).mem o.cur end (length xs) spaces a
        ≡ (emit end (replicate spaces b' ' ++ xs) o).mem a
  moved_mem a =
      move_right-patch o.mem (emit end xs o).mem o.cur end spaces xs (emit-mem end xs o) a
      ∙ sym (
          emit-mem end (replicate spaces b' ' ++ xs) o a
          ∙ rw (padded-length spaces xs) (
              patch-ext o.mem o.cur _ (λ i. get_or (replicate spaces b' ' ++ xs) i 0)
                (λ i. if ltb i spaces then b' ' else get_or xs (i - spaces) 0) a
                (padded_text spaces xs (a - o.cur))))

  move-emit :
      ◌≡◌ {A = Out}
        (record {
          mem =
              move_right
                (emit end xs o).mem
                ((emit end xs o).cur - length xs)
                end
                (length xs)
                spaces;
          cur = (emit end xs o).cur + spaces;
        })
        (emit end (replicate spaces b' ' ++ xs) o)
  move-emit =
      let e : (emit end xs o).cur - length xs ≡ o.cur = omega (arith, emit-cur end xs o) in
      rw e (
        out_path _ _ _ _ (fun_ext moved_mem) (
          omega (
            arith,
            emit-cur end xs o,
            emit-cur end (replicate spaces b' ' ++ xs) o,
            padded-length spaces xs,
          )))

pub widen_string-emit :
    (end : ℕ) (spec : PrintfSpec) (xs : List ℕ) (o : Out)
    → widen_string (length xs) end spec (emit end xs o)
      ≡ emit end (pad_text spec.flags (pos_part spec.field_width) xs) o
unfolding widen_string
widen_string-emit end spec xs o = elim (Bool-cases (ltb_ℤ spec.field_width (pos (length xs)))) [
  | inl wide ↦
      let e : pos_part spec.field_width - length xs ≡ 0 = ground arith in
      elim (Bool-cases (has left_flag spec.flags)) [
        | inl l ↦ rw (wide, e, l, append-nil)
        | inr r ↦ rw (wide, e, r)
      ]
  | inr fits ↦ elim (Bool-cases (has left_flag spec.flags)) [
    | inl l ↦ rw (fits, l, put_spaces-emit, emit-append)
    | inr r ↦ rw (fits, r) (move-emit end (pos_part spec.field_width - length xs) xs o)
  ]
]
