-- ===== src/LinkedList/Loops.antt =====
-- The loops and the tests of include/eeos/list.h on the sequence of entries.
use armv8_os.Run.{done}
use armv8_os.Prelude.{
  ◌∙◌, ℕ, zero, suc, ◌+◌, ◌<◌, ◌≡◌, List, [], ◌∷◌, ◌++◌, reverse, reverse_aux, length, arith, refl,
  ◌==◌, Bool, true, false, Option, none, some,
}
use armv8_os.LinkedList.{
  Links, list_for_each, list_for_each_prev, list_empty, list_first_entry_or_null, list_is_first,
  list_is_last,
}
use armv8_os.LinkedList.Nodes.{Fresh, Apart-snoc, Apart-nil}
use armv8_os.LinkedList.Chains.{Chain, IsList, Chain-split, to-Parted, prev-Fresh}

not_below : {n : ℕ} → n < 0 → ⊥
not_below h = omega arith

entries :
    (fuel : ℕ) (h : Links) (a head : ℕ) (xs : List ℕ)
    → Chain h a xs head
    → Fresh head xs
    → length xs < fuel
    → list_for_each fuel h (h.next a) head ≡ done xs
unfolding list_for_each
entries zero h a head xs c f e = elim (not_below e) [ ]
entries (suc fuel) h a head [] c f e = ground (arith, c)
entries (suc fuel) h a head (x ∷ xs) c f e =
    ground (arith, c.0, f, entries fuel h x head xs c.2 f.1 (omega arith))

-- On a list, with more fuel than entries, `list_for_each` ends and visits the entries in their
-- order.
pub list_for_each-entries :
    (fuel : ℕ) (h : Links) (head : ℕ) (xs : List ℕ)
    → IsList h head xs
    → length xs < fuel
    → list_for_each fuel h (h.next head) head ≡ done xs
list_for_each-entries fuel h head xs l e = entries fuel h head head xs l.0 l.1.0 e

-- The list seen from its other end.
abbrev pub flip : Links → Links
flip h = record { next = h.prev; prev = h.next }

flipped :
    (h : Links) (a b c : ℕ) (xs acc : List ℕ)
    → Chain h a xs b
    → Chain (flip h) a acc c
    → Chain (flip h) b (reverse_aux xs (a ∷ acc)) c
flipped h a b c [] acc l r = (l.1, l.0, r)
flipped h a b c (x ∷ xs) acc l r = flipped h x b c xs (a ∷ acc) l.2 (l.1, l.0, r)

pub Chain-flip :
    (h : Links) (head : ℕ) (xs : List ℕ)
    → Chain h head xs head
    → Chain (flip h) head (reverse xs) head
Chain-flip h head [] c = (c.1, c.0)
Chain-flip h head (x ∷ xs) c = flipped h x head head xs [] c.2 (c.1, c.0)

pub Fresh-reverse_aux :
    (u : ℕ) (xs acc : List ℕ) → Fresh u xs → Fresh u acc → Fresh u (reverse_aux xs acc)
Fresh-reverse_aux u [] acc f g = g
Fresh-reverse_aux u (x ∷ xs) acc f g = Fresh-reverse_aux u xs (x ∷ acc) f.1 (f.0, g)

pub length-reverse_aux : (xs acc : List ℕ) → length (reverse_aux xs acc) ≡ length xs + length acc
length-reverse_aux [] acc = omega arith
length-reverse_aux (x ∷ xs) acc = omega (arith, length-reverse_aux xs (x ∷ acc))

for_each-flip :
    (fuel : ℕ) (h : Links) (pos head : ℕ)
    → list_for_each_prev fuel h pos head ≡ list_for_each fuel (flip h) pos head
unfolding list_for_each list_for_each_prev
for_each-flip zero h pos head = refl
for_each-flip (suc fuel) h pos head = rw (for_each-flip fuel h (h.prev pos) head)

-- On a list, with more fuel than entries, `list_for_each_prev` ends and visits the entries in the
-- opposite order.
pub list_for_each_prev-reverse :
    (fuel : ℕ) (h : Links) (head : ℕ) (xs : List ℕ)
    → IsList h head xs
    → length xs < fuel
    → list_for_each_prev fuel h (h.prev head) head ≡ done (reverse xs)
list_for_each_prev-reverse fuel h head xs l e =
    for_each-flip fuel h (h.prev head) head
    ∙ entries fuel (flip h) head head (reverse xs) (Chain-flip h head xs l.0)
        (Fresh-reverse_aux head xs [] l.1.0 tt) (omega (arith, length-reverse_aux xs []))

-- The first entry, if there is one.
abbrev pub first : List ℕ → Option ℕ
first [] = none
first (x ∷ xs) = some x

abbrev pub is_nil : List ℕ → Bool
is_nil [] = true
is_nil (x ∷ xs) = false

-- On a list, `list_empty` holds exactly if there is no entry, and `list_first_entry_or_null` gives
-- the first entry, and NULL if there is none.
list_empty-first :
    (h : Links) (head : ℕ) (xs : List ℕ)
    → IsList h head xs
    → (list_empty h head ≡ is_nil xs) × (list_first_entry_or_null h head ≡ first xs)
unfolding list_empty list_first_entry_or_null
list_empty-first h head [] l = ground (arith, l.0)
list_empty-first h head (x ∷ xs) l = ground (arith, l.0.0, l.1.0)

begins :
    (h : Links) (head e : ℕ) (xs : List ℕ)
    → Chain h head xs e
    → Fresh head xs
    → (h.prev e == head) ≡ is_nil xs
begins h head e [] c f = ground (arith, c)
begins h head e (x ∷ xs) c f =
    let other =
      (prev-Fresh h x e xs (head ∷ []) c.2
        (Apart-snoc head (x ∷ xs) [] f (Apart-nil (x ∷ xs)))).0 in
    ground (arith, other)

ends :
    (h : Links) (head e : ℕ) (ys : List ℕ)
    → Chain h e ys head
    → Fresh head ys
    → (h.next e == head) ≡ is_nil ys
ends h head e [] c f = ground (arith, c)
ends h head e (y ∷ ys) c f = ground (arith, c.0, f.0)

-- For an entry of a list, `list_is_first` holds exactly if none stands before it, and
-- `list_is_last` exactly if none stands behind it.
pub list_is_first-last :
    (h : Links) (list head : ℕ) (xs ys : List ℕ)
    → IsList h head (xs ++ list ∷ ys)
    → (list_is_first h list head ≡ is_nil xs) × (list_is_last h list head ≡ is_nil ys)
unfolding list_is_first list_is_last
list_is_first-last h list head xs ys l =
    let chains = Chain-split h head list head xs ys l.0 in
    let parted = to-Parted head list xs ys l.1 in
    (begins h head list xs chains.0 parted.head_xs, ends h head list ys chains.1 parted.head_ys)
