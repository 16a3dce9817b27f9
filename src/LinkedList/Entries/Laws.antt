-- ===== src/LinkedList/Entries/Laws.antt =====
-- The loops of include/eeos/list.h whose body may remove the entry, and the loops over entries.
use mathlib.Core.Path.{subst}
use armv8_os.Run.{done, Ends}
use armv8_os.Prelude.{
  if_holds, ℕ, zero, suc, ◌^◌, ◌<◌, ◌≡◌, ◌==◌, refl, sym, ap, ◌∙◌, Bool, false, if◌then◌else◌,
  Bool-cases, inl, inr, List, [], ◌∷◌, ◌++◌, reverse, reverse_aux, map, length, arith,
}
use armv8_os.LinkedList.{Links, list_del, raw_list_del}
use armv8_os.LinkedList.Nodes.{Fresh, Fresh-split}
use armv8_os.LinkedList.Chains.{Chain, IsList, Chain-split}
use armv8_os.LinkedList.Laws.{list_del-IsList}
use armv8_os.LinkedList.Entries.{
  continue_loop, list_for_each_continue, safe_loop, list_for_each_safe, list_entry, node_of,
  list_last_entry, list_prev_entry, entry_loop, reverse_loop, list_for_each_entry,
  list_for_each_entry_reverse, entry_safe_loop, list_for_each_entry_safe,
}
use armv8_os.LinkedList.Loops.{flip, Chain-flip, Fresh-reverse_aux, length-reverse_aux}

-- A body that removes the node if a test asks for it, and notes what it sees, the newest first.
abbrev pub visit : (test : ℕ → Bool) → (note : ℕ → ℕ) → (pos : ℕ) → Links × List ℕ → Links × List ℕ
visit test note pos (h, seen) = (if test pos then list_del h pos else h, note pos ∷ seen)

abbrev pub kept : (test : ℕ → Bool) → List ℕ → List ℕ
kept test [] = []
kept test (x ∷ xs) = if test x then kept test xs else x ∷ kept test xs

-- The node where a list goes on.
abbrev first_or : ℕ → List ℕ → ℕ
first_or head [] = head
first_or head (x ∷ xs) = x

next-first_or :
    (h : Links) (a head : ℕ) (xs : List ℕ) → Chain h a xs head → h.next a ≡ first_or head xs
next-first_or h a head [] c = c.0
next-first_or h a head (x ∷ xs) c = c.0

snoc_assoc : (ks xs : List ℕ) (x : ℕ) → (ks ++ x ∷ []) ++ xs ≡ ks ++ x ∷ xs
snoc_assoc [] xs x = refl
snoc_assoc (k ∷ ks) xs x = ap (λ r. k ∷ r) (snoc_assoc ks xs x)

-- What a loop leaves: the nodes that are not removed, and a note of every node.
abbrev pub Left : (head : ℕ) (ks seen : List ℕ) → Links × List ℕ → Type 0
Left head ks seen (h, noted) = IsList h head ks × (noted ≡ seen)

module _ (test : ℕ → Bool) (note : ℕ → ℕ) (head : ℕ) where
  -- From a node of the list on, behind the nodes `ks` that were kept.
  walk :
      (fuel : ℕ) (ks xs seen : List ℕ) (h : Links) (n : ℕ)
      → IsList h head (ks ++ xs)
      → n ≡ h.next (first_or head xs)
      → length xs < fuel
      → Ends
          (Left head (ks ++ kept test xs) (reverse_aux (map note xs) seen))
          (safe_loop (λ s. s.0) (visit test note) fuel (first_or head xs) n head (h, seen))
  unfolding safe_loop
  walk zero ks xs seen h n l e few = absurd (omega (arith, few))
  walk (suc fuel) ks [] seen h n l e few =
      if_holds (Ends (Left head (ks ++ []) seen)) (head == head) (λ _. (l, refl))
        (λ no. absurd (ground (arith, no)))
  walk (suc fuel) ks (x ∷ xs) seen h n l e few =
      let fresh = Fresh-split head ks (x ∷ xs) l.1.0 in
      let other : (x == head) ≡ false = ground (arith, fresh.1.0) in
      let chains = Chain-split h head x head ks xs l.0 in
      let e' : n ≡ first_or head xs = e ∙ next-first_or h x head xs chains.1 in
      elim (Bool-cases (test x)) [
        | inl removed ↦
            let l' = list_del-IsList h x head ks xs l in
            let more =
              walk fuel ks xs (note x ∷ seen) (list_del h x) _ l' refl (omega (arith, few)) in
            rw (safe_loop, other, e', removed) more
        | inr left ↦
            let l' : IsList h head ((ks ++ x ∷ []) ++ xs) =
              subst (λ zs. IsList h head zs) (sym (snoc_assoc ks xs x)) l in
            let more =
              walk fuel (ks ++ x ∷ []) xs (note x ∷ seen) h _ l' refl (omega (arith, few)) in
            rw (safe_loop, other, e', left, ← snoc_assoc ks (kept test xs) x) more
      ]

  -- On a list, with more fuel than entries, `list_for_each_safe` ends and visits the entries in their
  -- order, and the list keeps those that the body did not remove.
  pub list_for_each_safe-kept :
      (fuel : ℕ) (h : Links) (xs : List ℕ)
      → IsList h head xs
      → length xs < fuel
      → Ends
          (Left head (kept test xs) (reverse (map note xs)))
          (list_for_each_safe (λ s. s.0) (visit test note) fuel head (h, []))
  unfolding list_for_each_safe
  list_for_each_safe-kept fuel h xs l few =
      let first = next-first_or h head head xs l.0 in
      rw (list_for_each_safe, first) (walk fuel [] xs [] h _ l refl few)

continues :
    (fuel : ℕ) (h : Links) (a head : ℕ) (xs : List ℕ)
    → Chain h a xs head
    → Fresh head xs
    → length xs < fuel
    → continue_loop fuel h a head ≡ done xs
unfolding continue_loop
continues zero h a head xs c f few = absurd (omega (arith, few))
continues (suc fuel) h a head [] c f few = ground (arith, c)
continues (suc fuel) h a head (x ∷ xs) c f few =
    ground (arith, c.0, f, continues fuel h x head xs c.2 f.1 (omega (arith, few)))

-- From an entry of a list, `list_for_each_continue` visits those behind it.
pub list_for_each_continue-behind :
    (fuel : ℕ) (h : Links) (pos head : ℕ) (xs ys : List ℕ)
    → IsList h head (xs ++ pos ∷ ys)
    → length ys < fuel
    → list_for_each_continue fuel h pos head ≡ done ys
unfolding list_for_each_continue
list_for_each_continue-behind fuel h pos head xs ys l few =
    continues fuel h pos head ys (Chain-split h head pos head xs ys l.0).1
      (Fresh-split head xs (pos ∷ ys) l.1.0).1.1 few

-- The pointers are words of 64 bits.
abbrev pub AreWords : Links → Type 0
AreWords h = (a : ℕ) → (h.next a < 2 ^ 64) × (h.prev a < 2 ^ 64)

list_del-AreWords : (h : Links) (e : ℕ) → AreWords h → AreWords (list_del h e)
unfolding list_del raw_list_del
list_del-AreWords h e w = λ a. ground (arith, w a, w e)

module _ (member : ℕ) (small : member < 2 ^ 64) where
  node_of-list_entry : (p : ℕ) → p < 2 ^ 64 → node_of member (list_entry member p) ≡ p
  unfolding node_of list_entry
  node_of-list_entry p h = omega (arith, small, h)

  module _ (head : ℕ) where
    entries :
        (fuel : ℕ) (h : Links) (a : ℕ) (xs : List ℕ)
        → AreWords h
        → Chain h a xs head
        → Fresh head xs
        → length xs < fuel
        → entry_loop member fuel h (list_entry member (h.next a)) head
          ≡ done (map (list_entry member) xs)
    unfolding entry_loop
    entries zero h a xs w c f few = absurd (omega (arith, few))
    entries (suc fuel) h a [] w c f few =
        let here = node_of-list_entry (h.next a) (w a).0 in ground (arith, c, here)
    entries (suc fuel) h a (x ∷ xs) w c f few =
        let here = node_of-list_entry (h.next a) (w a).0 in
        let other : (x == head) ≡ false = ground (arith, f) in
        let more = entries fuel h x xs w c.2 f.1 (omega (arith, few)) in
        rw (entry_loop, here, c.0, other, more)
          (ap (λ y. done (list_entry member y ∷ map (list_entry member) xs)) c.0)

    loop-flip :
        (fuel : ℕ) (h : Links) (pos : ℕ)
        → reverse_loop member fuel h pos head ≡ entry_loop member fuel (flip h) pos head
    unfolding reverse_loop entry_loop
    loop-flip zero h pos = refl
    loop-flip (suc fuel) h pos = rw (loop-flip fuel h (list_prev_entry member h pos)) refl

    -- On a list of pointers of 64 bits, for a node at an offset of 64 bits in its structure and
    -- more fuel than entries, `list_for_each_entry` ends and visits the entries that the nodes
    -- stand in, in their order, and `list_for_each_entry_reverse` in the opposite order.
    pub list_for_each_entry-entries :
        (fuel : ℕ) (h : Links) (xs : List ℕ)
        → AreWords h
        → IsList h head xs
        → length xs < fuel
        → (list_for_each_entry member fuel h head ≡ done (map (list_entry member) xs))
          × (list_for_each_entry_reverse member fuel h head
              ≡ done (map (list_entry member) (reverse xs)))
    unfolding list_for_each_entry list_for_each_entry_reverse
    list_for_each_entry-entries fuel h xs w l few = (
      entries fuel h head xs w l.0 l.1.0 few,
      loop-flip fuel h (list_last_entry member h head)
          ∙ entries fuel (flip h) head (reverse xs) (λ a. ((w a).1, (w a).0))
              (Chain-flip h head xs l.0) (Fresh-reverse_aux head xs [] l.1.0 tt)
              (omega (arith, length-reverse_aux xs [], few)),
    )

    -- The same for the entries: the body is given the entry, and removes its node.
    abbrev pub entry_visit : (test : ℕ → Bool) → (pos : ℕ) → Links × List ℕ → Links × List ℕ
    entry_visit test pos (h, seen) =
        (if test pos then list_del h (node_of member pos) else h, pos ∷ seen)

    module _ (test : ℕ → Bool) where
      abbrev node_test : ℕ → Bool
      node_test p = test (list_entry member p)

      entry_safe_loop_lem :
          (fuel : ℕ) (h : Links) (seen : List ℕ) (p q : ℕ)
          → AreWords h
          → p < 2 ^ 64
          → q < 2 ^ 64
          → entry_safe_loop
              (λ s. s.0)
              (entry_visit test)
              member
              fuel
              (list_entry member p)
              (list_entry member q)
              head
              (h, seen)
            ≡ safe_loop (λ s. s.0) (visit node_test (list_entry member)) fuel p q head (h, seen)
      unfolding entry_safe_loop safe_loop
      entry_safe_loop_lem zero h seen p q w hp hq = refl
      entry_safe_loop_lem (suc fuel) h seen p q w hp hq =
          let here = node_of-list_entry p hp in
          let next = node_of-list_entry q hq in
          elim (Bool-cases (node_test p)) [
            | inl removed ↦
                let w' = list_del-AreWords h p w in
                let more =
                  entry_safe_loop_lem fuel (list_del h p) (list_entry member p ∷ seen) q _ w' hq
                    (w' q).0 in
                rw (entry_safe_loop, safe_loop, here, next, removed, more) refl
            | inr left ↦
                let more =
                  entry_safe_loop_lem fuel h (list_entry member p ∷ seen) q _ w hq (w q).0 in
                rw (entry_safe_loop, safe_loop, here, next, left, more) refl
          ]

      -- On a list of pointers of 64 bits, for a node at an offset of 64 bits in its structure and
      -- more fuel than entries, `list_for_each_entry_safe` with a body that removes the entry by
      -- list_del if a test asks for it ends, shows the body every entry once and in order, and
      -- leaves the list of the nodes whose entries were not removed, in their order.
      pub list_for_each_entry_safe-kept :
          (fuel : ℕ) (h : Links) (xs : List ℕ)
          → AreWords h
          → IsList h head xs
          → length xs < fuel
          → Ends
              (Left head (kept node_test xs) (reverse (map (list_entry member) xs)))
              (list_for_each_entry_safe (λ s. s.0) (entry_visit test) member fuel head (h, []))
      unfolding list_for_each_entry_safe list_for_each_safe
      list_for_each_entry_safe-kept fuel h xs w l few =
          let p = h.next head in
          let first = node_of-list_entry p (w head).0 in
          let same = entry_safe_loop_lem fuel h [] p (h.next p) w (w head).0 (w p).0 in
          let walked = list_for_each_safe-kept node_test (list_entry member) head fuel h xs l few in
          rw (list_for_each_entry_safe, first, same) walked
