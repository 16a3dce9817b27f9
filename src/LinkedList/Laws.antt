-- ===== src/LinkedList/Laws.antt =====
-- The operations of include/eeos/list.h on the sequence of entries.
use mathlib.Core.Path.{subst}
use mathlib.Core.List.{append-nil}
use armv8_os.Prelude.{ℕ, ◌≡◌, ◌≢◌, List, [], ◌∷◌, ◌++◌, arith, refl, sym}
use armv8_os.LinkedList.{
  Links, init_list_head, raw_list_add, list_add, list_add_tail, raw_list_del, list_del,
  list_replace, list_replace_init, raw_list_del_clearprev,
}
use armv8_os.LinkedList.Nodes.{
  Fresh, Distinct, Fresh-split, Fresh-join, Distinct-join, Apart-cons, Apart-nil, Apart-snoc,
}
use armv8_os.LinkedList.Chains.{
  Chain, IsList, Chain-split, Chain-join, Chain-kept, Chain-end, Chain-start, Changes, prev_differs,
  prev-Fresh, next-Fresh, Parted, to-Parted,
}

pub init_list_head-IsList : (h : Links) (head : ℕ) → IsList (init_list_head h head) head []
unfolding init_list_head
init_list_head-IsList h head = ground arith

-- On a list, `list_add` of a node that is not in it gives the list with that entry in front.
pub list_add-IsList :
    (h : Links) (new head : ℕ) (xs : List ℕ)
    → IsList h head xs
    → Fresh new (head ∷ xs)
    → IsList (list_add h new head) head (new ∷ xs)
unfolding list_add raw_list_add
list_add-IsList h new head xs l f =
    let other = (next-Fresh h head head (new ∷ []) xs l.0 ((λ e. f.0 (sym e)), tt) (f.1, tt)).0 in
    let same : Changes h (list_add h new head) head new new (h.next head) = record {
      next_kept = λ a p w. ground arith;
      prev_kept = λ a n v. ground arith;
    } in
    (
      (
        ground arith,
        ground arith,
        Chain-start same head head xs (ground (arith, f)) (ground (arith, other)) refl l.1.0 f.1 f.1
            f.0 l.1 l.0,
      ),
      (((λ e. f.0 (sym e)), l.1.0), (f.1, l.1.1)),
    )

-- On a list, `list_add_tail` of a node that is not in it gives the list with that entry behind the
-- others.
pub list_add_tail-IsList :
    (h : Links) (new head : ℕ) (xs : List ℕ)
    → IsList h head xs
    → Fresh new (head ∷ xs)
    → IsList (list_add_tail h new head) head (xs ++ new ∷ [])
unfolding list_add_tail raw_list_add
list_add_tail-IsList h new head xs l f =
    let other = prev_differs h new head head xs l.0 f in
    let same : Changes h (list_add_tail h new head) (h.prev head) new new head = record {
      next_kept = λ a p w. ground arith;
      prev_kept = λ a n v. ground arith;
    } in
    let chain =
      Chain-end same head head xs refl (ground arith) (ground arith) l.1 f f.1 l.1.0 l.0 in
    (
      Chain-join _ head new head xs [] chain (ground (arith, other), ground (arith, f)),
      (
        Fresh-join head xs (new ∷ []) l.1.0 ((λ e. f.0 (sym e)), tt),
        Distinct-join xs (new ∷ []) l.1.1 (tt, tt) (Apart-snoc new xs [] f.1 (Apart-nil xs)),
      ),
    )

without : (head e : ℕ) (xs ys : List ℕ) → Parted head xs e ys → Distinct (head ∷ xs ++ ys)
without head e xs ys p = (
  Fresh-join head xs ys p.head_xs p.head_ys,
  Distinct-join xs ys p.xs_distinct p.ys_distinct p.apart,
)

deleted :
    (h : Links) (e head : ℕ) (xs ys : List ℕ)
    → Chain h head xs e
    → Chain h e ys head
    → Parted head xs e ys
    → Chain (list_del h e) head (xs ++ ys) head
unfolding list_del raw_list_del
deleted h e head xs [] c d p =
    let same : Changes h (list_del h e) (h.prev e) e head e = record {
      next_kept = λ a p w. ground arith;
      prev_kept = λ a n v. ground (arith, d);
    } in
    let chain =
      Chain-end same head e xs refl (ground (arith, d)) (ground (arith, d))
        (p.head_xs, p.xs_distinct) ((λ q. p.head_e (sym q)), p.e_xs) p.head_xs p.e_xs c in
    subst (λ zs. Chain (list_del h e) head zs head) (sym (append-nil xs)) chain
deleted h e head xs (y ∷ ys) c d p =
    let same : Changes h (list_del h e) (h.prev e) e y e = record {
      next_kept = λ a p w. ground arith;
      prev_kept = λ a n v. ground (arith, d);
    } in
    let y_xs = (Apart-cons y xs ys p.apart).0 in
    let chain =
      Chain-end same head e xs refl (ground (arith, d)) (ground (arith, d))
        (p.head_xs, p.xs_distinct) ((λ q. p.head_e (sym q)), p.e_xs) y_xs p.e_xs c in
    let rest =
      Chain-kept same y head ys (prev-Fresh h head e xs (y ∷ ys) c (p.head_ys, p.apart)) p.e_ys
        p.ys_distinct.0 p.e_ys.1 (λ q. p.head_ys.0 (sym q)) (λ q. p.head_e (sym q)) d.2 in
    Chain-join _ head y head xs ys chain rest

-- `list_del` of an entry anywhere in a list gives the list without it, the others in their order.
pub list_del-IsList :
    (h : Links) (entry head : ℕ) (xs ys : List ℕ)
    → IsList h head (xs ++ entry ∷ ys)
    → IsList (list_del h entry) head (xs ++ ys)
list_del-IsList h entry head xs ys l =
    let chains = Chain-split h head entry head xs ys l.0 in
    let parted = to-Parted head entry xs ys l.1 in
    (deleted h entry head xs ys chains.0 chains.1 parted, without head entry xs ys parted)

replaced :
    (h : Links) (old new head : ℕ) (xs ys : List ℕ)
    → Chain h head xs old
    → Chain h old ys head
    → Parted head xs old ys
    → Fresh new (head ∷ xs)
    → new ≢ old
    → Fresh new ys
    → Chain (list_replace h old new) head (xs ++ new ∷ ys) head
unfolding list_replace
replaced h old new head xs ys c d p f new_old new_ys =
    let prev_new = prev_differs h new head old xs c f in
    let next_other =
      next-Fresh h old head (new ∷ old ∷ []) ys d ((λ e. f.0 (sym e)), (p.head_e, tt))
        (new_ys, (p.e_ys, tt)) in
    let same : Changes h (list_replace h old new) (h.prev old) new new (h.next old) = record {
      next_kept = λ a q w. ground (arith, next_other.0, next_other.1.0);
      prev_kept = λ a n v. ground (arith, next_other.0, next_other.1.0);
    } in
    Chain-join _ head new head xs ys
      (Chain-end same head old xs refl (ground (arith, next_other.0, next_other.1.0))
        (ground (arith, next_other.0, next_other.1.0)) (p.head_xs, p.xs_distinct) f f.1
        (next-Fresh h old head xs ys d p.head_xs p.apart) c)
      (Chain-start same old head ys (ground (arith, prev_new, next_other.0, next_other.1.0))
        (ground (arith, next_other.0, next_other.1.0)) refl
        (prev-Fresh h head old xs ys c (p.head_ys, p.apart)) new_ys new_ys f.0
        (p.head_ys, p.ys_distinct) d)

with_new :
    (head old new : ℕ) (xs ys : List ℕ)
    → Parted head xs old ys
    → Fresh new (head ∷ xs)
    → Fresh new ys
    → Distinct (head ∷ xs ++ new ∷ ys)
with_new head old new xs ys p f g = (
  Fresh-join head xs (new ∷ ys) p.head_xs ((λ e. f.0 (sym e)), p.head_ys),
  Distinct-join xs (new ∷ ys) p.xs_distinct (g, p.ys_distinct) (Apart-snoc new xs ys f.1 p.apart),
)

pub list_replace-IsList :
    (h : Links) (old new head : ℕ) (xs ys : List ℕ)
    → IsList h head (xs ++ old ∷ ys)
    → Fresh new (head ∷ xs ++ old ∷ ys)
    → IsList (list_replace h old new) head (xs ++ new ∷ ys)
list_replace-IsList h old new head xs ys l f =
    let chains = Chain-split h head old head xs ys l.0 in
    let parted = to-Parted head old xs ys l.1 in
    let fresh = Fresh-split new xs (old ∷ ys) f.1 in
    (
      replaced h old new head xs ys chains.0 chains.1 parted (f.0, fresh.0) fresh.1.0 fresh.1.1,
      with_new head old new xs ys parted (f.0, fresh.0) fresh.1.1,
    )

-- A change of a node that is not in the list.
aside :
    (h h' : Links) (u head : ℕ) (xs : List ℕ)
    → Changes h h' u u u u
    → Fresh u (head ∷ xs)
    → IsList h head xs
    → IsList h' head xs
aside h h' u head xs same f l = (Chain-kept same head head xs f f f.1 f.1 f.0 f.0 l.0, l.1)

old_aside :
    (head old new : ℕ) (xs ys : List ℕ)
    → Parted head xs old ys
    → new ≢ old
    → Fresh old (head ∷ xs ++ new ∷ ys)
old_aside head old new xs ys p n =
    ((λ e. p.head_e (sym e)), Fresh-join old xs (new ∷ ys) p.e_xs ((λ e. n (sym e)), p.e_ys))

-- `list_replace_init` of an entry anywhere in a list by a node that is not in it gives the list
-- with the node in the place of the entry, and leaves the entry as the head of an empty list.
pub list_replace_init-IsList :
    (h : Links) (old new head : ℕ) (xs ys : List ℕ)
    → IsList h head (xs ++ old ∷ ys)
    → Fresh new (head ∷ xs ++ old ∷ ys)
    → IsList (list_replace_init h old new) head (xs ++ new ∷ ys)
      × IsList (list_replace_init h old new) old []
unfolding list_replace_init init_list_head
list_replace_init-IsList h old new head xs ys l f =
    let parted = to-Parted head old xs ys l.1 in
    let fresh = Fresh-split new xs (old ∷ ys) f.1 in
    let h1 = list_replace h old new in
    let same : Changes h1 (init_list_head h1 old) old old old old = record {
      next_kept = λ a p w. ground arith;
      prev_kept = λ a n v. ground arith;
    } in
    (
      aside h1 _ old head (xs ++ new ∷ ys) same (old_aside head old new xs ys parted fresh.1.0)
          (list_replace-IsList h old new head xs ys l f),
      init_list_head-IsList h1 old,
    )

-- `__list_del_clearprev` of an entry gives the list without it, and leaves NULL in the back
-- pointer of the entry.
pub raw_list_del_clearprev-IsList :
    (h : Links) (entry head : ℕ) (xs ys : List ℕ)
    → IsList h head (xs ++ entry ∷ ys)
    → IsList (raw_list_del_clearprev h entry) head (xs ++ ys)
      × ((raw_list_del_clearprev h entry).prev entry ≡ 0)
unfolding raw_list_del_clearprev list_del
raw_list_del_clearprev-IsList h entry head xs ys l =
    let p = to-Parted head entry xs ys l.1 in
    let same : Changes (list_del h entry) (raw_list_del_clearprev h entry) entry entry entry entry =
      record { next_kept = λ a p w. refl; prev_kept = λ a n v. ground arith } in
    (
      aside (list_del h entry) _ entry head (xs ++ ys) same
          ((λ e. p.head_e (sym e)), Fresh-join entry xs ys p.e_xs p.e_ys)
          (list_del-IsList h entry head xs ys l),
      ground arith,
    )
