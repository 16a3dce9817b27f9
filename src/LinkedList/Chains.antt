-- ===== src/LinkedList/Chains.antt =====
-- The shape of the lists of include/eeos/list.h, and what a change of two nodes leaves of it.
use mathlib.Core.Path.{subst}
use armv8_os.Prelude.{sym, ◌∙◌, ℕ, ◌≡◌, ◌≢◌, List, [], ◌∷◌, ◌++◌, arith}
use armv8_os.LinkedList.{Links}
use armv8_os.LinkedList.Nodes.{Apart, Apart-cons, Fresh-split, Distinct-split, Fresh, Distinct}

-- The nodes `xs` stand between `a` and `b`, linked both ways.
abbrev pub Chain : Links → ℕ → List ℕ → ℕ → Type 0
Chain h a [] b = (h.next a ≡ b) × (h.prev b ≡ a)
Chain h a (x ∷ xs) b = (h.next a ≡ x) × (h.prev x ≡ a) × Chain h x xs b

-- `head` is the head of a list with the entries `xs`, in this order.
abbrev pub IsList : Links → ℕ → List ℕ → Type 0
IsList h head xs = Chain h head xs head × Distinct (head ∷ xs)

pub Chain-split :
    (h : Links) (a e b : ℕ) (xs ys : List ℕ)
    → Chain h a (xs ++ e ∷ ys) b
    → Chain h a xs e × Chain h e ys b
Chain-split h a e b [] ys c = ((c.0, c.1), c.2)
Chain-split h a e b (x ∷ xs) ys c =
    let rest = Chain-split h x e b xs ys c.2 in ((c.0, c.1, rest.0), rest.1)

pub Chain-join :
    (h : Links) (a e b : ℕ) (xs ys : List ℕ)
    → Chain h a xs e
    → Chain h e ys b
    → Chain h a (xs ++ e ∷ ys) b
Chain-join h a e b [] ys c d = (c.0, c.1, d)
Chain-join h a e b (x ∷ xs) ys c d = (c.0, c.1, Chain-join h x e b xs ys c.2 d)

-- The node in front of the end of a chain is not outside it.
pub prev_differs :
    (h : Links) (u a e : ℕ) (xs : List ℕ) → Chain h a xs e → Fresh u (a ∷ xs) → u ≢ h.prev e
prev_differs h u a e [] c f = λ eq. f.0 (eq ∙ c.1)
prev_differs h u a e (x ∷ xs) c f = prev_differs h u x e xs c.2 f.1

-- From `h` to `h'`, `next` changes at `p` and `w` at most, and `prev` at `n` and `v`.
pub record Changes (h h' : Links) (p w n v : ℕ) : Type 0 where
  pub next_kept : (a : ℕ) → a ≢ p → a ≢ w → h'.next a ≡ h.next a
  pub prev_kept : (a : ℕ) → a ≢ n → a ≢ v → h'.prev a ≡ h.prev a

module _ {h h' : Links} {p w n v : ℕ} (same : Changes h h' p w n v) where
  pub Chain-kept :
      (a b : ℕ) (xs : List ℕ)
      → Fresh p (a ∷ xs)
      → Fresh w (a ∷ xs)
      → Fresh n xs
      → Fresh v xs
      → n ≢ b
      → v ≢ b
      → Chain h a xs b
      → Chain h' a xs b
  Chain-kept a b [] fp fw fn fv nb vb c =
      (ground (arith, fp, fw, c, same.next_kept a), ground (arith, nb, vb, c, same.prev_kept b))
  Chain-kept a b (x ∷ xs) fp fw fn fv nb vb c = (
    ground (arith, fp, fw, c, same.next_kept a),
    ground (arith, fn, fv, c, same.prev_kept x),
    Chain-kept x b xs fp.1 fw.1 fn.1 fv.1 nb vb c.2,
  )

  -- The end `e` of a chain is replaced by `n`.
  pub Chain-end :
      (a e : ℕ) (xs : List ℕ)
      → h.prev e ≡ p
      → h'.next p ≡ n
      → h'.prev n ≡ p
      → Distinct (a ∷ xs)
      → Fresh w (a ∷ xs)
      → Fresh n xs
      → Fresh v xs
      → Chain h a xs e
      → Chain h' a xs n
  Chain-end a e [] is_p np pn d fw fn fv c =
      (ground (arith, is_p, np, c), ground (arith, is_p, pn, c))
  Chain-end a e (x ∷ xs) is_p np pn d fw fn fv c =
      let other = prev_differs h a x e xs c.2 d.0 in
      (
        ground (arith, is_p, other, fw, c, same.next_kept a),
        ground (arith, fn, fv, c, same.prev_kept x),
        Chain-end x e xs is_p np pn d.1 fw.1 fn.1 fv.1 c.2,
      )

  -- The start `e` of a chain is replaced by `w`.
  pub Chain-start :
      (e b : ℕ) (xs : List ℕ)
      → h'.next w ≡ h.next e
      → h'.prev (h.next e) ≡ w
      → h.next e ≡ v
      → Fresh p xs
      → Fresh w xs
      → Fresh n (xs)
      → n ≢ b
      → Distinct (b ∷ xs)
      → Chain h e xs b
      → Chain h' w xs b
  Chain-start e b [] nw pw is_v fp fw fn nb d c = (ground (arith, nw, c), ground (arith, pw, c))
  Chain-start e b (x ∷ xs) nw pw is_v fp fw fn nb d c = (
    ground (arith, nw, c),
    ground (arith, pw, c),
    Chain-kept x b xs fp fw fn.1 (subst (λ y. Fresh y xs) (sym c.0 ∙ is_v) d.1.0) nb
        (λ eq. d.0.0 (sym eq ∙ sym is_v ∙ c.0)) c.2,
  )

-- The node in front of the end of a chain is one of the chain.
pub prev-Fresh :
    (h : Links) (a e : ℕ) (xs zs : List ℕ)
    → Chain h a xs e
    → Apart (a ∷ xs) zs
    → Fresh (h.prev e) zs
prev-Fresh h a e [] zs c apart = subst (λ y. Fresh y zs) (sym c.1) apart.0
prev-Fresh h a e (x ∷ xs) zs c apart = prev-Fresh h x e xs zs c.2 apart.1

-- The node behind the start of a chain is one of the chain.
pub next-Fresh :
    (h : Links) (e b : ℕ) (xs ys : List ℕ)
    → Chain h e ys b
    → Fresh b xs
    → Apart xs ys
    → Fresh (h.next e) xs
next-Fresh h e b xs [] c f apart = subst (λ y. Fresh y xs) (sym c.0) f
next-Fresh h e b xs (y ∷ ys) c f apart =
    subst (λ z. Fresh z xs) (sym c.0) (Apart-cons y xs ys apart).0

-- What the list's entries being distinct says around one of them.
pub record Parted (head : ℕ) (xs : List ℕ) (e : ℕ) (ys : List ℕ) : Type 0 where
  pub head_xs : Fresh head xs
  pub head_e : head ≢ e
  pub head_ys : Fresh head ys
  pub xs_distinct : Distinct xs
  pub ys_distinct : Distinct ys
  pub e_xs : Fresh e xs
  pub e_ys : Fresh e ys
  pub apart : Apart xs ys

pub to-Parted : (head e : ℕ) (xs ys : List ℕ) → Distinct (head ∷ xs ++ e ∷ ys) → Parted head xs e ys
to-Parted head e xs ys d =
    let f = Fresh-split head xs (e ∷ ys) d.0 in
    let s = Distinct-split xs (e ∷ ys) d.1 in
    let a = Apart-cons e xs ys s.2 in
    record {
      head_xs = f.0;
      head_e = f.1.0;
      head_ys = f.1.1;
      xs_distinct = s.0;
      ys_distinct = s.1.1;
      e_xs = a.0;
      e_ys = s.1.0;
      apart = a.1;
    }
