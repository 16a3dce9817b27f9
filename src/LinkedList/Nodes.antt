-- ===== src/LinkedList/Nodes.antt =====
-- Nodes that differ, for the lists of include/eeos/list.h.
use armv8_os.Prelude.{sym, ℕ, ◌≢◌, List, [], ◌∷◌, ◌++◌}

abbrev pub Fresh : ℕ → List ℕ → Type 0
Fresh u [] = Unit
Fresh u (x ∷ xs) = (u ≢ x) × Fresh u xs

abbrev pub Distinct : List ℕ → Type 0
Distinct [] = Unit
Distinct (x ∷ xs) = Fresh x xs × Distinct xs

-- No node of the first list is in the second.
abbrev pub Apart : List ℕ → List ℕ → Type 0
Apart [] ys = Unit
Apart (x ∷ xs) ys = Fresh x ys × Apart xs ys

pub Fresh-split : (u : ℕ) (xs ys : List ℕ) → Fresh u (xs ++ ys) → Fresh u xs × Fresh u ys
Fresh-split u [] ys f = (tt, f)
Fresh-split u (x ∷ xs) ys f = let rest = Fresh-split u xs ys f.1 in ((f.0, rest.0), rest.1)

pub Fresh-join : (u : ℕ) (xs ys : List ℕ) → Fresh u xs → Fresh u ys → Fresh u (xs ++ ys)
Fresh-join u [] ys f g = g
Fresh-join u (x ∷ xs) ys f g = (f.0, Fresh-join u xs ys f.1 g)

pub Distinct-split :
    (xs ys : List ℕ) → Distinct (xs ++ ys) → Distinct xs × Distinct ys × Apart xs ys
Distinct-split [] ys d = (tt, d, tt)
Distinct-split (x ∷ xs) ys d =
    let rest = Distinct-split xs ys d.1 in
    let fresh = Fresh-split x xs ys d.0 in ((fresh.0, rest.0), rest.1, (fresh.1, rest.2))

pub Distinct-join : (xs ys : List ℕ) → Distinct xs → Distinct ys → Apart xs ys → Distinct (xs ++ ys)
Distinct-join [] ys d e a = e
Distinct-join (x ∷ xs) ys d e a = (Fresh-join x xs ys d.0 a.0, Distinct-join xs ys d.1 e a.1)

-- Apart lists, seen from the second one.
pub Apart-cons : (y : ℕ) (xs ys : List ℕ) → Apart xs (y ∷ ys) → Fresh y xs × Apart xs ys
Apart-cons y [] ys a = (tt, tt)
Apart-cons y (x ∷ xs) ys a =
    let rest = Apart-cons y xs ys a.1 in ((λ e. a.0.0 (sym e), rest.0), (a.0.1, rest.1))

pub Apart-snoc : (y : ℕ) (xs ys : List ℕ) → Fresh y xs → Apart xs ys → Apart xs (y ∷ ys)
Apart-snoc y [] ys f a = tt
Apart-snoc y (x ∷ xs) ys f a = (((λ e. f.0 (sym e)), a.0), Apart-snoc y xs ys f.1 a.1)

pub Apart-nil : (xs : List ℕ) → Apart xs []
Apart-nil [] = tt
Apart-nil (x ∷ xs) = (tt, Apart-nil xs)
