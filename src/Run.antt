-- ===== src/Run.antt =====
-- Loops that take fuel: a run ends with a result, or `out` says that the fuel ran out before.
use mathlib.Core.Path.{◌≡◌, refl}

pub data Run {ℓ} (A : Type ℓ) : Type ℓ where
  done : A → Run A
  out : Run A

infixl 5 ◌>>=◌
abbrev pub ◌>>=◌ : {A B : Type 0} → Run A → (A → Run B) → Run B
done a >>= k = k a
out >>= k = out

-- The run ends, with a result that `P` holds of.
abbrev pub Ends : {A : Type 0} → (A → Type 0) → Run A → Type 0
Ends P (done x) = P x
Ends P out = ⊥

pub Ends-bind :
    {A B : Type 0} (P : A → Type 0) (Q : B → Type 0) (r : Run A) (k : A → Run B)
    → Ends P r
    → ((x : A) → P x → Ends Q (k x))
    → Ends Q (r >>= k)
Ends-bind P Q (done x) k p next = next x p
Ends-bind P Q out k p next = elim p [ ]

-- The same, where the way on may use what the run ended with.
pub Ends-bind_with :
    {A B : Type 0} (P : A → Type 0) (Q : B → Type 0) (r : Run A) (k : A → Run B)
    → Ends P r
    → ((x : A) → r ≡ done x → P x → Ends Q (k x))
    → Ends Q (r >>= k)
Ends-bind_with P Q (done x) k p next = next x refl p
Ends-bind_with P Q out k p next = elim p [ ]

pub Ends-mono :
    {A : Type 0} (P Q : A → Type 0) (r : Run A) → ((x : A) → P x → Q x) → Ends P r → Ends Q r
Ends-mono P Q (done x) f p = f x p
Ends-mono P Q out f p = p
