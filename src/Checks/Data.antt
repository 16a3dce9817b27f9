-- ===== src/Checks/Data.antt =====
-- Memories for the runs.
use armv8_os.Prelude.{ℕ, ◌-◌, List, [], ◌∷◌, leb, get_or, if◌then◌else◌}
use armv8_os.Memory.{Mem}

-- `xs` from `s` on, and NUL everywhere else.
abbrev pub text_at : ℕ → List ℕ → Mem
text_at s xs a = if leb s a then get_or xs (a - s) 0 else 0

abbrev pub blank : Mem
blank a = 0

abbrev pub abc : List ℕ
abc = b'a' ∷ b'b' ∷ b'c' ∷ []
