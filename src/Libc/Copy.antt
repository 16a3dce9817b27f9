-- ===== src/Libc/Copy.antt =====
-- strcpy and strncpy of lib/libc/string.c. Both return `dest`, so the model gives the new memory.
pub mod Laws
use armv8_os.Run.{Run, done, out}
use armv8_os.Prelude.{ℕ, zero, suc, ◌==◌, if◌then◌else◌}
use armv8_os.Memory.{Mem, store}

-- while ((*dest++ = *src++) != '\0');
unfoldable pub strcpy : ℕ → Mem → ℕ → ℕ → Run Mem
strcpy zero m dest src = out
strcpy (suc fuel) m dest src =
    let m' : Mem = store m dest (m src) in
    let rest = strcpy fuel m' (suc dest) (suc src) in if m src == 0 then done m' else rest

-- The loop of strncpy: the byte is stored first, and `src` stays at a NUL.
unfoldable pub strncpy : Mem → ℕ → ℕ → ℕ → Mem
strncpy m tmp src zero = m
strncpy m tmp src (suc count) =
    strncpy (store m tmp (m src)) (suc tmp) (if m src == 0 then src else suc src) count
