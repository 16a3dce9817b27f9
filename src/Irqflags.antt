-- ===== src/Irqflags.antt =====
-- arch/arm64/include/asm/irqflags.h and include/eeos/irqflags.h: the mask of the interrupts.
pub mod Laws
use armv8_os.Prelude.{ℕ}
use armv8_os.Io
use armv8_os.Io.{Trace, Bus, read_sysreg, write_sysreg}

-- Bit 1 of the immediate stands for IRQ.
abbrev pub local_irq_enable : Trace → Trace
local_irq_enable t = write_sysreg Io.daifclr 2 t

abbrev pub local_irq_disable : Trace → Trace
local_irq_disable t = write_sysreg Io.daifset 2 t

-- The flags, and the trace.
unfoldable pub local_irq_save : Bus → Trace → ℕ × Trace
local_irq_save bus t =
    let (flags, t1) = read_sysreg bus 64 Io.daif t in (flags, write_sysreg Io.daifset 2 t1)

unfoldable pub local_irq_restore : (flags : ℕ) → Trace → Trace
local_irq_restore flags t = write_sysreg Io.daif flags t
