-- ===== src/Irqflags/Laws.antt =====
-- Critical sections by the flags of arch/arm64/include/asm/irqflags.h.
use armv8_os.Prelude.{
  ◌%◌, ◌^◌, ◌≡◌, ◌==◌, Bool, true, false, if◌then◌else◌, [], ◌∷◌, ◌++◌, arith, refl,
}
use armv8_os.Prelude.Bitwise.{bit}
use armv8_os.Io
use armv8_os.Io.{Event, Trace, Bus}
use armv8_os.Irqflags.{local_irq_save, local_irq_restore}

-- PSTATE.I: bit 7 of DAIF, bit 1 of the immediates.
abbrev pub effect : Event → Bool → Bool
effect (Event.msr Io.daif val) before = bit val 7 == 1
effect (Event.msr Io.daifset val) before = if bit val 1 == 1 then true else before
effect (Event.msr Io.daifclr val) before = if bit val 1 == 1 then false else before
effect _ before = before

abbrev pub masked : (start : Bool) → Trace → Bool
masked start [] = start
masked start (e ∷ t) = effect e (masked start t)

-- DAIF reads as it is.
abbrev pub Reports : (bus : Bus) → (start : Bool) → Type 0
Reports bus start = (t : Trace) → (bit (bus.sysreg t Io.daif) 7 == 1) ≡ masked start t

-- Where DAIF reads as it is, interrupts are masked behind `local_irq_save`, and after
-- `local_irq_restore` of its flags they are masked exactly if they were before, whatever is done
-- in between.
pub local_irq_save-restore :
    (bus : Bus) (start : Bool) (t between : Trace)
    → Reports bus start
    → let (flags, t') = local_irq_save bus t in
      (masked start t' ≡ true)
      × (masked start (local_irq_restore flags (between ++ t')) ≡ masked start t)
unfolding local_irq_save local_irq_restore
local_irq_save-restore bus start t between reports =
    let bits : bit (bus.sysreg t Io.daif % 2 ^ 64) 7 ≡ bit (bus.sysreg t Io.daif) 7 = omega arith in
    let r = reports t in (refl, rw (bits) r)
