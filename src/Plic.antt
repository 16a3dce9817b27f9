-- ===== src/Plic.antt =====
-- driver/interrupt/plic.c and driver/timer/riscv_timer.c. An unsigned int `hwirq` is taken as the
-- int that plic_toggle gets; the CSR mie is the one that csr_set of asm/csr.h writes.
pub mod Laws
use armv8_os.Prelude.{
  ℕ, zero, suc, ◌+◌, ◌*◌, ◌-◌, ◌/◌, ◌%◌, ◌^◌, ◌==◌, if◌then◌else◌, Bool, true, false, some, bit_and,
  bit_or,
}
use armv8_os.Io.{Trace, Bus, writel, readl}
use armv8_os.Interrupt.{IrqChip, set_irq_chip, set_handle_irq, Kernel, generic_handle_irq}
use armv8_os.Gicv3.{on_trace}

abbrev pub plic_priority_base : ℕ
plic_priority_base = 0x0

abbrev pub plic_enable_base : ℕ
plic_enable_base = 0x2000

abbrev pub plic_context_base : ℕ
plic_context_base = 0x200000

unfoldable pub plic_set_prio : (base hwirq prio : ℕ) → Trace → Trace
plic_set_prio base hwirq prio t = writel prio (base + plic_priority_base + hwirq * 4) t

unfoldable pub plic_eoi : (base hwirq : ℕ) → Trace → Trace
plic_eoi base hwirq t = writel hwirq (base + plic_context_base + 0x04) t

module _ (bus : Bus) where
  -- `1 << (hwirq % 32)` as a uint32_t.
  unfoldable pub plic_toggle : (base hwirq : ℕ) → (enable : Bool) → Trace → Trace
  plic_toggle base hwirq enable t =
      let reg = base + plic_enable_base + hwirq / 32 * 4 in
      let hwirq_mask = 2 ^ (hwirq % 32) in
      let (v, t1) = readl bus reg t in
      if enable
      then writel (bit_or v hwirq_mask) reg t1
      else writel (bit_and v (2 ^ 32 - 1 - hwirq_mask)) reg t1

  unfoldable pub plic_claim : (base : ℕ) → Trace → ℕ × Trace
  plic_claim base t = readl bus (base + plic_context_base + 0x04) t

  -- for (hwirq = ...; hwirq < nr_irqs; hwirq++), with `rounds` left.
  unfoldable pub quiet_lines : (rounds base hwirq : ℕ) → Trace → Trace
  quiet_lines zero base hwirq t = t
  quiet_lines (suc rounds) base hwirq t =
      quiet_lines rounds base (suc hwirq)
        (plic_toggle base hwirq false (plic_set_prio base hwirq 0xFF t))

  -- for (i = ...; i < nr_contexts; i++), with `rounds` left.
  unfoldable pub contexts : (rounds base nr_irqs i : ℕ) → Trace → Trace
  contexts zero base nr_irqs i t = t
  contexts (suc rounds) base nr_irqs i t =
      contexts rounds base nr_irqs (suc i) (
        quiet_lines (nr_irqs - 1) base 1 (writel 0 (base + plic_enable_base + i * 0x1000 + 0x00) t))

-- `enable_external` is csr_set(mie, MIE_MEIE) and `say` the printk behind it. The new value of
-- plic_regs is returned with the trace.
module _ (bus : Bus) (enable_external say : Trace → Trace) where
  unfoldable pub plic_init : (base nr_irqs nr_contexts : ℕ) → Trace → ℕ × Trace
  plic_init base nr_irqs nr_contexts t =
      (base, say (enable_external (contexts bus nr_contexts base nr_irqs 0 t)))

  -- The chip and the handler are registered by their addresses. The new value of plic_regs is returned
  -- with the state.
  unfoldable pub riscv_plic_init :
      (plic_irq_mask plic_irq_unmask riscv_handle_irq : ℕ) → Kernel → ℕ × Kernel
  riscv_plic_init plic_irq_mask plic_irq_unmask riscv_handle_irq k =
      let chip : IrqChip = record { irq_mask = plic_irq_mask; irq_unmask = plic_irq_unmask } in
      let k1 = (set_irq_chip (some chip) k).0 in
      let k2 = (set_handle_irq riscv_handle_irq k1).0 in
      let (plic_regs, t) = plic_init 0x60000000 128 1 k2.machine.trace in
      (plic_regs, on_trace (λ _. t) k2)

-- The chip's functions, on plic_regs.
module _ (bus : Bus) (plic_regs : ℕ) where
  abbrev pub plic_irq_mask : ℕ → Trace → Trace
  plic_irq_mask hwirq t = plic_toggle bus plic_regs hwirq false t

  abbrev pub plic_irq_unmask : ℕ → Trace → Trace
  plic_irq_unmask hwirq t = plic_toggle bus plic_regs hwirq true t

  abbrev pub plic_irq_eoi : ℕ → Trace → Trace
  plic_irq_eoi hwirq t = plic_eoi plic_regs hwirq t

  abbrev pub plic_irq_claim : Trace → ℕ × Trace
  plic_irq_claim t = plic_claim bus plic_regs t

  unfoldable pub riscv_handle_irq : (invoke : ℕ → ℕ → Kernel → Kernel) → Kernel → Kernel
  riscv_handle_irq invoke k =
      let (irqnr, t) = plic_irq_claim k.machine.trace in
      on_trace (plic_irq_eoi irqnr) (generic_handle_irq invoke irqnr (on_trace (λ _. t) k)).0

abbrev pub timecmp_base : ℕ
timecmp_base = 0x64004000

-- `enable_timer` is csr_set(mie, MIE_MTIE).
unfoldable pub riscv_timer_init : (enable_timer : Trace → Trace) → Trace → Trace
riscv_timer_init enable_timer t =
    let val = 2 ^ 64 - 1 in
    let mask = 2 ^ 32 - 1 in
    enable_timer
      (writel (val / 2 ^ 32) (timecmp_base + 4) (writel (bit_and val mask) timecmp_base t))
