-- ===== src/Gicv3.antt =====
-- driver/interrupt/gicv3/gicv3.c with the registers of gicv3.h. The functions that the interrupt core
-- calls through pointers take the kernel's state; the accesses go to its trace.
pub mod Enabled
pub mod Masks
pub mod Laws
use armv8_os.Prelude.{
  ◌∷◌, ℕ, zero, suc, ◌+◌, ◌*◌, ◌-◌, ◌/◌, ◌%◌, ◌^◌, ltb, leb, ◌==◌, ◌&&◌, if◌then◌else◌, bit_and,
  bit_or,
}
use armv8_os.Run.{Run, done, out, ◌>>=◌}
use armv8_os.Io
use armv8_os.Io.{Trace, Bus, writel, readl, read_sysreg, write_sysreg, isb}
use armv8_os.Interrupt.{Kernel, generic_handle_irq}
use armv8_os.Mmu.{device_start}

abbrev pub gicd_ctlr : ℕ
gicd_ctlr = 0x0000

abbrev pub gicd_typer : ℕ
gicd_typer = 0x0004

abbrev pub gicd_igroupr : ℕ
gicd_igroupr = 0x0080

abbrev pub gicd_isenabler : ℕ
gicd_isenabler = 0x0100

abbrev pub gicd_icenabler : ℕ
gicd_icenabler = 0x0180

abbrev pub gicd_ipriorityr : ℕ
gicd_ipriorityr = 0x0400

abbrev pub gicd_icfgr : ℕ
gicd_icfgr = 0x0c00

abbrev pub gicr_waker : ℕ
gicr_waker = 0x0014

abbrev pub gicr_igroupr0 : ℕ
gicr_igroupr0 = 0x0080

abbrev pub gicr_isenabler : ℕ
gicr_isenabler = 0x0100

abbrev pub gicr_icenabler : ℕ
gicr_icenabler = 0x0180

abbrev pub gicr_ipriorityr0 : ℕ
gicr_ipriorityr0 = 0x0400

abbrev pub nr_local_irqs : ℕ
nr_local_irqs = 32

abbrev pub nr_sgi : ℕ
nr_sgi = 16

-- A driver's accesses on the state of the kernel.
abbrev pub on_trace : (Trace → Trace) → Kernel → Kernel
on_trace f k = record k { machine = record (k.machine) { trace = f k.machine.trace } }

unfoldable pub gicv3_mask_irq : ℕ → Kernel → Kernel
gicv3_mask_irq hwirq k =
    let mask = 2 ^ (hwirq % 32) in
    if ltb hwirq nr_local_irqs
    then on_trace (writel mask (k.machine.gicr_sgi_base + gicr_icenabler + hwirq / 32 * 4)) k
    else on_trace (writel mask (k.machine.gicd_base + gicd_icenabler + hwirq / 32 * 4)) k

unfoldable pub gicv3_unmask_irq : ℕ → Kernel → Kernel
gicv3_unmask_irq hwirq k =
    let mask = 2 ^ (hwirq % 32) in
    if ltb hwirq nr_local_irqs
    then on_trace (writel mask (k.machine.gicr_sgi_base + gicr_isenabler + hwirq / 32 * 4)) k
    else on_trace (writel mask (k.machine.gicd_base + gicd_isenabler + hwirq / 32 * 4)) k

unfoldable pub gicv3_eoi_irq : ℕ → Kernel → Kernel
gicv3_eoi_irq hwirq k = on_trace (write_sysreg Io.icc_eoir1_el1 hwirq) k

-- for (i = ...; i < end; i += per) writel(val, reg + (i / per) * 4), with `rounds` left.
unfoldable pub fill : (rounds i per val reg : ℕ) → Trace → Trace
fill zero i per val reg t = t
fill (suc rounds) i per val reg t =
    fill rounds (i + per) per val reg (writel val (reg + i / per * 4) t)

-- The rounds of a loop from `i` below `end` in steps of `per`.
abbrev pub rounds : (i end per : ℕ) → ℕ
rounds i end per = (end - i + per - 1) / per

-- The banked lines: their priorities, the 16 software lines enabled, the others not.
unfoldable pub redistributor_init : (gicr_sgi_base : ℕ) → Trace → Trace
redistributor_init sgi t =
    let t1 = fill 4 0 4 0x90909090 (sgi + gicr_ipriorityr0) t in
    let t2 = fill 4 16 4 0xa0a0a0a0 (sgi + gicr_ipriorityr0) t1 in
    let t3 = writel 0xffff0000 (sgi + gicr_icenabler) t2 in
    let t4 = writel 0x0000ffff (sgi + gicr_isenabler) t3 in
    let t5 = writel 0xffffffff (sgi + gicr_igroupr0) t4 in
    isb ∷ write_sysreg Io.icc_igrpen1_el1 1 (write_sysreg Io.icc_pmr_el1 0xff (isb ∷ t5))

module _ (bus : Bus) where
  unfoldable pub gic_read_iar : Trace → ℕ × Trace
  gic_read_iar t = read_sysreg bus 32 Io.icc_iar1_el1 t

  -- `printk` is what the call printk("irqnr invalid: [%d]\n", irqnr) does.
  unfoldable pub gicv3_handle_irq :
      (invoke : ℕ → ℕ → Kernel → Kernel) → (printk : ℕ → Kernel → Kernel) → Kernel → Kernel
  gicv3_handle_irq invoke printk k =
      let (irqnr, t) = gic_read_iar k.machine.trace in
      let k1 = on_trace (λ _. t) k in
      if leb 1020 irqnr && leb irqnr 1023
      then printk irqnr k1
      else gicv3_eoi_irq irqnr (generic_handle_irq invoke irqnr k1).0

  -- The default priority of the lines from 32 on; each is read back.
  unfoldable pub fill_priority : (rounds i reg : ℕ) → Trace → Trace
  fill_priority zero i reg t = t
  fill_priority (suc rounds) i reg t =
      fill_priority rounds (i + 4) reg
        (readl bus (reg + i / 4 * 4) (writel 0xa0a0a0a0 (reg + i / 4 * 4) t)).1

  -- while (readl(addr) & mask);
  unfoldable pub wait_clear : (fuel addr mask : ℕ) → Trace → Run Trace
  wait_clear zero addr mask t = out
  wait_clear (suc fuel) addr mask t =
      let rest = wait_clear fuel addr mask (readl bus addr t).1 in
      if bit_and (readl bus addr t).0 mask == 0 then done (readl bus addr t).1 else rest

  unfoldable pub gicv3_gicd_wait_for_rwp : (fuel gicd_base : ℕ) → Trace → Run Trace
  gicv3_gicd_wait_for_rwp fuel gicd_base t = wait_clear fuel (gicd_base + gicd_ctlr) (2 ^ 31) t

  -- The distributor, up to its wait: all lines from 32 on level-triggered, of one priority,
  -- disabled and in group 1.
  unfoldable pub distributor_init : (gicd_base : ℕ) → Trace → Trace
  distributor_init gicd_base t =
      let (type, t1) = readl bus (gicd_base + gicd_typer) (writel 0 (gicd_base + gicd_ctlr) t) in
      let nr_lines = 32 * (type % 32) in
      fill (rounds 32 nr_lines 32) 32 32 0xffffffff (gicd_base + gicd_igroupr) (
        fill (rounds 32 nr_lines 32) 32 32 0xffffffff (gicd_base + gicd_icenabler) (
          fill_priority (rounds 32 nr_lines 4) 32 (gicd_base + gicd_ipriorityr)
            (fill (rounds 32 nr_lines 16) 32 16 0 (gicd_base + gicd_icfgr) t1)))

  -- GICD_CTLR_ENABLE_GRP1 is 0, GICD_CTLR_ENABLE_GRP1A and GICD_CTLR_ARE_NS are bits 1 and 4.
  unfoldable pub distributor_enable : (gicd_base gicr_base : ℕ) → Trace → Trace
  distributor_enable gicd_base gicr_base t =
      let t1 =
        write_sysreg Io.icc_sre_el1 0xF
          (isb ∷ writel (bit_or (bit_or (bit_or 1 0) (2 ^ 1)) (2 ^ 4)) (gicd_base + gicd_ctlr) t) in
      let (waker, t2) = readl bus (gicr_base + gicr_waker) t1 in
      writel (bit_and waker (2 ^ 32 - 1 - 2 ^ 1)) (gicr_base + gicr_waker) t2

  -- The third parameter of the source, nr_redist_regions, is not used.
  unfoldable pub gicv3_hw_init : (fuel dist_base rdist_base : ℕ) → Kernel → Run Kernel
  gicv3_hw_init fuel dist_base rdist_base k =
      let gicd_base = dist_base + device_start in
      let gicr_base = rdist_base + device_start in
      let gicr_sgi_base = rdist_base + device_start + 64 * 1024 in
      gicv3_gicd_wait_for_rwp fuel gicd_base (distributor_init gicd_base k.machine.trace) >>= λ t1.
      wait_clear fuel (gicr_base + gicr_waker) (2 ^ 2) (distributor_enable gicd_base gicr_base t1)
      >>= λ t2. done (record k {
        machine = record (k.machine) {
          gicd_base = gicd_base;
          gicr_base = gicr_base;
          gicr_sgi_base = gicr_sgi_base;
          trace = redistributor_init gicr_sgi_base t2;
        };
      })
