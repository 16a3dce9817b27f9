-- ===== src/Boot/Lines.antt =====
-- The controller's lines behind the steps of start_kernel in init/main.c.
use armv8_os.Prelude.{
  ℕ, zero, suc, ◌+◌, ◌*◌, ◌/◌, ◌%◌, ◌^◌, ◌<◌, ◌≤◌, ◌≡◌, ◌==◌, Bool, false, if◌then◌else◌, ◌||◌,
  arith, ap, ◌∙◌, refl,
}
use armv8_os.Memory.{Mem}
use armv8_os.Io.{Trace, Bus}
use armv8_os.Interrupt.{IrqChip, fill_desc, setup_irq, unmask_irq, Kernel, request_irq, irq_to_desc}
use armv8_os.Gicv3.{gicv3_unmask_irq, on_trace}
use armv8_os.Irqflags.Laws.{masked}
use armv8_os.Gicv3.Enabled.{enabled, Frames}
use armv8_os.Gicv3.Laws.{gicv3_unmask_irq-enabled}
use armv8_os.Timer.{
  read_cntfrq_el0, read_cntpct_el0, write_cntp_tval_el0, arch_timer_start, arch_timer_stop,
  arch_timer_interrupt_enable, arch_timer_interrupt_disable, arm64_arch_timer_init,
}
use armv8_os.Console.{uart_putchar, qemu_console_write, qemu_uart_dr}
use armv8_os.Boot.{Symbols, call_handler, gicv3_chip}
use armv8_os.Timer.Laws.{Leaves}
use armv8_os.Boot.Interrupts.{Distinct}
use armv8_os.Prelude.Int.{pos}

module _ (gicd sgi : ℕ) (start : ℕ → Bool) (irq : ℕ) where
  abbrev Same : Trace → Trace → Type 0
  Same t t' = enabled gicd sgi start t' irq ≡ enabled gicd sgi start t irq

  module _ (bus : Bus) (t : Trace) where
    arch_timer_start-Same : Same t (arch_timer_start bus t)
    unfolding arch_timer_start
    arch_timer_start-Same = ground arith

    arch_timer_stop-Same : Same t (arch_timer_stop bus t)
    unfolding arch_timer_stop
    arch_timer_stop-Same = ground arith

    arch_timer_interrupt_enable-Same : Same t (arch_timer_interrupt_enable bus t)
    unfolding arch_timer_interrupt_enable
    arch_timer_interrupt_enable-Same = ground arith

    arch_timer_interrupt_disable-Same : Same t (arch_timer_interrupt_disable bus t)
    unfolding arch_timer_interrupt_disable
    arch_timer_interrupt_disable-Same = ground arith

  -- The UART's register is none of the controller's.
  pub qemu_console_write-Same :
      (m : Mem) (s n : ℕ) (t : Trace)
      → irq < 1024
      → qemu_uart_dr ≡ gicd + 0x1000000
      → sgi + 2 ^ 16 ≤ qemu_uart_dr
      → Same t (qemu_console_write m s n t)
  unfolding qemu_console_write
  qemu_console_write-Same m s zero t h p q = refl
  qemu_console_write-Same m s (suc n) t h p q =
      let plain = qemu_console_write-Same m (suc s) n (uart_putchar (m s) t) h p q in
      let line =
        qemu_console_write-Same m (suc s) n (uart_putchar (m s) (uart_putchar b'\r' t)) h p q in
      ground (arith, plain, line)

module _ (start : Bool) where
  arch_timer_start-masked :
      (bus : Bus) (t : Trace) → masked start (arch_timer_start bus t) ≡ masked start t
  unfolding arch_timer_start
  arch_timer_start-masked bus t = ground arith

  arch_timer_stop-masked :
      (bus : Bus) (t : Trace) → masked start (arch_timer_stop bus t) ≡ masked start t
  unfolding arch_timer_stop
  arch_timer_stop-masked bus t = ground arith

  arch_timer_interrupt_enable-masked :
      (bus : Bus) (t : Trace) → masked start (arch_timer_interrupt_enable bus t) ≡ masked start t
  unfolding arch_timer_interrupt_enable
  arch_timer_interrupt_enable-masked bus t = ground arith

  arch_timer_interrupt_disable-masked :
      (bus : Bus) (t : Trace) → masked start (arch_timer_interrupt_disable bus t) ≡ masked start t
  unfolding arch_timer_interrupt_disable
  arch_timer_interrupt_disable-masked bus t = ground arith

  pub qemu_console_write-masked :
      (m : Mem) (s n : ℕ) (t : Trace) → masked start (qemu_console_write m s n t) ≡ masked start t
  unfolding qemu_console_write
  qemu_console_write-masked m s zero t = refl
  qemu_console_write-masked m s (suc n) t =
      let plain = qemu_console_write-masked m (suc s) n (uart_putchar (m s) t) in
      let line =
        qemu_console_write-masked m (suc s) n (uart_putchar (m s) (uart_putchar b'\r' t)) in
      ground (arith, plain, line)

-- The unmask function of the chip, by its address.
module _ (s : Symbols) (d : Distinct s) (bad_irq : Kernel → Kernel) where
  call_unmask :
      (irq : ℕ) (k : Kernel)
      → call_handler s bad_irq s.gicv3_unmask_irq irq k ≡ gicv3_unmask_irq irq k
  unfolding call_handler
  call_unmask irq k = let a = d.mask_unmask in ground (arith, a)

  pub unmask-Leaves : (start : ℕ) → Leaves (call_handler s bad_irq) s.gicv3_unmask_irq 30 start
  unfolding gicv3_unmask_irq
  unmask-Leaves start = record {
    same_khz = λ k. rw (call_unmask 30 k) refl;
    same_control = λ k. rw (call_unmask 30 k) refl;
    same_stopped = λ k. rw (call_unmask 30 k) refl;
  }

  module _ (k : Kernel) (chip : k.irq_chip ≡ gicv3_chip s) where
    abbrev pub with_handler : Kernel
    with_handler = record k {
      irq_desc = λ i.
          if i == 30
          then fill_desc s.arm64_arch_timer_tandler 0 s.arch_timer 0 (k.irq_desc i)
          else k.irq_desc i;
    }

    requested :
        request_irq (call_handler s bad_irq) 30 s.arm64_arch_timer_tandler 0 s.arch_timer 0 k
        ≡ (gicv3_unmask_irq 30 with_handler, pos 0)
    unfolding request_irq setup_irq irq_to_desc unmask_irq
    requested =
        let null : (s.gicv3_unmask_irq == 0) ≡ false = let a = d.unmask in ground (arith, a) in
        let mask = ap IrqChip.irq_unmask chip in
        rw (mask, null) (ap (λ (k : Kernel). (k, pos 0)) (call_unmask 30 _))

  module _ (bus : Bus) (k : Kernel) (chip : k.irq_chip ≡ gicv3_chip s) where
    -- Before the request, and behind it.
    abbrev pub stopped : Kernel
    stopped =
        let (freq, t) = read_cntfrq_el0 bus (read_cntpct_el0 bus k.machine.trace).1 in
        record k {
          machine = record (k.machine) {
            cpu_khz = freq / 1000;
            trace = arch_timer_stop bus (arch_timer_interrupt_disable bus t);
          };
        }

    abbrev pub handled : Kernel
    handled = gicv3_unmask_irq 30 (with_handler stopped chip)

    pub arm64_arch_timer_init_lem :
        arm64_arch_timer_init bus (call_handler s bad_irq) s.arm64_arch_timer_tandler s.arch_timer k
        ≡ on_trace
            (λ t. arch_timer_interrupt_enable bus (
              arch_timer_start bus (write_cntp_tval_el0 (stopped.machine.cpu_khz * 10 % 2 ^ 64) t)))
            handled
    unfolding arm64_arch_timer_init gicv3_unmask_irq
    arm64_arch_timer_init_lem = rw (requested stopped chip) refl

    own_lines :
        (start : ℕ → Bool) (irq : ℕ)
        → irq < 1024
        → Frames k.machine.gicd_base k.machine.gicr_sgi_base
        → let view = enabled k.machine.gicd_base k.machine.gicr_sgi_base start in
          view
            (arm64_arch_timer_init bus
              (call_handler s bad_irq)
              s.arm64_arch_timer_tandler
              s.arch_timer
              k).machine.trace
            irq
          ≡ (irq == 30) || view k.machine.trace irq
    unfolding gicv3_unmask_irq
    own_lines start irq valid frames =
        let gicd = k.machine.gicd_base in
        let sgi = k.machine.gicr_sgi_base in
        let t2 = (read_cntfrq_el0 bus (read_cntpct_el0 bus k.machine.trace).1).1 in
        let t3 = arch_timer_interrupt_disable bus t2 in
        let t5 =
          write_cntp_tval_el0 (stopped.machine.cpu_khz * 10 % 2 ^ 64) handled.machine.trace in
        let e2 = arch_timer_interrupt_disable-Same gicd sgi start irq bus t2 in
        let e3 = arch_timer_stop-Same gicd sgi start irq bus t3 in
        let e4 =
          (gicv3_unmask_irq-enabled start 30 irq (with_handler stopped chip) (omega arith) valid
            frames).0 in
        let e5 = arch_timer_start-Same gicd sgi start irq bus t5 in
        let e6 =
          arch_timer_interrupt_enable-Same gicd sgi start irq bus (arch_timer_start bus t5) in
        rw (arm64_arch_timer_init_lem) (e6 ∙ e5 ∙ e4 ∙ ap (λ b. (irq == 30) || b) (e3 ∙ e2))

    pub timer_lines :
        (gicd sgi : ℕ) (start : ℕ → Bool) (irq : ℕ)
        → irq < 1024
        → k.machine.gicd_base ≡ gicd
        → k.machine.gicr_sgi_base ≡ sgi
        → Frames gicd sgi
        → enabled gicd sgi start
            (arm64_arch_timer_init bus
              (call_handler s bad_irq)
              s.arm64_arch_timer_tandler
              s.arch_timer
              k).machine.trace
            irq
          ≡ (irq == 30) || enabled gicd sgi start k.machine.trace irq
    timer_lines gicd sgi start irq valid at_gicd at_sgi frames =
        rw⁻¹ (at_gicd, at_sgi)
          (own_lines start irq valid
            (record { apart = omega (arith, frames.apart, at_gicd, at_sgi) }))

    pub timer_masked :
        (start : Bool)
        → masked start
            (arm64_arch_timer_init bus
              (call_handler s bad_irq)
              s.arm64_arch_timer_tandler
              s.arch_timer
              k).machine.trace
          ≡ masked start k.machine.trace
    unfolding gicv3_unmask_irq
    timer_masked start =
        let t2 = (read_cntfrq_el0 bus (read_cntpct_el0 bus k.machine.trace).1).1 in
        let t5 =
          write_cntp_tval_el0 (stopped.machine.cpu_khz * 10 % 2 ^ 64) handled.machine.trace in
        rw (arm64_arch_timer_init_lem) (
          arch_timer_interrupt_enable-masked start bus (arch_timer_start bus t5)
          ∙ arch_timer_start-masked start bus t5
          ∙ arch_timer_stop-masked start bus (arch_timer_interrupt_disable bus t2)
          ∙ arch_timer_interrupt_disable-masked start bus t2)
