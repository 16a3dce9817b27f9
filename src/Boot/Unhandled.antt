-- ===== src/Boot/Unhandled.antt =====
-- handle_bad_irq and unexpected_exception of driver/interrupt/interrupt.c, and an interrupt of a line that has
-- no handler.
use armv8_os.Run.{Run}
use armv8_os.Prelude.{
  ℕ, ◌+◌, ◌^◌, ◌<◌, ◌≡◌, ◌≢◌, ◌==◌, if◌then◌else◌, refl, ap, ◌∙◌, arith, leb, ltb, true, false,
  List, [], ◌∷◌, reverse_aux, some,
}
use armv8_os.Prelude.Int.{ℤ, pos}
use armv8_os.Boot.Interrupts.{handle_domain_irq-through}
use armv8_os.Memory.{Mem}
use armv8_os.Io
use armv8_os.Io.{Trace, Bus, mrs, msr}
use armv8_os.Interrupt.{
  Kernel, nr_irqs, handle_domain_irq, generic_handle_irq, irq_to_desc, irq_enter,
}
use armv8_os.Gicv3.{on_trace, gic_read_iar, gicv3_handle_irq, gicv3_eoi_irq}
use armv8_os.Console.{Uart, printk}
use armv8_os.Console.Laws.{sent, crlf}
use armv8_os.Printk.Format.{Item, text, format_chars, IsFormat}
use armv8_os.Printk.Format.Stored.{Stored}
use armv8_os.Boot.{Symbols, call_write, call_handler, call_irq, console_qemu}
use armv8_os.Boot.Spurious.{traced, printk-sent}

-- `fmt` is the address of the format, `regs` what a va_list reads.
module _ (s : Symbols) (fuel : ℕ) (stack m : Mem) (fmt : ℕ) (regs : ℕ → ℕ) where
  abbrev pub handle_bad_irq : Uart → Run (Mem × Uart × ℤ)
  handle_bad_irq u = printk (call_write s) fuel stack m s.p_buf fmt regs u

  -- Up to its endless loop; the first argument is the character.
  unfoldable pub unexpected_exception : ℕ → Uart → Run (Mem × Uart × ℤ)
  unexpected_exception c u =
      printk (call_write s) fuel stack m s.p_buf fmt (λ k. if k == 0 then c else regs k) u

  -- What handle_bad_irq does to the devices, if the console is chosen.
  abbrev pub bad_irq : Trace → Trace
  bad_irq t = traced t (handle_bad_irq (record { uart_console = some (console_qemu s); trace = t }))

-- "handle_bad_irq\n"
abbrev pub others : List ℕ
others =
    b'a' ∷ b'n' ∷ b'd' ∷ b'l' ∷ b'e' ∷ b'_' ∷ b'b' ∷ b'a' ∷ b'd' ∷ b'_' ∷ b'i' ∷ b'r' ∷ b'q' ∷ b'\n'
    ∷ []

abbrev pub notice : List Item
notice = text b'h' others ∷ []

notice-IsFormat : IsFormat notice
notice-IsFormat = ground arith

-- The function that a line without a handler is given is told apart from the others that are called.
pub record IsApart (s : Symbols) : Type 0 where
  pub mask : s.handle_bad_irq ≢ s.gicv3_mask_irq
  pub unmask : s.handle_bad_irq ≢ s.gicv3_unmask_irq
  pub tandler : s.handle_bad_irq ≢ s.arm64_arch_timer_tandler
  pub handle : s.gicv3_handle_irq ≢ 0

module _ (bus : Bus) (s : Symbols) (fuel : ℕ) (stack m : Mem) (fmt : ℕ) (regs : ℕ → ℕ)
    (spurious : ℕ → Kernel → Kernel) (apart : IsApart s) where
  abbrev prints : Kernel → Kernel
  prints k = on_trace (bad_irq s fuel stack m fmt regs) k

  call_bad_irq : (x : ℕ) (k : Kernel) → call_handler s prints s.handle_bad_irq x k ≡ prints k
  unfolding call_handler
  call_bad_irq x k =
      let a : (s.handle_bad_irq == s.gicv3_mask_irq) ≡ false = ground (arith, apart.mask) in
      let b : (s.handle_bad_irq == s.gicv3_unmask_irq) ≡ false = ground (arith, apart.unmask) in
      let c : (s.handle_bad_irq == s.arm64_arch_timer_tandler) ≡ false =
        ground (arith, apart.tandler) in
      let same : (s.handle_bad_irq == s.handle_bad_irq) ≡ true = ground arith in
      rw (call_handler, a, b, c, same) refl

  generic_handle_irq-unhandled :
      (irqnr : ℕ) (k : Kernel)
      → (k.irq_desc irqnr).handle_irq ≡ s.handle_bad_irq
      → irqnr < nr_irqs
      → generic_handle_irq (call_handler s prints) irqnr k ≡ (prints k, pos 0)
  unfolding generic_handle_irq irq_to_desc
  generic_handle_irq-unhandled irqnr k handler few =
      let there : ltb irqnr nr_irqs ≡ true = ground (arith, few) in
      rw (generic_handle_irq, there, handler, call_bad_irq) refl

  gicv3_handle_irq-unhandled :
      (irqnr : ℕ) (k : Kernel)
      → (k.irq_desc irqnr).handle_irq ≡ s.handle_bad_irq
      → (gic_read_iar bus k.machine.trace).0 ≡ irqnr
      → irqnr < 1020
      → gicv3_handle_irq bus (call_handler s prints) spurious k
        ≡ on_trace
            (λ t.
              msr Io.icc_eoir1_el1 irqnr
              ∷ bad_irq s fuel stack m fmt regs (mrs Io.icc_iar1_el1 irqnr ∷ t))
            k
  unfolding gicv3_handle_irq gicv3_eoi_irq gic_read_iar
  gicv3_handle_irq-unhandled irqnr k handler iar few =
      let a : leb 1020 irqnr ≡ false = ground (arith, few) in
      let k1 = on_trace (λ t. mrs Io.icc_iar1_el1 irqnr ∷ t) k in
      let done = generic_handle_irq-unhandled irqnr k1 handler (omega (arith, few)) in
      rw (iar, a, done) refl

  -- If gicv3_handle_irq is registered, handle_bad_irq is told apart from the other functions that
  -- are called, the nesting counter is a number of 64 bits, and the format of its message stands
  -- in memory apart from the buffer of vprintk as for a spurious number, a call of
  -- `handle_domain_irq` where a line below 1020 with the handler handle_bad_irq is pending
  -- acknowledges it, prints, and ends the interrupt, in this order, changes nothing else, and
  -- sends "handle_bad_irq" with CR and LF to the UART of the boot.
  pub handle_domain_irq-unhandled :
      (irqnr : ℕ) (k : Kernel)
      → k.handle_arch_irq ≡ s.gicv3_handle_irq
      → (k.irq_desc irqnr).handle_irq ≡ s.handle_bad_irq
      → (gic_read_iar bus k.machine.trace).0 ≡ irqnr
      → irqnr < 1020
      → k.interrupt_nest < 2 ^ 64
      → s.p_buf ≢ 0
      → s.p_buf + 1024 < 2 ^ 64
      → Stored (s.p_buf + 1024) fuel (record { mem = m; cur = s.p_buf }) fmt (format_chars notice)
      → let k' =
          handle_domain_irq
            (call_irq bus s (λ k. on_trace (bad_irq s fuel stack m fmt regs) k) spurious)
            k in
        (k'
          ≡ on_trace
              (λ t.
                msr Io.icc_eoir1_el1 irqnr
                ∷ bad_irq s fuel stack m fmt regs (mrs Io.icc_iar1_el1 irqnr ∷ t))
              k)
        × (sent k'.machine.trace ≡ reverse_aux (crlf (b'h' ∷ others)) (sent k.machine.trace))
  unfolding irq_enter
  handle_domain_irq-unhandled irqnr k registered handler iar few nest buf fit there =
      let shape =
        handle_domain_irq-through bus s prints spurious
          (λ t.
            msr Io.icc_eoir1_el1 irqnr
            ∷ bad_irq s fuel stack m fmt regs (mrs Io.icc_iar1_el1 irqnr ∷ t))
          k apart.handle registered nest
          (gicv3_handle_irq-unhandled irqnr (irq_enter k) handler iar few) in
      let printed =
        printk-sent s fuel stack m fmt regs notice (b'h' ∷ others)
          (mrs Io.icc_iar1_el1 irqnr ∷ k.machine.trace) buf fit notice-IsFormat there tt refl
          (omega arith) in
      (shape, ap (λ (k : Kernel). sent k.machine.trace) shape ∙ printed)
