-- ===== src/Boot.antt =====
-- init/main.c with gicv3_driver_init of driver/interrupt/gicv3/gicv3.c and setup_arch of
-- arch/arm64/setup.c: the parts put together. The functions that the drivers register are called by
-- their addresses.
pub mod Lines
pub mod Laws
pub mod Interrupts
pub mod Spurious
pub mod Unhandled
use armv8_os.Prelude.{ℕ, ◌==◌, if◌then◌else◌, List, [], ◌∷◌, Option, none, some}
use armv8_os.Run.{Run, done, out, ◌>>=◌}
use armv8_os.Memory.{Mem}
use armv8_os.Io.{Trace, Bus}
use armv8_os.Irqflags.{local_irq_disable}
use armv8_os.Mmu.{Image, Mmu, create_kernel_map}
use armv8_os.Interrupt.{IrqChip, Kernel, set_irq_chip, set_handle_irq}
use armv8_os.Gicv3.{on_trace, gicv3_mask_irq, gicv3_unmask_irq, gicv3_handle_irq, gicv3_hw_init}
use armv8_os.Timer.{arm64_arch_timer_tandler, arm64_arch_timer_init}
use armv8_os.Console.{Console, Uart, qemu_console_write, console_init, vprintk}

-- The addresses that the linker chooses: functions, strings, and the array p_buf on the stack.
pub record Symbols : Type 0 where
  pub handle_bad_irq : ℕ
  pub gicv3_mask_irq : ℕ
  pub gicv3_unmask_irq : ℕ
  pub gicv3_handle_irq : ℕ
  pub arm64_arch_timer_tandler : ℕ
  pub qemu_console_write : ℕ
  pub arch_timer : ℕ
  pub qemu : ℕ
  pub qemu_name : ℕ
  pub logo : ℕ
  pub p_buf : ℕ

abbrev pub System : Type 0
System = Kernel × Mmu × Uart

module _ (s : Symbols) where
  abbrev pub gicv3_chip : IrqChip
  gicv3_chip = record { irq_mask = s.gicv3_mask_irq; irq_unmask = s.gicv3_unmask_irq }

  abbrev pub console_qemu : Console
  console_qemu = record {
    name = s.qemu_name;
    arg = 0;
    init = 0;
    write = s.qemu_console_write;
    read = 0;
  }

  -- A call of one of the functions that are registered with the console.
  unfoldable pub call_write : ℕ → Console → Mem → (str n : ℕ) → Trace → Trace
  call_write f con m str n t = if f == s.qemu_console_write then qemu_console_write m str n t else t

  -- A call of one of the functions that the interrupt core reaches through a pointer, but for the
  -- controller's; `bad_irq` is what handle_bad_irq prints.
  unfoldable pub call_handler : (bad_irq : Kernel → Kernel) → ℕ → ℕ → Kernel → Kernel
  call_handler bad_irq f x k =
      if f == s.gicv3_mask_irq
      then gicv3_mask_irq x k
      else (if f == s.gicv3_unmask_irq
          then gicv3_unmask_irq x k
          else (if f == s.arm64_arch_timer_tandler
              then arm64_arch_timer_tandler x k
              else (if f == s.handle_bad_irq then bad_irq k else k)))

module _ (bus : Bus) (s : Symbols) where
  -- With the controller's handle_arch_irq, whose handlers are those above; `spurious` is what its
  -- printk of the number does.
  unfoldable pub call_irq :
      (bad_irq : Kernel → Kernel) → (spurious : ℕ → Kernel → Kernel) → ℕ → ℕ → Kernel → Kernel
  call_irq bad_irq spurious f x k =
      if f == s.gicv3_handle_irq
      then gicv3_handle_irq bus (call_handler s bad_irq) spurious k
      else call_handler s bad_irq f x k

  unfoldable pub gicv3_driver_init : (fuel : ℕ) → Kernel → Run Kernel
  gicv3_driver_init fuel k =
      let k1 = (set_irq_chip (some (gicv3_chip s)) k).0 in
      let k2 = (set_handle_irq s.gicv3_handle_irq k1).0 in
      gicv3_hw_init bus fuel 0x08000000 0x080A0000 k2

  -- start_kernel up to its endless loop. `fuel` bounds every loop; `m` is the memory of the strings,
  -- `stack` what stands on the stack, and `regs` what the registers hold that a va_list reads: the
  -- logo has no arguments. Both traces are one: the later part takes over the
  -- trace of the part before.
  unfoldable pub start_kernel :
      (im : Image)
      → (fuel : ℕ) → (stack m : Mem) → (regs : ℕ → ℕ) → (bad_irq : Kernel → Kernel) → System
      → Run System
  start_kernel im fuel stack m regs bad_irq (k, mmu, u) =
      let t0 = local_irq_disable k.machine.trace in
      create_kernel_map im fuel mmu >>= λ mmu1.
      console_init (λ f con u. u) s.qemu fuel m (console_qemu s ∷ []) (record u { trace = t0 })
      >>= λ u1. gicv3_driver_init fuel (on_trace (λ _. u1.trace) k) >>= λ k1.
          let k2 =
            arm64_arch_timer_init bus (call_handler s bad_irq) s.arm64_arch_timer_tandler
              s.arch_timer k1 in
          vprintk (call_write s) fuel stack m s.p_buf s.logo regs
            (record u1 { trace = k2.machine.trace })
          >>= λ (m1, u2, len). done (on_trace (λ _. u2.trace) k2, mmu1, u2)
