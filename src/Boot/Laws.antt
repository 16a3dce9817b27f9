-- ===== src/Boot/Laws.antt =====
-- init/main.c: the state in which start_kernel waits.
use armv8_os.Prelude.{
  true, sym, ℕ, zero, suc, ◌+◌, ◌*◌, ◌/◌, ◌%◌, ◌^◌, ◌<◌, ◌≤◌, ◌≡◌, ◌≢◌, ◌==◌, Bool, ◌||◌, List, [],
  ◌∷◌, none, some, arith, ap, ◌∙◌, refl,
}
use armv8_os.Run.{done, Ends, Ends-bind, ◌>>=◌}
use armv8_os.Memory.{Mem, IsString}
use armv8_os.Io
use armv8_os.Io.{Event, Trace, Bus, msr}
use armv8_os.Interrupt.{IrqChip, fill_desc, Kernel, boot, set_irq_chip, set_handle_irq}
use armv8_os.Mmu.{Image, Mmu, create_kernel_map, virt_offset, device_start}
use armv8_os.Mmu.Walk.{walk}
use armv8_os.Mmu.Tables.{Layout, Blank}
use armv8_os.Mmu.Laws.{kernel_map, create_kernel_map-walk}
use armv8_os.Gicv3.{gicv3_unmask_irq}
use armv8_os.Gicv3.Enabled.{enabled}
use armv8_os.Gicv3.Laws.{Answers, initial, nr_lines, gicv3_hw_init-enabled}
use armv8_os.Timer.Laws.{Leaves, Readable, control, compare, arm64_arch_timer_init-armed}
use armv8_os.Console.{pattern, uart_putchar, Uart, qemu_console_write}
use armv8_os.Console.Laws.{console_init-find}
use armv8_os.Console.Render.{vprintk-shown}
use armv8_os.Printk.Format.{text, format_chars, All, IsPlain}
use armv8_os.Printk.Format.Stored.{Stored}
use armv8_os.Timer.{read_cntpct_el0}
use armv8_os.Boot.{
  gicv3_unmask_irq, vprintk, arm64_arch_timer_init, gicv3_chip, call_write, on_trace, gicv3_hw_init,
  set_handle_irq, set_irq_chip, Symbols, System, start_kernel, gicv3_driver_init, console_qemu,
  call_handler,
}
use mathlib.Core.Path.{subst}
use armv8_os.Boot.Interrupts.{Distinct}
use armv8_os.Irqflags.Laws.{masked}
use armv8_os.Boot.Lines.{
  qemu_console_write-masked, timer_masked, timer_lines, qemu_console_write-Same, unmask-Leaves,
  arm64_arch_timer_init_lem,
}

abbrev pub gicd : ℕ
gicd = 0x08000000 + device_start

abbrev pub gicr : ℕ
gicr = 0x080A0000 + device_start

abbrev pub sgi : ℕ
sgi = gicr + 2 ^ 16

abbrev pub qemu_text : List ℕ
qemu_text = b'q' ∷ b'e' ∷ b'm' ∷ b'u' ∷ []

-- What start_kernel finds: the image, the strings, and devices that answer.
pub record Setting (bus : Bus) (s : Symbols) (im : Image) (fuel : ℕ) (m : Mem) (ctl freq : ℕ)
    : Type 0 where
  pub layout : Layout im
  pub enough : 2049 ≤ fuel
  pub distinct : Distinct s
  pub answers : Answers bus fuel gicd gicr
  pub readable : Readable bus ctl
  pub qemu : IsString m s.qemu qemu_text
  pub qemu_name : IsString m s.qemu_name qemu_text
  pub p_buf : s.p_buf ≢ 0
  pub p_buf_fits : s.p_buf + 1024 < 2 ^ 64
  pub logo_first : ℕ
  pub logo_others : List ℕ
  pub logo_plain : IsPlain logo_first × All IsPlain logo_others
  pub logo :
      Stored
        (s.p_buf + 1024)
        fuel
        (record { mem = m; cur = s.p_buf })
        s.logo
        (format_chars (text logo_first logo_others ∷ []))
  pub frequency : (t : Trace) → bus.sysreg t Io.cntfrq_el0 ≡ freq
  pub frequency_fits : freq < 2 ^ 64

-- What the boot sets up.
pub record Ready (bus : Bus) (s : Symbols) (im : Image) (ctl freq : ℕ) (start : ℕ → Bool)
    (sys : System) : Type 0 where
  pub walks : (va : ℕ) → virt_offset ≤ va → va < 2 ^ 64 → walk im sys.1 va ≡ kernel_map im va
  pub console : sys.2.uart_console ≡ some (console_qemu s)
  pub controller : sys.0.handle_arch_irq ≡ s.gicv3_handle_irq
  pub handler : (sys.0.irq_desc 30).handle_irq ≡ s.arm64_arch_timer_tandler
  pub others : (irq : ℕ) → irq ≢ 30 → (sys.0.irq_desc irq).handle_irq ≡ s.handle_bad_irq
  pub lines :
      (irq : ℕ)
      → irq < 1024
      → enabled gicd sgi start sys.0.machine.trace irq
        ≡ (irq == 30) || initial (nr_lines bus gicd (msr Io.daifset 2 ∷ [])) irq (start irq)
  pub armed : control ctl sys.0.machine.trace ≡ 1
  pub unheard : (start : Bool) → masked start sys.0.machine.trace ≡ true
  pub khz : sys.0.machine.cpu_khz ≡ freq / 1000
  pub period : compare sys.0.machine.trace ≡ some (freq / 1000 * 10)

qemu_console_write-timer :
    (ctl : ℕ) (m : Mem) (s n : ℕ) (t : Trace)
    → (control ctl (qemu_console_write m s n t) ≡ control ctl t)
      × (compare (qemu_console_write m s n t) ≡ compare t)
unfolding qemu_console_write
qemu_console_write-timer ctl m s zero t = (refl, refl)
qemu_console_write-timer ctl m s (suc n) t =
    let plain = qemu_console_write-timer ctl m (suc s) n (uart_putchar (m s) t) in
    let line =
      qemu_console_write-timer ctl m (suc s) n (uart_putchar (m s) (uart_putchar b'\r' t)) in
    ground (arith, plain, line)

-- The kernel before gicv3_hw_init.
abbrev controlled : Symbols → Kernel → Kernel
controlled s k = record (on_trace (λ t. msr Io.daifset 2 ∷ t) k) {
  irq_chip = gicv3_chip s;
  handle_arch_irq = s.gicv3_handle_irq;
}

boot_end :
    (bus : Bus) (s : Symbols) (im : Image) (fuel : ℕ) (stack m : Mem) (ctl freq : ℕ) (regs : ℕ → ℕ)
    (bad_irq : Kernel → Kernel) (start : ℕ → Bool) (mmu1 : Mmu) (k1 : Kernel)
    → Setting bus s im fuel m ctl freq
    → ((va : ℕ) → virt_offset ≤ va → va < 2 ^ 64 → walk im mmu1 va ≡ kernel_map im va)
    → k1 ≡ record (controlled s (boot s.handle_bad_irq)) {
      machine = record {
        gicd_base = gicd;
        gicr_base = gicr;
        gicr_sgi_base = sgi;
        cpu_khz = 0;
        trace = k1.machine.trace;
      };
    }
    → ((irq : ℕ)
        → irq < 1024
        → enabled gicd sgi start k1.machine.trace irq
          ≡ initial (nr_lines bus gicd (msr Io.daifset 2 ∷ [])) irq (start irq))
    → ((start : Bool) → masked start k1.machine.trace ≡ true)
    → Ends (Ready bus s im ctl freq start) (
        let k2 =
          arm64_arch_timer_init bus
            (call_handler s bad_irq)
            s.arm64_arch_timer_tandler
            s.arch_timer
            k1 in
        vprintk
          (call_write s)
          fuel
          stack
          m
          s.p_buf
          s.logo
          regs
          (record { uart_console = some (console_qemu s); trace = k2.machine.trace })
        >>= λ (m1, u2, len). done (on_trace (λ _. u2.trace) k2, mmu1, u2))
unfolding call_write boot gicv3_unmask_irq fill_desc
boot_end bus s im fuel stack m ctl freq regs bad_irq start mmu1 k1 g walks same lines quiet =
    let k2 =
      arm64_arch_timer_init bus (call_handler s bad_irq) s.arm64_arch_timer_tandler s.arch_timer
        k1 in
    let u1 : Uart = record { uart_console = some (console_qemu s); trace = k2.machine.trace } in
    let chip = ap Kernel.irq_chip same in
    let shape = arm64_arch_timer_init_lem s g.distinct bad_irq bus k1 chip in
    Ends-bind _ _ (vprintk (call_write s) fuel stack m s.p_buf s.logo regs u1) _
      (vprintk-shown (call_write s) (console_qemu s) fuel stack m s.p_buf s.logo regs
        (text g.logo_first g.logo_others ∷ []) u1 (λ m s n t. ground arith) refl g.p_buf
        g.p_buf_fits (g.logo_plain.0, g.logo_plain.1, tt, tt) g.logo tt)
      (λ (m1, u2, len) (returned, shown, written).
        let n = pattern len in
        let trace = ap Uart.trace written in
        let read : bus.sysreg (read_cntpct_el0 bus k1.machine.trace).1 Io.cntfrq_el0 % 2 ^ 64
            ≡ freq =
          ap (λ f. f % 2 ^ 64) (g.frequency _) ∙ omega (arith, g.frequency_fits) in
        let timer = qemu_console_write-timer ctl m1 s.p_buf n k2.machine.trace in
        let armed =
          arm64_arch_timer_init-armed bus (call_handler s bad_irq) ctl s.arm64_arch_timer_tandler
            s.arch_timer k1 g.readable
            (subst (λ f. Leaves (call_handler s bad_irq) f 30 ctl)
              (sym (ap IrqChip.irq_unmask chip)) (unmask-Leaves s g.distinct bad_irq ctl)) in
        record {
          walks = walks;
          console = ap Uart.uart_console written;
          controller = ap Kernel.handle_arch_irq shape ∙ ap Kernel.handle_arch_irq same;
          handler =
              ap (λ (k : Kernel). (k.irq_desc 30).handle_irq) shape
              ∙ (let a = g.distinct.tandler in ground (arith, a));
          others = λ irq other.
              ap (λ (k : Kernel). (k.irq_desc irq).handle_irq) shape
              ∙ (let a = ap (λ (k : Kernel). (k.irq_desc irq).handle_irq) same in
                  ground (arith, other, a));
          lines = λ irq valid.
              ap (λ t. enabled gicd sgi start t irq) trace
              ∙ qemu_console_write-Same gicd sgi start irq m1 s.p_buf n k2.machine.trace valid refl
                  (omega arith)
              ∙ timer_lines s g.distinct bad_irq bus k1 chip gicd sgi start irq valid
                  (ap (λ (k : Kernel). k.machine.gicd_base) same)
                  (ap (λ (k : Kernel). k.machine.gicr_sgi_base) same)
                  (record { apart = omega arith })
              ∙ ap (λ b. (irq == 30) || b) (lines irq valid);
          unheard = λ start.
              ap (masked start) trace
              ∙ qemu_console_write-masked start m1 s.p_buf n k2.machine.trace
              ∙ timer_masked s g.distinct bad_irq bus k1 chip start
              ∙ quiet start;
          armed = ap (control ctl) trace ∙ timer.0 ∙ armed.0;
          khz = ap (λ (k : Kernel). k.machine.cpu_khz) shape ∙ ap (λ f. f / 1000) read;
          period =
              ap compare trace
              ∙ timer.1
              ∙ armed.1
              ∙ ap (λ f. some (f / 1000 * 10 % 2 ^ 64)) read
              ∙ ap some (omega (arith, g.frequency_fits));
        })

-- From the state at the start, for an image and zeroed tables as the linker lays them out,
-- functions at different addresses, the name of the console and a logo without % in memory, the
-- logo apart from the buffer of vprintk and with fuel for it, the buffer not at NULL and not past
-- the end of the address space, a controller whose polled registers settle within the fuel, a
-- timer whose control register reads back, a frequency register that always answers the same
-- number of 64 bits, and 2049 rounds of fuel or more, `start_kernel` reaches its endless loop.
-- There every kernel address is mapped as the kernel address space says; the UART is the console;
-- gicv3_handle_irq handles interrupts; line 30 has the handler of the timer and every other line
-- handle_bad_irq; the controller forwards the 16 software lines and line 30, of the other local
-- lines none, of the shared lines none below the number that the code computes, and from it on
-- what it did before; the timer runs unmasked, but interrupts are masked at the processor, and its
-- compare value is ten milliseconds of this frequency in whole kHz, which are also stored.
pub start_kernel-Ready :
    (bus : Bus) (s : Symbols) (im : Image) (fuel : ℕ) (stack m : Mem) (ctl freq : ℕ) (regs : ℕ → ℕ)
    (bad_irq : Kernel → Kernel) (start : ℕ → Bool) (mmu : Mmu)
    → Setting bus s im fuel m ctl freq
    → Blank im mmu.words
    → mmu.init_pagetables_done ≡ 0
    → Ends (Ready bus s im ctl freq start) (
        start_kernel bus s im fuel stack m regs bad_irq
          (boot s.handle_bad_irq, mmu, record { uart_console = none; trace = [] }))
unfolding start_kernel gicv3_driver_init set_irq_chip set_handle_irq boot
start_kernel-Ready bus s im fuel stack m ctl freq regs bad_irq start mmu g blank fresh =
    let u0 : Uart = record { uart_console = none; trace = msr Io.daifset 2 ∷ [] } in
    let found =
      console_init-find (λ f con u. u) s.qemu fuel m qemu_text (λ con. qemu_text)
        (console_qemu s ∷ []) u0 g.qemu (g.qemu_name, omega (arith, g.enough), tt) in
    Ends-bind _ _ (create_kernel_map im fuel mmu) _
      (create_kernel_map-walk g.layout fuel mmu g.enough blank fresh)
      (λ mmu1 walks. rw (found) (
        Ends-bind _ _
          (gicv3_hw_init bus fuel 0x08000000 0x080A0000 (controlled s (boot s.handle_bad_irq))) _
          (gicv3_hw_init-enabled bus fuel 0x08000000 0x080A0000 start
            (controlled s (boot s.handle_bad_irq)) (omega arith) g.answers)
          (λ k1 (same, lines, quiet).
            boot_end bus s im fuel stack m ctl freq regs bad_irq start mmu1 k1 g walks same lines
              quiet)))
