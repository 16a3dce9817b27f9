-- ===== src/Checks/Boot.antt =====
-- Examples of the console and of start_kernel on the board of Checks/Devices.
use armv8_os.Prelude.{inr, ℕ, ◌≡◌, false, [], ◌∷◌, List, refl, inl, arith, some, none}
use armv8_os.Run.{done, Ends}
use armv8_os.Memory.{IsString, Mem}
use armv8_os.Io
use armv8_os.Io.{Bus, writeb, Trace, mrs, msr, isb}
use armv8_os.Interrupt.{boot, handle_domain_irq}
use armv8_os.Gicv3.{on_trace, gic_read_iar}
use armv8_os.Console.{qemu_uart_dr, Console, Uart, console_init, qemu_console_write}
use armv8_os.Console.Laws.{console_init-find}
use armv8_os.Printk.Format.{text, format_chars}
use armv8_os.Boot.{Symbols, call_irq, call_write, console_qemu, start_kernel}
use armv8_os.Boot.Interrupts.{Distinct, handle_domain_irq-tick, handle_domain_irq-refused}
use armv8_os.Boot.Laws.{Setting, Ready, qemu_text, start_kernel-Ready, gicd, gicr}
use armv8_os.Checks.Data.{text_at, blank}
use armv8_os.Checks.Mmu.{image, image_layout, reset}
use armv8_os.Checks.Devices.{board, board-Readable, board-Answers, kernel}

abbrev pub symbols : Symbols
symbols = record {
  handle_bad_irq = 0x1000;
  gicv3_mask_irq = 0x2000;
  gicv3_unmask_irq = 0x2100;
  gicv3_handle_irq = 0x3000;
  arm64_arch_timer_tandler = 0x4000;
  qemu_console_write = 0x4100;
  arch_timer = 0x5000;
  qemu = 0x5100;
  qemu_name = 0x5100;
  logo = 0x5105;
  p_buf = 0x8000;
}

symbols-Distinct : Distinct symbols
symbols-Distinct = record {
  handle = λ e. absurd (omega (arith, e));
  tandler = λ e. absurd (omega (arith, e));
  unmask = λ e. absurd (omega (arith, e));
  mask_unmask = λ e. absurd (omega (arith, e));
  mask_tandler = λ e. absurd (omega (arith, e));
  unmask_tandler = λ e. absurd (omega (arith, e));
}

-- "qemu", and a logo of one line.
abbrev strings : Mem
strings =
    text_at 0x5100 (b'q' ∷ b'e' ∷ b'm' ∷ b'u' ∷ 0 ∷ b'\n' ∷ b'e' ∷ b'e' ∷ b'o' ∷ b's' ∷ b'\n' ∷ [])

abbrev pub con : Console
con = console_qemu symbols

abbrev pub up : Uart
up = record { uart_console = some con; trace = [] }

qemu_IsString : IsString strings 0x5100 qemu_text
qemu_IsString = ground arith

pub call_qemu :
    (m : Mem) (s n : ℕ) (t : Trace)
    → call_write symbols con.write con m s n t ≡ qemu_console_write m s n t
unfolding call_write
call_qemu m s n t = refl

-- "\neeos\n"
abbrev logo_others : List ℕ
logo_others = b'e' ∷ b'e' ∷ b'o' ∷ b's' ∷ b'\n' ∷ []

logo-IsString : IsString strings 0x5105 (format_chars (text b'\n' logo_others ∷ []))
logo-IsString = ground arith

pending : (gic_read_iar board kernel.machine.trace).0 ≡ 30
unfolding gic_read_iar
pending = refl

handle_domain_irq-tick_example :
    handle_domain_irq (call_irq board symbols (λ k. k) (λ irq k. k)) kernel
    ≡ on_trace
        (λ t.
          msr Io.icc_eoir1_el1 30 ∷ isb ∷ msr Io.cntp_tval_el0 625000 ∷ mrs Io.icc_iar1_el1 30 ∷ t)
        kernel
handle_domain_irq-tick_example =
    handle_domain_irq-tick board symbols (λ k. k) (λ irq k. k) kernel symbols-Distinct refl refl
      pending (omega arith)

console_init-find_example :
    console_init
      (λ f con u. u)
      0x5100
      5
      strings
      (con ∷ [])
      (record { uart_console = none; trace = [] })
    ≡ done up
console_init-find_example =
    console_init-find (λ f con u. u) 0x5100 5 strings qemu_text (λ con. qemu_text) (con ∷ [])
      (record { uart_console = none; trace = [] }) qemu_IsString (qemu_IsString, omega arith, tt)

setting : Setting board symbols image 2049 strings 0 62500000
setting = record {
  layout = image_layout;
  enough = omega arith;
  distinct = symbols-Distinct;
  answers = board-Answers 2049 gicd gicr (omega arith);
  readable = board-Readable;
  qemu = qemu_IsString;
  qemu_name = qemu_IsString;
  p_buf = λ e. absurd (omega (arith, e));
  p_buf_fits = omega arith;
  logo_first = b'\n';
  logo_others = logo_others;
  logo_plain = ground arith;
  logo = record { holds = logo-IsString; apart = inr (omega arith); few = omega arith };
  frequency = λ t. refl;
  frequency_fits = omega arith;
}

start_kernel-Ready_example : Ends (Ready board symbols image 0 62500000 (λ _. false)) (
    start_kernel board symbols image 2049 blank strings
      (λ _. 0x5105)
      (λ k. k)
      (boot 0x1000, reset, record { uart_console = none; trace = [] }))
start_kernel-Ready_example =
    start_kernel-Ready board symbols image 2049 blank strings 0 62500000 (λ _. 0x5105) (λ k. k)
      (λ _. false) reset setting
      (record { pgd = λ i h. refl; pud = λ i h. refl; pmd = λ b h. refl }) refl

-- A board whose controller has nothing to hand out.
abbrev pub idle : Bus
idle = record board { sysreg = λ t r. 1023 }

handle_domain_irq-refused_example :
    handle_domain_irq
      (call_irq idle symbols (λ k. k) (λ irqnr k. on_trace (writeb b'?' qemu_uart_dr) k))
      kernel
    ≡ on_trace (λ t. writeb b'?' qemu_uart_dr (mrs Io.icc_iar1_el1 1023 ∷ t)) kernel
unfolding gic_read_iar
handle_domain_irq-refused_example =
    handle_domain_irq-refused idle symbols (λ k. k) (λ irqnr. writeb b'?' qemu_uart_dr) 1023 kernel
      (λ e. absurd (omega (arith, e))) refl refl (inl (omega arith, omega arith)) (omega arith)
